-- ===== src/Schema/Parameters.antt =====
-- toolParameters of internal/schema/registry.go.
use zcr521_ai_mcp.Common.{[], ◌∷◌, String, Map, List, Text, codes, map}

abbrev parameters_of : String → List String → Text × List Text
parameters_of name parameters = (codes name, map codes parameters)

unfoldable pub tool_parameters : Map (List Text)
tool_parameters =
    parameters_of "zcr521_status" ([])
    ∷ parameters_of "zcr521_capabilities" ([])
    ∷ parameters_of "zcr521_config" ("config" ∷ "destination" ∷ [])
    ∷ parameters_of "zcr521_fs_info" ("path" ∷ [])
    ∷ parameters_of "zcr521_fs_read" (
        "path" ∷ "encoding" ∷ "offset" ∷ "length" ∷ "limit" ∷ "startLine" ∷ "line" ∷ "lineCount"
        ∷ "count" ∷ "bytes" ∷ [])
    ∷ parameters_of "zcr521_fs_write" (
        "path" ∷ "content" ∷ "data" ∷ "encoding" ∷ "mode" ∷ "parents" ∷ "size" ∷ "offset"
        ∷ "createParents" ∷ [])
    ∷ parameters_of "zcr521_fs_manage" (
        "path" ∷ "source" ∷ "src" ∷ "destination" ∷ "dest" ∷ "target" ∷ "paths" ∷ "parents" ∷ "mode"
        ∷ "overwrite" ∷ "recursive" ∷ "confirmDangerous" ∷ "uid" ∷ "gid" ∷ "context" ∷ [])
    ∷ parameters_of "zcr521_fs_search" (
        "path" ∷ "root" ∷ "content" ∷ "query" ∷ "text" ∷ "limit" ∷ "maxResults" ∷ "name" ∷ "pattern"
        ∷ "extension" ∷ "ext" ∷ "minSize" ∷ "maxSize" ∷ "maxFiles" ∷ "modifiedAfter"
        ∷ "modifiedBefore" ∷ [])
    ∷ parameters_of "zcr521_fs_hash" ("path" ∷ "algorithm" ∷ "expected" ∷ "digest" ∷ "hash" ∷ [])
    ∷ parameters_of "zcr521_archive" (
        "format" ∷ "type" ∷ "destination" ∷ "output" ∷ "path" ∷ "sources" ∷ "source" ∷ "inputs"
        ∷ "archive" ∷ "overwrite" ∷ "background" ∷ [])
    ∷ parameters_of "zcr521_download" (
        "url" ∷ "path" ∷ "destination" ∷ "output" ∷ "overwrite" ∷ "resume" ∷ "retries" ∷ "sha256"
        ∷ "maxBytes" ∷ "headers" ∷ "timeout" ∷ "timeoutMs" ∷ "items" ∷ "taskId" ∷ "background" ∷ [])
    ∷ parameters_of "zcr521_transfer_upload" (
        "path" ∷ "destination" ∷ "overwrite" ∷ "content" ∷ "data" ∷ "offset" ∷ "size"
        ∷ "expectedSize" ∷ "sha256" ∷ [])
    ∷ parameters_of "zcr521_transfer_export" (
        "taskId" ∷ "artifactIndex" ∷ "index" ∷ "path" ∷ "destination" ∷ "output" ∷ "background"
        ∷ [])
    ∷ parameters_of "zcr521_shell" (
        "command" ∷ "cmd" ∷ "cwd" ∷ "workDir" ∷ "env" ∷ "stdin" ∷ "timeout" ∷ "timeoutMs"
        ∷ "identity" ∷ "user" ∷ "uid" ∷ "gid" ∷ "background" ∷ [])
    ∷ parameters_of "zcr521_script" (
        "script" ∷ "content" ∷ "path" ∷ "cwd" ∷ "workDir" ∷ "env" ∷ "stdin" ∷ "timeout"
        ∷ "timeoutMs" ∷ "identity" ∷ "user" ∷ "uid" ∷ "gid" ∷ "background" ∷ [])
    ∷ parameters_of "zcr521_task" ("taskId" ∷ "id" ∷ "progress" ∷ "message" ∷ "limit" ∷ [])
    ∷ parameters_of "zcr521_app_list" ("user" ∷ "query" ∷ "system" ∷ [])
    ∷ parameters_of "zcr521_app_info" ("package" ∷ "packageName" ∷ "component" ∷ "user" ∷ [])
    ∷ parameters_of "zcr521_app_install" (
        "path" ∷ "apk" ∷ "paths" ∷ "apks" ∷ "archive" ∷ "package" ∷ "packageName" ∷ "replace"
        ∷ "downgrade" ∷ "grantRuntimePermissions" ∷ "user" ∷ "operation" ∷ "sessionId" ∷ "name"
        ∷ "splitName" ∷ "background" ∷ [])
    ∷ parameters_of "zcr521_app_manage" (
        "package" ∷ "packageName" ∷ "component" ∷ "user" ∷ "keepData" ∷ "enabled" ∷ "operation"
        ∷ "mode" ∷ [])
    ∷ parameters_of "zcr521_app_permission"
        ("package" ∷ "packageName" ∷ "permission" ∷ "mode" ∷ "user" ∷ [])
    ∷ parameters_of "zcr521_app_export"
        ("package" ∷ "packageName" ∷ "destination" ∷ "output" ∷ "user" ∷ "background" ∷ [])
    ∷ parameters_of "zcr521_root_info" ([])
    ∷ parameters_of "zcr521_root_module" (
        "id" ∷ "moduleId" ∷ "path" ∷ "zip" ∷ "destination" ∷ "output" ∷ "source" ∷ "archive"
        ∷ "format" ∷ "overwrite" ∷ "background" ∷ [])
    ∷ parameters_of "zcr521_systemless"
        ("source" ∷ "target" ∷ "path" ∷ "lower" ∷ "upper" ∷ "work" ∷ "lazy" ∷ "background" ∷ [])
    ∷ parameters_of "zcr521_process"
        ("query" ∷ "name" ∷ "package" ∷ "pid" ∷ "signal" ∷ "priority" ∷ [])
    ∷ parameters_of "zcr521_service" (
        "kind" ∷ "type" ∷ "name" ∷ "service" ∷ "code" ∷ "transaction" ∷ "arguments" ∷ "args"
        ∷ "package" ∷ "packageName" ∷ "component" ∷ "user" ∷ [])
    ∷ parameters_of "zcr521_property" ("key" ∷ "name" ∷ "value" ∷ [])
    ∷ parameters_of "zcr521_setting" ("namespace" ∷ "table" ∷ "key" ∷ "value" ∷ "user" ∷ [])
    ∷ parameters_of "zcr521_display"
        ("value" ∷ "milliseconds" ∷ "auto" ∷ "mode" ∷ "scale" ∷ "reset" ∷ [])
    ∷ parameters_of "zcr521_audio" ("stream" ∷ "level" ∷ "value" ∷ "muted" ∷ "mode" ∷ [])
    ∷ parameters_of "zcr521_connectivity" ("enabled" ∷ "host" ∷ "hostname" ∷ "port" ∷ "mode" ∷ [])
    ∷ parameters_of "zcr521_locale_time" ("timezone" ∷ "locale" ∷ "value" ∷ "time" ∷ [])
    ∷ parameters_of "zcr521_input_method" ("id" ∷ "component" ∷ "user" ∷ [])
    ∷ parameters_of "zcr521_app_policy"
        ("package" ∷ "packageName" ∷ "user" ∷ "allowed" ∷ "mode" ∷ "value" ∷ [])
    ∷ parameters_of "zcr521_default_app"
        ("package" ∷ "packageName" ∷ "component" ∷ "role" ∷ "user" ∷ [])
    ∷ parameters_of "zcr521_notification"
        ("package" ∷ "packageName" ∷ "component" ∷ "allowed" ∷ "user" ∷ [])
    ∷ parameters_of "zcr521_accessibility" ("id" ∷ "component" ∷ "user" ∷ [])
    ∷ parameters_of "zcr521_developer" ("name" ∷ "key" ∷ "value" ∷ "enabled" ∷ "scale" ∷ [])
    ∷ parameters_of "zcr521_device_info" ("path" ∷ [])
    ∷ parameters_of "zcr521_power" ("delayMs" ∷ "confirmDangerous" ∷ [])
    ∷ parameters_of "zcr521_screen"
        ("path" ∷ "output" ∷ "duration" ∷ "seconds" ∷ "bitRate" ∷ "background" ∷ [])
    ∷ parameters_of "zcr521_input" (
        "x" ∷ "y" ∷ "x1" ∷ "y1" ∷ "x2" ∷ "y2" ∷ "durationMs" ∷ "text" ∷ "value" ∷ "key" ∷ "code"
        ∷ [])
    ∷ parameters_of "zcr521_network" (
        "host" ∷ "name" ∷ "port" ∷ "count" ∷ "timeout" ∷ "timeoutMs" ∷ "url" ∷ "method" ∷ "body"
        ∷ "headers" ∷ "maxResponseBytes" ∷ "enabled" ∷ "mode" ∷ [])
    ∷ parameters_of "zcr521_log"
        ("follow" ∷ "lines" ∷ "timeout" ∷ "timeoutMs" ∷ "path" ∷ "target" ∷ "background" ∷ [])
    ∷ parameters_of "zcr521_diagnostics" ("path" ∷ "output" ∷ "background" ∷ [])
    ∷ parameters_of "zcr521_schedule" (
        "id" ∷ "scheduleId" ∷ "name" ∷ "type" ∷ "tool" ∷ "targetTool" ∷ "targetArgs" ∷ "command"
        ∷ "enabled" ∷ "retryCount" ∷ "retries" ∷ "retryDelaySeconds" ∷ "at" ∷ "everySeconds"
        ∷ "intervalSeconds" ∷ "time" ∷ "weekday" ∷ "cron" ∷ "expression" ∷ [])
    ∷ parameters_of "zcr521_backup" (
        "type" ∷ "sources" ∷ "paths" ∷ "path" ∷ "destination" ∷ "output" ∷ "sha256" ∷ "backup"
        ∷ "confirmDangerous" ∷ "overwrite" ∷ "background" ∷ [])
    ∷ []
