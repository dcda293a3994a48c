-- ===== src/Schema/Catalog.antt =====
-- parameterCatalog of internal/schema/registry.go. Descriptions and formats are left out; a pattern
-- is its regular expression.
use zcr521_ai_mcp.Common.{
  [], ◌∷◌, ℤ, String, Map, Option, Text, none, ℕ, codes, pos, List, negsuc, some,
}

-- The schemas that the catalog has. `strings_schema` and `full_strings_schema` are arrays of
-- strings, the second without empty ones and not empty; `objects_schema` has its least and its
-- greatest length.
pub data ParameterSchema : Type 0 where
  boolean_schema fraction_schema scalar_schema object_schema config_schema : ParameterSchema
  strings_schema full_strings_schema string_map_schema : ParameterSchema
  integer_schema : ℤ → Option ℤ → ParameterSchema
  string_schema : ℕ → List String → Option String → ParameterSchema
  objects_schema : ℕ → ℕ → ParameterSchema
  either : ParameterSchema → ParameterSchema → ParameterSchema

abbrev parameter : String → ParameterSchema → Text × ParameterSchema
parameter name s = (codes name, s)

unfoldable pub parameter_catalog : Map ParameterSchema
parameter_catalog =
    parameter "algorithm" (string_schema 0 ("md5" ∷ "sha1" ∷ "sha256" ∷ []) none)
    ∷ parameter "allowed" boolean_schema
    ∷ parameter "apk" (string_schema 1 [] none)
    ∷ parameter "apks" strings_schema
    ∷ parameter "archive" (string_schema 1 [] none)
    ∷ parameter "artifactIndex" (integer_schema (pos 0) none)
    ∷ parameter "args" strings_schema
    ∷ parameter "arguments" strings_schema
    ∷ parameter "at" (string_schema 0 [] none)
    ∷ parameter "auto" boolean_schema
    ∷ parameter "background" boolean_schema
    ∷ parameter "backup" (string_schema 1 [] none)
    ∷ parameter "bitRate" (integer_schema (pos 1) none)
    ∷ parameter "body" (string_schema 0 [] none)
    ∷ parameter "bytes" (integer_schema (pos 0) none)
    ∷ parameter "cmd" (string_schema 0 [] none)
    ∷ parameter "code" (either (integer_schema (pos 0) none) (string_schema 1 [] none))
    ∷ parameter "command" (string_schema 0 [] none)
    ∷ parameter "component" (string_schema 0 [] none)
    ∷ parameter "config" config_schema
    ∷ parameter "confirmDangerous" boolean_schema
    ∷ parameter "content" (string_schema 0 [] none)
    ∷ parameter "context" (string_schema 0 [] none)
    ∷ parameter "count" (integer_schema (pos 0) none)
    ∷ parameter "createParents" boolean_schema
    ∷ parameter "cron" (string_schema 0 [] none)
    ∷ parameter "cwd" (string_schema 1 [] none)
    ∷ parameter "data" (string_schema 0 [] none)
    ∷ parameter "delayMs" (integer_schema (pos 0) none)
    ∷ parameter "dest" (string_schema 1 [] none)
    ∷ parameter "destination" (string_schema 1 [] none)
    ∷ parameter "digest" (string_schema 0 [] none)
    ∷ parameter "downgrade" boolean_schema
    ∷ parameter "duration" (integer_schema (pos 0) none)
    ∷ parameter "durationMs" (integer_schema (pos 0) none)
    ∷ parameter "enabled" boolean_schema
    ∷ parameter "encoding" (string_schema 0 ("utf-8" ∷ "text" ∷ "base64" ∷ []) none)
    ∷ parameter "env" string_map_schema
    ∷ parameter "everySeconds" (integer_schema (pos 1) none)
    ∷ parameter "expected" (string_schema 0 [] none)
    ∷ parameter "expectedSize" (integer_schema (negsuc 0) none)
    ∷ parameter "expression" (string_schema 0 [] none)
    ∷ parameter "ext" (string_schema 0 [] none)
    ∷ parameter "extension" (string_schema 0 [] none)
    ∷ parameter "follow" boolean_schema
    ∷ parameter "format" (
        string_schema 0
          ("zip" ∷ "tar" ∷ "tar.gz" ∷ "tgz" ∷ "gzip" ∷ "gz" ∷ "xz" ∷ "tar.xz" ∷ "txz" ∷ "7z" ∷ [])
          none)
    ∷ parameter "gid" (integer_schema (negsuc 0) none)
    ∷ parameter "grantRuntimePermissions" boolean_schema
    ∷ parameter "hash" (string_schema 0 [] none)
    ∷ parameter "headers" string_map_schema
    ∷ parameter "host" (string_schema 0 [] none)
    ∷ parameter "hostname" (string_schema 0 [] none)
    ∷ parameter "id" (string_schema 0 [] none)
    ∷ parameter "identity" (string_schema 0 ("root" ∷ "shell" ∷ "current" ∷ "uid" ∷ []) none)
    ∷ parameter "index" (integer_schema (pos 0) none)
    ∷ parameter "inputs" strings_schema
    ∷ parameter "intervalSeconds" (integer_schema (pos 1) none)
    ∷ parameter "items" (objects_schema 1 64)
    ∷ parameter "key" (string_schema 0 [] none)
    ∷ parameter "keepData" boolean_schema
    ∷ parameter "kind" (string_schema 0 [] none)
    ∷ parameter "lazy" boolean_schema
    ∷ parameter "length" (integer_schema (pos 0) none)
    ∷ parameter "level" (integer_schema (pos 0) none)
    ∷ parameter "limit" (integer_schema (pos 0) none)
    ∷ parameter "line" (integer_schema (pos 1) none)
    ∷ parameter "lineCount" (integer_schema (pos 0) none)
    ∷ parameter "lines" (integer_schema (pos 0) none)
    ∷ parameter "locale" (string_schema 0 [] none)
    ∷ parameter "lower" (string_schema 1 [] none)
    ∷ parameter "maxBytes" (integer_schema (pos 0) none)
    ∷ parameter "maxFiles" (integer_schema (pos 1) none)
    ∷ parameter "maxResponseBytes" (integer_schema (pos 1) (some (pos 67108864)))
    ∷ parameter "maxResults" (integer_schema (pos 1) none)
    ∷ parameter "maxSize" (integer_schema (negsuc 0) none)
    ∷ parameter "message" (string_schema 0 [] none)
    ∷ parameter "method" (string_schema 0 [] none)
    ∷ parameter "milliseconds" (integer_schema (pos 0) none)
    ∷ parameter "minSize" (integer_schema (pos 0) none)
    ∷ parameter "mode" (string_schema 0 [] none)
    ∷ parameter "modifiedAfter" (string_schema 0 [] none)
    ∷ parameter "modifiedBefore" (string_schema 0 [] none)
    ∷ parameter "moduleId" (string_schema 0 [] none)
    ∷ parameter "muted" boolean_schema
    ∷ parameter "name" (string_schema 0 [] none)
    ∷ parameter "namespace" (string_schema 0 ("system" ∷ "secure" ∷ "global" ∷ []) none)
    ∷ parameter "offset" (integer_schema (pos 0) none)
    ∷ parameter "operation" (string_schema 0 [] none)
    ∷ parameter "output" (string_schema 1 [] none)
    ∷ parameter "overwrite" boolean_schema
    ∷ parameter "package" (string_schema 0 [] none)
    ∷ parameter "packageName" (string_schema 0 [] none)
    ∷ parameter "parents" boolean_schema
    ∷ parameter "path" (string_schema 1 [] none)
    ∷ parameter "paths" strings_schema
    ∷ parameter "pattern" (string_schema 0 [] none)
    ∷ parameter "permission" (string_schema 0 [] none)
    ∷ parameter "pid" (integer_schema (pos 1) none)
    ∷ parameter "port" (integer_schema (pos 1) (some (pos 65535)))
    ∷ parameter "priority" (integer_schema (negsuc 19) (some (pos 19)))
    ∷ parameter "progress" fraction_schema
    ∷ parameter "query" (string_schema 0 [] none)
    ∷ parameter "recursive" boolean_schema
    ∷ parameter "replace" boolean_schema
    ∷ parameter "reset" boolean_schema
    ∷ parameter "resume" boolean_schema
    ∷ parameter "retries" (integer_schema (pos 0) (some (pos 10)))
    ∷ parameter "retryCount" (integer_schema (pos 0) (some (pos 10)))
    ∷ parameter "retryDelaySeconds" (integer_schema (pos 1) (some (pos 86400)))
    ∷ parameter "role" (string_schema 0 [] none)
    ∷ parameter "root" (string_schema 1 [] none)
    ∷ parameter "scale" (string_schema 0 [] none)
    ∷ parameter "scheduleId" (string_schema 0 [] none)
    ∷ parameter "script" (string_schema 0 [] none)
    ∷ parameter "seconds" (integer_schema (pos 0) none)
    ∷ parameter "service" (string_schema 0 [] none)
    ∷ parameter "sessionId" (integer_schema (pos 0) none)
    ∷ parameter "sha256" (string_schema 0 [] (some "^[A-Fa-f0-9]{64}$"))
    ∷ parameter "signal" (either (integer_schema (pos 1) (some (pos 64))) (string_schema 1 [] none))
    ∷ parameter "size" (integer_schema (negsuc 0) none)
    ∷ parameter "source" (either (string_schema 1 [] none) full_strings_schema)
    ∷ parameter "sources" strings_schema
    ∷ parameter "splitName" (string_schema 0 [] none)
    ∷ parameter "src" (string_schema 1 [] none)
    ∷ parameter "startLine" (integer_schema (pos 1) none)
    ∷ parameter "stdin" (string_schema 0 [] none)
    ∷ parameter "stream" (integer_schema (pos 0) none)
    ∷ parameter "system" boolean_schema
    ∷ parameter "table" (string_schema 0 ("system" ∷ "secure" ∷ "global" ∷ []) none)
    ∷ parameter "target" (string_schema 1 [] none)
    ∷ parameter "targetArgs" object_schema
    ∷ parameter "targetTool" (string_schema 0 [] none)
    ∷ parameter "taskId" (
        string_schema 0 [] (
          some
            "^(?:[A-Fa-f0-9]{24}|[A-Fa-f0-9]{8}-[A-Fa-f0-9]{4}-4[A-Fa-f0-9]{3}-[89ABab][A-Fa-f0-9]{3}-[A-Fa-f0-9]{12})$"))
    ∷ parameter "text" (string_schema 0 [] none)
    ∷ parameter "time" (string_schema 0 [] none)
    ∷ parameter "timeout"
        (either (integer_schema (pos 1) none) (string_schema 0 [] (some "^[0-9]+(?:ms|s|m|h)$")))
    ∷ parameter "timeoutMs" (integer_schema (pos 1) none)
    ∷ parameter "timezone" (string_schema 0 [] none)
    ∷ parameter "tool" (string_schema 0 [] none)
    ∷ parameter "transaction" (integer_schema (pos 0) none)
    ∷ parameter "type" (string_schema 0 [] none)
    ∷ parameter "uid" (integer_schema (negsuc 0) none)
    ∷ parameter "upper" (string_schema 1 [] none)
    ∷ parameter "url" (string_schema 0 [] (some "^https?://"))
    ∷ parameter "user" (either (integer_schema (pos 0) none) (string_schema 1 [] none))
    ∷ parameter "value" scalar_schema
    ∷ parameter "weekday" (integer_schema (pos 0) (some (pos 6)))
    ∷ parameter "work" (string_schema 1 [] none)
    ∷ parameter "workDir" (string_schema 1 [] none)
    ∷ parameter "x" (integer_schema (pos 0) none)
    ∷ parameter "x1" (integer_schema (pos 0) none)
    ∷ parameter "x2" (integer_schema (pos 0) none)
    ∷ parameter "y" (integer_schema (pos 0) none)
    ∷ parameter "y1" (integer_schema (pos 0) none)
    ∷ parameter "y2" (integer_schema (pos 0) none)
    ∷ parameter "zip" (string_schema 1 [] none)
    ∷ []
