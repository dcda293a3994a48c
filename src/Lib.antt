-- ===== src/Lib.antt =====
-- The Android MCP server (github.com/zcr521/android-ai-mcp): its task manager, its file transfers, its
-- supervisor, its broker, the service behind it with its schemas, schedules and background tasks, the
-- task methods of MCP and its configuration.
--
-- The program is two processes that a third one watches. The broker runs as root and owns the task
-- manager, which runs tools as goroutines and keeps every task in a file; the frontend speaks MCP and
-- HTTP and owns the transfers, the resumable uploads and expiring downloads; the supervisor starts
-- both, restarts them after a failure and takes a bad version back. All read one configuration.
--
-- Model              internal/model/result.go: the result of a tool.
-- Tasks              internal/tasks/manager.go. `Data` has Task, Manager, persistLocked and
--                    notifyLocked; `Client` Submit, Get, Cancel, Update, Wait and Close; `Worker` the
--                    goroutine `run`, cut into its critical sections; `Restart` New, load and
--                    ResumeInterrupted; `System` the manager with its goroutines as a step relation
--                    (`Reach`), in which clients and workers take turns in any order; `Identity`
--                    newID. A mutex is the atomicity of a step, a semaphore a counter, a channel of a
--                    waiter a number.
-- Transfer           internal/frontend/transfer.go. `Syntax` has the texts that it reads
--                    (parseContentRange, safeFilename, normalizeSHA256, validTransferID); `Data` the
--                    records and the store of files; `Uploads` CreateUpload, WriteChunk, CancelUpload
--                    and cleanupExpired; `Artifacts` CompleteUpload, PublishFile and ResolveArtifact;
--                    `Http` the routes and their errors.
-- Supervisor         internal/supervisor/supervisor.go. `Restarts` has the loop of Run; `Versions`
--                    markStable, rollback and rollbackPendingCandidate; `Pair` runPair; `Options` its
--                    options.
-- Config             internal/config/config.go. `Data` has the configuration, Default, Validate and
--                    derivePaths; `Files` Load, Save and ListenAddresses.
-- Broker             internal/broker/server.go and protocol.go. `Protocol` has the messages, `Server`
--                    serveConn, authorizePeer, dispatch and the deadline of a request, over a handler
--                    of any state.
-- Ops                internal/ops, what its tools share. `Values` has the arguments of args.go, `Naming`
--                    normalizeTool, Request and the aliases of action_aliases.go, `Outcome` Result and
--                    its constructors (types.go), `Numbers` strconv.Atoi, `Background`,
--                    `TaskControl` and `Runs` the background tasks of tasks.go, `Dispatch`
--                    executeSync and Execute over given operations. A scheduled run that starts a
--                    task is left out.
-- Schedule           internal/ops/schedule.go. `Cron` has nextCronTime, cronFieldMatches and
--                    validTimeOfDay; `Data` scheduleState, scheduleNext and safeScheduleID; `Parse`
--                    parseSchedule; `Store` scheduleOperation, ensureSchedulesLoaded and
--                    persistSchedule; `Runs` nearestScheduleTime, triggerDueSchedules,
--                    triggerScheduleEvent and executeSchedule. The local calendar is a parameter
--                    (`Calendar`), the map and the files are association lists.
-- Packages           internal/ops/package_archive.go. `Wire` has parseProtoWire and readProtoVarint;
--                    `Targets` the targeting messages and `Contents` parseBuildApksResult; `Select`
--                    selectAPKS, with the package strings and both sorts as parameters.
-- Archive            internal/ops/archive.go. `Paths` has safeArchivePath,
--                    rejectArchiveSymlinkComponents and validateArchiveSymlink, over clean paths, which
--                    are what path/filepath makes of a text on Linux. os.Lstat is a parameter.
-- Access             internal/frontend/security.go. `Addresses` has isDirectlyOnLink and the addresses
--                    of package net as bytes; `Policy` accessPolicy and its parts; `Origins`
--                    validateOrigin; `Validate` networks, with its cache, and validate. The parsers of
--                    package net and net/url are parameters.
-- Mcp                internal/mcpapi/tasks_http.go, over a backend of any state. `Snapshots` has
--                    taskResult and what it uses, `Rpc` the messages and the checks of dispatch,
--                    `Handler` the methods and dispatch, `Stream` streamTask, `Server` ServeHTTP and
--                    serveBatch; `Statuses` has the JSON of a task of the manager. A parsed JSON value
--                    is one of `Ops.Values`; encoding/json is a parameter (`Codec`, `Wires`).
-- Schema             internal/schema/registry.go: `Specs` has the tools with their actions, `Invocation`
--                    ValidateInvocation and Find, `Parameters`, `Catalog` and `Actions` the input
--                    schema of a tool. A validator of JSON Schema is a parameter.
-- Service            internal/service/service.go, on top of Schema, Config, Tasks and Ops: `Data` has
--                    the state and convertOps, `Configuration` configCall, `TaskCalls` taskCall,
--                    `Call` Call, Status and runTask. path/filepath, encoding/json and the words of
--                    errors are fields of `ServiceEnv`.
-- Common             lists, texts as lists of character codes, maps as association lists, integers.
-- Examples           the theorems at concrete inputs.
--
-- What the program does not decide is an input. Each call meets an `Env`: the clock, the random
-- id, and for every operation of the file system whether it succeeds; so a theorem for all of
-- these holds for every pattern of failures. The SHA-256 is a function `digest`, the path join of
-- path/filepath a function `join`, the result of a runner a choice of its worker. A JSON file is
-- the value that it decodes to, or damaged; that of the configuration is what decoding makes of a
-- value, and encoding/json a parameter that says it for the text of a configuration. That ids from
-- crypto/rand are new is a condition on steps (`IsFresh`, `is_new`). Times are numbers without an
-- upper bound, 0 for Go's zero time; sizes and offsets are numbers that the texts read bound by
-- int64; progress is the bit pattern of its float64. The functions of the model that use fuel: the
-- decimal text of a number in Transfer.Ranges, whose fuel is the number itself plus one, more than
-- its digits; parse_fields of Packages.Wire, whose fuel is the length of the data, of which every
-- field takes a byte at least, and whose field numbers are those of a build of 32 or of 64 bits;
-- search_minutes of Schedule.Cron, whose fuel is the number of minutes before the limit of five
-- years; next_weekday of Schedule.Data, which has fifteen steps of 24 hours to find a day of the
-- week, and `unfinished` after them.
--
-- Not modelled: the broker's socket, its accept loop and the context of a call, the server of the
-- frontend, the tools but for the schedules, the background tasks, the paths of archives and the
-- choice of APKs, the schema of results, the web page and the commands. Of the schedules, the
-- listeners of the kernel's events; of the archives, reading and writing them; a run's pause between
-- two attempts; of the service, calls at the same time, and what of a probe it shows. Of the other
-- parts above: the order of List and the log of a task, the reference counts of lockTransfer
-- (calls on one upload follow one another), the headers of responses, and how a process is stopped
-- or a binary copied.
pub mod Common
pub mod Model
pub mod Tasks
pub mod Transfer
pub mod Supervisor
pub mod Config
pub mod Broker
pub mod Access
pub mod Packages
pub mod Ops
pub mod Archive
pub mod Schedule
pub mod Mcp
pub mod Schema
pub mod Service
pub mod Examples
