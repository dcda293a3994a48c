-- ===== src/Mcp.antt =====
-- internal/mcpapi/tasks_http.go: the task methods of MCP over HTTP. `Json` has the values that it
-- builds, `Snapshots` what it says of a task, `Rpc` the checks of a request, `Handler` the methods,
-- `Stream` the event stream, `Server` ServeHTTP; `Guards`, `Events`, `Outcomes` and `Statuses`
-- prove.
pub mod Json
pub mod Snapshots
pub mod Rpc
pub mod Handler
pub mod Stream
pub mod Server
pub mod Guards
pub mod Events
pub mod Outcomes
pub mod Statuses
