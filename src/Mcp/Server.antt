-- ===== src/Mcp/Server.antt =====
-- ServeHTTP, serveBatch and streamTask of internal/mcpapi/tasks_http.go: from a body to a reply. The
-- decoders of encoding/json are parameters, and so is whether the writer can be flushed.
use zcr521_ai_mcp.Transfer.Syntax.{trim_space}
use zcr521_ai_mcp.Mcp.Stream.{SseEvent, stream_events}
use zcr521_ai_mcp.Mcp.Json.{contains_text}
use zcr521_ai_mcp.Mcp.Rpc.{
  RpcRequest, RpcResponse, Header, rpc_http_status, error_response, invalid_request, parse_error,
  internal_error,
}
use zcr521_ai_mcp.Mcp.Handler.{TasksHandler, TaskClient, dispatch}
use zcr521_ai_mcp.Common.{
  [], ◌∷◌, ℕ, Text, Bool, Option, is_empty, codes, ℤ, List, ◌||◌, if◌then◌else◌, pos, text_eq,
  is_some, ◌==◌, none, suc, ◌&&◌, true, false, some, not, ltb, length,
}

pub data HttpReply : Type 0 where
  not_allowed accepted : HttpReply
  one : ℕ → RpcResponse → HttpReply
  many : ℕ → List RpcResponse → HttpReply
  events : List SseEvent → HttpReply

-- `none` of a decoder is an error; `encode` is a response's JSON, and `flushes` whether the writer is
-- an http.Flusher.
pub record Wires : Type 0 where
  pub decode_one : Text → Option RpcRequest
  pub decode_many : Text → Option (List RpcRequest)
  pub encode : RpcResponse → Text
  pub flushes : Bool

-- A request to the handler; `none` is a body that cannot be read.
pub record HttpCall : Type 0 where
  pub is_post : Bool
  pub body : Option Text
  pub header : Header

-- A request that wants no reply: without an id, or with null.
abbrev pub is_notification : RpcRequest → Bool
is_notification r = is_empty r.id || text_eq r.id (codes "null")

abbrev pub event_stream : Text
event_stream = codes "text/event-stream"

module _ {σ : Type 0} (h : TasksHandler σ) (wires : Wires) (max_body_bytes : ℤ) where
  -- wantsStream
  abbrev pub wants_stream : Header → Bool
  wants_stream header =
      contains_text event_stream (h.lower header.accept)
      && not (contains_text (codes "application/json") (h.lower header.accept))

  abbrev pub with_status : σ × RpcResponse → σ × HttpReply
  with_status (st, response) = (st, one (rpc_http_status response) response)

  abbrev pub as_events : σ × List SseEvent → σ × HttpReply
  as_events (st, es) = (st, events es)

  abbrev pub stream_initial :
      TaskClient σ → Header → RpcRequest → List (σ → σ) → σ × RpcResponse → σ × HttpReply
  stream_initial c header r ticks (st, initial) =
      if is_some initial.error
      then with_status (st, initial)
      else if wires.flushes
      then as_events (stream_events h c wires.encode header r ticks initial st)
      else (st, one 200 initial)

  unfoldable pub stream_task : TaskClient σ → Header → RpcRequest → List (σ → σ) → σ → σ × HttpReply
  stream_task c header r ticks st = stream_initial c header r ticks (dispatch h c header true r st)

  abbrev pub worse : ℕ → RpcResponse → ℕ
  worse status response = if rpc_http_status response == 400 then 400 else status

  -- The loop of a batch: the responses to the requests that want one, and the status.
  unfoldable pub batch_loop :
      TaskClient σ → Header → List RpcRequest → ℕ → σ → σ × ℕ × List RpcResponse
  batch_loop c header [] status st = (st, status, [])
  batch_loop c header (r ∷ rs) status st =
      let (st', response) = dispatch h c header false r st in
      let quiet = is_notification r in
      let (st'', status', responses) =
        batch_loop c header rs (if quiet then status else worse status response) st' in
      (st'', status', if quiet then responses else response ∷ responses)

  abbrev pub batch_reply : σ × ℕ × List RpcResponse → σ × HttpReply
  batch_reply (st, status, []) = (st, accepted)
  batch_reply (st, status, response ∷ responses) = (st, many status (response ∷ responses))

  abbrev pub refuse : ℤ → ℕ → σ → σ × HttpReply
  refuse code status st = (st, one status (error_response [] code none))

  abbrev pub serve_batch : TaskClient σ → Header → Option (List RpcRequest) → σ → σ × HttpReply
  serve_batch c header none st = refuse invalid_request 400 st
  serve_batch c header (some []) st = refuse invalid_request 400 st
  serve_batch c header (some (r ∷ rs)) st = batch_reply (batch_loop c header (r ∷ rs) 200 st)

  abbrev pub reply_unless_quiet : RpcRequest → σ × RpcResponse → σ × HttpReply
  reply_unless_quiet r (st, response) =
      if is_notification r then (st, accepted) else with_status (st, response)

  abbrev pub serve_one :
      TaskClient σ → Header → List (σ → σ) → Option RpcRequest → σ → σ × HttpReply
  serve_one c header ticks none st = refuse parse_error 400 st
  serve_one c header ticks (some r) st =
      if wants_stream header && text_eq r.method (codes "tasks/get")
      then stream_task c header r ticks st
      else reply_unless_quiet r (dispatch h c header true r st)

  -- A body that is trimmed.
  abbrev pub serve_text : TaskClient σ → Header → List (σ → σ) → Text → σ → σ × HttpReply
  serve_text c header ticks [] st = refuse invalid_request 400 st
  serve_text c header ticks (b ∷ bs) st =
      if b == b'['
      then serve_batch c header (wires.decode_many (b ∷ bs)) st
      else serve_one c header ticks (wires.decode_one (b ∷ bs)) st

  abbrev pub body_limit : ℕ
  body_limit = or_default max_body_bytes
    where
      or_default : ℤ → ℕ
      or_default (pos (suc n)) = suc n
      or_default _ = 1048576

  abbrev pub serve_body : TaskClient σ → Header → List (σ → σ) → Option Text → σ → σ × HttpReply
  serve_body c header ticks none st = refuse invalid_request 400 st
  serve_body c header ticks (some body) st =
      if ltb body_limit (length body)
      then refuse invalid_request 400 st
      else serve_text c header ticks (trim_space body) st

  abbrev pub serve_client : Option (TaskClient σ) → HttpCall → List (σ → σ) → σ → σ × HttpReply
  serve_client none call ticks st = refuse internal_error 500 st
  serve_client (some c) call ticks st = serve_body c call.header ticks call.body st

  -- ServeHTTP
  unfoldable pub serve_http : HttpCall → List (σ → σ) → σ → σ × HttpReply
  serve_http call ticks st =
      if call.is_post then serve_client h.client call ticks st else (st, not_allowed)
