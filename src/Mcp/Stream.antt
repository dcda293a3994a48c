-- ===== src/Mcp/Stream.antt =====
-- streamTask of internal/mcpapi/tasks_http.go: a task's snapshots as server-sent events. Between two
-- ticks others change the backend; the list of the ticks ends when the client leaves.
use zcr521_ai_mcp.Mcp.Snapshots.{notification_task, task_terminal}
use zcr521_ai_mcp.Mcp.Rpc.{RpcResponse, Header, RpcRequest}
use zcr521_ai_mcp.Mcp.Handler.{TasksHandler, TaskClient, dispatch}
use zcr521_ai_mcp.Ops.Values.{Value}
use zcr521_ai_mcp.Common.{
  [], ◌∷◌, ℕ, List, Text, Bool, ◌+◌, ◌++◌, Option, is_some, codes, Map, text_eq, true, false,
}

pub data Payload : Type 0 where
  response : RpcResponse → Payload
  notification : Text → Option (Map Value) → Payload

pub record SseEvent : Type 0 where
  pub id : ℕ
  pub payload : Payload

abbrev pub event : ℕ → Payload → SseEvent
event id payload = record { id = id; payload = payload }

abbrev pub is_error : RpcResponse → Bool
is_error r = is_some r.error

-- The notification under its name and the name of the first release.
abbrev pub notifications : ℕ → RpcResponse → List SseEvent
notifications id r =
    event (id + 1) (notification (codes "notifications/tasks") (notification_task r.result))
    ∷ event (id + 2)
        (notification (codes "notifications/tasks/status") (notification_task r.result))
    ∷ []

abbrev pub also {ℓ} : {σ : Type ℓ} → List SseEvent → σ × List SseEvent → σ × List SseEvent
also es (st, more) = (st, es ++ more)

module _ {σ : Type 0} (h : TasksHandler σ) (c : TaskClient σ) (encode : RpcResponse → Text)
    (header : Header) (r : RpcRequest) where
  -- The loop, with the number of the last event and the last response that was sent.
  unfoldable pub stream_loop : List (σ → σ) → ℕ → RpcResponse → σ → σ × List SseEvent
  stream_loop [] id previous st = (st, [])
  stream_loop (tick ∷ ticks) id previous st =
      elim (text_eq (encode (dispatch h c header true r (tick st)).1) (encode previous)) [
        | true ↦ stream_loop ticks id previous (dispatch h c header true r (tick st)).0
        | false ↦ elim (is_error (dispatch h c header true r (tick st)).1) [
          | true ↦ (
            (dispatch h c header true r (tick st)).0,
            event (id + 1) (response (dispatch h c header true r (tick st)).1) ∷ [],
          )
          | false ↦
              also (notifications id (dispatch h c header true r (tick st)).1)
                (elim (task_terminal (dispatch h c header true r (tick st)).1.result) [
                  | true ↦ ((dispatch h c header true r (tick st)).0, [])
                  | false ↦
                      stream_loop ticks (id + 2) (dispatch h c header true r (tick st)).1
                        (dispatch h c header true r (tick st)).0
                ])
        ]
      ]

  -- What follows an initial response without an error.
  unfoldable pub stream_events : List (σ → σ) → RpcResponse → σ → σ × List SseEvent
  stream_events ticks initial st =
      also (event 1 (response initial) ∷ []) (elim (task_terminal initial.result) [
        | true ↦ (st, [])
        | false ↦ stream_loop ticks 1 initial st
      ])
