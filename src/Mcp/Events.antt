-- ===== src/Mcp/Events.antt =====
-- The event stream of internal/mcpapi/tasks_http.go: its numbers and its end.
use mathlib.Core.Path.{subst, sym}
use zcr521_ai_mcp.Mcp.Rpc.{RpcResponse, Header, RpcRequest}
use zcr521_ai_mcp.Mcp.Stream.{
  Payload, SseEvent, notification, response, is_error, stream_loop, notifications, event,
  stream_events, also,
}
use zcr521_ai_mcp.Mcp.Snapshots.{task_terminal, notification_task, is_final, status_read}
use zcr521_ai_mcp.Mcp.Handler.{TasksHandler, TaskClient, dispatch}
use zcr521_ai_mcp.Ops.Values.{Value}
use zcr521_ai_mcp.Common.{
  false, true, none, some, [], ◌∷◌, ℕ, List, ◌≡◌, Bool, Option, ◌+◌, codes, ◌⊎◌, Map, inl, Text,
  ◌||◌, ap, lookup-erase, erase, ◌∙◌, text_eq, refl, inr, ◌++◌, arith,
}

-- Events with numbers that follow one another.
abbrev pub Numbered : ℕ → List SseEvent → Type 0
Numbered n [] = Unit
Numbered n (e ∷ es) = (e.id ≡ n) × Numbered (n + 1) es

abbrev pub ends : Payload → Bool
ends (response r) = is_error r || task_terminal r.result
ends (notification method params) = task_terminal params

-- The second notification of a task, under the name of the first release.
abbrev pub IsAlias : Payload → Payload → Type 0
IsAlias (notification method params) alias =
    alias ≡ notification (codes "notifications/tasks/status") params
IsAlias (response r) alias = ⊥

-- An event that ends the task stands last, but for its alias.
abbrev pub EndsLast : List SseEvent → Type 0
EndsLast [] = Unit
EndsLast (e ∷ []) = Unit
EndsLast (e ∷ f ∷ es) =
    ((ends e.payload ≡ false) ⊎ ((es ≡ []) × IsAlias e.payload f.payload)) × EndsLast (f ∷ es)

status_kept : (r : Option (Map Value)) → task_terminal (notification_task r) ≡ task_terminal r
unfolding task_terminal text_eq
status_kept none = refl
status_kept (some r) =
    ap (λ v. is_final (status_read v))
      (lookup-erase (codes "_meta") (codes "status") (erase (codes "resultType") r)
        ∙ lookup-erase (codes "resultType") (codes "status") r)

prepend :
    (e : SseEvent) (es : List SseEvent) → ends e.payload ≡ false → EndsLast es → EndsLast (e ∷ es)
prepend e [] going h = tt
prepend e (f ∷ es) going h = (inl going, h)

abbrev pub WellSent : ℕ → List SseEvent → Type 0
WellSent n es = Numbered n es × EndsLast es

-- Two notifications, and what follows them unless they end the task.
notifications-WellSent :
    (id : ℕ) (r : RpcResponse) (es : List SseEvent) (final : Bool)
    → task_terminal r.result ≡ final
    → (final ≡ true → es ≡ [])
    → WellSent (id + 2 + 1) es
    → WellSent (id + 1) (notifications id r ++ es)
notifications-WellSent id r es true f none' (n, l) =
    let e : es ≡ [] = none' refl in
    subst (λ xs. WellSent (id + 1) (notifications id r ++ xs)) (sym e)
      ((refl, (omega arith, tt)), (inr (refl, refl), tt))
notifications-WellSent id r es false f none' (n, l) =
    let going : task_terminal (notification_task r.result) ≡ false = status_kept r.result ∙ f in
    let next : id + 2 + 1 ≡ id + 1 + 1 + 1 = omega arith in
    (
      (refl, (omega arith, subst (λ k. Numbered k es) next n)),
      (
        inl going,
        prepend
            (event (id + 2)
              (notification (codes "notifications/tasks/status") (notification_task r.result)))
            es going l,
      ),
    )

module _ {σ : Type 0} (h : TasksHandler σ) (c : TaskClient σ) (encode : RpcResponse → Text)
    (header : Header) (r : RpcRequest) where
  stream_loop-WellSent :
      (ticks : List (σ → σ)) (id : ℕ) (previous : RpcResponse) (st : σ)
      → WellSent (id + 1) (stream_loop h c encode header r ticks id previous st).1
  unfolding stream_loop
  stream_loop-WellSent [] id previous st = (tt, tt)
  stream_loop-WellSent (tick ∷ ticks) id previous st =
      of_tests (text_eq (encode (dispatch h c header true r (tick st)).1) (encode previous))
        (is_error (dispatch h c header true r (tick st)).1)
        (task_terminal (dispatch h c header true r (tick st)).1.result)
        (stream_loop-WellSent ticks id previous (dispatch h c header true r (tick st)).0)
        (stream_loop-WellSent ticks (id + 2) (dispatch h c header true r (tick st)).1
          (dispatch h c header true r (tick st)).0)
        refl
    where
      of_tests :
          (same bad final : Bool)
          → WellSent
              (id + 1)
              (stream_loop h c encode header r ticks id previous
                (dispatch h c header true r (tick st)).0).1
          → WellSent
              (id + 2 + 1)
              (stream_loop h c encode header r ticks
                (id + 2)
                (dispatch h c header true r (tick st)).1
                (dispatch h c header true r (tick st)).0).1
          → task_terminal (dispatch h c header true r (tick st)).1.result ≡ final
          → (let sent : σ × List SseEvent = elim same [
            | true ↦
                stream_loop h c encode header r ticks id previous
                  (dispatch h c header true r (tick st)).0
            | false ↦ elim bad [
              | true ↦ (
                (dispatch h c header true r (tick st)).0,
                event (id + 1) (response (dispatch h c header true r (tick st)).1) ∷ [],
              )
              | false ↦
                  also (notifications id (dispatch h c header true r (tick st)).1) (elim final [
                    | true ↦ ((dispatch h c header true r (tick st)).0, [])
                    | false ↦
                        stream_loop h c encode header r ticks
                          (id + 2)
                          (dispatch h c header true r (tick st)).1
                          (dispatch h c header true r (tick st)).0
                  ])
            ]
          ] in
              WellSent (id + 1) sent.1)
      of_tests true bad final idle sent f = idle
      of_tests false true final idle sent f = ((refl, tt), tt)
      of_tests false false true idle sent f =
          notifications-WellSent id (dispatch h c header true r (tick st)).1 [] true f (λ e. refl)
            (tt, tt)
      of_tests false false false idle sent f =
          notifications-WellSent id (dispatch h c header true r (tick st)).1 _ false f
            (λ e. ground arith) sent

  -- The events that follow an initial response without an error: however the backend changes between
  -- the ticks and whenever the client leaves, they are numbered from 1 without a gap, and after one
  -- that ends, a final task or an error, nothing is sent but the second notification of that task.
  pub stream_events-WellSent :
      (ticks : List (σ → σ)) (initial : RpcResponse) (st : σ)
      → initial.error ≡ none
      → WellSent 1 (stream_events h c encode header r ticks initial st).1
  unfolding stream_events
  stream_events-WellSent ticks initial st fine = of_test (task_terminal initial.result) refl
    where
      of_test :
          (final : Bool)
          → task_terminal initial.result ≡ final
          → (let sent : σ × List SseEvent = also (event 1 (response initial) ∷ []) (elim final [
            | true ↦ (st, [])
            | false ↦ stream_loop h c encode header r ticks 1 initial st
          ]) in
              WellSent 1 sent.1)
      of_test true f = ((refl, tt), tt)
      of_test false f =
          let (n, l) = stream_loop-WellSent ticks 1 initial st in
          ((refl, n), prepend (event 1 (response initial)) _ (rw (fine, f) refl) l)
