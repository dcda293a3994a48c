-- ===== src/Service/Reach.antt =====
-- Where an accepted invocation of internal/service/service.go goes (internal/ops/dispatch.go,
-- internal/schema/registry.go).
use zcr521_ai_mcp.Service.Routes.{
  is_routed, public_request, normalize_tool-routed, validate_invocation-routed, public_request-same,
}
use zcr521_ai_mcp.Mcp.Handler.{is_background}
use zcr521_ai_mcp.Service.Data.{ServiceEnv, Service}
use zcr521_ai_mcp.Ops.Background.{BackgroundEnv, start_background}
use zcr521_ai_mcp.Service.Call.{request_of, call, submitted, is_heavy}
use mathlib.Core.Path.{subst, ap, sym}
use zcr521_ai_mcp.Ops.Naming.{normalize_tool, OpsRequest}
use zcr521_ai_mcp.Ops.Dispatch.{
  operations, is_task_control, wants_background, Operations, OpsState, execute_sync, execute,
  Operation, execute_public, run_operation, recovered,
}
use zcr521_ai_mcp.Schema.Invocation.{validate_invocation}
use zcr521_ai_mcp.Tasks.Data.{Task, Manager}
use zcr521_ai_mcp.Tasks.Client.{Reply, ok, err, submit}
use zcr521_ai_mcp.Ops.Outcome.{Outcome}
use zcr521_ai_mcp.Ops.Values.{Value}
use zcr521_ai_mcp.Common.{
  Text, Bool, Map, text_eq, true, ◌≡◌, refl, some, none, is_some, arith, Option, lookup, Bool-cases,
  not, inl, is_empty, inr, codes, ◌∙◌, false, ◌⊎◌, Option-cases, erase, ◌||◌,
}

module _ {σ : Type 0} (ops : Operations σ) (env : BackgroundEnv) where
  -- A request that is not in the background, at the operation of its tool; a panic is caught.
  abbrev pub RunsAt : OpsRequest → OpsState σ → OpsState σ → Type 0
  RunsAt r st st' =
      (o : Operation) × (lookup r.tool operations ≡ some o)
      × (st' ≡ (run_operation ops env r st (some o)).0)

  -- A request that becomes a background task of the operations, which touches nothing else.
  abbrev pub Starts : Text → OpsState σ → OpsState σ → Type 0
  Starts tool st st' = st' ≡ record st { background = (start_background env tool st.background).0 }

  -- Either of the two, as the request wants.
  abbrev pub Goes : OpsRequest → OpsState σ → Bool → Text → OpsState σ → Type 0
  Goes r st wants tool st' =
      ((wants ≡ true) × Starts tool st st') ⊎ ((wants ≡ false) × RunsAt r st st')

  recovered-state : (r : OpsState σ × Option Outcome) → (recovered ops env r).0 ≡ r.0
  recovered-state (st, some o) = refl
  recovered-state (st, none) = refl

  execute_public-Goes :
      (r : OpsRequest) (st : OpsState σ)
      → is_routed r.tool ≡ true
      → Goes r st (wants_background r.args) r.tool (execute_public ops env r st).0
  unfolding execute_sync
  execute_public-Goes r st routed =
      let outside : not (is_task_control r.tool) ≡ true = ground arith in
      elim (Bool-cases (wants_background r.args)) [
        | inl wants ↦ inl (wants, rw (wants, outside) refl)
        | inr not_wants ↦ inr (
          not_wants,
          elim (Option-cases (lookup r.tool operations)) [
            | inl absent ↦
                let known : is_some (lookup r.tool operations) ≡ true = ground arith in ground arith
            | inr (o, found) ↦ (o, found, rw (not_wants, found) refl)
          ],
        )
      ]

  execute-Goes :
      (tool : Text) (args : Map Value) (st : OpsState σ)
      → ops.task_words.lower tool ≡ tool
      → is_routed tool ≡ true
      → let r = public_request ops.task_words.lower tool args in
        ((wants_background args ≡ true)
          × Starts tool st (execute ops env (request_of tool args) st).0)
        ⊎ ((wants_background args ≡ false)
            × RunsAt r st (execute ops env (request_of tool args) st).0)
  unfolding execute
  execute-Goes tool args st low routed =
      let named : normalize_tool ops.task_words.lower tool ≡ tool =
        normalize_tool-routed ops.task_words.lower tool low routed in
      let nonempty : is_empty tool ≡ false = ground arith in
      let r : OpsRequest = public_request ops.task_words.lower tool args in
      let (same_tool, same_args) = public_request-same ops.task_words.lower tool args in
      let step : (execute_public ops env r st).0 ≡ (execute ops env (request_of tool args) st).0 =
        rw (named, nonempty) (sym (recovered-state (execute_public ops env r st))) in
      let goes = execute_public-Goes r st (ap is_routed same_tool ∙ routed) in
      subst (Goes r st (wants_background args) tool) step (
        subst (λ n. Goes r st (wants_background args) n (execute_public ops env r st).0) same_tool
          (subst (λ w. Goes r st w r.tool (execute_public ops env r st).0) same_args goes))

-- The tools that Call answers by itself.
abbrev pub is_own : Text → Bool
is_own tool =
    text_eq tool (codes "zcr521_status")
    || text_eq tool (codes "zcr521_config")
    || text_eq tool (codes "zcr521_task")

-- An accepted invocation of a tool that the service does not answer by itself, whose name ToLower
-- leaves: if `background` is true, the operations stay as they were; if not, the task manager does, and
-- the operations start a background task of their own if argBool takes `background` as true all the
-- same, and otherwise run the operation that the tool has.
pub accepted_call :
    {σ : Type 0} (env : ServiceEnv σ) (tool : Text) (args : Map Value) (s : Service σ)
    → validate_invocation tool args ≡ none
    → is_own tool ≡ false
    → env.operations.task_words.lower tool ≡ tool
    → let s' = (call env tool args s).0 in
      ((is_background args ≡ true) × (s'.operations ≡ s.operations))
      ⊎ ((is_background args ≡ false)
          × (s'.tasks ≡ s.tasks)
          × Goes env.operations env.ops_env
              (public_request env.operations.task_words.lower tool args)
              s.operations
              (wants_background args)
              tool
              s'.operations)
unfolding call
accepted_call env tool args s valid foreign low =
    let routed : is_routed tool ≡ true = validate_invocation-routed tool args valid in
    let not_status : text_eq tool (codes "zcr521_status") ≡ false = ground arith in
    let not_config : text_eq tool (codes "zcr521_config") ≡ false = ground arith in
    let not_task : text_eq tool (codes "zcr521_task") ≡ false = ground arith in
    elim (Bool-cases (is_background args)) [
      | inl background ↦ inl (
        background,
        rw (valid, not_status, not_config, not_task, background)
            (submitted-operations (
              submit env.task_env tool (env.encode_args (erase (codes "background") args))
                (is_heavy env.sort_tools tool) true env.random_id s.tasks)),
      )
      | inr direct ↦ inr (
        direct,
        rw (valid, not_status, not_config, not_task, direct) refl,
        rw (valid, not_status, not_config, not_task, direct)
            (execute-Goes env.operations env.ops_env tool args s.operations low routed),
      )
    ]
  where
    submitted-operations :
        (r : Manager × Reply Task) → (submitted env s r).0.operations ≡ s.operations
    submitted-operations (m, err e) = refl
    submitted-operations (m, ok t) = refl
