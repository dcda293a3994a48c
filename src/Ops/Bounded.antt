-- ===== src/Ops/Bounded.antt =====
-- Every step of the goroutines and calls of internal/ops/tasks.go keeps the limit.
use text.Mathlib.Text.{◌==◌ as str_eq}
use mathlib.Core.Path.{subst, sym, ap}
use zcr521_ai_mcp.Ops.Limit.{
  Due, due_status, Within, due_task, due_phase, on_state-Within, first, second,
}
use zcr521_ai_mcp.Ops.Runs.{
  BackgroundSystem, GoPhase, begin_at, end_at, save_at_end, saving, on_state, executing, starting,
}
use zcr521_ai_mcp.Ops.Background.{
  BackgroundStatus, persist_task, end_status, Background, BackgroundTask, is_active, unknown,
  count_active, begun, ended, waiting, running, cancelled, timeout, completed, failed,
}
use zcr521_ai_mcp.Ops.Outcome.{Outcome}
use zcr521_ai_mcp.Common.{
  true, false, Bool, ℕ, Text, ◌≡◌, Option, some, none, if◌then◌else◌, if_both, lookup, Unique, refl,
  arith, ◌∙◌, is_some, text_eq, ◌≤◌, text_eq_iff, erase, lookup-erase,
}

count_of : BackgroundStatus → ℕ
count_of st = if is_active st then 1 else 0

active_due : (st : BackgroundStatus) (d : Due) → due_status st ≡ some d → count_of st ≡ 1
unfolding count_of
active_due waiting d h = refl
active_due running d h = refl
active_due cancelled d h = ground arith
active_due timeout d h = ground arith
active_due completed d h = ground arith
active_due failed d h = ground arith
active_due (unknown w) d h = ground arith

end_status-due : (stopped : Bool) (r : Outcome) → due_status (end_status stopped r) ≡ none
end_status-due stopped r =
    if_both P stopped refl
      (if_both P (str_eq r.code "TIMEOUT") refl (if_both P r.success refl refl))
  where
    P : BackgroundStatus → Type 0
    P st = due_status st ≡ none

module _ (limit : ℕ) where
  pub with_background-Within :
      (s : BackgroundSystem) (b : Background)
      → b.tasks ≡ s.background.tasks
      → b.task_limit ≡ s.background.task_limit
      → Within limit s
      → Within limit (record s { background = b })
  with_background-Within s b tasks same w = record {
    unique = subst (λ m. Unique m) (sym tasks) w.unique;
    limited = same ∙ w.limited;
    bounded = subst (λ m. count_active m ≤ limit) (sym tasks) w.bounded;
    agreed = λ id. ap (λ m. due_task (lookup id m)) tasks ∙ w.agreed id;
  }

  pub persist-Within :
      (writes : Bool) (t : BackgroundTask) (s : BackgroundSystem)
      → Within limit s
      → Within limit (record s { background = persist_task writes t s.background })
  unfolding persist_task
  persist-Within writes t s w =
      if_both (λ b. Within limit (record s { background = b })) writes
        (with_background-Within s _ refl refl w) w

  pub begin_at-Within :
      (id : Text) (now : ℕ) (writes : Bool) (s : BackgroundSystem) (o : Option GoPhase)
      → lookup id s.goroutines ≡ o
      → Within limit s
      → Within limit (begin_at id now writes s o)
  unfolding count_of
  begin_at-Within id now writes s none e w = w
  begin_at-Within id now writes s (some executing) e w = w
  begin_at-Within id now writes s (some (saving t)) e w = w
  begin_at-Within id now writes s (some starting) e w =
      of_task _
        (lookup id
          (on_state id (begun now) (λ t. executing) s
            (lookup id s.background.tasks)).background.tasks)
        (on_state-Within limit id (begun now) (λ t. executing) s (lookup id s.background.tasks) refl
          (λ t f. active_due t.status first (sym (ap due_task f) ∙ w.agreed id ∙ ap due_phase e))
          (λ t. refl) w)
    where
      of_task :
          (s' : BackgroundSystem) (o : Option BackgroundTask)
          → Within limit s'
          → Within limit (elim o [
            | none ↦ s'
            | some t ↦ record s' { background = persist_task writes t s'.background }
          ])
      of_task s' none k = k
      of_task s' (some t) k = persist-Within writes t s' k

  pub end_at-Within :
      (id : Text) (now : ℕ) (r : Outcome) (s : BackgroundSystem) (o : Option GoPhase)
      → lookup id s.goroutines ≡ o
      → Within limit s
      → Within limit (end_at id now r s o)
  unfolding count_of
  end_at-Within id now r s none e w = w
  end_at-Within id now r s (some starting) e w = w
  end_at-Within id now r s (some (saving t)) e w = w
  end_at-Within id now r s (some executing) e w =
      let stopped : Bool = is_some (lookup id s.background.stopped) in
      on_state-Within limit id (ended now stopped r) (λ t. saving t) s
        (lookup id s.background.tasks) refl
        (λ t f. active_due t.status second (sym (ap due_task f) ∙ w.agreed id ∙ ap due_phase e))
        (λ t. end_status-due stopped r) w

  pub save_at_end-Within :
      (id : Text) (writes : Bool) (s : BackgroundSystem) (o : Option GoPhase)
      → lookup id s.goroutines ≡ o
      → Within limit s
      → Within limit (save_at_end id writes s o)
  save_at_end-Within id writes s none e w = w
  save_at_end-Within id writes s (some starting) e w = w
  save_at_end-Within id writes s (some executing) e w = w
  save_at_end-Within id writes s (some (saving t)) e w =
      persist-Within writes t (record s { goroutines = erase id s.goroutines })
        (record {
          unique = w.unique;
          limited = w.limited;
          bounded = w.bounded;
          agreed = λ k. rw (lookup-erase id k s.goroutines) (of_test k (text_eq id k) refl);
        })
    where
      of_test :
          (k : Text) (b : Bool)
          → text_eq id k ≡ b
          → due_task (lookup k s.background.tasks)
            ≡ due_phase (if b then none else lookup k s.goroutines)
      of_test k true f =
          subst (λ k. due_task (lookup k s.background.tasks) ≡ none) ((text_eq_iff id k).0 f)
            (w.agreed id ∙ ap due_phase e)
      of_test k false f = w.agreed k
