-- ===== src/Tasks/Wakeups.antt =====
-- Wait and notifyLocked of internal/tasks/manager.go: a channel that waits for a task is closed at
-- the latest when the task ends.
use mathlib.Core.Path.{subst, sym}
use zcr521_ai_mcp.Tasks.Worker.{Worker, Choice}
use zcr521_ai_mcp.Tasks.Client.{wait_found, wait}
use zcr521_ai_mcp.Common.{
  ℕ, List, Text, Bool, Option, false, lookup, ◌≡◌, inl, Bool-cases, ◌∷◌, true, text_eq, some, ◌==◌,
  ◌++◌, ◌⊎◌, is_some, ◌||◌, arith, none, inr, [], text_eq_iff, lookup-insert, refl,
}
use zcr521_ai_mcp.Tasks.System.{
  step, System, Action, Reach, work, IsFresh, submits, cancels, updates, waits, works, closes,
}
use zcr521_ai_mcp.Tasks.Finality.{
  Later, now, then', Later-Reach, Reach-Linked, submit-Keeps, close-Keeps,
}
use zcr521_ai_mcp.Tasks.Lives.{LiveIn, Moves, run-Moves, Linked}
use zcr521_ai_mcp.Tasks.Links.{Split-All}
use zcr521_ai_mcp.Tasks.Workers.{Picked, take_worker-Picked}
use zcr521_ai_mcp.Tasks.Changes.{Keeps, Ends, live, cancel-Keeps, update-Keeps}
use zcr521_ai_mcp.Tasks.Data.{Manager, waiters_of, Env, Task, terminal, is_terminal}

-- Whether a channel is among some channels.
unfoldable pub has_channel : ℕ → List ℕ → Bool
has_channel c [] = false
has_channel c (d ∷ ds) = d == c || has_channel c ds

-- Whether a channel waits for a task, and whether it has been closed.
abbrev pub waits_for : ℕ → Text → Manager → Bool
waits_for c j m = has_channel c (waiters_of (lookup j m.waiters))

abbrev pub is_woken : ℕ → Manager → Bool
is_woken c m = has_channel c m.woken

has_channel_left :
    (c : ℕ) (ds es : List ℕ) → has_channel c ds ≡ true → has_channel c (ds ++ es) ≡ true
unfolding has_channel
has_channel_left c [] es h = cc
has_channel_left c (d ∷ ds) es h = ground (arith, has_channel_left c ds es)

has_channel_right :
    (c : ℕ) (ds es : List ℕ) → has_channel c es ≡ true → has_channel c (ds ++ es) ≡ true
unfolding has_channel
has_channel_right c [] es h = h
has_channel_right c (d ∷ ds) es h = ground (arith, has_channel_right c ds es h)

-- A step loses no waiting channel.
record Carries (c : ℕ) (j : Text) (m m' : Manager) : Type 0 where
  pub waiting : waits_for c j m ≡ true → (waits_for c j m' ≡ true) ⊎ (is_woken c m' ≡ true)
  pub woken : is_woken c m ≡ true → is_woken c m' ≡ true

Keeps-Carries : (c : ℕ) (j : Text) (m m' : Manager) → Keeps m m' → Carries c j m m'
Keeps-Carries c j m m' k = record { waiting = λ h. inl (rw k.quiet h); woken = λ h. rw k.unwoken h }

Ends-Carries : (c : ℕ) (j id : Text) (m m' : Manager) → Ends id m m' → Carries c j m m'
Ends-Carries c j id m m' e = record {
  waiting = λ h. elim (Bool-cases (text_eq id j)) [
    | inl same ↦
        let h' : waits_for c id m ≡ true =
          subst (λ k. waits_for c k m ≡ true) (sym ((text_eq_iff id j).0 same)) h in
        inr (rw e.woke (has_channel_left c _ m.woken h'))
    | inr apart ↦ inl (rw (e.quiet j apart) h)
  ];
  woken = λ h. rw e.woke (has_channel_right c _ m.woken h);
}

Moves-Carries :
    (c : ℕ) (j : Text) (m m' : Manager) (w : Worker) (w' : Option Worker)
    → Moves m w m' w'
    → Carries c j m m'
Moves-Carries c j m m' w none e = Ends-Carries c j w.id m m' e
Moves-Carries c j m m' w (some u) k = Keeps-Carries c j m m' k.0

work-Carries :
    (c : ℕ) (j : Text) (env : Env) (id : Text) (choice : Choice) (s : System)
    (o : Option (Worker × List Worker))
    → Picked id s.workers o
    → Linked s
    → Carries c j s.manager (work env choice s o).manager
work-Carries c j env id choice s none k v = record { waiting = inl; woken = λ h. h }
work-Carries c j env id choice s (some (w, rest)) k v =
    Moves-Carries c j s.manager _ w _
      (run-Moves env choice w s.manager (Split-All (LiveIn s.manager) k.0 v.alive).0)

wait-Carries :
    (c : ℕ) (j id : Text) (channel : ℕ) (m : Manager) (o : Option Task)
    → Carries c j m (wait_found id channel m o).0
unfolding terminal
wait-Carries c j id channel m none = record { waiting = inl; woken = λ h. h }
wait-Carries c j id channel m (some task) = elim (Bool-cases (is_terminal task.status)) [
  | inl done ↦ rw done (record { waiting = inl; woken = λ h. h })
  | inr going ↦ rw going (record {
    waiting = λ h. elim (Bool-cases (text_eq id j)) [
      | inl same ↦
          let e = (text_eq_iff id j).0 same in
          inl (
            rw
              (
                lookup-insert id j (waiters_of (lookup id m.waiters) ++ channel ∷ []) m.waiters,
                same,
              )
              (has_channel_left c _ (channel ∷ []) (subst (λ k. waits_for c k m ≡ true) (sym e) h)))
      | inr apart ↦ inl (
          rw
            (lookup-insert id j (waiters_of (lookup id m.waiters) ++ channel ∷ []) m.waiters, apart)
            h)
    ];
    woken = λ h. h;
  })
]

step-Carries :
    (c : ℕ) (j : Text) (a : Action) (s : System)
    → IsFresh a s
    → Linked s
    → Carries c j s.manager (step a s).manager
unfolding step
step-Carries c j (submits env tool raw heavy durable id) s f v =
    Keeps-Carries c j s.manager _ (submit-Keeps env tool raw heavy durable id s f).0
step-Carries c j (cancels env id) s f v =
    Keeps-Carries c j s.manager _ (cancel-Keeps env id s.manager)
step-Carries c j (updates env id progress message) s f v =
    Keeps-Carries c j s.manager _ (update-Keeps env id progress message s.manager)
step-Carries c j (waits id channel) s f v =
    unfold wait in wait-Carries c j id channel s.manager (lookup id s.manager.tasks)
step-Carries c j closes s f v = Keeps-Carries c j s.manager _ (close-Keeps s.manager)
step-Carries c j (works env id choice) s f v =
    work-Carries c j env id choice s _ (take_worker-Picked id s.workers) v

waits_for-is_some :
    (c : ℕ) (o : Option (List ℕ)) → has_channel c (waiters_of o) ≡ true → is_some o ≡ true
unfolding has_channel
waits_for-is_some c none h = cc
waits_for-is_some c (some cs) h = refl

waiting_or_woken :
    {s u : System} (c : ℕ) (j : Text)
    → Reach s
    → Later s u
    → waits_for c j s.manager ≡ true
    → (waits_for c j u.manager ≡ true) ⊎ (is_woken c u.manager ≡ true)
waiting_or_woken c j r now h = inl h
waiting_or_woken c j r (then' a {u = v} l f) h =
    let k = step-Carries c j a v f (Reach-Linked (Later-Reach r l)) in
    elim (waiting_or_woken c j r l h) [
      | inl kept ↦ k.waiting kept
      | inr woken ↦ inr (k.woken woken)
    ]

-- No wake-up is lost: from a state that the task manager reaches in which the channel of a Wait is
-- registered for a task, whatever clients and workers do next, either the channel has been closed,
-- or it is still registered for the task, which is there and has not ended.
pub waiter_woken :
    {s u : System} (c : ℕ) (j : Text)
    → Reach s
    → Later s u
    → waits_for c j s.manager ≡ true
    → ((waits_for c j u.manager ≡ true) × (live (lookup j u.manager.tasks) ≡ true))
      ⊎ (is_woken c u.manager ≡ true)
waiter_woken {u} c j r l h = elim (waiting_or_woken c j r l h) [
  | inl kept ↦ inl (
    kept,
    (Reach-Linked (Later-Reach r l)).awaited j
        (waits_for-is_some c (lookup j u.manager.waiters) kept),
  )
  | inr woken ↦ inr woken
]
