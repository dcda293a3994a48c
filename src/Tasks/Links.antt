-- ===== src/Tasks/Links.antt =====
-- The invariant `Linked` of internal/tasks/manager.go through a step of a worker, and through a
-- critical section of a client that ends no task.

use zcr521_ai_mcp.Tasks.Changes.{live, Keeps}
use mathlib.Core.Path.{subst, sym}
use zcr521_ai_mcp.Tasks.System.{back, System}
use zcr521_ai_mcp.Tasks.Lives.{Distinct, Linked, Apart, Moves, LiveIn}
use zcr521_ai_mcp.Tasks.Workers.{Split, here, there}
use zcr521_ai_mcp.Tasks.Data.{Manager}
use zcr521_ai_mcp.Common.{
  List, Option, All, some, none, text_eq, All-zip, ◌≡◌, false, Bool-cases, text_eq_sym, inl, lookup,
  text_eq_iff, inr, true,
}
use zcr521_ai_mcp.Tasks.Worker.{Worker}

-- The parts of a split list.
pub Split-All {κ} :
    (P : Worker → Type κ) {ws : List Worker} {w : Worker} {rest : List Worker}
    → Split ws w rest
    → All P ws
    → P w × All P rest
Split-All P (here w ws) a = a
Split-All P (there v s) a = let (p, q) = Split-All P s a.1 in (p, (a.0, q))

pub Split-Distinct :
    {ws : List Worker} {w : Worker} {rest : List Worker}
    → Split ws w rest
    → Distinct ws
    → Apart w.id rest × Distinct rest
Split-Distinct (here w ws) d = d
Split-Distinct (there v {w = w} s) d =
    let (ahead, others) = Split-All (λ x. text_eq v.id x.id ≡ false) s d.0 in
    let (apart, rest) = Split-Distinct s d.1 in ((rw text_eq_sym ahead, apart), (others, rest))

pub back-Linked :
    (m m' : Manager) (w : Worker) (w' : Option Worker) (ws rest : List Worker)
    → Linked (record { manager = m; workers = ws })
    → Split ws w rest
    → Moves m w m' w'
    → Linked (record { manager = m'; workers = back w' rest })
back-Linked m m' w none ws rest v sp mv =
    let (apart, distinct) = Split-Distinct sp v.distinct in
    record {
      alive =
          All-zip rest (λ x a l. rw (mv.others x.id a) l) apart (Split-All (LiveIn m) sp v.alive).1;
      distinct = distinct;
      awaited = λ j h. elim (Bool-cases (text_eq w.id j)) [
        | inl same ↦
            let gone : lookup j m'.waiters ≡ none =
              subst (λ k. lookup k m'.waiters ≡ none) ((text_eq_iff w.id j).0 same) mv.roused in
            cc
        | inr apart' ↦ rw (mv.others j apart') (v.awaited j (rw (mv.quiet j apart') at h))
      ];
    }
back-Linked m m' w (some u) ws rest v sp mv =
    let (apart, distinct) = Split-Distinct sp v.distinct in
    let (own, others) = Split-All (LiveIn m) sp v.alive in
    record {
      alive = (
        subst (λ k. live (lookup k m'.tasks) ≡ true) (sym mv.1) (mv.0.alive w.id own),
        All-zip rest (λ x a l. mv.0.alive x.id l) apart others,
      );
      distinct = (subst (λ k. Apart k rest) (sym mv.1) apart, distinct);
      awaited = λ j h. mv.0.alive j (v.awaited j (rw mv.0.quiet at h));
    }

pub Keeps-Linked :
    (m : Manager) (s : System) → Keeps s.manager m → Linked s → Linked (record s { manager = m })
Keeps-Linked m s k v = record {
  alive = All-zip s.workers (λ x l _. k.alive x.id l) v.alive v.alive;
  distinct = v.distinct;
  awaited = λ j h. k.alive j (v.awaited j (rw k.quiet at h));
}
