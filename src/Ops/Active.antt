-- ===== src/Ops/Active.antt =====
-- How many background tasks of internal/ops/tasks.go are active.
use mathlib.Core.Path.{subst}
use zcr521_ai_mcp.Ops.Background.{BackgroundTask, count_active, is_active}
use zcr521_ai_mcp.Ops.TaskControl.{clear_tasks}
use zcr521_ai_mcp.Common.{
  [], ◌∷◌, Option, lookup, ℕ, insert, some, Map, Text, if◌then◌else◌, ◌≡◌, none, Unique, ◌+◌,
  Bool-cases, text_eq, arith, inl, inr, ap, ◌∙◌, refl, text_eq_iff,
}

abbrev pub active_one : BackgroundTask → ℕ
active_one t = if is_active t.status then 1 else 0

pub count_active-insert-new :
    (id : Text) (t : BackgroundTask) (m : Map BackgroundTask)
    → lookup id m ≡ none
    → count_active (insert id t m) ≡ active_one t + count_active m
unfolding count_active insert lookup
count_active-insert-new id t [] h = refl
count_active-insert-new id t ((j, v) ∷ m) h = elim (Bool-cases (text_eq j id)) [
  | inl hit ↦ ground arith
  | inr miss ↦
      let rest = count_active-insert-new id t m (rw miss at h) in rw miss (omega (arith, rest))
]

active_or : Option BackgroundTask → ℕ
active_or none = 0
active_or (some t) = active_one t

pub count_active-insert-old :
    (id : Text) (t t₀ : BackgroundTask) (m : Map BackgroundTask)
    → lookup id m ≡ some t₀
    → active_one t₀ + count_active (insert id t m) ≡ active_one t + count_active m
unfolding count_active insert lookup active_or
count_active-insert-old id t t₀ [] h = ground arith
count_active-insert-old id t t₀ ((j, v) ∷ m) h = elim (Bool-cases (text_eq j id)) [
  | inl hit ↦
      let here : some v ≡ some t₀ = rw hit at h in
      let same : active_one v ≡ active_one t₀ = ap (λ o. active_or o) here in
      rw hit (omega (arith, same))
  | inr miss ↦
      let rest = count_active-insert-old id t t₀ m (rw miss at h) in rw miss (omega (arith, rest))
]

-- What clearing leaves of an entry.
abbrev pub if_active : Option BackgroundTask → Option BackgroundTask
if_active none = none
if_active (some t) = if is_active t.status then some t else none

pub count_active-clear : (m : Map BackgroundTask) → count_active (clear_tasks m).0 ≡ count_active m
unfolding count_active clear_tasks
count_active-clear [] = refl
count_active-clear ((j, t) ∷ m) = elim (Bool-cases (is_active t.status)) [
  | inl on ↦ rw (on, on) (ap (λ n. 1 + n) (count_active-clear m))
  | inr off ↦ rw off (omega (arith, count_active-clear m))
]

pub lookup-clear :
    (id : Text) (m : Map BackgroundTask)
    → Unique m
    → lookup id (clear_tasks m).0 ≡ if_active (lookup id m)
unfolding lookup clear_tasks
lookup-clear id [] u = refl
lookup-clear id ((j, t) ∷ m) (fresh, u) =
    let rest = lookup-clear id m u in
    elim (Bool-cases (is_active t.status)) [
      | inl on ↦ elim (Bool-cases (text_eq j id)) [
        | inl hit ↦ rw (on, hit, on) refl
        | inr miss ↦ rw (on, miss) rest
      ]
      | inr off ↦ elim (Bool-cases (text_eq j id)) [
        | inl hit ↦
            let gone : lookup id m ≡ none =
              subst (λ k. lookup k m ≡ none) ((text_eq_iff j id).0 hit) fresh in
            rw (off, hit, off) (rest ∙ ap if_active gone)
        | inr miss ↦ rw (off, miss) rest
      ]
    ]

pub clear-Unique : (m : Map BackgroundTask) → Unique m → Unique (clear_tasks m).0
unfolding clear_tasks
clear-Unique [] u = tt
clear-Unique ((j, t) ∷ m) (fresh, u) = elim (Bool-cases (is_active t.status)) [
  | inl on ↦ rw on (lookup-clear j m u ∙ ap if_active fresh, clear-Unique m u)
  | inr off ↦ rw off (clear-Unique m u)
]
