-- ===== src/Schedule/Fields.antt =====
-- What the fields of a cron expression (internal/ops/schedule.go) stand for: values, not texts.
use zcr521_ai_mcp.Transfer.Syntax.{split}
use zcr521_ai_mcp.Schedule.Cron.{Part, part_matches, parts_match, Calendar, cron_part, ok}
use native.Mathlib.Nat.{div-add-mod', mul-mod_left}
use zcr521_ai_mcp.Common.{
  [], ◌∷◌, List, any, ℕ, ◌≡◌, ◌⊎◌, Text, Bool, ◌+◌, true, ◌&&◌, false, ◌*◌, ◌≤◌, arith, inl,
  Bool-cases, ◌-◌, inr, ◌%◌, refl, ◌/◌,
}

-- The values of a part: from its first one in steps, up to its last one.
abbrev pub IsIn : Part → ℕ → Type 0
IsIn p value = (k : ℕ) × (value ≡ p.first + k * p.step) × (value ≤ p.last)

-- Those of a field's parts together.
abbrev pub IsInSome : List Part → ℕ → Type 0
IsInSome [] value = ⊥
IsInSome (p ∷ ps) value = IsIn p value ⊎ IsInSome ps value

part_matches-IsIn : (p : Part) (value : ℕ) → part_matches p value ≡ true → IsIn p value
unfolding part_matches
part_matches-IsIn p value h =
    let above : p.first ≤ value = ground arith in
    let below : value ≤ p.last = ground arith in
    let even : (value - p.first) % p.step ≡ 0 = ground arith in
    ((value - p.first) / p.step, omega (arith, div-add-mod' (value - p.first) p.step), below)

IsIn-part_matches : (p : Part) (value : ℕ) → IsIn p value → part_matches p value ≡ true
unfolding part_matches
IsIn-part_matches p value (k, e, below) =
    let above : p.first ≤ value = omega arith in
    let rest : value - p.first ≡ k * p.step = omega arith in
    let even : (value - p.first) % p.step ≡ 0 = rw rest (mul-mod_left k p.step) in ground arith

some_matches-IsInSome :
    (ps : List Part) (value : ℕ) → any (λ p. part_matches p value) ps ≡ true → IsInSome ps value
unfolding any
some_matches-IsInSome [] value h = ground arith
some_matches-IsInSome (p ∷ ps) value h = elim (Bool-cases (part_matches p value)) [
  | inl hit ↦ inl (part_matches-IsIn p value hit)
  | inr miss ↦ inr (some_matches-IsInSome ps value (ground arith))
]

IsInSome-some_matches :
    (ps : List Part) (value : ℕ) → IsInSome ps value → any (λ p. part_matches p value) ps ≡ true
unfolding any
IsInSome-some_matches [] value h = elim h [ ]
IsInSome-some_matches (p ∷ ps) value (inl h) = rw (IsIn-part_matches p value h) refl
IsInSome-some_matches (p ∷ ps) value (inr h) =
    let rest = IsInSome-some_matches ps value h in ground arith

-- The texts of a field's parts, and what they stand for.
abbrev pub ReadAs : ℕ → ℕ → List Text → List Part → Type 0
ReadAs minimum maximum [] [] = Unit {0}
ReadAs minimum maximum (t ∷ ts) (p ∷ ps) =
    (cron_part t minimum maximum ≡ ok p) × ReadAs minimum maximum ts ps
ReadAs minimum maximum _ _ = ⊥

pub parts_match-ReadAs :
    (ts : List Text) (ps : List Part) (value minimum maximum : ℕ)
    → ReadAs minimum maximum ts ps
    → parts_match ts value minimum maximum ≡ ok (any (λ p. part_matches p value) ps)
unfolding parts_match any
parts_match-ReadAs [] [] value minimum maximum h = refl
parts_match-ReadAs [] (p ∷ ps) value minimum maximum h = elim h [ ]
parts_match-ReadAs (t ∷ ts) [] value minimum maximum h = elim h [ ]
parts_match-ReadAs (t ∷ ts) (p ∷ ps) value minimum maximum (e, h) =
    elim (Bool-cases (part_matches p value)) [
      | inl hit ↦ rw (e, hit) refl
      | inr miss ↦ rw (e, miss, parts_match-ReadAs ts ps value minimum maximum h) refl
    ]

-- The five fields of an expression.
pub record Fields : Type 0 where
  pub minutes : List Part
  pub hours : List Part
  pub days : List Part
  pub months : List Part
  pub weekdays : List Part

-- The five texts, and what they stand for.
pub data AllReadAs : List Text → Fields → Type 0 where
  five :
      (a b d m w : Text) {f : Fields}
      → ReadAs 0 59 (split b',' a) f.minutes
      → ReadAs 0 23 (split b',' b) f.hours
      → ReadAs 1 31 (split b',' d) f.days
      → ReadAs 1 12 (split b',' m) f.months
      → ReadAs 0 6 (split b',' w) f.weekdays
      → AllReadAs (a ∷ b ∷ d ∷ m ∷ w ∷ []) f

-- The expression stands for a time: each component is one of its field's values.
abbrev pub Fires : Calendar → Fields → ℕ → Type 0
Fires c f t =
    IsInSome f.minutes (c.minute t)
    × IsInSome f.hours (c.hour t)
    × IsInSome f.days (c.day t)
    × IsInSome f.months (c.month t)
    × IsInSome f.weekdays (c.weekday t)

abbrev pub one_matches : List Part → ℕ → Bool
one_matches ps value = any (λ p. part_matches p value) ps

abbrev pub fires : Calendar → Fields → ℕ → Bool
fires c f t =
    one_matches f.minutes (c.minute t)
    && one_matches f.hours (c.hour t)
    && one_matches f.days (c.day t)
    && one_matches f.months (c.month t)
    && one_matches f.weekdays (c.weekday t)

pub fires-Fires : (c : Calendar) (f : Fields) (t : ℕ) → fires c f t ≡ true → Fires c f t
fires-Fires c f t h = (
  some_matches-IsInSome f.minutes (c.minute t) (ground arith),
  some_matches-IsInSome f.hours (c.hour t) (ground arith),
  some_matches-IsInSome f.days (c.day t) (ground arith),
  some_matches-IsInSome f.months (c.month t) (ground arith),
  some_matches-IsInSome f.weekdays (c.weekday t) (ground arith),
)

pub not-Fires : (c : Calendar) (f : Fields) (t : ℕ) → fires c f t ≡ false → ¬ (Fires c f t)
not-Fires c f t h (a, b, d, m, w) =
    let ea = IsInSome-some_matches f.minutes (c.minute t) a in
    let eb = IsInSome-some_matches f.hours (c.hour t) b in
    let ed = IsInSome-some_matches f.days (c.day t) d in
    let em = IsInSome-some_matches f.months (c.month t) m in
    let ew = IsInSome-some_matches f.weekdays (c.weekday t) w in absurd (ground arith)
