-- ===== src/Schedule/Least.antt =====
-- nextCronTime of internal/ops/schedule.go finds the first minute that a cron expression stands for.
use Prim.Native.Nat.{zero}
use mathlib.Core.Path.{subst, ap}
use zcr521_ai_mcp.Transfer.Syntax.{split}
use zcr521_ai_mcp.Schedule.Fields.{
  Fields, AllReadAs, fires, parts_match-ReadAs, Fires, fires-Fires, not-Fires, ReadAs, five,
}
use zcr521_ai_mcp.Schedule.Cron.{
  search_minutes, fields_match, next_cron_time, Calendar, cron_field_matches, first_candidate,
  Answer, field_values, ok, minute_ns, words, err, no_match, cron_fields, minutes_before,
}
use zcr521_ai_mcp.Common.{
  [], ◌∷◌, ℕ, Bool, ◌≡◌, List, Text, ◌+◌, ◌<◌, false, ◌*◌, true, suc, inr, ◌⊎◌, arith, inl,
  Bool-cases, refl,
}

-- What a search from a candidate finds among so many minutes.
abbrev First : (ℕ → Bool) → ℕ → ℕ → Answer ℕ → Type 0
First p left candidate answer =
    ((k : ℕ) × (k < left)
      × (answer ≡ ok (candidate + k * minute_ns))
      × (p (candidate + k * minute_ns) ≡ true)
      × ((j : ℕ) → j < k → p (candidate + j * minute_ns) ≡ false))
    ⊎ ((answer ≡ err no_match) × ((j : ℕ) → j < left → p (candidate + j * minute_ns) ≡ false))

later :
    (p : ℕ → Bool) (candidate k : ℕ)
    → p candidate ≡ false
    → ((j : ℕ) → j < k → p (candidate + minute_ns + j * minute_ns) ≡ false)
    → (j : ℕ) → j < suc k
    → p (candidate + j * minute_ns) ≡ false
later p candidate k here rest zero h =
    let e : candidate ≡ candidate + zero * minute_ns = omega arith in
    subst (λ t. p t ≡ false) e here
later p candidate k here rest (suc j) h =
    let e : candidate + minute_ns + j * minute_ns ≡ candidate + suc j * minute_ns = omega arith in
    subst (λ t. p t ≡ false) e (rest j (omega arith))

First-later :
    (p : ℕ → Bool) (left candidate : ℕ) (answer : Answer ℕ)
    → p candidate ≡ false
    → First p left (candidate + minute_ns) answer
    → First p (suc left) candidate answer
First-later p left candidate answer here (inl (k, below, e, hit, before)) =
    let same : candidate + minute_ns + k * minute_ns ≡ candidate + suc k * minute_ns =
      omega arith in
    inl (
      suc k,
      omega arith,
      subst (λ t. answer ≡ ok t) same e,
      subst (λ t. p t ≡ true) same hit,
      later p candidate k here before,
    )
First-later p left candidate answer here (inr (e, none')) =
    inr (e, later p candidate left here none')

search_minutes-First :
    (c : Calendar) (fields : List Text) (p : ℕ → Bool)
    → ((t : ℕ) → fields_match fields (field_values c t) ≡ ok (p t))
    → (left candidate : ℕ) → First p left candidate (search_minutes c fields left candidate)
unfolding search_minutes
search_minutes-First c fields p known zero candidate = inr (refl, λ j h. absurd (omega arith))
search_minutes-First c fields p known (suc left) candidate = elim (Bool-cases (p candidate)) [
  | inl hit ↦
      let e : candidate ≡ candidate + 0 * minute_ns = omega arith in
      inl (
        0,
        omega arith,
        rw (known candidate, hit) (ap ok e),
        subst (λ t. p t ≡ true) e hit,
        λ j h. absurd (omega arith),
      )
  | inr miss ↦
      rw (known candidate, miss)
        (First-later p left candidate _ miss
          (search_minutes-First c fields p known left (candidate + minute_ns)))
]

fields_match-fires :
    (c : Calendar) (a b d m w : Text) (f : Fields) (t : ℕ)
    → ReadAs 0 59 (split b',' a) f.minutes
    → ReadAs 0 23 (split b',' b) f.hours
    → ReadAs 1 31 (split b',' d) f.days
    → ReadAs 1 12 (split b',' m) f.months
    → ReadAs 0 6 (split b',' w) f.weekdays
    → fields_match (a ∷ b ∷ d ∷ m ∷ w ∷ []) (field_values c t) ≡ ok (fires c f t)
unfolding fields_match cron_field_matches
fields_match-fires c a b d m w f t ha hb hd hm hw =
    rw
      (
        parts_match-ReadAs (split b',' a) f.minutes (c.minute t) 0 59 ha,
        parts_match-ReadAs (split b',' b) f.hours (c.hour t) 0 23 hb,
        parts_match-ReadAs (split b',' d) f.days (c.day t) 1 31 hd,
        parts_match-ReadAs (split b',' m) f.months (c.month t) 1 12 hm,
        parts_match-ReadAs (split b',' w) f.weekdays (c.weekday t) 0 6 hw,
      )
      (ground arith)

-- The whole minutes after a time.
abbrev pub minute_after : ℕ → ℕ → ℕ
minute_after after k = first_candidate after + k * minute_ns

-- nextCronTime of an expression whose five fields can be read answers with a whole minute that is
-- later than the time and for which the expression stands, and it stands for no whole minute in
-- between; or it says that there is none, and then it stands for no whole minute of the next five
-- years.
pub next_cron_time_least :
    (c : Calendar) (expression : Text) (f : Fields) (after : ℕ)
    → AllReadAs (words expression) f
    → ((k : ℕ) × (next_cron_time c expression after ≡ ok (minute_after after k))
        × (after < minute_after after k)
        × Fires c f (minute_after after k)
        × ((j : ℕ) → j < k → ¬ (Fires c f (minute_after after j))))
      ⊎ ((next_cron_time c expression after ≡ err no_match)
          × ((j : ℕ)
              → minute_after after j < c.add_years (first_candidate after) 5
              → ¬ (Fires c f (minute_after after j))))
unfolding next_cron_time
next_cron_time_least c expression f after h = least (words expression) h
  where
    least :
        (texts : List Text)
        → AllReadAs texts f
        → ((k : ℕ) × (cron_fields c texts after ≡ ok (minute_after after k))
            × (after < minute_after after k)
            × Fires c f (minute_after after k)
            × ((j : ℕ) → j < k → ¬ (Fires c f (minute_after after j))))
          ⊎ ((cron_fields c texts after ≡ err no_match)
              × ((j : ℕ)
                  → minute_after after j < c.add_years (first_candidate after) 5
                  → ¬ (Fires c f (minute_after after j))))
    least _ (five a b d m w ha hb hd hm hw) =
        elim (search_minutes-First c (a ∷ b ∷ d ∷ m ∷ w ∷ []) (fires c f)
          (λ t. fields_match-fires c a b d m w f t ha hb hd hm hw)
          (minutes_before (first_candidate after) (c.add_years (first_candidate after) 5))
          (first_candidate after)) [
            | inl (k, below, e, hit, before) ↦ inl (
              k,
              e,
              omega arith,
              fires-Fires c f (minute_after after k) hit,
              λ j lt. not-Fires c f (minute_after after j) (before j lt),
            )
            | inr (e, none') ↦
                inr (e, λ j lt. not-Fires c f (minute_after after j) (none' j (omega arith)))
          ]
