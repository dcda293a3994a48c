-- ===== src/Schedule/Cron.antt =====
-- nextCronTime, cronFieldMatches and validTimeOfDay of internal/ops/schedule.go. A time is a number
-- of nanoseconds from the Unix epoch, a whole number of minutes after Go's zero time. The local
-- calendar, which depends on the time zone, is a parameter.
use zcr521_ai_mcp.Ops.Numbers.{atoi}
use Prim.Native.Nat.{zero}
use zcr521_ai_mcp.Transfer.Syntax.{split, space_len}
use zcr521_ai_mcp.Common.{
  [], ◌∷◌, ℕ, Text, Option, List, some, none, ℤ, Bool, suc, ◌/◌, ◌-◌, if◌then◌else◌, ◌*◌, leb, pos,
  ◌==◌, text_eq, false, ◌+◌, and_then, codes, ltb, ◌&&◌, true, ◌||◌, ◌%◌,
}

-- The components of a time, the start of today's minute `hour`:`minute`, and the same date in some
-- years.
pub record Calendar : Type 0 where
  pub minute : ℕ → ℕ
  pub hour : ℕ → ℕ
  pub day : ℕ → ℕ
  pub month : ℕ → ℕ
  pub weekday : ℕ → ℕ
  pub today_at : ℕ → ℤ → ℤ → ℕ
  pub add_years : ℕ → ℕ → ℕ

abbrev pub minute_ns : ℕ
minute_ns = 60000000000

-- strings.IndexByte with the texts before and behind the byte.
unfoldable pub cut : ℕ → Text → Option (Text × Text)
cut sep [] = none
cut sep (c ∷ s) = if c == sep then some ([], s) else and_then (cut sep s) λ (a, b). some (c ∷ a, b)

pub data CronError : Type 0 where
  bad_step bad_start bad_end bad_value out_of_range field_count no_match : CronError

pub data Answer {ℓ} (A : Type ℓ) : Type ℓ where
  ok : A → Answer A
  err : CronError → Answer A

infixl 5 ◌>>=◌
abbrev pub ◌>>=◌ {ℓ κ} : {A : Type ℓ} {B : Type κ} → Answer A → (A → Answer B) → Answer B
ok a >>= f = f a
err e >>= f = err e

-- `err` for `none`.
abbrev pub or_err {ℓ} : {A : Type ℓ} → CronError → Option A → Answer A
or_err e none = err e
or_err e (some a) = ok a

abbrev pub positive_step : Option ℤ → Answer ℕ
positive_step (some (pos (suc n))) = ok (suc n)
positive_step _ = err bad_step

-- The text before the slash, and the step.
abbrev pub part_step : Text → Option (Text × Text) → Answer (Text × ℕ)
part_step part none = ok (part, 1)
part_step part (some (base, step)) = positive_step (atoi step) >>= λ n. ok (base, n)

abbrev pub range_bounds : Text → Option (Text × Text) → Answer (ℤ × ℤ)
range_bounds base none = or_err bad_value (atoi base) >>= λ n. ok (n, n)
range_bounds base (some (first, last)) =
    or_err bad_start (atoi first) >>= λ a. or_err bad_end (atoi last) >>= λ b. ok (a, b)

abbrev pub part_bounds : Text → ℕ → ℕ → Answer (ℤ × ℤ)
part_bounds base minimum maximum =
    if text_eq base (codes "*")
    then ok (pos minimum, pos maximum)
    else range_bounds base (cut b'-' base)

-- What a part of a field stands for, within the bounds of the field.
pub record Part : Type 0 where
  pub first : ℕ
  pub last : ℕ
  pub step : ℕ

abbrev pub bounded_part : ℕ → ℕ → ℕ → ℤ × ℤ → Answer Part
bounded_part minimum maximum step (pos first, pos last) =
    if ltb first minimum || ltb maximum last || ltb last first
    then err out_of_range
    else ok (record { first = first; last = last; step = step })
bounded_part minimum maximum step _ = err out_of_range

unfoldable pub cron_part : Text → ℕ → ℕ → Answer Part
cron_part part minimum maximum = part_step part (cut b'/' part) >>= λ (base, step).
    part_bounds base minimum maximum >>= bounded_part minimum maximum step

unfoldable pub part_matches : Part → ℕ → Bool
part_matches p value = leb p.first value && leb value p.last && (value - p.first) % p.step == 0

-- The loop over the parts: one that matches ends it.
unfoldable pub parts_match : List Text → ℕ → ℕ → ℕ → Answer Bool
parts_match [] value minimum maximum = ok false
parts_match (part ∷ rest) value minimum maximum =
    let more = parts_match rest value minimum maximum in
    cron_part part minimum maximum >>= λ p. if part_matches p value then ok true else more

unfoldable pub cron_field_matches : Text → ℕ → ℕ → ℕ → Answer Bool
cron_field_matches field value minimum maximum =
    parts_match (split b',' field) value minimum maximum

-- The value of each field at a time, and its bounds.
abbrev pub field_values : Calendar → ℕ → List (ℕ × ℕ × ℕ)
field_values c t =
    (c.minute t, 0, 59)
    ∷ (c.hour t, 0, 23)
    ∷ (c.day t, 1, 31)
    ∷ (c.month t, 1, 12)
    ∷ (c.weekday t, 0, 6)
    ∷ []

-- The loop over the fields: one that does not match ends it.
unfoldable pub fields_match : List Text → List (ℕ × ℕ × ℕ) → Answer Bool
fields_match (field ∷ fields) ((value, minimum, maximum) ∷ values) =
    let more = fields_match fields values in
    cron_field_matches field value minimum maximum >>= λ m. if m then more else ok false
fields_match _ _ = ok true

-- The search from a candidate, with the minutes that are left before the limit as fuel.
unfoldable pub search_minutes : Calendar → List Text → ℕ → ℕ → Answer ℕ
search_minutes c fields zero candidate = err no_match
search_minutes c fields (suc left) candidate =
    let more = search_minutes c fields left (candidate + minute_ns) in
    fields_match fields (field_values c candidate) >>= λ m. if m then ok candidate else more

abbrev pub first_candidate : ℕ → ℕ
first_candidate after = after / minute_ns * minute_ns + minute_ns

-- The minutes from a candidate that are before the limit: the limit is a date, and need not be a
-- whole number of minutes away.
abbrev pub minutes_before : ℕ → ℕ → ℕ
minutes_before candidate limit = (limit - candidate + 59999999999) / minute_ns

abbrev pub cron_fields : Calendar → List Text → ℕ → Answer ℕ
cron_fields c (a ∷ b ∷ d ∷ m ∷ w ∷ []) after =
    let candidate = first_candidate after in
    search_minutes c (a ∷ b ∷ d ∷ m ∷ w ∷ []) (minutes_before candidate (c.add_years candidate 5))
      candidate
cron_fields c _ after = err field_count

-- strings.Fields: the words between spaces, of a text that is read from its end.
abbrev pub word_push : ℕ → Bool → List Text → List Text
word_push c true (w ∷ ws) = (c ∷ w) ∷ ws
word_push c _ ws = (c ∷ []) ∷ ws

abbrev pub starts_word : Text → Bool
starts_word [] = false
starts_word (c ∷ s) = space_len (c ∷ s) == 0

-- The number is the bytes of the present space that are left.
unfoldable words_from : ℕ → Text → List Text
words_from k [] = []
words_from zero (c ∷ s) =
    let rest = words_from (space_len (c ∷ s) - 1) s in
    if space_len (c ∷ s) == 0 then word_push c (starts_word s) rest else rest
words_from (suc k) (c ∷ s) = words_from k s

unfoldable pub words : Text → List Text
unfolding words_from
words s = words_from 0 s

unfoldable pub next_cron_time : Calendar → Text → ℕ → Answer ℕ
next_cron_time c expression after = cron_fields c (words expression) after

abbrev pub within_day : Option ℤ → Option ℤ → Bool
within_day (some (pos h)) (some (pos m)) = leb h 23 && leb m 59
within_day _ _ = false

abbrev pub two_parts : List Text → Bool
two_parts (h ∷ m ∷ []) = within_day (atoi h) (atoi m)
two_parts _ = false

unfoldable pub valid_time_of_day : Text → Bool
valid_time_of_day value = two_parts (split b':' value)
