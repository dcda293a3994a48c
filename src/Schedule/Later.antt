-- ===== src/Schedule/Later.antt =====
-- scheduleNext of internal/ops/schedule.go: when the time it gives is in the future.
use zcr521_ai_mcp.Ops.Numbers.{atoi}
use Prim.Native.Nat.{zero}
use zcr521_ai_mcp.Transfer.Syntax.{split}
use zcr521_ai_mcp.Schedule.Cron.{
  Calendar, search_minutes, next_cron_time, valid_time_of_day, cron_fields, first_candidate, Answer,
  words, ◌>>=◌, within_day, ok, err, fields_match, field_values, minute_ns, two_parts,
}
use zcr521_ai_mcp.Schedule.Data.{
  Schedule, next_weekday, times_int64, Kind, Next, add_time, time_or_zero, cron_next, next_of,
  interval, next_daily, second_ns, day_ns, daily, weekly, other_kind, once, cron, or_zero, boot,
  network, charging,
}
use zcr521_ai_mcp.Common.{
  false, [], ◌∷◌, Map, ℕ, ◌≤◌, ◌≡◌, List, Text, ℤ, ◌<◌, pos, ◌⊎◌, true, ◌+◌, inl, Bool-cases, suc,
  to_int64_small, ltb, arith, some, int_eq, ◌*◌, inr, Bool, Option, refl, if◌then◌else◌, negsuc,
  none, ap, ◌∙◌,
}

-- A time of the clock today, and a day, is later than now: no day here has more than 24 hours.
abbrev pub DaysAreShort : Calendar → ℕ → Type 0
DaysAreShort c now = (h m : ℕ) → h ≤ 23 → m ≤ 59 → now < c.today_at now (pos h) (pos m) + day_ns

-- In any fifteen times that are 24 hours apart there is each day of the week.
abbrev pub WeekdaysCome : Calendar → Type 0
WeekdaysCome c = (w t : ℕ) → w ≤ 6 → (k : ℕ) × (k ≤ 14) × (c.weekday (t + k * day_ns) ≡ w)

-- What parseSchedule checks of a kind, and no interval of more than 2^63 nanoseconds.
abbrev pub IsRegularKind : Schedule → Kind → Type 0
IsRegularKind s interval = (n : ℕ) × (s.every_seconds ≡ pos n) × (0 < n) × (n ≤ 9223372036)
IsRegularKind s daily = valid_time_of_day s.time_of_day ≡ true
IsRegularKind s weekly =
    (valid_time_of_day s.time_of_day ≡ true) × ((w : ℕ) × (s.weekday ≡ pos w) × (w ≤ 6))
IsRegularKind s _ = Unit

abbrev pub AllRegular : Map Schedule → Type 0
AllRegular [] = Unit
AllRegular ((_, s) ∷ m) = IsRegularKind s s.type × AllRegular m

abbrev pub Later : ℕ → ℕ → Type 0
Later now t = (t ≡ 0) ⊎ (now < t)

-- It is there, and later.
abbrev pub LaterTime : ℕ → Option ℕ → Type 0
LaterTime now none = ⊥
LaterTime now (some t) = Later now t

abbrev pub LaterNext : ℕ → Next → Type 0
LaterNext now n = LaterTime now (time_or_zero n)

search_minutes-Later :
    (c : Calendar) (fields : List Text) (now left candidate : ℕ)
    → now < candidate
    → LaterNext now (cron_next (search_minutes c fields left candidate))
unfolding search_minutes
search_minutes-Later c fields now zero candidate h = inl refl
search_minutes-Later c fields now (suc left) candidate h =
    chosen (fields_match fields (field_values c candidate))
      (search_minutes c fields left (candidate + minute_ns))
      (search_minutes-Later c fields now left (candidate + minute_ns) (omega arith))
  where
    chosen :
        (m : Answer Bool) (more : Answer ℕ)
        → LaterNext now (cron_next more)
        → LaterNext now (cron_next (m >>= λ b. if b then ok candidate else more))
    chosen (ok true) more later = inr h
    chosen (ok false) more later = later
    chosen (err e) more later = inl refl

next_cron_time-Later :
    (c : Calendar) (expression : Text) (now : ℕ)
    → LaterNext now (cron_next (next_cron_time c expression now))
unfolding next_cron_time
next_cron_time-Later c expression now = of_words (words expression)
  where
    of_words : (ws : List Text) → LaterNext now (cron_next (cron_fields c ws now))
    of_words (a ∷ b ∷ d ∷ m ∷ w ∷ []) =
        search_minutes-Later c _ now _ (first_candidate now) (omega arith)
    of_words [] = inl refl
    of_words (_ ∷ []) = inl refl
    of_words (_ ∷ _ ∷ []) = inl refl
    of_words (_ ∷ _ ∷ _ ∷ []) = inl refl
    of_words (_ ∷ _ ∷ _ ∷ _ ∷ []) = inl refl
    of_words (_ ∷ _ ∷ _ ∷ _ ∷ _ ∷ _ ∷ _) = inl refl

-- A valid time of day gives a next time, which is later.
next_daily-later :
    (c : Calendar) (now : ℕ) (value : Text)
    → DaysAreShort c now
    → valid_time_of_day value ≡ true
    → (t : ℕ) × (next_daily c (split b':' value) now ≡ some t) × (now < t)
unfolding valid_time_of_day
next_daily-later c now value short valid = of_parts (split b':' value) valid
  where
    of_numbers :
        (h m : Option ℤ)
        → within_day h m ≡ true
        → now < (
            if ltb now (c.today_at now (or_zero h) (or_zero m))
            then c.today_at now (or_zero h) (or_zero m)
            else c.today_at now (or_zero h) (or_zero m) + day_ns)
    of_numbers (some (pos h)) (some (pos m)) e =
        let h23 : h ≤ 23 = ground arith in
        let m59 : m ≤ 59 = ground arith in let soon = short h m h23 m59 in ground arith
    of_numbers (some (pos h)) (some (negsuc m)) e = ground arith
    of_numbers (some (pos h)) none e = ground arith
    of_numbers (some (negsuc h)) m e = ground arith
    of_numbers none m e = ground arith

    of_parts :
        (parts : List Text)
        → two_parts parts ≡ true
        → (t : ℕ) × (next_daily c parts now ≡ some t) × (now < t)
    of_parts (h ∷ m ∷ []) e = (_, refl, of_numbers (atoi h) (atoi m) e)
    of_parts [] e = ground arith
    of_parts (_ ∷ []) e = ground arith
    of_parts (_ ∷ _ ∷ _ ∷ _) e = ground arith

next_weekday-Later :
    (c : Calendar) (w now fuel next k : ℕ)
    → now < next
    → k < fuel
    → c.weekday (next + k * day_ns) ≡ w
    → LaterNext now (next_weekday c (pos w) fuel next)
unfolding next_weekday
next_weekday-Later c w now zero next k h f e = absurd (omega arith)
next_weekday-Later c w now (suc fuel) next zero h f e =
    let here : c.weekday next ≡ w = ap (λ t. c.weekday t) (omega arith) ∙ e in
    let hit : int_eq (pos w) (c.weekday next) ≡ true = ground arith in rw hit (inr h)
next_weekday-Later c w now (suc fuel) next (suc k) h f e =
    let later =
      next_weekday-Later c w now fuel (next + day_ns) k (omega arith) (omega arith)
        (ap (λ t. c.weekday t) (omega arith) ∙ e) in
    elim (Bool-cases (int_eq (pos w) (c.weekday next))) [
      | inl hit ↦ rw hit (inr h)
      | inr miss ↦ rw miss later
    ]

interval-later :
    (now n : ℕ) → 0 < n → n ≤ 9223372036 → now < add_time now (times_int64 (pos n) second_ns)
unfolding times_int64 add_time
interval-later now n h k = rw (to_int64_small (n * second_ns) (omega arith)) (omega arith)

pub next_of-Later :
    (c : Calendar) (s : Schedule) (now : ℕ) (kind : Kind)
    → DaysAreShort c now
    → WeekdaysCome c
    → IsRegularKind s kind
    → LaterNext now (next_of c s now kind)
next_of-Later c s now once short come r = elim (Bool-cases (ltb now s.at)) [
  | inl hit ↦ rw hit (inr (ground arith))
  | inr miss ↦ rw miss (inl refl)
]
next_of-Later c s now interval short come (n, e, low, high) =
    inr (rw e (interval-later now n low high))
next_of-Later c s now daily short come r =
    let (t, e, h) = next_daily-later c now s.time_of_day short r in rw e (inr h)
next_of-Later c s now weekly short come (r, (w, e', small)) =
    let (t, e, h) = next_daily-later c now s.time_of_day short r in
    let (k, few, there) = come w t small in
    rw (e, e') (next_weekday-Later c w now 15 t k h (omega arith) there)
next_of-Later c s now cron short come r = next_cron_time-Later c s.cron now
next_of-Later c s now boot short come r = inr (omega arith)
next_of-Later c s now network short come r = inl refl
next_of-Later c s now charging short come r = inl refl
next_of-Later c s now (other_kind _) short come r = inl refl
