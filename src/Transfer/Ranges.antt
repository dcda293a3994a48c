-- ===== src/Transfer/Ranges.antt =====
-- parseContentRange of internal/frontend/transfer.go against the header that a client writes.
use Prim.Native.Nat.{zero}
use zcr521_ai_mcp.Transfer.Syntax.{
  parse_digits, parse_int, split, parse_content_range, is_digit, parse_unsigned, range_prefix,
  parse_bounds, parse_parts,
}
use zcr521_ai_mcp.Common.{
  inl, inr, [], ◌∷◌, ℕ, all, Text, Bool, ◌<◌, ◌≤◌, suc, ◌*◌, ◌++◌, ◌≡◌, not, ◌/◌, ◌+◌, true, arith,
  some, ◌==◌, false, ◌%◌, ◌-◌, Bool-cases, ◌∙◌, refl, if◌then◌else◌, ltb, ap, List, has_prefix,
  drop, and_then-eq_some, max_int64,
}

-- strconv.FormatInt(n, 10) of a number, on fuel above the number.
unfoldable pub decimal_fuel : ℕ → ℕ → Text
decimal_fuel zero n = []
decimal_fuel (suc f) n =
    let rest = decimal_fuel f (n / 10) ++ (b'0' + n % 10) ∷ [] in
    if ltb n 10 then (b'0' + n) ∷ [] else rest

unfoldable pub decimal : ℕ → Text
decimal n = decimal_fuel (suc n) n

-- The header of a chunk.
unfoldable pub content_range : ℕ → ℕ → ℕ → Text
content_range first last total =
    range_prefix ++ ((decimal first ++ (b'-' ∷ decimal last)) ++ (b'/' ∷ decimal total))

-- The number that digits write, after an accumulator.
value : ℕ → Text → ℕ
value acc [] = acc
value acc (c ∷ s) = value (acc * 10 + (c - b'0')) s

value-append :
    (acc : ℕ) (s : Text) (c : ℕ) → value acc (s ++ c ∷ []) ≡ value acc s * 10 + (c - b'0')
unfolding value
value-append acc [] c = refl
value-append acc (x ∷ s) c = value-append (acc * 10 + (x - b'0')) s c

all-append : (p : ℕ → Bool) (s t : Text) → all p s ≡ true → all p t ≡ true → all p (s ++ t) ≡ true
unfolding all
all-append p [] t h k = k
all-append p (c ∷ s) t h k = ground (arith, all-append p s t)

parse_digits-value :
    (acc : ℕ) (s : Text)
    → all is_digit s ≡ true
    → value acc s ≤ max_int64
    → parse_digits acc s ≡ some (value acc s)
unfolding parse_digits value all
parse_digits-value acc [] h k = ground arith
parse_digits-value acc (c ∷ s) h k = ground (arith, parse_digits-value (acc * 10 + (c - b'0')) s)

decimal_fuel-digits : (f n : ℕ) → all is_digit (decimal_fuel f n) ≡ true
unfolding decimal_fuel all
decimal_fuel-digits zero n = refl
decimal_fuel-digits (suc f) n = elim (Bool-cases (ltb n 10)) [
  | inl small ↦ rw small (ground arith)
  | inr large ↦ rw large (
      all-append is_digit (decimal_fuel f (n / 10)) ((b'0' + n % 10) ∷ [])
        (decimal_fuel-digits f (n / 10)) (ground arith))
]

value-decimal_fuel : (f n : ℕ) → n < f → value 0 (decimal_fuel f n) ≡ n
unfolding decimal_fuel value
value-decimal_fuel zero n h = absurd (omega arith)
value-decimal_fuel (suc f) n h = elim (Bool-cases (ltb n 10)) [
  | inl small ↦ rw small (omega arith)
  | inr large ↦
      rw
        (
          large,
          value-append 0 (decimal_fuel f (n / 10)) (b'0' + n % 10),
          value-decimal_fuel f (n / 10) (ground arith),
        )
        (omega arith)
]

-- A number starts with a digit, so it has no sign.
decimal_fuel-head : (f n : ℕ) → n < f → (c : ℕ) × (s : Text) × (decimal_fuel f n ≡ c ∷ s)
unfolding decimal_fuel
decimal_fuel-head zero n h = absurd (omega arith)
decimal_fuel-head (suc f) n h = elim (Bool-cases (ltb n 10)) [
  | inl small ↦ (b'0' + n, [], rw small)
  | inr large ↦
      let (c, s, e) = decimal_fuel-head f (n / 10) (ground arith) in
      (c, s ++ (b'0' + n % 10) ∷ [], rw (large, e))
]

digits-parse_int :
    (c : ℕ) (s : Text)
    → all is_digit (c ∷ s) ≡ true
    → value 0 (c ∷ s) ≤ max_int64
    → parse_int (c ∷ s) ≡ some (value 0 (c ∷ s))
unfolding parse_int parse_unsigned all
digits-parse_int c s h k = ground (arith, parse_digits-value 0 (c ∷ s) h k)

decimal-parse_int : (n : ℕ) → n ≤ max_int64 → parse_int (decimal n) ≡ some n
unfolding decimal
decimal-parse_int n h =
    let (c, s, e) = decimal_fuel-head (suc n) n (omega arith) in
    let v : value 0 (c ∷ s) ≡ n = rw (← e) (value-decimal_fuel (suc n) n (omega arith)) in
    rw e (digits-parse_int c s (rw (← e) (decimal_fuel-digits (suc n) n)) (omega arith) ∙ ap some v)

-- Splitting at a byte that the first part does not have.
lacks : ℕ → ℕ → Bool
lacks sep c = not (c == sep)

split-append :
    (sep : ℕ) (s t : Text) → all (lacks sep) s ≡ true → split sep (s ++ (sep ∷ t)) ≡ s ∷ split sep t
unfolding split all lacks
split-append sep [] t h = ground arith
split-append sep (c ∷ s) t h = ground (arith, split-append sep s t)

split-whole : (sep : ℕ) (s : Text) → all (lacks sep) s ≡ true → split sep s ≡ s ∷ []
unfolding split all lacks
split-whole sep [] h = refl
split-whole sep (c ∷ s) h = ground (arith, split-whole sep s)

digits-lack :
    (sep : ℕ) (s : Text) → is_digit sep ≡ false → all is_digit s ≡ true → all (lacks sep) s ≡ true
unfolding all lacks
digits-lack sep [] e h = refl
digits-lack sep (c ∷ s) e h = ground (arith, digits-lack sep s e)

decimal-lacks : (sep n : ℕ) → is_digit sep ≡ false → all (lacks sep) (decimal n) ≡ true
unfolding decimal
decimal-lacks sep n e = digits-lack sep (decimal_fuel (suc n) n) e (decimal_fuel-digits (suc n) n)

bounds-lack : (first last : ℕ) → all (lacks b'/') (decimal first ++ (b'-' ∷ decimal last)) ≡ true
unfolding all lacks
bounds-lack first last =
    all-append (lacks b'/') (decimal first) (b'-' ∷ decimal last) (decimal-lacks b'/' first refl)
      (decimal-lacks b'/' last refl)

parse_digits-bounded : (acc : ℕ) (s : Text) (n : ℕ) → parse_digits acc s ≡ some n → n ≤ max_int64
unfolding parse_digits
parse_digits-bounded acc [] n e = ground arith
parse_digits-bounded acc (c ∷ s) n e =
    ground (arith, parse_digits-bounded (acc * 10 + (c - b'0')) s n)

parse_unsigned-bounded : (s : Text) (n : ℕ) → parse_unsigned s ≡ some n → n ≤ max_int64
unfolding parse_unsigned
parse_unsigned-bounded [] n e = cc
parse_unsigned-bounded (c ∷ s) n e = parse_digits-bounded 0 (c ∷ s) n e

parse_int-bounded : (s : Text) (n : ℕ) → parse_int s ≡ some n → n ≤ max_int64
unfolding parse_int
parse_int-bounded [] n e = cc
parse_int-bounded (c ∷ s) n e =
    ground (arith, parse_unsigned-bounded s n, parse_unsigned-bounded (c ∷ s) n)

abbrev InRange : ℕ → ℕ → ℕ → Type 0
InRange first last total = (first ≤ last) × (last < total) × (total ≤ max_int64)

parse_bounds_sound :
    (bs : List Text) (t : Text) (first last total : ℕ)
    → parse_bounds bs t ≡ some (first, last, total)
    → InRange first last total
parse_bounds_sound [] t first last total e = cc
parse_bounds_sound (_ ∷ []) t first last total e = cc
parse_bounds_sound (a ∷ b ∷ []) t first last total e =
    let (f, ef, e₁) = and_then-eq_some (parse_int a) _ e in
    let (l, el, e₂) = and_then-eq_some (parse_int b) _ e₁ in
    let (n, en, e₃) = and_then-eq_some (parse_int t) _ e₂ in
    ground (arith, parse_int-bounded t n en)
parse_bounds_sound (_ ∷ _ ∷ _ ∷ _) t first last total e = cc

parse_parts_sound :
    (ps : List Text) (first last total : ℕ)
    → parse_parts ps ≡ some (first, last, total)
    → InRange first last total
parse_parts_sound [] first last total e = cc
parse_parts_sound (_ ∷ []) first last total e = cc
parse_parts_sound (r ∷ t ∷ []) first last total e =
    parse_bounds_sound (split b'-' r) t first last total e
parse_parts_sound (_ ∷ _ ∷ _ ∷ _) first last total e = cc

-- A header that a client writes for bytes `first` to `last` of `total`, in order and within int64,
-- is read back as these three numbers.
pub content_range_round_trip :
    (first last total : ℕ)
    → first ≤ last
    → last < total
    → total ≤ max_int64
    → parse_content_range (content_range first last total) ≡ some (first, last, total)
unfolding parse_content_range content_range
content_range_round_trip first last total fl lt bound =
    rw
      (
        split-append b'/' (decimal first ++ (b'-' ∷ decimal last)) (decimal total)
            (bounds-lack first last),
        split-whole b'/' (decimal total) (decimal-lacks b'/' total refl),
        split-append b'-' (decimal first) (decimal last) (decimal-lacks b'-' first refl),
        split-whole b'-' (decimal last) (decimal-lacks b'-' last refl),
        decimal-parse_int first (omega arith),
        decimal-parse_int last (omega arith),
        decimal-parse_int total bound,
      )
      (ground arith)

-- A header that is read gives an order of bytes that are within the total, and the total within
-- int64.
pub parse_content_range_sound :
    (value' : Text) (first last total : ℕ)
    → parse_content_range value' ≡ some (first, last, total)
    → (first ≤ last) × (last < total) × (total ≤ max_int64)
unfolding parse_content_range
parse_content_range_sound value' first last total e =
    elim (Bool-cases (has_prefix range_prefix value')) [
      | inl found ↦ parse_parts_sound (split b'/' (drop 6 value')) first last total (rw found at e)
      | inr missing ↦ let e' = rw missing at e in cc
    ]
