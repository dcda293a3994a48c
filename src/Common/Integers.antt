-- ===== src/Common/Integers.antt =====
-- Go's signed integers, with the order that the program tests.
use Prim.Native.Nat.{ℕ, ◌%◌, ◌-◌, ◌≤◌, ◌<◌}
use mathlib.Core.Path.{◌≡◌, refl, ap}
use native.Mathlib.Omega.{arith}
use mathlib.Core.Bool.{Bool, true, false}
use zcr521_ai_mcp.Common.Tests.{ltb, leb, if◌then◌else◌, ◌==◌}

abbrev pub max_int64 : ℕ
max_int64 = 9223372036854775807

-- `negsuc n` is -(n + 1).
pub data ℤ : Type 0 where
  pos : ℕ → ℤ
  negsuc : ℕ → ℤ

abbrev pub int_lt : ℤ → ℤ → Bool
int_lt (pos a) (pos b) = ltb a b
int_lt (pos a) (negsuc b) = false
int_lt (negsuc a) (pos b) = true
int_lt (negsuc a) (negsuc b) = ltb b a

abbrev pub int_eq : ℤ → ℕ → Bool
int_eq (pos a) b = a == b
int_eq (negsuc a) b = false

abbrev pub int_same : ℤ → ℤ → Bool
int_same (pos a) b = int_eq b a
int_same (negsuc a) (pos b) = false
int_same (negsuc a) (negsuc b) = a == b

-- What is left of a number in a signed 64-bit integer.
unfoldable pub to_int64 : ℕ → ℤ
to_int64 n =
    let m = n % 18446744073709551616 in
    if leb m max_int64 then pos m else negsuc (18446744073709551615 - m)

pub to_int64_small : (n : ℕ) → n ≤ max_int64 → to_int64 n ≡ pos n
unfolding to_int64
to_int64_small n h =
    let same : n % 18446744073709551616 ≡ n = omega arith in
    let fits : leb n max_int64 ≡ true = ground arith in rw (same, fits) refl

pub to_int64_large :
    (n : ℕ)
    → max_int64 < n
    → n < 18446744073709551616
    → to_int64 n ≡ negsuc (18446744073709551615 - n)
unfolding to_int64
to_int64_large n h k =
    let same : n % 18446744073709551616 ≡ n = omega arith in
    let wraps : leb n max_int64 ≡ false = ground arith in rw (same, wraps) refl

pub int_eq_sound : (z : ℤ) (n : ℕ) → int_eq z n ≡ true → z ≡ pos n
int_eq_sound (pos k) n h = let e : k ≡ n = ground arith in ap pos e
int_eq_sound (negsuc k) n h = ground arith
