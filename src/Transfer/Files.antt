-- ===== src/Transfer/Files.antt =====
-- The write of internal/frontend/transfer.go at an offset: what stands before it stays.
use native.Mathlib.Nat.{zero-add, suc-add}
use Prim.Native.Nat.{max, zero}
use zcr521_ai_mcp.Transfer.Data.{write_at}
use zcr521_ai_mcp.Common.{
  [], ◌∷◌, ℕ, Text, ◌≤◌, length, take, ◌≡◌, ◌+◌, suc, ◌++◌, arith, ap, length-append, take-append,
  drop, refl, length-drop,
}

pub take-write_at :
    (n : ℕ) (bytes file : Text) → n ≤ length file → take n (write_at n bytes file) ≡ take n file
unfolding write_at
take-write_at zero bytes file h = refl
take-write_at (suc n) bytes [] h = absurd (omega arith)
take-write_at (suc n) bytes (c ∷ file) h = ap (◌∷◌ c) (take-write_at n bytes file (omega arith))

pub take-write_at_all :
    (n : ℕ) (bytes file : Text)
    → n ≤ length file
    → take (n + length bytes) (write_at n bytes file) ≡ take n file ++ bytes
unfolding write_at
take-write_at_all zero bytes file h = rw zero-add (take-append bytes (drop (length bytes) file))
take-write_at_all (suc n) bytes [] h = absurd (omega arith)
take-write_at_all (suc n) bytes (c ∷ file) h =
    rw suc-add (ap (◌∷◌ c) (take-write_at_all n bytes file (omega arith)))

pub length-write_at :
    (n : ℕ) (bytes file : Text)
    → n ≤ length file
    → length (write_at n bytes file) ≡ max (n + length bytes) (length file)
unfolding write_at
length-write_at zero bytes file h =
    omega (arith, length-append bytes (drop (length bytes) file), length-drop (length bytes) file)
length-write_at (suc n) bytes [] h = absurd (omega arith)
length-write_at (suc n) bytes (c ∷ file) h =
    omega (arith, length-write_at n bytes file (omega arith))

pub take-all : (n : ℕ) (s : Text) → length s ≤ n → take n s ≡ s
take-all zero [] h = refl
take-all zero (c ∷ s) h = absurd (omega arith)
take-all (suc n) [] h = refl
take-all (suc n) (c ∷ s) h = ap (◌∷◌ c) (take-all n s (omega arith))

pub take-take : (n : ℕ) (s : Text) → take n (take n s) ≡ take n s
take-take zero s = refl
take-take (suc n) [] = refl
take-take (suc n) (c ∷ s) = ap (◌∷◌ c) (take-take n s)
