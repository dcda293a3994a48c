-- ===== src/Tasks/Identity.antt =====
-- newID of internal/tasks/manager.go: 16 random bytes as a UUID of version 4.

use Prim.Native.Nat.{zero}
use zcr521_ai_mcp.Common.{
  ℕ, List, Text, if◌then◌else◌, ◌∷◌, ◌%◌, length, ltb, ◌/◌, ◌+◌, [], ◌⊎◌, arith, suc, ◌≡◌, ◌-◌,
  take, refl, ◌++◌, drop,
}

unfoldable pub hex_digit : ℕ → ℕ
hex_digit d = if ltb d 10 then b'0' + d else b'a' + d - 10

-- hex.EncodeToString
unfoldable pub hex_encode : List ℕ → Text
hex_encode [] = []
hex_encode (b ∷ bs) = hex_digit (b / 16) ∷ hex_digit (b % 16) ∷ hex_encode bs

-- `bytes[6] = (bytes[6] & 0x0f) | 0x40` and `bytes[8] = (bytes[8] & 0x3f) | 0x80`
unfoldable pub mark_version : ℕ → ℕ
mark_version b = b % 16 + 0x40

unfoldable pub mark_variant : ℕ → ℕ
mark_variant b = b % 64 + 0x80

abbrev dash : ℕ
dash = b'-'

-- The bytes are given one by one, since the array has 16 of them.
unfoldable pub new_id : ℕ → ℕ → ℕ → ℕ → ℕ → ℕ → ℕ → ℕ → ℕ → ℕ → ℕ → ℕ → ℕ → ℕ → ℕ → ℕ → Text
new_id b0 b1 b2 b3 b4 b5 b6 b7 b8 b9 b10 b11 b12 b13 b14 b15 =
    let raw = hex_encode (
      b0
      ∷ b1
      ∷ b2
      ∷ b3
      ∷ b4
      ∷ b5
      ∷ mark_version b6
      ∷ b7
      ∷ mark_variant b8
      ∷ b9
      ∷ b10
      ∷ b11
      ∷ b12
      ∷ b13
      ∷ b14
      ∷ b15
      ∷ []) in
    take 8 raw
    ++ (dash
        ∷ (take 4 (drop 8 raw)
            ++ (dash
                ∷ (take 4 (drop 12 raw)
                    ++ (dash ∷ (take 4 (drop 16 raw) ++ (dash ∷ drop 20 raw)))))))

-- Position i of a text, or 0.
abbrev pub at : Text → ℕ → ℕ
at [] i = 0
at (c ∷ cs) zero = c
at (c ∷ cs) (suc i) = at cs i

version-digit : (b : ℕ) → hex_digit (mark_version b / 16) ≡ b'4'
unfolding hex_digit mark_version
version-digit b = ground arith

variant-digit :
    (b : ℕ)
    → let c = hex_digit (mark_variant b / 16) in (c ≡ b'8') ⊎ (c ≡ b'9') ⊎ (c ≡ b'a') ⊎ (c ≡ b'b')
unfolding hex_digit mark_variant
variant-digit b = ground arith

-- From any 16 bytes the id is 36 characters: dashes at 8, 13, 18 and 23, the version 4 at 14, and at
-- 19 one of 8, 9, a, b.
pub new_id_shape :
    (b0 b1 b2 b3 b4 b5 b6 b7 b8 b9 b10 b11 b12 b13 b14 b15 : ℕ)
    → let id = new_id b0 b1 b2 b3 b4 b5 b6 b7 b8 b9 b10 b11 b12 b13 b14 b15 in
      (length id ≡ 36)
      × (at id 8 ≡ b'-')
      × (at id 13 ≡ b'-')
      × (at id 14 ≡ b'4')
      × (at id 18 ≡ b'-')
      × ((at id 19 ≡ b'8') ⊎ (at id 19 ≡ b'9') ⊎ (at id 19 ≡ b'a') ⊎ (at id 19 ≡ b'b'))
      × (at id 23 ≡ b'-')
unfolding new_id hex_encode
new_id_shape b0 b1 b2 b3 b4 b5 b6 b7 b8 b9 b10 b11 b12 b13 b14 b15 =
    (refl, refl, refl, version-digit b6, refl, variant-digit b8, refl)
