-- ===== src/Packages/Varints.antt =====
-- The base-128 numbers of protobuf that internal/ops/package_archive.go reads.
use mathlib.Core.Path.{subst}
use Prim.Native.Nat.{zero}
use zcr521_ai_mcp.Packages.Wire.{read_groups, ok, read_varint}
use native.Mathlib.Nat.{div-add-mod}
use native.Mathlib.Numerals.{towards_suc}
use zcr521_ai_mcp.Common.{
  [], ◌∷◌, ℕ, List, suc, ◌<◌, ◌/◌, ◌≡◌, if◌then◌else◌, ◌≤◌, ltb, ◌%◌, ◌+◌, ◌*◌, ◌^◌, arith,
  Bool-cases, ◌==◌, inl, inr, ap, ◌++◌, ◌∙◌,
}

-- The base-128 encoding of a number below 128 ^ (k + 1).
unfoldable pub varint_bytes : ℕ → ℕ → List ℕ
varint_bytes zero v = v ∷ []
varint_bytes (suc k) v =
    let rest = varint_bytes k (v / 128) in if ltb v 128 then v ∷ [] else (v % 128 + 128) ∷ rest

last_group :
    (w value index : ℕ) (rest : List ℕ)
    → w < 128
    → index < 10
    → (index ≡ 9 → w ≤ 1)
    → read_groups index value (w ∷ rest) ≡ ok (value + w * 2 ^ (7 * index), rest)
unfolding read_groups
last_group w value index rest h i top =
    let same : w % 128 ≡ w = omega arith in
    elim (Bool-cases (index == 9)) [
      | inl e ↦ let small = top (ground arith) in rw same (ground arith)
      | inr e ↦ rw same (ground arith)
    ]

inner_group :
    (g value index : ℕ) (rest : List ℕ)
    → g < 128
    → index < 9
    → read_groups index value ((g + 128) ∷ rest)
      ≡ read_groups (index + 1) (value + g * 2 ^ (7 * index)) rest
unfolding read_groups
inner_group g value index rest h i =
    let same : (g + 128) % 128 ≡ g = omega arith in rw same (ground arith)

next_shift : (i : ℕ) → 2 ^ (7 * (i + 1)) ≡ 128 * 2 ^ (7 * i)
next_shift i =
    let e : 7 * (i + 1) ≡ 7 * i + 7 = omega arith in rw e (simp towards_suc (omega arith))

-- The lowest group of a number and the rest, both shifted.
split_group : (w i : ℕ) → w * 2 ^ (7 * i) ≡ w % 128 * 2 ^ (7 * i) + w / 128 * 2 ^ (7 * (i + 1))
split_group w i = omega (
  arith,
  ap (λ (t : ℕ). t * 2 ^ (7 * i)) (div-add-mod w 128),
  ap (λ (t : ℕ). w / 128 * t) (next_shift i),
)

top_fits : (w index : ℕ) → w * 2 ^ (7 * index) < 2 ^ 64 → index ≡ 9 → w ≤ 1
top_fits w index h e =
    let h' : w * 2 ^ 63 < 2 ^ 64 = subst (λ i. w * 2 ^ (7 * i) < 2 ^ 64) e h in omega arith

read_groups-varint_bytes :
    (k w value index : ℕ) (rest : List ℕ)
    → w < 128 ^ suc k
    → index + k ≤ 9
    → w * 2 ^ (7 * index) < 2 ^ 64
    → read_groups index value (varint_bytes k w ++ rest) ≡ ok (value + w * 2 ^ (7 * index), rest)
unfolding varint_bytes
read_groups-varint_bytes zero w value index rest h i fits =
    last_group w value index rest h (omega arith) (top_fits w index fits)
read_groups-varint_bytes (suc k) w value index rest h i fits = elim (Bool-cases (ltb w 128)) [
  | inl small ↦
      rw small (last_group w value index rest (ground arith) (omega arith) (top_fits w index fits))
  | inr large ↦
      let bound : w / 128 < 128 ^ suc k = omega (arith, h) in
      let fits' : w / 128 * 2 ^ (7 * (index + 1)) < 2 ^ 64 = omega (arith, split_group w index) in
      rw large (
        inner_group (w % 128) value index (varint_bytes k (w / 128) ++ rest) (omega arith)
          (omega arith)
        ∙ read_groups-varint_bytes k (w / 128) (value + w % 128 * 2 ^ (7 * index)) (index + 1) rest
            bound (omega arith) fits'
        ∙ ap (λ (v : ℕ). ok (v, rest)) (omega (arith, split_group w index)))
]

pub read_varint-varint_bytes :
    (v : ℕ) (rest : List ℕ) → v < 2 ^ 64 → read_varint (varint_bytes 9 v ++ rest) ≡ ok (v, rest)
unfolding read_varint
read_varint-varint_bytes v rest h =
    read_groups-varint_bytes 9 v 0 0 rest (omega arith) (omega arith) (omega arith)
    ∙ ap (λ (v : ℕ). ok (v, rest)) (omega arith)
