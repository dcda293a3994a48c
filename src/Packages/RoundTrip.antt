-- ===== src/Packages/RoundTrip.antt =====
-- What a writer of protobuf makes of fields is what internal/ops/package_archive.go reads.
use zcr521_ai_mcp.Packages.Varints.{varint_bytes, read_varint-varint_bytes}
use mathlib.Core.List.{append_assoc}
use Prim.Native.Nat.{zero}
use zcr521_ai_mcp.Packages.Wire.{
  read_groups, ok, read_varint, WireField, read_field, read_payload, bytes_field, parse_fields,
  parse_wire, max_fields, ◌>>=◌, max_wire_bytes, Word, field_number, word32, word64,
}
use zcr521_ai_mcp.Common.{
  [], ◌∷◌, ℕ, List, suc, ◌<◌, ◌/◌, ◌≡◌, if◌then◌else◌, ◌≤◌, ltb, ◌%◌, ◌+◌, ◌*◌, ◌^◌, arith, ◌==◌,
  ◌++◌, length, ◌∙◌, false, length-append, refl, take-append, drop-append, All,
}

-- What a key of 64 bits leaves of a number, and of that what is positive as an `int`.
abbrev pub FitsWord : Word → ℕ → Type 0
FitsWord word32 n = n < 2 ^ 31
FitsWord word64 n = n < 2 ^ 61

FitsWord-key : (word : Word) (n : ℕ) → FitsWord word n → n < 2 ^ 61
FitsWord-key word32 n h = omega arith
FitsWord-key word64 n h = h

field_number_of_key :
    (word : Word) (n kind : ℕ) → FitsWord word n → kind < 8 → field_number word (n * 8 + kind) ≡ n
unfolding field_number
field_number_of_key word32 n kind h k =
    let e : (n * 8 + kind) / 8 ≡ n = omega arith in rw e (ground arith)
field_number_of_key word64 n kind h k = omega arith

-- A field as protobuf has it: a number, and what its wire type asks for.
-- The number fits the `int` of the build.
pub data IsField (word : Word) : WireField → Type 0 where
  of_varint :
      (n v : ℕ)
      → 0 < n
      → FitsWord word n
      → v < 2 ^ 64
      → IsField word (record { number = n; type = 0; varint = v; bytes = [] })
  of_eight :
      (n : ℕ) (bs : List ℕ)
      → 0 < n
      → FitsWord word n
      → length bs ≡ 8
      → IsField word (record { number = n; type = 1; varint = 0; bytes = bs })
  of_bytes :
      (n : ℕ) (bs : List ℕ)
      → 0 < n
      → FitsWord word n
      → length bs < 2 ^ 64
      → IsField word (record { number = n; type = 2; varint = 0; bytes = bs })
  of_four :
      (n : ℕ) (bs : List ℕ)
      → 0 < n
      → FitsWord word n
      → length bs ≡ 4
      → IsField word (record { number = n; type = 5; varint = 0; bytes = bs })

unfoldable pub payload_bytes : WireField → List ℕ
payload_bytes f =
    if f.type == 0
    then varint_bytes 9 f.varint
    else if f.type == 2
    then varint_bytes 9 (length f.bytes) ++ f.bytes
    else f.bytes

unfoldable pub field_bytes : WireField → List ℕ
field_bytes f = varint_bytes 9 (f.number * 8 + f.type) ++ payload_bytes f

unfoldable pub fields_bytes : List WireField → List ℕ
fields_bytes [] = []
fields_bytes (f ∷ fs) = field_bytes f ++ fields_bytes fs

read_field-key :
    (word : Word) (f : WireField) (rest : List ℕ)
    → 0 < f.number
    → FitsWord word f.number
    → f.type < 8
    → read_field word (field_bytes f ++ rest)
      ≡ read_payload f.number f.type (payload_bytes f ++ rest)
unfolding read_field field_bytes
read_field-key word f rest positive fits kind =
    let small = FitsWord-key word f.number fits in
    let number = field_number_of_key word f.number f.type fits kind in
    let type' : (f.number * 8 + f.type) % 8 ≡ f.type = omega arith in
    let some' : (f.number == 0) ≡ false = ground arith in
    rw
      (
        append_assoc,
        read_varint-varint_bytes (f.number * 8 + f.type) (payload_bytes f ++ rest) (omega arith),
        number,
        type',
        some',
      )
      refl

bytes_field-append :
    (number type count : ℕ) (bs rest : List ℕ)
    → length bs ≡ count
    → bytes_field number type count (bs ++ rest)
      ≡ ok (record { number = number; type = type; varint = 0; bytes = bs }, rest)
bytes_field-append number type count bs rest e =
    let fits : ltb (length (bs ++ rest)) (length bs) ≡ false =
      ground (arith, length-append bs rest) in
    rw (← e, fits, take-append bs rest, drop-append bs rest) refl

read_field-field_bytes :
    (word : Word) (f : WireField) (rest : List ℕ)
    → IsField word f
    → read_field word (field_bytes f ++ rest) ≡ ok (f, rest)
unfolding payload_bytes read_payload
read_field-field_bytes word f rest (of_varint n v p s h) =
    read_field-key word f rest p s (omega arith) ∙ rw (read_varint-varint_bytes v rest h) refl
read_field-field_bytes word f rest (of_eight n bs p s e) =
    read_field-key word f rest p s (omega arith) ∙ bytes_field-append n 1 8 bs rest e
read_field-field_bytes word f rest (of_bytes n bs p s h) =
    read_field-key word f rest p s (omega arith)
    ∙ rw (append_assoc, read_varint-varint_bytes (length bs) (bs ++ rest) h)
        (bytes_field-append n 2 (length bs) bs rest refl)
read_field-field_bytes word f rest (of_four n bs p s e) =
    read_field-key word f rest p s (omega arith) ∙ bytes_field-append n 5 4 bs rest e

parse_fields_step :
    (word : Word) (fuel count : ℕ) (data' rest : List ℕ) (f : WireField)
    → read_field word data' ≡ ok (f, rest)
    → count + 1 ≤ max_fields
    → parse_fields word (suc fuel) count data'
      ≡ (parse_fields word fuel (count + 1) rest >>= λ fs. ok (f ∷ fs))
unfolding parse_fields
parse_fields_step word fuel count [] rest f e h = unfold read_field read_varint read_groups in cc
parse_fields_step word fuel count (c ∷ data') rest f e h =
    let few : ltb max_fields (count + 1) ≡ false = ground arith in rw (e, few) refl

length-varint_bytes : (k v : ℕ) → 1 ≤ length (varint_bytes k v)
unfolding varint_bytes
length-varint_bytes zero v = omega arith
length-varint_bytes (suc k) v = ground arith

length-field_bytes : (f : WireField) → 1 ≤ length (field_bytes f)
unfolding field_bytes
length-field_bytes f =
    let e = length-append (varint_bytes 9 (f.number * 8 + f.type)) (payload_bytes f) in
    omega (arith, length-varint_bytes 9 (f.number * 8 + f.type))

parse_fields-fields_bytes :
    (word : Word) (fs : List WireField) (fuel count : ℕ)
    → All (IsField word) fs
    → length (fields_bytes fs) ≤ fuel
    → count + length fs ≤ max_fields
    → parse_fields word fuel count (fields_bytes fs) ≡ ok fs
unfolding fields_bytes
parse_fields-fields_bytes word [] zero count a h n = unfold parse_fields in refl
parse_fields-fields_bytes word [] (suc fuel) count a h n = unfold parse_fields in refl
parse_fields-fields_bytes word (f ∷ fs) zero count a h n =
    absurd (omega (arith, length-append (field_bytes f) (fields_bytes fs), length-field_bytes f))
parse_fields-fields_bytes word (f ∷ fs) (suc fuel) count a h n =
    parse_fields_step word fuel count (field_bytes f ++ fields_bytes fs) (fields_bytes fs) f
      (read_field-field_bytes word f (fields_bytes fs) a.0) (omega arith)
    ∙ rw
        (parse_fields-fields_bytes word fs fuel (count + 1) a.1
          (omega (arith, length-append (field_bytes f) (fields_bytes fs), length-field_bytes f))
          (omega arith))
        refl

-- Any fields of protobuf's four wire types, at most a million, each written as a key and a payload,
-- at most 64 MiB together, are read back as they are by parseProtoWire, given that their numbers are
-- positive and fit the build: below 2 ^ 61 where an `int` has 64 bits, below 2 ^ 31 where it has 32.
pub parse_wire_round_trip :
    (word : Word) (fs : List WireField)
    → All (IsField word) fs
    → length fs ≤ max_fields
    → length (fields_bytes fs) ≤ max_wire_bytes
    → parse_wire word (fields_bytes fs) ≡ ok fs
unfolding parse_wire
parse_wire_round_trip word fs a few small =
    let fits : ltb max_wire_bytes (length (fields_bytes fs)) ≡ false = ground arith in
    rw fits
      (parse_fields-fields_bytes word fs (length (fields_bytes fs)) 0 a (omega arith) (omega arith))
