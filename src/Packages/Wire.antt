-- ===== src/Packages/Wire.antt =====
-- readProtoVarint, parseProtoWire and the accessors of internal/ops/package_archive.go. Bytes are
-- numbers, and what is left of the data stands for an offset into it. The groups of a varint do not
-- overlap, so that the code's `|=` of a shifted group is a sum; a tenth group is 1 at most.
use Prim.Native.Nat.{zero}
use zcr521_ai_mcp.Common.{
  [], ◌∷◌, ℕ, List, ◌+◌, if◌then◌else◌, suc, ℤ, ◌%◌, ltb, ◌==◌, ◌/◌, pos, ◌*◌, length, ◌&&◌, ◌^◌,
  take, to_int64, leb, drop,
}

-- `stuck` is no error of the code: fuel that ran out.
pub data WireError : Type 0 where
  truncated overflow bad_number bad_type too_many too_large stuck : WireError

pub data Wire {ℓ} (A : Type ℓ) : Type ℓ where
  ok : A → Wire A
  err : WireError → Wire A

infixl 5 ◌>>=◌
abbrev pub ◌>>=◌ {ℓ κ} : {A : Type ℓ} {B : Type κ} → Wire A → (A → Wire B) → Wire B
ok a >>= f = f a
err e >>= f = err e

unfoldable pub read_groups : ℕ → ℕ → List ℕ → Wire (ℕ × List ℕ)
read_groups index value [] = err truncated
read_groups index value (current ∷ rest) =
    let value' = value + current % 128 * 2 ^ (7 * index) in
    let more = read_groups (index + 1) value' rest in
    if leb 10 index
    then err truncated
    else if index == 9 && ltb 1 current
    then err overflow
    else if ltb current 128
    then ok (value', rest)
    else more

unfoldable pub read_varint : List ℕ → Wire (ℕ × List ℕ)
read_varint data' = read_groups 0 0 data'

pub record WireField : Type 0 where
  pub number : ℕ
  pub type : ℕ
  pub varint : ℕ
  pub bytes : List ℕ

abbrev pub bytes_field : ℕ → ℕ → ℕ → List ℕ → Wire (WireField × List ℕ)
bytes_field number type count data' =
    if ltb (length data') count
    then err truncated
    else ok (
      record { number = number; type = type; varint = 0; bytes = take count data' },
      drop count data',
    )

-- The `switch` on the wire type.
unfoldable pub read_payload : ℕ → ℕ → List ℕ → Wire (WireField × List ℕ)
read_payload number type data' =
    if type == 0
    then (read_varint data' >>= λ (value, rest).
        ok (record { number = number; type = type; varint = value; bytes = [] }, rest))
    else if type == 1
    then bytes_field number type 8 data'
    else if type == 2
    then (read_varint data' >>= λ (count, rest). bytes_field number type count rest)
    else if type == 5
    then bytes_field number type 4 data'
    else err bad_type

-- Go's `int`: 64 bits on arm64-v8a, 32 on armeabi-v7a.
pub data Word : Type 0 where
  word32 word64 : Word

-- int(key >> 3), where it is positive, else 0. A shifted key is below 2 ^ 61.
unfoldable pub field_number : Word → ℕ → ℕ
field_number word64 key = key / 8
field_number word32 key = let n = key / 8 % 4294967296 in if ltb n 2147483648 then n else 0

abbrev pub read_keyed : Word → ℕ × List ℕ → Wire (WireField × List ℕ)
read_keyed word (key, rest) =
    let number = field_number word key in
    if number == 0 then err bad_number else read_payload number (key % 8) rest

unfoldable pub read_field : Word → List ℕ → Wire (WireField × List ℕ)
read_field word data' = read_varint data' >>= read_keyed word

abbrev pub max_fields : ℕ
max_fields = 1000000

abbrev pub max_wire_bytes : ℕ
max_wire_bytes = 67108864

-- The loop, with `count` fields behind it.
unfoldable pub parse_fields : Word → ℕ → ℕ → List ℕ → Wire (List WireField)
parse_fields word fuel count [] = ok []
parse_fields word zero count (c ∷ rest) = err stuck
parse_fields word (suc fuel) count (c ∷ rest) = read_field word (c ∷ rest) >>= λ (field, rest').
    let more = parse_fields word fuel (count + 1) rest' in
    if ltb max_fields (count + 1) then err too_many else (more >>= λ fields. ok (field ∷ fields))

-- Each field takes a byte at least.
unfoldable pub parse_wire : Word → List ℕ → Wire (List WireField)
parse_wire word data' =
    if ltb max_wire_bytes (length data')
    then err too_large
    else parse_fields word (length data') 0 data'

unfoldable pub messages : List WireField → ℕ → List (List ℕ)
messages [] number = []
messages (f ∷ fs) number =
    let rest = messages fs number in
    if f.number == number && f.type == 2 then f.bytes ∷ rest else rest

unfoldable pub proto_string : List WireField → ℕ → List ℕ
proto_string [] number = []
proto_string (f ∷ fs) number =
    if f.number == number && f.type == 2 then f.bytes else proto_string fs number

unfoldable pub proto_int : List WireField → ℕ → ℤ
proto_int [] number = pos 0
proto_int (f ∷ fs) number =
    if f.number == number && f.type == 0 then to_int64 f.varint else proto_int fs number
