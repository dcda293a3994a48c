-- ===== src/Transfer/Syntax.antt =====
-- parseContentRange, safeFilename, normalizeSHA256, validTransferID and trimPrefix of
-- internal/frontend/transfer.go. A file name is its list of code points, which JSON decoding gives;
-- every other text is bytes.
use Prim.Native.Nat.{zero}
use zcr521_ai_mcp.Common.{
  ℕ, Text, List, has_prefix, ◌∷◌, Bool, Option, codes, if◌then◌else◌, [], ◌==◌, leb, none, ltb,
  and_then, drop, ◌&&◌, ◌+◌, is_empty, ◌||◌, map, length, some, ◌*◌, text_eq, all, ◌-◌, any,
  max_int64, suc,
}

-- strings.Split by one byte.
abbrev split_push : ℕ → List Text → List Text
split_push c [] = (c ∷ []) ∷ []
split_push c (w ∷ ws) = (c ∷ w) ∷ ws

unfoldable pub split : ℕ → Text → List Text
split sep [] = [] ∷ []
split sep (c ∷ s) = let rest = split sep s in if c == sep then [] ∷ rest else split_push c rest

abbrev pub is_digit : ℕ → Bool
is_digit c = leb b'0' c && leb c b'9'

-- The digits of a number, read from an accumulator; a value beyond int64 is out of range.
unfoldable pub parse_digits : ℕ → Text → Option ℕ
parse_digits acc [] = if leb acc max_int64 then some acc else none
parse_digits acc (c ∷ s) =
    let rest = parse_digits (acc * 10 + (c - b'0')) s in if is_digit c then rest else none

unfoldable pub parse_unsigned : Text → Option ℕ
parse_unsigned [] = none
parse_unsigned (c ∷ s) = parse_digits 0 (c ∷ s)

-- strconv.ParseInt(s, 10, 64) where a negative value is refused as well: here it is `none`, since
-- the code refuses every negative bound.
unfoldable pub parse_int : Text → Option ℕ
parse_int [] = none
parse_int (c ∷ s) =
    if c == b'+'
    then parse_unsigned s
    else if c == b'-'
    then (and_then (parse_unsigned s) λ n. if n == 0 then some 0 else none)
    else parse_unsigned (c ∷ s)

abbrev pub range_prefix : Text
range_prefix = codes "bytes "

abbrev check_range : ℕ → ℕ → ℕ → Option (ℕ × ℕ × ℕ)
check_range first last total =
    if ltb last first || leb total 0 || leb total last then none else some (first, last, total)

abbrev pub parse_bounds : List Text → Text → Option (ℕ × ℕ × ℕ)
parse_bounds (a ∷ b ∷ []) t = and_then (parse_int a) λ first.
    and_then (parse_int b) λ last. and_then (parse_int t) λ total. check_range first last total
parse_bounds _ t = none

abbrev pub parse_parts : List Text → Option (ℕ × ℕ × ℕ)
parse_parts (r ∷ t ∷ []) = parse_bounds (split b'-' r) t
parse_parts _ = none

unfoldable pub parse_content_range : Text → Option (ℕ × ℕ × ℕ)
unfolding has_prefix split
parse_content_range value =
    if has_prefix range_prefix value then parse_parts (split b'/' (drop 6 value)) else none

-- unicode.IsSpace
unfoldable pub is_space : ℕ → Bool
is_space c =
    (leb 9 c && leb c 13)
    || c == 0x20
    || c == 0x85
    || c == 0xa0
    || c == 0x1680
    || (leb 0x2000 c && leb c 0x200a)
    || c == 0x2028
    || c == 0x2029
    || c == 0x202f
    || c == 0x205f
    || c == 0x3000

unfoldable pub trim_left : Text → Text
trim_left [] = []
trim_left (c ∷ s) = let rest = trim_left s in if is_space c then rest else c ∷ s

unfoldable pub trim_right : Text → Text
trim_right [] = []
trim_right (c ∷ s) = let rest = trim_right s in if is_space c && is_empty rest then [] else c ∷ rest

-- strings.TrimSpace, of code points.
unfoldable pub trim_runes : Text → Text
trim_runes s = trim_right (trim_left s)

-- The spaces of unicode.IsSpace in UTF-8, by their number of bytes.
abbrev one_byte_space : ℕ → Bool
one_byte_space c = (leb 9 c && leb c 13) || c == 0x20

abbrev two_byte_space : ℕ → ℕ → Bool
two_byte_space c d = c == 0xc2 && (d == 0x85 || d == 0xa0)

abbrev three_byte_space : ℕ → ℕ → ℕ → Bool
three_byte_space c d e =
    (c == 0xe1 && d == 0x9a && e == 0x80)
    || (c == 0xe2
        && d == 0x80
        && ((leb 0x80 e && leb e 0x8a) || e == 0xa8 || e == 0xa9 || e == 0xaf))
    || (c == 0xe2 && d == 0x81 && e == 0x9f)
    || (c == 0xe3 && d == 0x80 && e == 0x80)

-- The length of the space that a text begins with, 0 if it begins with none.
abbrev pub space_len : Text → ℕ
space_len (c ∷ d ∷ e ∷ _) =
    if one_byte_space c
    then 1
    else if two_byte_space c d
    then 2
    else if three_byte_space c d e
    then 3
    else 0
space_len (c ∷ d ∷ []) = if one_byte_space c then 1 else if two_byte_space c d then 2 else 0
space_len (c ∷ []) = if one_byte_space c then 1 else 0
space_len [] = 0

-- The same of a text whose bytes come last first.
abbrev space_len_back : Text → ℕ
space_len_back (e ∷ d ∷ c ∷ _) =
    if one_byte_space e
    then 1
    else if two_byte_space d e
    then 2
    else if three_byte_space c d e
    then 3
    else 0
space_len_back (d ∷ c ∷ []) = if one_byte_space d then 1 else if two_byte_space c d then 2 else 0
space_len_back (c ∷ []) = if one_byte_space c then 1 else 0
space_len_back [] = 0

-- Without the spaces at the front; the number is the bytes of the present space that are left.
unfoldable trim_front : (Text → ℕ) → ℕ → Text → Text
trim_front len k [] = []
trim_front len zero (c ∷ s) =
    let rest = trim_front len (len (c ∷ s) - 1) s in if len (c ∷ s) == 0 then c ∷ s else rest
trim_front len (suc k) (c ∷ s) = trim_front len k s

unfoldable reversed_onto : Text → Text → Text
reversed_onto [] t = t
reversed_onto (c ∷ s) t = reversed_onto s (c ∷ t)

-- strings.TrimSpace, of bytes.
unfoldable pub trim_space : Text → Text
unfolding trim_front reversed_onto
trim_space s =
    let front = trim_front space_len 0 s in
    reversed_onto (trim_front space_len_back 0 (reversed_onto front [])) []

-- unicode.IsControl
abbrev pub is_control : ℕ → Bool
is_control c = ltb c 0x20 || (leb 0x7f c && ltb c 0xa0)

-- The bytes of a code point in UTF-8.
abbrev pub rune_len : ℕ → ℕ
rune_len c = if ltb c 0x80 then 1 else if ltb c 0x800 then 2 else if ltb c 0x10000 then 3 else 4

unfoldable pub byte_len : Text → ℕ
byte_len [] = 0
byte_len (c ∷ s) = rune_len c + byte_len s

-- filepath.Base leaves a name that has no slash.
unfoldable pub check_filename : Text → Option Text
check_filename s =
    if is_empty s || text_eq s (codes ".") || text_eq s (codes "..") || ltb 255 (byte_len s)
    then none
    else if any (λ c. c == b'/' || c == 0x5c) s
    then none
    else if any is_control s
    then none
    else some s

unfoldable pub safe_filename : Text → Option Text
safe_filename value = check_filename (trim_runes value)

abbrev pub is_hex : ℕ → Bool
is_hex c = is_digit c || (leb b'a' c && leb c b'f') || (leb b'A' c && leb c b'F')

-- strings.ToLower, of ASCII letters: any other letter is refused as no hexadecimal digit.
abbrev pub to_lower : ℕ → ℕ
to_lower c = if leb b'A' c && leb c b'Z' then c + 32 else c

unfoldable pub normalize_sha256 : Text → Option Text
normalize_sha256 value =
    let lower = map to_lower (trim_space value) in
    if is_empty lower
    then some []
    else if all is_hex lower && length lower == 64
    then some lower
    else none

unfoldable pub valid_transfer_id : Text → Bool
valid_transfer_id id = length id == 32 && all is_hex id

-- trimPrefix of two prefixes.
unfoldable pub trim_prefix : Text → Text → Text → Option Text
trim_prefix value p q =
    if has_prefix p value
    then some (drop (length p) value)
    else if has_prefix q value
    then some (drop (length q) value)
    else none
