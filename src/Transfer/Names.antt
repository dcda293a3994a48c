-- ===== src/Transfer/Names.antt =====
-- safeFilename and validTransferID of internal/frontend/transfer.go: the names and ids that are put
-- into paths.
use mathlib.Core.Path.{subst, sym}
use zcr521_ai_mcp.Transfer.Syntax.{
  trim_right, trim_left, trim_runes, trim_space, check_filename, safe_filename, valid_transfer_id,
  normalize_sha256, is_hex, to_lower, is_space, is_control, is_digit, byte_len,
}
use zcr521_ai_mcp.Common.{
  inl, inr, [], ◌∷◌, Text, ℕ, all, ◌≡◌, Bool, any, Bool-cases, true, ap, ◌==◌, some, contains_byte,
  not, arith, ◌∙◌, ◌||◌, is_empty, false, length, leb, ◌&&◌, refl, text_eq, ◌⊎◌, codes, ◌≤◌, map,
}

trim_right_idem : (s : Text) → trim_right (trim_right s) ≡ trim_right s
unfolding trim_right
trim_right_idem [] = refl
trim_right_idem (c ∷ s) = elim (Bool-cases (is_space c && is_empty (trim_right s))) [
  | inl gone ↦ rw gone
  | inr kept ↦ rw (kept, trim_right_idem s, kept)
]

-- What begins with no space still does when spaces are cut off behind it.
abbrev starts_clean : Text → Bool
starts_clean [] = true
starts_clean (c ∷ s) = not (is_space c)

trim_left-clean : (s : Text) → starts_clean (trim_left s) ≡ true
unfolding trim_left
trim_left-clean [] = refl
trim_left-clean (c ∷ s) = elim (Bool-cases (is_space c)) [
  | inl space ↦ rw space (trim_left-clean s)
  | inr other ↦ rw (other, other)
]

clean-trim_left : (s : Text) → starts_clean s ≡ true → trim_left s ≡ s
unfolding trim_left
clean-trim_left [] h = refl
clean-trim_left (c ∷ s) h = ground arith

trim_right-clean : (s : Text) → starts_clean s ≡ true → starts_clean (trim_right s) ≡ true
unfolding trim_right
trim_right-clean [] h = refl
trim_right-clean (c ∷ s) h = ground arith

trim_runes_idem : (s : Text) → trim_runes (trim_runes s) ≡ trim_runes s
unfolding trim_runes
trim_runes_idem s =
    ap trim_right (clean-trim_left _ (trim_right-clean _ (trim_left-clean s)))
    ∙ trim_right_idem (trim_left s)

pub is_separator : ℕ → Bool
is_separator c = c == b'/' || c == 0x5c

check_filename_sound :
    (s t : Text)
    → check_filename s ≡ some t
    → (t ≡ s)
      × (is_empty t ≡ false)
      × (text_eq t (codes ".") ≡ false)
      × (text_eq t (codes "..") ≡ false)
      × (byte_len t ≤ 255)
      × (any is_separator t ≡ false)
      × (any is_control t ≡ false)
unfolding check_filename is_separator
check_filename_sound s t e = ground arith

-- A name that is taken has neither slash nor backslash nor control character, is not empty, `.` or
-- `..`, and is 255 bytes long at most; and taken once more it stays as it is.
pub safe_filename_sound :
    (value name : Text)
    → safe_filename value ≡ some name
    → (any is_separator name ≡ false)
      × (any is_control name ≡ false)
      × (is_empty name ≡ false)
      × (text_eq name (codes ".") ≡ false)
      × (text_eq name (codes "..") ≡ false)
      × (byte_len name ≤ 255)
      × (safe_filename name ≡ some name)
unfolding safe_filename
safe_filename_sound value name e =
    let k = check_filename_sound (trim_runes value) name e in
    let again : safe_filename name ≡ some name =
      subst (λ x. safe_filename x ≡ some x) (sym k.0)
        (ap check_filename (trim_runes_idem value) ∙ e ∙ ap some k.0) in
    (k.5, k.6, k.1, k.2, k.3, k.4, again)

hex-plain :
    (s : Text) → all is_hex s ≡ true → (any is_separator s ≡ false) × (contains_byte b'.' s ≡ false)
unfolding all any is_separator contains_byte
hex-plain [] h = (refl, refl)
hex-plain (c ∷ s) h = ground (arith, hex-plain s)

-- An id that is taken has 32 characters, and neither slash, backslash nor dot.
pub valid_transfer_id_plain :
    (id : Text)
    → valid_transfer_id id ≡ true
    → (length id ≡ 32) × (any is_separator id ≡ false) × (contains_byte b'.' id ≡ false)
unfolding valid_transfer_id
valid_transfer_id_plain id h = let k = hex-plain id (ground arith) in (ground arith, k.0, k.1)

pub is_lower_hex : ℕ → Bool
is_lower_hex c = is_digit c || (leb b'a' c && leb c b'f')

lower-hex : (c : ℕ) → is_hex (to_lower c) ≡ true → is_lower_hex (to_lower c) ≡ true
unfolding is_lower_hex
lower-hex c h = ground arith

all-lower-hex :
    (s : Text) → all is_hex (map to_lower s) ≡ true → all is_lower_hex (map to_lower s) ≡ true
unfolding all
all-lower-hex [] h = refl
all-lower-hex (c ∷ s) h = ground (arith, lower-hex c, all-lower-hex s)

-- A hash that is taken is empty or 64 hexadecimal digits, none of them in upper case.
pub normalize_sha256_sound :
    (value hash : Text)
    → normalize_sha256 value ≡ some hash
    → (is_empty hash ≡ true) ⊎ ((length hash ≡ 64) × (all is_lower_hex hash ≡ true))
unfolding normalize_sha256
normalize_sha256_sound value hash e = ground (arith, all-lower-hex (trim_space value))
