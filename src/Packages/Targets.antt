-- ===== src/Packages/Targets.antt =====
-- The targeting messages of toc.pb in internal/ops/package_archive.go.
-- The build is one of 64 bits.
use zcr521_ai_mcp.Packages.Wire.{
  ◌>>=◌, ok, WireField, Wire, parse_wire, word64, messages, proto_int,
}
use zcr521_ai_mcp.Common.{
  [], ◌∷◌, List, ℤ, Option, Text, ℕ, some, pos, if◌then◌else◌, none, codes, negsuc, int_eq, ◌==◌,
  ◌&&◌,
}

pub record ApkTarget : Type 0 where
  pub abis : List Text
  pub abi_alternatives : List Text
  pub densities : List ℤ
  pub density_alternatives : List ℤ
  pub languages : List Text
  pub language_alternatives : List Text
  pub min_sdks : List ℤ
  pub sdk_alternatives : List ℤ

abbrev pub no_target : ApkTarget
no_target = record {
  abis = [];
  abi_alternatives = [];
  densities = [];
  density_alternatives = [];
  languages = [];
  language_alternatives = [];
  min_sdks = [];
  sdk_alternatives = [];
}

-- The value of a key in a table of integers.
abbrev pub entry_of {ℓ} : {A : Type ℓ} → ℤ → List (ℕ × A) → Option A
entry_of key [] = none
entry_of key ((k, a) ∷ table) = if int_eq key k then some a else entry_of key table

abbrev pub abi_names : List (ℕ × Text)
abi_names =
    (1, codes "armeabi")
    ∷ (2, codes "armeabi-v7a")
    ∷ (3, codes "arm64-v8a")
    ∷ (4, codes "x86")
    ∷ (5, codes "x86_64")
    ∷ (6, codes "mips")
    ∷ (7, codes "mips64")
    ∷ (8, codes "riscv64")
    ∷ []

abbrev pub density_aliases : List (ℕ × ℕ)
density_aliases =
    (1, 0) ∷ (2, 120) ∷ (3, 160) ∷ (4, 213) ∷ (5, 240) ∷ (6, 320) ∷ (7, 480) ∷ (8, 640) ∷ []

abbrev pub append_some {ℓ} : {A : Type ℓ} → Option A → List A → List A
append_some none rest = rest
append_some (some a) rest = a ∷ rest

-- The closure `parse` of the targetings: one message after another, of which some give a value.
unfoldable pub parse_each {ℓ} :
    {A : Type ℓ} → (List ℕ → Wire (Option A)) → List (List ℕ) → Wire (List A)
parse_each read [] = ok []
parse_each read (raw ∷ raws) =
    let rest = parse_each read raws in read raw >>= λ o. rest >>= λ found. ok (append_some o found)

-- Its two calls, for the fields 1 and 2.
abbrev pub both {ℓ} : {A : Type ℓ} → (List ℕ → Wire (Option A)) → List ℕ → Wire (List A × List A)
both read data' = parse_wire word64 data' >>= λ fields.
    parse_each read (messages fields 1) >>= λ values.
    parse_each read (messages fields 2) >>= λ alternatives. ok (values, alternatives)

abbrev pub abi_of : List ℕ → Wire (Option Text)
abi_of raw = parse_wire word64 raw >>= λ abi. ok (entry_of (proto_int abi 1) abi_names)

unfoldable pub parse_abi_targeting : List ℕ → Wire (List Text × List Text)
parse_abi_targeting data' = both abi_of data'

abbrev pub alias_density : Option ℕ → ℤ
alias_density none = pos 0
alias_density (some d) = pos d

abbrev pub not_negative : ℤ → Option ℤ
not_negative (pos n) = some (pos n)
not_negative (negsuc _) = none

-- A density that no alias gives is the number itself.
abbrev pub density_or : ℤ → ℤ → ℤ
density_or value number = if int_eq value 0 then number else value

abbrev pub density_of : List ℕ → Wire (Option ℤ)
density_of raw = parse_wire word64 raw >>= λ density. ok (
    not_negative (
      density_or (alias_density (entry_of (proto_int density 1) density_aliases))
        (proto_int density 2)))

unfoldable pub parse_density_targeting : List ℕ → Wire (List ℤ × List ℤ)
parse_density_targeting data' = both density_of data'

unfoldable pub string_values : List WireField → ℕ → List Text
string_values [] number = []
string_values (f ∷ fs) number =
    let rest = string_values fs number in
    if f.type == 2 && f.number == number then f.bytes ∷ rest else rest

unfoldable pub parse_string_targeting : List ℕ → Wire (List Text × List Text)
parse_string_targeting data' =
    parse_wire word64 data' >>= λ fields. ok (string_values fields 1, string_values fields 2)

abbrev pub first_wrapper : List (List ℕ) → Wire (Option ℤ)
first_wrapper [] = ok none
first_wrapper (raw ∷ _) = parse_wire word64 raw >>= λ wrapper. ok (some (proto_int wrapper 1))

abbrev pub sdk_of : List ℕ → Wire (Option ℤ)
sdk_of raw = parse_wire word64 raw >>= λ fields. first_wrapper (messages fields 1)

unfoldable pub parse_sdk_targeting : List ℕ → Wire (List ℤ × List ℤ)
parse_sdk_targeting data' = both sdk_of data'

-- The first message of a field, if there is one, into a target.
abbrev pub when_first {ℓ} :
    {A : Type ℓ}
    → List (List ℕ)
    → (List ℕ → Wire A)
    → (A → ApkTarget → ApkTarget)
    → ApkTarget
    → Wire ApkTarget
when_first [] read put target = ok target
when_first (raw ∷ _) read put target = read raw >>= λ a. ok (put a target)

abbrev pub put_abis : List Text × List Text → ApkTarget → ApkTarget
put_abis (values, others) t = record t { abis = values; abi_alternatives = others }

abbrev pub put_densities : List ℤ × List ℤ → ApkTarget → ApkTarget
put_densities (values, others) t = record t { densities = values; density_alternatives = others }

abbrev pub put_languages : List Text × List Text → ApkTarget → ApkTarget
put_languages (values, others) t = record t { languages = values; language_alternatives = others }

abbrev pub put_sdks : List ℤ × List ℤ → ApkTarget → ApkTarget
put_sdks (values, others) t = record t { min_sdks = values; sdk_alternatives = others }

unfoldable pub parse_variant_target : List ℕ → Wire ApkTarget
parse_variant_target data' = parse_wire word64 data' >>= λ fields.
    when_first (messages fields 1) parse_sdk_targeting put_sdks no_target >>= λ t.
    when_first (messages fields 2) parse_abi_targeting put_abis t >>= λ t'.
    when_first (messages fields 3) parse_density_targeting put_densities t'

unfoldable pub parse_apk_target : List ℕ → Wire ApkTarget
parse_apk_target data' = parse_wire word64 data' >>= λ fields.
    when_first (messages fields 1) parse_abi_targeting put_abis no_target >>= λ t.
    when_first (messages fields 3) parse_string_targeting put_languages t >>= λ t'.
    when_first (messages fields 4) parse_density_targeting put_densities t' >>= λ t''.
    when_first (messages fields 5) parse_sdk_targeting put_sdks t''
