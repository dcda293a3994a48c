-- ===== src/Packages/Contents.antt =====
-- parseBuildApksResult of internal/ops/package_archive.go: the variants and APKs that toc.pb names.
-- The build is one of 64 bits.
use zcr521_ai_mcp.Packages.Targets.{ApkTarget, no_target, parse_apk_target, parse_variant_target}
use zcr521_ai_mcp.Packages.Wire.{
  ◌>>=◌, ok, err, WireError, Wire, parse_wire, word64, proto_string, messages, proto_int,
}
use zcr521_ai_mcp.Common.{
  [], ◌∷◌, Text, ℤ, List, if◌then◌else◌, ℕ, is_empty, ◌++◌, Bool, pos, ◌||◌, false, not, map,
  int_eq, true,
}

pub record ApkDescription : Type 0 where
  pub path : Text
  pub module_name : Text
  pub delivery : ℤ
  pub target : ApkTarget
  pub is_master : Bool
  pub variant : ℤ

pub record VariantDescriptor : Type 0 where
  pub number : ℤ
  pub target : ApkTarget

-- An error of the reader, or one of the contents.
pub data TocError : Type 0 where
  bad_wire : WireError → TocError
  no_path nothing_installable : TocError

pub data Toc {ℓ} (A : Type ℓ) : Type ℓ where
  read : A → Toc A
  refused : TocError → Toc A

infixl 5 ◌then◌
abbrev pub ◌then◌ {ℓ κ} : {A : Type ℓ} {B : Type κ} → Toc A → (A → Toc B) → Toc B
read a then f = f a
refused e then f = refused e

abbrev pub wire {ℓ} : {A : Type ℓ} → Wire A → Toc A
wire (ok a) = read a
wire (err e) = refused (bad_wire e)

-- The targeting of the first message, if there is one.
abbrev pub target_or : (List ℕ → Wire ApkTarget) → List (List ℕ) → Wire ApkTarget
target_or parse [] = ok no_target
target_or parse (raw ∷ _) = parse raw

abbrev pub master_of : List (List ℕ) → Wire Bool
master_of [] = ok false
master_of (raw ∷ _) = parse_wire word64 raw >>= λ fields. ok (not (int_eq (proto_int fields 2) 0))

abbrev pub with_path : ApkDescription → Toc ApkDescription
with_path d = if is_empty d.path then refused no_path else read d

-- One ApkDescription of a module of a variant.
unfoldable pub parse_apk : ℤ → Text × ℤ → List ℕ → Toc ApkDescription
parse_apk number (name, delivery) raw = wire (parse_wire word64 raw) then λ fields.
    wire (target_or parse_apk_target (messages fields 1)) then λ target.
    wire (master_of (messages fields 3)) then λ master. with_path (record {
      path = proto_string fields 2;
      module_name = name;
      delivery = delivery;
      target = target;
      is_master = master;
      variant = number;
    })

-- A loop over messages.
unfoldable pub each_message {ℓ} :
    {A : Type ℓ} → (List ℕ → Toc (List A)) → List (List ℕ) → Toc (List A)
each_message parse [] = read []
each_message parse (raw ∷ raws) =
    let rest = each_message parse raws in
    parse raw then λ found. rest then λ more. read (found ++ more)

abbrev pub metadata_of : List (List ℕ) → Wire (Text × ℤ)
metadata_of [] = ok ([], pos 0)
metadata_of (raw ∷ _) =
    parse_wire word64 raw >>= λ fields. ok (proto_string fields 1, proto_int fields 6)

abbrev pub one {ℓ} : {A : Type ℓ} → Toc A → Toc (List A)
one t = t then λ a. read (a ∷ [])

-- One ApkSet of a variant.
unfoldable pub parse_set : ℤ → List ℕ → Toc (List ApkDescription)
parse_set number raw = wire (parse_wire word64 raw) then λ fields.
    wire (metadata_of (messages fields 1)) then λ metadata.
    each_message (λ apk. one (parse_apk number metadata apk)) (messages fields 2)

unfoldable pub parse_variant : List ℕ → Toc (VariantDescriptor × List ApkDescription)
parse_variant raw = wire (parse_wire word64 raw) then λ fields.
    wire (target_or parse_variant_target (messages fields 1)) then λ target.
    each_message (parse_set (proto_int fields 3)) (messages fields 2) then λ apks.
    read (record { number = proto_int fields 3; target = target }, apks)

pub record BuildApksResult : Type 0 where
  pub package_name : Text
  pub descriptions : List ApkDescription
  pub variants : List VariantDescriptor

unfoldable pub all_apks : List (VariantDescriptor × List ApkDescription) → List ApkDescription
all_apks [] = []
all_apks ((_, apks) ∷ rest) = apks ++ all_apks rest

abbrev pub no_items {ℓ} : {A : Type ℓ} → List A → Bool
no_items [] = true
no_items (_ ∷ _) = false

abbrev pub installable : BuildApksResult → Toc BuildApksResult
installable r =
    if no_items r.variants || no_items r.descriptions then refused nothing_installable else read r

unfoldable pub parse_build_apks_result : List ℕ → Toc BuildApksResult
parse_build_apks_result data' = wire (parse_wire word64 data') then λ root.
    each_message (λ raw. one (parse_variant raw)) (messages root 1) then λ found.
    installable (record {
      package_name = proto_string root 4;
      descriptions = all_apks found;
      variants = map (λ v. v.0) found;
    })
