-- ===== src/Packages/Select.antt =====
-- selectAPKS of internal/ops/package_archive.go: the APKs that a device needs. strings.EqualFold and
-- ToLower, the order of the variants after sort.Slice, and sort.Strings are parameters.
use zcr521_ai_mcp.Archive.Paths.{safe_archive_path, clean}
use zcr521_ai_mcp.Packages.Targets.{ApkTarget}
use zcr521_ai_mcp.Transfer.Syntax.{split}
use zcr521_ai_mcp.Packages.Contents.{
  ◌then◌, VariantDescriptor, no_items, ApkDescription, BuildApksResult, Toc, refused,
  parse_build_apks_result, read,
}
use zcr521_ai_mcp.Common.{
  int_same, [], ◌∷◌, Text, List, ℕ, ℤ, Bool, if◌then◌else◌, map, pos, any, ◌==◌, text_eq, int_lt,
  max_int64, not, ◌||◌, ◌-◌, ◌&&◌, negsuc, to_int64, Option, ◌+◌, int_eq, is_empty, ◌++◌, and_then,
  some, none, codes,
}

pub record Strings : Type 0 where
  pub equal_fold : Text → Text → Bool
  pub lower : Text → Text
  pub sort_variants : List VariantDescriptor → List VariantDescriptor
  pub sort_texts : List Text → List Text

pub record DeviceSpec : Type 0 where
  pub abis : List Text
  pub density : ℤ
  pub locales : List Text
  pub sdk : ℤ

pub record ApksSelection : Type 0 where
  pub package_name : Text
  pub paths : List Text
  pub variant : ℤ
  pub abi : Text
  pub density : ℤ
  pub locales : List Text

abbrev pub contains_string_fold : Strings → List Text → Text → Bool
contains_string_fold lib values wanted = any (λ v. lib.equal_fold v wanted) values

abbrev pub contains_any_string_fold : Strings → List Text → List Text → Bool
contains_any_string_fold lib left right = any (λ v. contains_string_fold lib right v) left

abbrev pub contains_int : List ℤ → ℤ → Bool
contains_int values wanted = any (λ v. int_same v wanted) values

abbrev pub dash_for : ℕ → ℕ
dash_for c = if c == b'_' then b'-' else c

abbrev pub locale_name : Strings → Text → Text
locale_name lib s = lib.lower (map dash_for s)

abbrev pub first_word : List Text → Text
first_word [] = []
first_word (w ∷ _) = w

abbrev pub locale_matches : Text → Text → Bool
locale_matches target locale =
    text_eq locale target
    || text_eq (first_word (split b'-' locale)) (first_word (split b'-' target))

abbrev pub languages_intersect : Strings → List Text → List Text → Bool
languages_intersect lib targets locales =
    any (λ t. any (λ l. locale_matches (locale_name lib t) (locale_name lib l)) locales) targets

-- The 64 bits of an int, and a difference of ints, which wraps around.
abbrev pub bits_of : ℤ → ℕ
bits_of (pos n) = n
bits_of (negsuc n) = 18446744073709551615 - n

abbrev pub minus_int64 : ℤ → ℤ → ℤ
minus_int64 a b = to_int64 (bits_of a + (18446744073709551616 - bits_of b))

abbrev pub without_sign : ℤ → ℤ
without_sign (pos n) = pos n
without_sign (negsuc n) = to_int64 (n + 1)

abbrev pub distance_of : ℤ → ℤ → ℤ
distance_of value wanted = without_sign (minus_int64 value wanted)

-- The loop of nearestDensity with the best value and its distance so far.
unfoldable pub nearest_from : ℤ → ℤ → ℤ → List ℤ → ℤ
nearest_from wanted best best_distance [] = best
nearest_from wanted best best_distance (v ∷ values) =
    let d = distance_of v wanted in
    let kept = nearest_from wanted best best_distance values in
    let taken = nearest_from wanted v d values in
    if int_lt d best_distance || (int_same d best_distance && int_lt best v) then taken else kept

unfoldable pub nearest_density : ℤ → List ℤ → ℤ
nearest_density wanted values = nearest_from wanted (pos 0) (pos max_int64) values

unfoldable pub highest_from : ℤ → ℤ → List ℤ → ℤ
highest_from wanted best [] = best
highest_from wanted best (v ∷ values) =
    let kept = highest_from wanted best values in
    let taken = highest_from wanted v values in
    if not (int_lt wanted v) && int_lt best v then taken else kept

unfoldable pub highest_not_above : ℤ → List ℤ → ℤ
highest_not_above wanted values = highest_from wanted (pos 0) values

abbrev pub has_some {ℓ} : {A : Type ℓ} → List A → Bool
has_some l = not (no_items l)

unfoldable pub target_matches_variant : Strings → ApkTarget → DeviceSpec → Bool
target_matches_variant lib t d =
    not (has_some t.abis && not (contains_any_string_fold lib t.abis d.abis))
    && not (
        no_items t.abis
        && has_some t.abi_alternatives
        && contains_any_string_fold lib t.abi_alternatives d.abis)
    && not (has_some t.min_sdks && int_eq (highest_not_above d.sdk t.min_sdks) 0)
    && not (has_some t.densities && int_eq (nearest_density d.density t.densities) 0)

unfoldable pub target_is_empty : ApkTarget → Bool
target_is_empty t =
    no_items t.abis
    && no_items t.densities
    && no_items t.languages
    && no_items t.min_sdks
    && no_items t.abi_alternatives
    && no_items t.density_alternatives
    && no_items t.language_alternatives
    && no_items t.sdk_alternatives

unfoldable pub find_variant : Strings → DeviceSpec → List VariantDescriptor → ℤ
find_variant lib d [] = negsuc 0
find_variant lib d (v ∷ vs) =
    let rest = find_variant lib d vs in
    if target_matches_variant lib v.target d then v.number else rest

abbrev pub is_candidate : ℤ → ApkDescription → Bool
is_candidate variant a = int_same a.variant variant && (int_eq a.delivery 0 || int_eq a.delivery 1)

unfoldable pub candidates : ℤ → List ApkDescription → List ApkDescription
candidates variant [] = []
candidates variant (a ∷ apks) =
    let rest = candidates variant apks in if is_candidate variant a then a ∷ rest else rest

-- The first ABI of the device that a candidate has. An empty one does not end the search.
unfoldable pub choose_abi : Strings → List ApkDescription → List Text → Text
choose_abi lib apks [] = []
choose_abi lib apks (abi ∷ abis) =
    let rest = choose_abi lib apks abis in
    if any (λ a. contains_string_fold lib a.target.abis abi) apks && not (is_empty abi)
    then abi
    else rest

unfoldable pub all_of {ℓ} : {A : Type ℓ} → (ApkDescription → List A) → List ApkDescription → List A
all_of f [] = []
all_of f (a ∷ apks) = f a ++ all_of f apks

-- What is chosen of the device among the candidates.
pub record Choice : Type 0 where
  pub abi : Text
  pub density : ℤ
  pub sdk : ℤ

abbrev pub choice_of : Strings → DeviceSpec → List ApkDescription → Choice
choice_of lib d apks = record {
  abi = choose_abi lib apks d.abis;
  density = nearest_density d.density (all_of (λ a. a.target.densities) apks);
  sdk = highest_not_above d.sdk (all_of (λ a. a.target.min_sdks) apks);
}

-- The tests that leave a targeted APK out.
abbrev pub fits : Strings → DeviceSpec → Choice → ApkTarget → Bool
fits lib d c t =
    not (has_some t.abis && (is_empty c.abi || not (contains_string_fold lib t.abis c.abi)))
    && not
        (has_some t.densities && (int_eq c.density 0 || not (contains_int t.densities c.density)))
    && not (has_some t.min_sdks && (int_eq c.sdk 0 || not (contains_int t.min_sdks c.sdk)))
    && not (has_some t.languages && not (languages_intersect lib t.languages d.locales))
    && not (
        no_items t.abis
        && has_some t.abi_alternatives
        && contains_any_string_fold lib t.abi_alternatives d.abis)
    && not (
        no_items t.languages
        && has_some t.language_alternatives
        && languages_intersect lib t.language_alternatives d.locales)

abbrev pub is_included : Strings → DeviceSpec → Choice → ApkDescription → Bool
is_included lib d c a = a.is_master || target_is_empty a.target || fits lib d c a.target

abbrev pub checked_path : ApkDescription → List Text → Option (List Text)
checked_path a paths =
    and_then (safe_archive_path (clean (codes ".")) a.path) λ _. some (a.path ∷ paths)

-- The loop over the candidates; `none` is a path that leads out.
unfoldable pub select_paths :
    Strings → DeviceSpec → Choice → List ApkDescription → Option (List Text)
select_paths lib d c [] = some []
select_paths lib d c (a ∷ apks) =
    let rest = select_paths lib d c apks in
    if is_included lib d c a then and_then rest (checked_path a) else rest

abbrev pub selection :
    Strings → DeviceSpec → Text → ℤ → Choice → Option (List Text) → Option ApksSelection
selection lib d name variant c none = none
selection lib d name variant c (some []) = none
selection lib d name variant c (some (p ∷ paths)) = some (record {
  package_name = name;
  paths = lib.sort_texts (p ∷ paths);
  variant = variant;
  abi = c.abi;
  density = c.density;
  locales = d.locales;
})

abbrev pub select_from : Strings → DeviceSpec → BuildApksResult → ℤ → Option ApksSelection
select_from lib d r (negsuc _) = none
select_from lib d r (pos n) =
    let apks = candidates (pos n) r.descriptions in
    let c = choice_of lib d apks in
    selection lib d r.package_name (pos n) c (select_paths lib d c apks)

abbrev pub select_result : Strings → DeviceSpec → Toc BuildApksResult → Option ApksSelection
select_result lib d (refused _) = none
select_result lib d (read r) =
    select_from lib d r (find_variant lib d (lib.sort_variants r.variants))

-- `none` is an error.
unfoldable pub select_apks : Strings → List ℕ → DeviceSpec → Option ApksSelection
select_apks lib data' d = select_result lib d (parse_build_apks_result data')
