-- ===== src/Archive/Below.antt =====
-- The checks of internal/ops/archive.go keep what is unpacked below the destination.
use zcr521_ai_mcp.Archive.Relative.{Below, none_differs, inside-rel}
use mathlib.Core.Path.{subst}
use mathlib.Core.Option.{some-injective, none}
use zcr521_ai_mcp.Archive.Clean.{
  IsPlain, IsClean, append-All-IsClean, clean-IsClean, join-IsClean, join-rooted, drop_last-IsClean,
}
use zcr521_ai_mcp.Archive.Paths.{
  Stat, is_plain, symlink, CleanPath, rel, inside, no_symlinks, if_inside, clean, safe_archive_path,
}
use zcr521_ai_mcp.Archive.Paths.{
  join, push_part, next_component, slash_for, entry_target, validate_archive_symlink, missing,
  archive_path_is_absolute, reject_archive_symlink_components, link_target, other, unreadable,
  push_parts, no_symlinks_inside, dir,
}
use zcr521_ai_mcp.Common.{
  map, [], ◌∷◌, List, Text, ◌≡◌, ◌++◌, All, ◌≢◌, ap, arith, Bool-cases, inl, inr, false, some,
  if◌then◌else◌, Option, sym, ◌∙◌, Bool, true, refl, is_some, and_then-eq_some,
}

-- None of the paths from below a root down to a target is a symbolic link.
abbrev pub Unlinked : (CleanPath → Stat) → CleanPath → List Text → Type 0
Unlinked lstat root [] = Unit
Unlinked lstat root (c ∷ cs) =
    let next = record root { parts = root.parts ++ c ∷ [] } in
    (lstat next ≢ symlink) × Unlinked lstat next cs

push_part_plain :
    (rooted : Bool) (cs : List Text) (c : Text) → IsPlain c → push_part rooted cs c ≡ cs ++ c ∷ []
unfolding push_part is_plain
push_part_plain rooted cs c p = ground arith

next_component_passes :
    (s : Stat) (rest : Bool) → next_component s rest ≡ true → (s ≢ symlink) × (rest ≡ true)
next_component_passes missing rest h = ((λ e. ground arith), h)
next_component_passes other rest h = ((λ e. ground arith), h)
next_component_passes unreadable rest h = ground arith
next_component_passes symlink rest h = ground arith

no_symlinks-Unlinked :
    (lstat : CleanPath → Stat) (cs : List Text) (root : CleanPath)
    → All IsPlain cs
    → no_symlinks lstat root cs ≡ true
    → Unlinked lstat root cs
unfolding no_symlinks push_parts
no_symlinks-Unlinked lstat [] root a h = tt
no_symlinks-Unlinked lstat (c ∷ cs) root a h =
    let child : CleanPath = record root { parts = root.parts ++ c ∷ [] } in
    let h' : next_component (lstat child) (no_symlinks lstat child cs) ≡ true =
      subst
        (λ ps.
          next_component (lstat (record root { parts = ps }))
            (no_symlinks lstat (record root { parts = ps }) cs)
          ≡ true)
        (push_part_plain root.rooted root.parts c a.0) h in
    let (free, rest) = next_component_passes (lstat child) _ h' in
    (free, no_symlinks-Unlinked lstat cs child a.1 rest)

-- The components below a path that an option names.
if_inside-some :
    (target t : CleanPath) (o : Option (List Text))
    → if_inside target o ≡ some t
    → (rest : List Text) × (o ≡ some rest) × (target ≡ t)
if_inside-some target t none h = ground arith
if_inside-some target t (some rest) h = (rest, refl, some-injective _ _ h)

safe_archive_path-Below :
    (root target : CleanPath) (name : Text)
    → IsClean root.parts
    → safe_archive_path root name ≡ some target
    → (rest : List Text) × (inside (rel root target) ≡ some rest) × Below root target rest
unfolding safe_archive_path
safe_archive_path-Below root target name c h =
    let t : CleanPath = join root (map slash_for name) in
    elim (Bool-cases (archive_path_is_absolute name)) [
      | inl hit ↦ absurd (
          none_differs target
            (ap (λ b. if b then none else if_inside t (inside (rel root t))) (sym hit) ∙ h))
      | inr miss ↦
          let h' : if_inside t (inside (rel root t)) ≡ some target =
            ap (λ b. if b then none else if_inside t (inside (rel root t))) (sym miss) ∙ h in
          let (rest, e, same) = if_inside-some t target (inside (rel root t)) h' in
          subst (λ x. (rest : List Text) × (inside (rel root x) ≡ some rest) × Below root x rest)
            same
            (
              rest,
              e,
              inside-rel root t rest (join-IsClean root (map slash_for name) c)
                  (join-rooted root (map slash_for name)) e,
            )
    ]

if_some {ℓ} :
    {A : Type ℓ} (b : Bool) (t target : A)
    → (if b then some t else none) ≡ some target
    → (b ≡ true) × (t ≡ target)
if_some true t target h = (refl, some-injective _ _ h)
if_some false t target h = ground arith

some_of {ℓ} : {A : Type ℓ} (o : Option A) → is_some o ≡ true → (a : A) × (o ≡ some a)
some_of none h = ground arith
some_of (some a) h = (a, refl)

-- Where extractZIP and extractTAR unpack an entry, whatever its name: below the destination, the
-- components behind the destination's being neither empty nor `.` nor `..`; and no path from below the
-- destination down to it is a symbolic link at the time of the check.
pub entry_target-Below :
    (lstat : CleanPath → Stat) (destination name : Text) (target : CleanPath)
    → entry_target lstat destination name ≡ some target
    → (rest : List Text) × Below (clean destination) target rest
      × Unlinked lstat (clean destination) rest
unfolding entry_target reject_archive_symlink_components
entry_target-Below lstat destination name target h =
    let root : CleanPath = clean destination in
    let (t, e, h') = and_then-eq_some (safe_archive_path root name) _ h in
    let (free, same) = if_some _ t target h' in
    let (rest, e', below) = safe_archive_path-Below root t name (clean-IsClean destination) e in
    let free' : no_symlinks lstat root rest ≡ true =
      sym (ap (no_symlinks_inside lstat root) e') ∙ free in
    (
      rest,
      subst (λ x. Below root x rest) same below,
      no_symlinks-Unlinked lstat rest root below.2 free',
    )

-- The symbolic links that extractTAR makes, whatever they name: the target of an entry's link is below
-- the destination, reckoned by its components, those behind the destination's being neither empty nor
-- `.` nor `..`.
pub validate_archive_symlink-Below :
    (lstat : CleanPath → Stat) (destination name link : Text) (target : CleanPath)
    → entry_target lstat destination name ≡ some target
    → validate_archive_symlink (clean destination) target link ≡ true
    → (rest : List Text) × Below (clean destination) (link_target target link) rest
unfolding validate_archive_symlink entry_target
validate_archive_symlink-Below lstat destination name link target h v =
    let root : CleanPath = clean destination in
    let (rest, below, free) = entry_target-Below lstat destination name target h in
    let clean' : IsClean target.parts =
      subst IsClean (sym below.1)
        (append-All-IsClean root.parts rest (clean-IsClean destination) below.2) in
    let (rest', e) = some_of (inside (rel root (link_target target link))) (ground arith) in
    (
      rest',
      inside-rel root (link_target target link) rest'
          (join-IsClean (dir target) (map slash_for link) (drop_last-IsClean target.parts clean'))
          (join-rooted (dir target) (map slash_for link) ∙ below.0) e,
    )
