-- ===== src/Archive/Paths.antt =====
-- safeArchivePath, rejectArchiveSymlinkComponents, validateArchiveSymlink and archivePathIsAbsolute of
-- internal/ops/archive.go, and what they use of path/filepath on Linux: Clean, Join, Dir and Rel. A
-- path that is clean is its components.
use zcr521_ai_mcp.Transfer.Syntax.{split}
use zcr521_ai_mcp.Common.{
  [], ◌∷◌, Bool, Text, List, Option, ℕ, codes, not, false, none, if◌then◌else◌, some, leb, ◌&&◌,
  ◌||◌, true, and_then, map, is_empty, ◌==◌, text_eq, is_some, ◌++◌,
}

-- A clean path; without a component it is `/` or `.`.
pub record CleanPath : Type 0 where
  pub rooted : Bool
  pub parts : List Text

abbrev pub dot_dot : Text
dot_dot = codes ".."

unfoldable pub is_plain : Text → Bool
is_plain c = not (is_empty c) && not (text_eq c (codes ".")) && not (text_eq c dot_dot)

abbrev pub is_rooted : Text → Bool
is_rooted [] = false
is_rooted (c ∷ _) = c == b'/'

unfoldable pub last_part : List Text → Option Text
last_part [] = none
last_part (c ∷ []) = some c
last_part (c ∷ d ∷ cs) = last_part (d ∷ cs)

unfoldable pub drop_last : List Text → List Text
drop_last [] = []
drop_last (c ∷ []) = []
drop_last (c ∷ d ∷ cs) = c ∷ drop_last (d ∷ cs)

-- A component `..` behind others.
abbrev pub up : Bool → List Text → Option Text → List Text
up rooted parts none = if rooted then [] else dot_dot ∷ []
up rooted parts (some c) = if text_eq c dot_dot then parts ++ dot_dot ∷ [] else drop_last parts

unfoldable pub push_part : Bool → List Text → Text → List Text
push_part rooted parts c =
    if text_eq c dot_dot
    then up rooted parts (last_part parts)
    else if is_plain c
    then parts ++ c ∷ []
    else parts

unfoldable pub push_parts : Bool → List Text → List Text → List Text
push_parts rooted parts [] = parts
push_parts rooted parts (c ∷ cs) = push_parts rooted (push_part rooted parts c) cs

abbrev pub join_parts : CleanPath → List Text → CleanPath
join_parts p cs = record p { parts = push_parts p.rooted p.parts cs }

-- filepath.Join of a clean path and a text.
unfoldable pub join : CleanPath → Text → CleanPath
join p name = join_parts p (split b'/' name)

-- filepath.Clean
abbrev pub clean : Text → CleanPath
clean s = join (record { rooted = is_rooted s; parts = [] }) s

-- filepath.Dir of a clean path.
abbrev pub dir : CleanPath → CleanPath
dir p = record p { parts = drop_last p.parts }

-- What is left of two paths behind the components that they share.
unfoldable pub strip : List Text → List Text → List Text × List Text
strip [] target = ([], target)
strip (b ∷ bs) [] = (b ∷ bs, [])
strip (b ∷ bs) (t ∷ ts) = let rest = strip bs ts in if text_eq b t then rest else (b ∷ bs, t ∷ ts)

abbrev pub relative_of : List Text × List Text → Option (List Text)
relative_of ([], target) = some target
relative_of (b ∷ bs, target) =
    if text_eq b dot_dot then none else some (dot_dot ∷ map (λ _. dot_dot) bs ++ target)

abbrev pub is_same : Bool → Bool → Bool
is_same true b = b
is_same false b = not b

-- filepath.Rel of clean paths.
unfoldable pub rel : CleanPath → CleanPath → Option (List Text)
rel base target =
    if is_same base.rooted target.rooted then relative_of (strip base.parts target.parts) else none

-- A relative path that does not lead out.
abbrev pub inside : Option (List Text) → Option (List Text)
inside none = none
inside (some []) = some []
inside (some (c ∷ cs)) = if text_eq c dot_dot then none else some (c ∷ cs)

abbrev pub slash_for : ℕ → ℕ
slash_for c = if c == 0x5c then b'/' else c

abbrev pub is_letter : ℕ → Bool
is_letter c = (leb b'a' c && leb c b'z') || (leb b'A' c && leb c b'Z')

abbrev pub has_drive : Text → Bool
has_drive (c ∷ d ∷ _) = is_letter c && d == b':'
has_drive _ = false

unfoldable pub archive_path_is_absolute : Text → Bool
archive_path_is_absolute name =
    is_rooted name || is_rooted (map slash_for name) || has_drive (map slash_for name)

abbrev pub if_inside : CleanPath → Option (List Text) → Option CleanPath
if_inside target none = none
if_inside target (some _) = some target

unfoldable pub safe_archive_path : CleanPath → Text → Option CleanPath
safe_archive_path root name =
    if archive_path_is_absolute name
    then none
    else (let target = join root (map slash_for name) in
        if_inside target (inside (rel root target)))

-- os.Lstat
pub data Stat : Type 0 where
  missing unreadable symlink other : Stat

abbrev pub next_component : Stat → Bool → Bool
next_component missing rest = rest
next_component other rest = rest
next_component unreadable rest = false
next_component symlink rest = false

-- The loop over the components.
unfoldable pub no_symlinks : (CleanPath → Stat) → CleanPath → List Text → Bool
no_symlinks lstat current [] = true
no_symlinks lstat current (c ∷ cs) =
    let next = join_parts current (c ∷ []) in
    let rest = no_symlinks lstat next cs in next_component (lstat next) rest

abbrev pub no_symlinks_inside : (CleanPath → Stat) → CleanPath → Option (List Text) → Bool
no_symlinks_inside lstat root none = false
no_symlinks_inside lstat root (some components) = no_symlinks lstat root components

-- rejectArchiveSymlinkComponents; false is an error.
unfoldable pub reject_archive_symlink_components : (CleanPath → Stat) → CleanPath → CleanPath → Bool
reject_archive_symlink_components lstat root target =
    no_symlinks_inside lstat root (inside (rel root target))

-- Where an entry of an archive is unpacked: both checks, as extractZIP and extractTAR make them.
unfoldable pub entry_target : (CleanPath → Stat) → Text → Text → Option CleanPath
entry_target lstat destination name =
    and_then (safe_archive_path (clean destination) name) λ target.
      if reject_archive_symlink_components lstat (clean destination) target
      then some target
      else none

abbrev pub link_target : CleanPath → Text → CleanPath
link_target target link = join (dir target) (map slash_for link)

-- validateArchiveSymlink; false is an error.
unfoldable pub validate_archive_symlink : CleanPath → CleanPath → Text → Bool
validate_archive_symlink root target link =
    not (archive_path_is_absolute link) && is_some (inside (rel root (link_target target link)))
