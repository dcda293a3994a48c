-- ===== src/Examples/Archive.antt =====
-- An entry of an archive that is unpacked below `/data/out` (internal/ops/archive.go).
use zcr521_ai_mcp.Transfer.Syntax.{split}
use zcr521_ai_mcp.Archive.Below.{Unlinked, entry_target-Below, validate_archive_symlink-Below}
use zcr521_ai_mcp.Archive.Relative.{Below}
use zcr521_ai_mcp.Archive.Paths.{
  CleanPath, entry_target, validate_archive_symlink, Stat, safe_archive_path, rel,
  reject_archive_symlink_components, clean, strip, no_symlinks, join, link_target, push_parts,
  missing, push_part, last_part, drop_last, archive_path_is_absolute, is_plain,
}
use zcr521_ai_mcp.Common.{[], ◌∷◌, Text, List, codes, true, text_eq, ◌≡◌, refl, some}

abbrev lstat : CleanPath → Stat
lstat p = missing

abbrev destination : Text
destination = codes "/data/out/"

abbrev entry : Text
entry = codes "lib/../share\\./a"

abbrev place : CleanPath
place = record {
  rooted = true;
  parts = codes "data" ∷ codes "out" ∷ codes "share" ∷ codes "a" ∷ [];
}

place_found : entry_target lstat destination entry ≡ some place
unfolding entry_target safe_archive_path reject_archive_symlink_components no_symlinks rel strip
    join push_parts push_part last_part drop_last archive_path_is_absolute split text_eq is_plain
place_found = refl

entry_target-Below_example :
    (rest : List Text) × Below (clean destination) place rest
    × Unlinked lstat (clean destination) rest
entry_target-Below_example = entry_target-Below lstat destination entry place place_found

abbrev link : Text
link = codes "../../out/b"

link_taken : validate_archive_symlink (clean destination) place link ≡ true
unfolding validate_archive_symlink rel strip join push_parts push_part last_part drop_last
    archive_path_is_absolute split text_eq is_plain
link_taken = refl

validate_archive_symlink-Below_example :
    (rest : List Text) × Below (clean destination) (link_target place link) rest
validate_archive_symlink-Below_example =
    validate_archive_symlink-Below lstat destination entry link place place_found link_taken
