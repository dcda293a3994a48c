-- ===== src/Examples/Config.antt =====
-- The default configuration (internal/config/config.go), written and read.
use zcr521_ai_mcp.Config.Utf8.{has_utf8}
use zcr521_ai_mcp.Config.Loading.{ValidReply, load_after_save, load_valid}
use zcr521_ai_mcp.Config.Validity.{Passed, validate_sound}
use zcr521_ai_mcp.Transfer.Syntax.{trim_space}
use zcr521_ai_mcp.Config.Data.{
  Join, validate, problems, derive_paths, default_config, wildcard_origins, bad_path,
}
use zcr521_ai_mcp.Common.{
  true, Text, ◌++◌, codes, none, ◌∷◌, has_prefix, ◌≡◌, refl, false, if◌then◌else◌,
}
use zcr521_ai_mcp.Config.Files.{Env, Disk, absent, garbage, load, json, save, ok}

abbrev join : Join
join directory name = directory ++ (b'/' ∷ name)

abbrev calm : Env
calm = record { encoding = λ c b. if has_utf8 c then c else b; writes = true; renames = true }

abbrev other_dir : Text
other_dir = codes "/x"

abbrev first_start : Disk
first_start = record { file = absent; backup = none }

abbrev damaged : Disk
damaged = record { file = garbage; backup = none }

load_valid_example : let (d', reply) = load join calm other_dir damaged in ValidReply join reply
load_valid_example = load_valid join calm other_dir damaged

validate_sound_example : Passed (default_config join)
unfolding validate problems default_config wildcard_origins bad_path trim_space has_prefix
validate_sound_example = validate_sound (default_config join) refl

abbrev written : Disk
written = record first_start {
  file = json (calm.encoding (derive_paths join (default_config join)));
}

load_after_save_example : load join calm other_dir written ≡ (
  written,
  ok (derive_paths join (default_config join), record { created = false; recovered = false }),
)
unfolding save validate problems default_config derive_paths wildcard_origins bad_path trim_space
    has_prefix has_utf8
load_after_save_example =
    load_after_save join calm calm other_dir (default_config join) first_start written
      (λ x b h _. rw h refl) refl refl
