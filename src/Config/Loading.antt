-- ===== src/Config/Loading.antt =====
-- What internal/config/config.go's Save and Load hand to one another.
use zcr521_ai_mcp.Config.Utf8.{has_utf8}
use zcr521_ai_mcp.Config.Data.{
  derive_paths, validate, Join, Config, problems, or_else, or_no_capability, default_config,
}
use zcr521_ai_mcp.Config.Files.{
  save, recover, fresh_config, load, Reply, Env, LoadReport, Disk, ok, saved, ConfigFile, load_file,
  err, absent, json, blank_config, unreadable, garbage, Fault,
}
use zcr521_ai_mcp.Common.{
  [], ◌∷◌, Text, Option, Map, Bool, ◌≡◌, codes, refl, Bool-cases, none, true, inl, false, sym, ◌∙◌,
  some, inr, ap, arith,
}

or_else_twice : (v w : Text) → or_else (or_else v w) w ≡ or_else v w
or_else_twice [] [] = refl
or_else_twice [] (_ ∷ _) = refl
or_else_twice (_ ∷ _) w = refl

or_no_capability_twice :
    (m : Option (Map Bool)) → or_no_capability (or_no_capability m) ≡ or_no_capability m
or_no_capability_twice none = refl
or_no_capability_twice (some m) = refl

pub derive_paths_twice :
    (join : Join) (c : Config) → derive_paths join (derive_paths join c) ≡ derive_paths join c
unfolding derive_paths
derive_paths_twice join c = λ i. record c {
  paths = record c.paths {
    downloads_dir =
        or_else_twice c.paths.downloads_dir (join c.paths.work_dir (codes "downloads")) i;
    uploads_dir = or_else_twice c.paths.uploads_dir (join c.paths.work_dir (codes "uploads")) i;
    artifacts_dir = or_else_twice c.paths.artifacts_dir (join c.paths.work_dir (codes "output")) i;
    temp_dir = or_else_twice c.paths.temp_dir (join c.paths.state_dir (codes "tmp")) i;
  };
  capabilities = or_no_capability_twice c.capabilities i;
}

pub validate-derive_paths : (join : Join) (c : Config) → validate (derive_paths join c) ≡ validate c
unfolding validate problems derive_paths
validate-derive_paths join c = refl

-- A configuration that Load answers with passes Validate and has its derived paths.
abbrev pub ValidReply : Join → Reply (Config × LoadReport) → Type 0
ValidReply join (ok (c, report)) = (validate c ≡ true) × (derive_paths join c ≡ c)
ValidReply join (err _) = Unit {0}

fresh_config_derived :
    (join : Join) (dir : Text) → derive_paths join (fresh_config join dir) ≡ fresh_config join dir
unfolding fresh_config
fresh_config_derived join dir =
    let d = default_config join in
    derive_paths_twice join (record d { paths = record d.paths { state_dir = dir } })

save-ValidReply :
    (join : Join) (env : Env) (c : Config) (report : LoadReport) (d : Disk)
    → derive_paths join c ≡ c
    → let (d', reply) = saved c report (save join env c d) in ValidReply join reply
unfolding save
save-ValidReply join env c report d h = elim (Bool-cases (validate (derive_paths join c))) [
  | inl valid ↦ elim (Bool-cases env.writes) [
    | inl w ↦ simp (valid, w) (sym (validate-derive_paths join c) ∙ valid, h)
    | inr w ↦ simp (valid, w) tt
  ]
  | inr invalid ↦ simp invalid tt
]

recover-ValidReply :
    (join : Join) (env : Env) (dir : Text) (d : Disk)
    → let (d', reply) = recover join env dir d in ValidReply join reply
unfolding recover fresh_config
recover-ValidReply join env dir d = elim (Bool-cases env.renames) [
  | inl r ↦ simp r (
      save-ValidReply join env (fresh_config join dir)
        (record { created = false; recovered = true })
        (record { file = absent; backup = some d.file }) (fresh_config_derived join dir))
  | inr r ↦ simp r tt
]

load_file-ValidReply :
    (join : Join) (env : Env) (dir : Text) (d : Disk) (file : ConfigFile)
    → let (d', reply) = load_file join env dir d file in ValidReply join reply
unfolding fresh_config
load_file-ValidReply join env dir d absent =
    save-ValidReply join env (fresh_config join dir) (record { created = true; recovered = false })
      d (fresh_config_derived join dir)
load_file-ValidReply join env dir d unreadable = tt
load_file-ValidReply join env dir d garbage = recover-ValidReply join env dir d
load_file-ValidReply join env dir d (json decode) =
    elim (Bool-cases (validate (decode (blank_config join dir)))) [
      | inl valid ↦ simp valid (
        validate-derive_paths join (decode (blank_config join dir)) ∙ valid,
        derive_paths_twice join (decode (blank_config join dir)),
      )
      | inr invalid ↦ simp invalid (recover-ValidReply join env dir d)
    ]

-- Whatever the file holds and whichever of the file system's operations fails: a configuration that
-- Load answers with passes Validate, and deriving its paths changes nothing any more.
pub load_valid :
    (join : Join) (env : Env) (dir : Text) (d : Disk)
    → let (d', reply) = load join env dir d in ValidReply join reply
unfolding load
load_valid join env dir d = load_file-ValidReply join env dir d d.file

save_written :
    (join : Join) (env : Env) (c : Config) (d d' : Disk)
    → save join env c d ≡ (d', none)
    → (validate (derive_paths join c) ≡ true)
      × (d'.file ≡ json (env.encoding (derive_paths join c)))
unfolding save
save_written join env c d d' h = elim (Bool-cases (validate (derive_paths join c))) [
  | inl valid ↦ elim (Bool-cases env.writes) [
    | inl w ↦
        let done : (record d { file = json (env.encoding (derive_paths join c)) }, none)
            ≡ (d', none) =
          simp (valid, w) at h in
        (valid, ap {B = ConfigFile} (λ (r : Disk × Option Fault). r.0.file) (sym done))
    | inr w ↦ ground arith
  ]
  | inr invalid ↦ ground arith
]

-- Whatever text was saved, it is decoded into a configuration without capabilities.
pub blank_capabilities : (join : Join) (dir : Text) → (blank_config join dir).capabilities ≡ some []
unfolding blank_config default_config
blank_capabilities join dir = refl

-- After a Save that succeeds of a configuration whose texts are UTF-8, Load in whatever directory
-- answers with the configuration that was saved, with its derived paths, reports neither a creation
-- nor a recovery and changes no file, given of encoding/json that a configuration whose texts are
-- UTF-8, encoded and decoded into one with an empty map, is read as it was.
pub load_after_save :
    (join : Join) (env later : Env) (dir : Text) (c : Config) (d d' : Disk)
    → ((x b : Config) → has_utf8 x ≡ true → b.capabilities ≡ some [] → env.encoding x b ≡ x)
    → has_utf8 (derive_paths join c) ≡ true
    → save join env c d ≡ (d', none)
    → load join later dir d'
      ≡ (d', ok (derive_paths join c, record { created = false; recovered = false }))
unfolding load
load_after_save join env later dir c d d' law plain h =
    let (valid, written) = save_written join env c d d' h in
    let read =
      law (derive_paths join c) (blank_config join dir) plain (blank_capabilities join dir) in
    rw (written, read, valid, derive_paths_twice join c) refl
