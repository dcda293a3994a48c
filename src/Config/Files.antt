-- ===== src/Config/Files.antt =====
-- Save, Load and ListenAddresses of internal/config/config.go. A file of JSON is what its decoding
-- makes of the configuration that it is decoded into. encoding/json is a parameter: `encoding` says what
-- Unmarshal of the text that MarshalIndent gives for a configuration makes of another one.
use zcr521_ai_mcp.Config.Data.{Config, derive_paths, default_config, Join, Network, validate}
use zcr521_ai_mcp.Common.{
  [], ◌∷◌, Option, Bool, Text, if◌then◌else◌, some, true, List, not, none, false, contains_byte,
  codes, ◌++◌,
}

pub data ConfigFile : Type 0 where
  absent unreadable garbage : ConfigFile
  json : (Config → Config) → ConfigFile

-- The configuration file, and the damaged one that was moved aside.
pub record Disk : Type 0 where
  pub file : ConfigFile
  pub backup : Option ConfigFile

pub record Env : Type 0 where
  pub encoding : Config → Config → Config
  pub writes : Bool
  pub renames : Bool

pub data Fault : Type 0 where
  invalid not_written not_read not_backed_up : Fault

pub record LoadReport : Type 0 where
  pub created : Bool
  pub recovered : Bool

pub data Reply {ℓ} (A : Type ℓ) : Type ℓ where
  ok : A → Reply A
  err : Fault → Reply A

unfoldable pub save : Join → Env → Config → Disk → Disk × Option Fault
unfolding derive_paths
save join env cfg d =
    let c = derive_paths join cfg in
    if not (validate c)
    then (d, some invalid)
    else if env.writes
    then (record d { file = json (env.encoding c) }, none)
    else (d, some not_written)

-- The default in the directory of the file.
unfoldable pub fresh_config : Join → Text → Config
unfolding default_config derive_paths
fresh_config join dir =
    let d = default_config join in
    derive_paths join (record d { paths = record d.paths { state_dir = dir } })

-- What a file is decoded into.
unfoldable pub blank_config : Join → Text → Config
unfolding default_config
blank_config join dir =
    let d = default_config join in
    record d {
      paths = record d.paths {
        state_dir = dir;
        downloads_dir = [];
        uploads_dir = [];
        artifacts_dir = [];
        temp_dir = [];
      };
    }

abbrev pub saved : Config → LoadReport → Disk × Option Fault → Disk × Reply (Config × LoadReport)
saved c report (d, none) = (d, ok (c, report))
saved c report (d, some e) = (d, err e)

unfoldable pub recover : Join → Env → Text → Disk → Disk × Reply (Config × LoadReport)
unfolding save fresh_config
recover join env dir d =
    if not env.renames
    then (d, err not_backed_up)
    else (let c = fresh_config join dir in
        saved c (record { created = false; recovered = true })
          (save join env c (record { file = absent; backup = some d.file })))

abbrev pub load_file : Join → Env → Text → Disk → ConfigFile → Disk × Reply (Config × LoadReport)
load_file join env dir d absent =
    let c = fresh_config join dir in
    saved c (record { created = true; recovered = false }) (save join env c d)
load_file join env dir d unreadable = (d, err not_read)
load_file join env dir d garbage = recover join env dir d
load_file join env dir d (json decode) =
    let c = decode (blank_config join dir) in
    if validate c
    then (d, ok (derive_paths join c, record { created = false; recovered = false }))
    else recover join env dir d

-- `dir` is the directory of the file.
unfoldable pub load : Join → Env → Text → Disk → Disk × Reply (Config × LoadReport)
unfolding recover fresh_config blank_config
load join env dir d = load_file join env dir d d.file

-- net.JoinHostPort, which brackets an address with a colon.
unfoldable pub join_host_port : Text → Text → Text
join_host_port host port =
    if contains_byte b':' host
    then (b'[' ∷ (host ++ (codes "]:" ++ port)))
    else host ++ (b':' ∷ port)

unfoldable pub listen_addresses : Network → Text → List Text
unfolding join_host_port
listen_addresses n port =
    (if n.listen_loopback
      then join_host_port (codes "127.0.0.1") port ∷ join_host_port (codes "::1") port ∷ []
      else [])
    ++ (if n.listen_lan
        then join_host_port (codes "0.0.0.0") port ∷ join_host_port (codes "::") port ∷ []
        else [])
