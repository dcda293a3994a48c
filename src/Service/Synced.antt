-- ===== src/Service/Synced.antt =====
-- The configuration in the memory of internal/service/service.go and the one in its file
-- (internal/config/config.go).
use zcr521_ai_mcp.Mcp.Json.{or_empty, as_text}
use zcr521_ai_mcp.Model.{Result}
use zcr521_ai_mcp.Ops.Values.{Value}
use zcr521_ai_mcp.Service.Configuration.{
  save_at, export_config, or_absent, stored, update_config, reset_config, config_call, checked,
  reset_of, decode_value, validate_config, decode_args_config, default_in,
}
use zcr521_ai_mcp.Config.Files.{ConfigFile, json, save}
use zcr521_ai_mcp.Config.Data.{Config, derive_paths, validate, Join, normalize}
use zcr521_ai_mcp.Config.Loading.{validate-derive_paths, derive_paths_twice}
use zcr521_ai_mcp.Service.Data.{ServiceEnv, Service}
use zcr521_ai_mcp.Common.{
  Text, ◌≡◌, Bool, lookup, if◌then◌else◌, Map, some, true, insert, String, Bool-cases, false,
  lookup-insert, text_eq, inl, ◌∙◌, ap, text_eq_iff, inr, text_eq_refl, refl, sym, Option, none,
  arith, codes, if_both,
}

-- The file holds what the configuration in memory is encoded to, which is valid, has its derived paths, and has a given
-- state directory, up to Clean.
abbrev pub InSync :
    {σ : Type 0}
    → (Config → Config → Config)
    → Text
    → (Text → Text)
    → Join
    → Text
    → Service σ
    → Type 0
InSync encoding path clean join dir s =
    (lookup path s.files ≡ some (json (encoding s.config)))
    × (validate s.config ≡ true)
    × (derive_paths join s.config ≡ s.config)
    × (clean s.config.paths.state_dir ≡ dir)

put_new :
    (path : Text) (v : ConfigFile) (files : Map ConfigFile)
    → lookup path (insert path v files) ≡ some v
put_new path v files = lookup-insert path path v files ∙ rw (text_eq_refl path) refl

put_same :
    (path at : Text) (v f : ConfigFile) (files : Map ConfigFile)
    → lookup at files ≡ some f
    → (text_eq path at ≡ true → v ≡ f)
    → lookup at (insert path v files) ≡ some f
put_same path at v f files h same = lookup-insert path at v files ∙ of_test (text_eq path at) refl
  where
    of_test : (b : Bool) → text_eq path at ≡ b → (if b then some v else lookup at files) ≡ some f
    of_test true e = ap (λ x. some x) (same e)
    of_test false e = h

-- A file that is put back as it was.
put_back :
    (path at : Text) (f : ConfigFile) (files : Map ConfigFile)
    → lookup at files ≡ some f
    → lookup at (insert path (or_absent (lookup path files)) files) ≡ some f
put_back path at f files h = put_same path at (or_absent (lookup path files)) f files h (λ e.
    let p : path ≡ at = (text_eq_iff path at).0 e in
    ap (λ q. or_absent (lookup q files)) p ∙ ap or_absent h)

from_some : Config → Option Config → Config
from_some c none = c
from_some c (some k) = k

module _ {σ : Type 0} (env : ServiceEnv σ) (dir : Text) where
  abbrev Synced : Service σ → Type 0
  Synced s = InSync env.config_env.encoding env.config_path env.clean env.join dir s

  stored-InSync :
      (code : String) (c : Config) (s : Service σ)
      → Synced s
      → derive_paths env.join c ≡ c
      → env.clean c.paths.state_dir ≡ dir
      → Synced (stored env code c (save_at env env.config_path c s)).0
  unfolding save_at save
  stored-InSync code c s (file, valid, derived, kept) c_derived c_kept =
      elim (Bool-cases (validate (derive_paths env.join c))) [
        | inl fine ↦ elim (Bool-cases env.config_env.writes) [
          | inl w ↦
              rw (fine, w)
                (
                  put_new env.config_path _ s.files
                      ∙ ap (λ k. some (json (env.config_env.encoding k))) c_derived,
                  sym (validate-derive_paths env.join c) ∙ fine,
                  c_derived,
                  c_kept,
                )
          | inr w ↦
              rw (fine, w)
                (put_back env.config_path env.config_path _ s.files file, valid, derived, kept)
        ]
        | inr bad ↦
            rw bad (put_back env.config_path env.config_path _ s.files file, valid, derived, kept)
      ]

  export_config-InSync :
      (path : Text) (s : Service σ) → Synced s → Synced (export_config env path s).0
  unfolding export_config save_at save
  export_config-InSync path s (file, valid, derived, kept) =
      elim (Bool-cases env.config_env.writes) [
        | inl w ↦
            rw (derived, valid, w)
              (put_same path env.config_path _ _ s.files file (λ e. refl), valid, derived, kept)
        | inr w ↦
            rw (derived, valid, w)
              (put_back path env.config_path _ s.files file, valid, derived, kept)
      ]

  checked-derived :
      (o : Option Config) (c : Config) → checked env o ≡ some c → derive_paths env.join c ≡ c
  unfolding normalize from_some
  checked-derived none c h = ground arith
  checked-derived (some k) c h = elim (Bool-cases (validate (derive_paths env.join k))) [
    | inl fine ↦
        let same : some (derive_paths env.join k) ≡ some c = rw fine at h in
        let e : derive_paths env.join k ≡ c = ap (λ o. from_some c o) same in
        ap (λ x. derive_paths env.join x) (sym e) ∙ derive_paths_twice env.join k ∙ e
    | inr bad ↦ ground arith
  ]

  update_config-InSync :
      (o : Option Config) (s : Service σ)
      → ((c : Config) → o ≡ some c → derive_paths env.join c ≡ c)
      → Synced s
      → Synced (update_config env o s).0
  unfolding update_config
  update_config-InSync none s derived h = h
  update_config-InSync (some c) s derived (file, valid, d, kept) =
      elim (Bool-cases
        (text_eq (env.clean c.paths.state_dir) (env.clean s.config.paths.state_dir))) [
          | inl same ↦ rw same (
              stored-InSync "CONFIG_WRITE_FAILED" c s (file, valid, d, kept) (derived c refl)
                ((text_eq_iff (env.clean c.paths.state_dir) (env.clean s.config.paths.state_dir)).0
                    same
                  ∙ kept))
          | inr moved ↦ rw moved (file, valid, d, kept)
        ]

  reset_config-InSync : (s : Service σ) → Synced s → Synced (reset_config env s).0
  unfolding reset_config normalize derive_paths
  reset_config-InSync s (file, valid, d, kept) =
      stored-InSync "CONFIG_WRITE_FAILED" (reset_of env s.config) s (file, valid, d, kept)
        (derive_paths_twice env.join (default_in env s.config)) kept

  decode_value-derived :
      (o : Option Value) (c : Config) → decode_value env o ≡ some c → derive_paths env.join c ≡ c
  decode_value-derived none c h = ground arith
  decode_value-derived (some v) c h = checked-derived (env.decode_config v) c h

  validate_config-InSync :
      (o : Option Config) (s : Service σ) → Synced s → Synced (validate_config env o s).0
  validate_config-InSync none s h = h
  validate_config-InSync (some c) s h = h

  -- The same of the service that a call leaves.
  unfoldable pub Kept : Service σ × Result → Type 0
  Kept r = Synced r.0

  pub kept : (r : Service σ × Result) → Synced r.0 → Kept r
  unfolding Kept
  kept r h = h

  pub config_call-Kept :
      (args : Map Value) (s : Service σ) → Synced s → Kept (config_call env args s)
  unfolding config_call decode_args_config
  config_call-Kept args s h =
      let is : Text → Bool =
        λ action. text_eq (or_empty (as_text (lookup (codes "action") args))) action in
      if_both Kept (is (codes "get")) (kept _ h) (
        if_both Kept (is (codes "validate")) (kept _ (validate_config-InSync _ s h)) (
          if_both Kept (is (codes "update"))
            (kept _
              (update_config-InSync _ s (decode_value-derived (lookup (codes "config") args)) h))
            (if_both Kept (is (codes "reset")) (kept _ (reset_config-InSync s h)) (
              if_both Kept (is (codes "export")) (kept _ (export_config-InSync _ s h))
                (kept _ h)))))
