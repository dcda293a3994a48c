-- ===== src/Config/Validity.antt =====
-- What Validate of internal/config/config.go ensures of a configuration.
use zcr521_ai_mcp.Transfer.Syntax.{trim_space}
use mathlib.Core.Path.{subst}
use zcr521_ai_mcp.Config.Data.{
  checks_disabled, bad_state_dir, bad_work_dir, Config, wildcard_origins, Problem, no_problem,
  complain, wildcard_origin, outside, bad_path, validate, problems, bad_schema, bad_port,
  no_listener, bad_total_tasks, bad_heavy_tasks, bad_shell_timeout, bad_chunk, small_request,
  open_cors, not_anonymous, bad_frontend_uid,
}
use zcr521_ai_mcp.Common.{
  [], ◌∷◌, ℕ, Bool, int_lt, int_eq, ℤ, ◌≡◌, List, ◌||◌, pos, Text, false, ◌<◌, not, ◌≤◌, true,
  arith, All, refl, text_eq, codes, has_prefix, ap, negsuc, is_empty,
}

-- A number from `low` to `high`.
abbrev pub IsBetween : ℕ → ℕ → ℤ → Type 0
IsBetween low high z = (n : ℕ) × (z ≡ pos n) × (low ≤ n) × (n ≤ high)

-- What a configuration has that passes.
pub record Passed (c : Config) : Type 0 where
  pub schema : c.schema_version ≡ pos 1
  pub port : IsBetween 1 65535 c.network.port
  pub listener : (c.network.listen_loopback || c.network.listen_lan) ≡ true
  pub origins : All (λ o. text_eq o (codes "*") ≡ false) c.network.allowed_origins
  pub state_dir : has_prefix (codes "/") c.paths.state_dir ≡ true
  pub work_dir : has_prefix (codes "/") c.paths.work_dir ≡ true
  pub total_tasks : IsBetween 1 128 c.limits.total_tasks
  pub heavy_tasks : (n : ℕ) × (c.limits.total_tasks ≡ pos n) × IsBetween 1 n c.limits.heavy_tasks
  pub shell_timeout : IsBetween 1 86400 c.limits.shell_timeout_seconds
  pub chunk_fits :
      (n : ℕ) × (c.limits.max_request_bytes ≡ pos n)
      × IsBetween 65536 n c.limits.transfer_chunk_bytes
  pub guarded :
      (c.security.allow_cors ≡ false)
      × (c.security.anonymous ≡ true)
      × (c.security.on_link_only ≡ true)
      × (c.security.validate_host ≡ true)
      × (c.security.validate_origin ≡ true)
  pub frontend_uid : c.security.drop_frontend_uid ≡ pos 2000

complain_none :
    (bad : Bool) (p : Problem) (ps : List Problem)
    → no_problem (complain bad p ps) ≡ true
    → (bad ≡ false) × (no_problem ps ≡ true)
complain_none false p ps h = (refl, h)
complain_none true p ps h = ground arith

wildcard_origins_none :
    (origins : List Text) (ps : List Problem)
    → no_problem (wildcard_origins origins ps) ≡ true
    → All (λ o. text_eq o (codes "*") ≡ false) origins × (no_problem ps ≡ true)
unfolding wildcard_origins
wildcard_origins_none [] ps h = (tt, h)
wildcard_origins_none (o ∷ rest) ps h =
    let (fine, h') = complain_none (text_eq o (codes "*")) wildcard_origin _ h in
    let (all_fine, h'') = wildcard_origins_none rest ps h' in ((fine, all_fine), h'')

or_false : (a b : Bool) → (a || b) ≡ false → (a ≡ false) × (b ≡ false)
or_false false b h = (refl, h)
or_false true b h = ground arith

within : (z : ℤ) (low high : ℕ) → 0 < low → outside z low high ≡ false → IsBetween low high z
within (pos n) low high positive h = (n, refl, ground arith, ground arith)
within (negsuc n) low high positive h = ground arith

within_both :
    (y z : ℤ) (low high : ℕ)
    → 0 < low
    → IsBetween low high y
    → int_lt z (pos 1) || int_lt y z ≡ false
    → (n : ℕ) × (y ≡ pos n) × IsBetween 1 n z
within_both y (pos k) low high positive (n, e, _, _) h =
    let (first, second) = or_false (int_lt (pos k) (pos 1)) (int_lt y (pos k)) h in
    let h' : int_lt (pos n) (pos k) ≡ false = subst (λ y. int_lt y (pos k) ≡ false) e second in
    let above : 1 ≤ k = ground arith in
    let below : k ≤ n = ground arith in (n, e, (k, refl, above, below))
within_both y (negsuc k) low high positive (n, e, _, _) h = ground arith

within_request :
    (y z : ℤ) (low high : ℕ)
    → IsBetween low high z
    → int_lt y z ≡ false
    → (n : ℕ) × (y ≡ pos n) × IsBetween low n z
within_request (pos n) z low high (k, e, l, _) h =
    let h' : int_lt (pos n) (pos k) ≡ false = subst (λ z. int_lt (pos n) z ≡ false) e h in
    let below : k ≤ n = ground arith in (n, refl, (k, e, l, below))
within_request (negsuc n) z low high (k, e, l, _) h =
    let h' : int_lt (negsuc n) (pos k) ≡ false = subst (λ z. int_lt (negsuc n) z ≡ false) e h in
    ground arith

same_int : (z : ℤ) (n : ℕ) → not (int_eq z n) ≡ false → z ≡ pos n
same_int (pos k) n h = (let e : k ≡ n = ground arith in ap pos e)
same_int (negsuc k) n h = ground arith

absolute : (path : Text) → bad_path path ≡ false → has_prefix (codes "/") path ≡ true
unfolding bad_path
absolute path h =
    let (_, second) = or_false (is_empty (trim_space path)) (not (has_prefix (codes "/") path)) h in
    ground (arith, second)

-- A configuration that Validate passes has the schema version 1, a port from 1 to 65535, a listener,
-- no wildcard origin, absolute state and work directories, 1 to 128 tasks of which the heavy ones
-- are at least 1 and not more, a shell timeout from 1 to 86400 seconds, a chunk of 65536 bytes at
-- least that a request can hold, no CORS, the checks of hosts and origins, and the frontend's uid.
pub validate_sound : (c : Config) → validate c ≡ true → Passed c
unfolding validate problems
validate_sound c h0 =
    let (schema, h1) = complain_none _ bad_schema _ h0 in
    let (port, h2) = complain_none _ bad_port _ h1 in
    let (listener, h3) = complain_none _ no_listener _ h2 in
    let (origins, h4) = wildcard_origins_none c.network.allowed_origins _ h3 in
    let (state_dir, h5) = complain_none _ bad_state_dir _ h4 in
    let (work_dir, h6) = complain_none _ bad_work_dir _ h5 in
    let (total, h7) = complain_none _ bad_total_tasks _ h6 in
    let (heavy, h8) = complain_none _ bad_heavy_tasks _ h7 in
    let (shell, h9) = complain_none _ bad_shell_timeout _ h8 in
    let (chunk, h10) = complain_none _ bad_chunk _ h9 in
    let (request, h11) = complain_none _ small_request _ h10 in
    let (cors, h12) = complain_none _ open_cors _ h11 in
    let uid_wrong = not (int_eq c.security.drop_frontend_uid 2000) in
    let unchecked =
      not c.security.on_link_only
      || not c.security.validate_host
      || not c.security.validate_origin in
    let last = complain uid_wrong bad_frontend_uid [] in
    let (anonymous, h13) =
      complain_none (not c.security.anonymous) not_anonymous
        (complain unchecked checks_disabled last) h12 in
    let (checks, h14) = complain_none unchecked checks_disabled last h13 in
    let (uid, _) = complain_none uid_wrong bad_frontend_uid [] h14 in
    record {
      schema = same_int c.schema_version 1 schema;
      port = within c.network.port 1 65535 (omega arith) port;
      listener = ground arith;
      origins = origins;
      state_dir = absolute c.paths.state_dir state_dir;
      work_dir = absolute c.paths.work_dir work_dir;
      total_tasks = within c.limits.total_tasks 1 128 (omega arith) total;
      heavy_tasks =
          within_both c.limits.total_tasks c.limits.heavy_tasks 1 128 (omega arith)
            (within c.limits.total_tasks 1 128 (omega arith) total) heavy;
      shell_timeout = within c.limits.shell_timeout_seconds 1 86400 (omega arith) shell;
      chunk_fits =
          within_request c.limits.max_request_bytes c.limits.transfer_chunk_bytes 65536 67108864
            (within c.limits.transfer_chunk_bytes 65536 67108864 (omega arith) chunk) request;
      guarded = (cors, ground arith, ground arith, ground arith, ground arith);
      frontend_uid = same_int c.security.drop_frontend_uid 2000 uid;
    }
