-- ===== src/Tasks/Loading.antt =====
-- `load` of internal/tasks/manager.go keeps what the loading of each task keeps.
use mathlib.Core.Path.{subst}
use mathlib.Core.Option.{some-injective}
use zcr521_ai_mcp.Common.{◌≡◌, true, false, some, List, [], ◌∷◌, and_then-eq_some}
use zcr521_ai_mcp.Tasks.Data.{Task, Manager, Env}
use zcr521_ai_mcp.Tasks.Restart.{
  Entry, skipped, unreadable, corrupt, snapshot, load_task, load_entry, load,
}

module _ {ℓ} (P : Manager → Type ℓ) (env : Env)
    (keep : (task : Task) (m m' : Manager) → load_task env task m ≡ some m' → P m → P m') where
  pub load_keeps : (es : List Entry) (m m' : Manager) → load env es m ≡ some m' → P m → P m'
  unfolding load load_entry
  load_keeps [] m m' e p = subst P (some-injective _ _ e) p
  load_keeps (skipped ∷ es) m m' e p = load_keeps es m m' e p
  load_keeps (unreadable ∷ es) m m' e p = cc
  load_keeps (corrupt true ∷ es) m m' e p = load_keeps es m m' e p
  load_keeps (corrupt false ∷ es) m m' e p = cc
  load_keeps (snapshot task ∷ es) m m' e p =
      let (u, first, rest) = and_then-eq_some (load_task env task m) (load env es) e in
      load_keeps es u m' rest (keep task m u first p)
