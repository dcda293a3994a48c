-- ===== src/Tasks/Workers.antt =====
-- Taking a worker of internal/tasks/manager.go out of the list of those that run, as a relation.
use zcr521_ai_mcp.Common.{
  ◌≡◌, Option, none, some, List, [], ◌∷◌, Text, Bool-cases, text_eq, text_eq_iff, inl, inr,
}
use zcr521_ai_mcp.Tasks.Worker.{Worker}
use zcr521_ai_mcp.Tasks.System.{behind, take_worker}

pub data Split : List Worker → Worker → List Worker → Type 0 where
  here : (w : Worker) (ws : List Worker) → Split (w ∷ ws) w ws
  there :
      (v : Worker) {ws : List Worker} {w : Worker} {rest : List Worker}
      → Split ws w rest
      → Split (v ∷ ws) w (v ∷ rest)

abbrev pub Picked : Text → List Worker → Option (Worker × List Worker) → Type 0
Picked id ws none = Unit {0}
Picked id ws (some (w, rest)) = Split ws w rest × (w.id ≡ id)

behind-Picked :
    (id : Text) (v : Worker) (ws : List Worker) (o : Option (Worker × List Worker))
    → Picked id ws o
    → Picked id (v ∷ ws) (behind v o)
behind-Picked id v ws none k = tt
behind-Picked id v ws (some (w, rest)) k = (there v k.0, k.1)

pub take_worker-Picked : (id : Text) (ws : List Worker) → Picked id ws (take_worker id ws)
unfolding take_worker
take_worker-Picked id [] = tt
take_worker-Picked id (v ∷ ws) = elim (Bool-cases (text_eq v.id id)) [
  | inl hit ↦ rw hit (here v ws, (text_eq_iff v.id id).0 hit)
  | inr miss ↦ rw miss (behind-Picked id v ws (take_worker id ws) (take_worker-Picked id ws))
]
