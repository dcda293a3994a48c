-- ===== src/Tasks/Data.antt =====
-- Task, Manager and the helpers under the lock: cloneTask is the identity on values, persistLocked
-- writes <dir>/<id>.json, notifyLocked closes the channels of a task's waiters. A time is a number
-- of nanoseconds with 0 for Go's zero time; progress is the bit pattern of its float64. The disk
-- holds for each file the task that its JSON decodes to. `Env` is what one critical section meets:
-- the clock, whether MarshalIndent encodes a task, and whether the file system takes the write.
use zcr521_ai_mcp.Common.{
  ℕ, ◌+◌, Bool, true, false, ◌&&◌, Option, none, some, List, [], ◌++◌, Text, Map, lookup, insert,
  erase, String, ltb, leb, if◌then◌else◌,
}
use zcr521_ai_mcp.Model.{Result}

pub data Status : Type 0 where
  queued running succeeded failed timed_out cancelling cancelled interrupted : Status
  other : String → Status

pub record Task : Type 0 where
  pub id : Text
  pub tool : Text
  pub arguments : String
  pub status : Status
  pub progress : ℕ
  pub message : String
  pub heavy : Bool
  pub durable : Bool
  pub created_at : ℕ
  pub started_at : ℕ
  pub updated_at : ℕ
  pub completed_at : ℕ
  pub result : Option Result

abbrev pub is_terminal : Status → Bool
is_terminal succeeded = true
is_terminal failed = true
is_terminal timed_out = true
is_terminal cancelled = true
is_terminal _ = false

unfoldable pub terminal : Task → Bool
terminal t = is_terminal t.status

abbrev pub is_cancelling : Status → Bool
is_cancelling cancelling = true
is_cancelling _ = false

-- The waiters' channels are numbers, and a closed channel is in `woken`. A context is known by the
-- task that it belongs to: `cancel` has those registered, `stopped` those whose cancel function was
-- called.
pub record Manager : Type 0 where
  pub total_limit : ℕ
  pub heavy_limit : ℕ
  pub total_sem : ℕ
  pub heavy_sem : ℕ
  pub disk : Map Task
  pub tasks : Map Task
  pub cancel : Map (Unit {0})
  pub stopped : Map (Unit {0})
  pub waiters : Map (List ℕ)
  pub woken : List ℕ
  pub closed : Bool

pub record Env : Type 0 where
  pub now : ℕ
  pub encodes : Task → Bool
  pub writes : Bool

-- float64 by its bits: a sign, then the magnitude, ordered as numbers up to infinity.
abbrev pub inf_bits : ℕ
inf_bits = 0x7ff0000000000000

abbrev pub one_bits : ℕ
one_bits = 0x3ff0000000000000

abbrev pub sign_bit : ℕ
sign_bit = 0x8000000000000000

unfoldable pub float_lt_zero : ℕ → Bool
float_lt_zero b = ltb sign_bit b && leb b (sign_bit + inf_bits)

unfoldable pub float_gt_one : ℕ → Bool
float_gt_one b = ltb one_bits b && leb b inf_bits

-- persistLocked: an encoding or a write that fails leaves the old file.
unfoldable pub persist_locked : Env → Task → Manager → Bool × Manager
persist_locked env task m =
    if env.encodes task && env.writes
    then (true, record m { disk = insert task.id task m.disk })
    else (false, m)

abbrev pub waiters_of : Option (List ℕ) → List ℕ
waiters_of none = []
waiters_of (some cs) = cs

unfoldable pub notify_locked : Text → Manager → Manager
notify_locked id m = record m {
  woken = waiters_of (lookup id m.waiters) ++ m.woken;
  waiters = erase id m.waiters;
}

-- `*task = …` through the pointer that the map holds.
unfoldable pub store : Text → Task → Manager → Manager
store id task m = record m { tasks = insert id task m.tasks }

unfoldable pub new_manager : ℕ → ℕ → Manager
new_manager total_limit heavy_limit = record {
  total_limit = total_limit;
  heavy_limit = heavy_limit;
  total_sem = 0;
  heavy_sem = 0;
  disk = [];
  tasks = [];
  cancel = [];
  stopped = [];
  waiters = [];
  woken = [];
  closed = false;
}
