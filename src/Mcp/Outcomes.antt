-- ===== src/Mcp/Outcomes.antt =====
-- The status in the snapshots of internal/mcpapi/tasks_http.go, which no later step replaces.
use zcr521_ai_mcp.Mcp.Json.{Fallible, done, fault, string_field}
use zcr521_ai_mcp.Mcp.Snapshots.{
  complete_result, with_outcome, Codec, with_message, put_result, completed_value, lacks_times,
  task_output_result, adjusted, error_value, of_status, requests_value,
}
use zcr521_ai_mcp.Ops.Values.{
  Value, text, null, object, integer, float, json_number, texts, array, boolean,
}
use zcr521_ai_mcp.Common.{
  [], ◌∷◌, Text, text_eq, codes, lookup, Map, ◌≡◌, false, some, Option, ℕ, insert, none, refl,
  lookup-insert, Bool, ◌∙◌, if◌then◌else◌, true,
}

-- A result that bears a status.
abbrev pub Bears : Text → Fallible (Map Value) → Type 0
Bears status (done r) = lookup (codes "status") r ≡ some (text status)
Bears status (fault e) = ⊥

insert-Bears :
    (status key : Text) (v : Value) (r : Map Value)
    → text_eq key (codes "status") ≡ false
    → lookup (codes "status") r ≡ some (text status)
    → lookup (codes "status") (insert key v r) ≡ some (text status)
insert-Bears status key v r differs h = lookup-insert key (codes "status") v r ∙ rw differs h

complete_result-Bears :
    (lib : Codec) (status : Text) (r : Map Value)
    → lookup (codes "status") r ≡ some (text status)
    → lookup (codes "status") (complete_result lib r) ≡ some (text status)
unfolding complete_result text_eq
complete_result-Bears lib status r h =
    insert-Bears status (codes "_meta") _ _ refl
      (insert-Bears status (codes "resultType") _ r refl h)

with_message-Bears :
    (status message : Text) (r : Map Value)
    → lookup (codes "status") r ≡ some (text status)
    → lookup (codes "status") (with_message message r) ≡ some (text status)
unfolding text_eq
with_message-Bears status [] r h = h
with_message-Bears status (m ∷ message) r h = insert-Bears status (codes "statusMessage") _ r refl h

-- A field `result` that can be shown.
abbrev pub IsOutput : Codec → Option Value → Type 0
IsOutput lib none = Unit
IsOutput lib (some null) = Unit
IsOutput lib (some (object ms)) = lib.round_trip (object ms) ≡ some (object ms)
IsOutput lib (some _) = ⊥

put-Bears :
    (status : Text) (r output : Map Value)
    → lookup (codes "status") r ≡ some (text status)
    → Bears status (put_result r (done output))
unfolding text_eq
put-Bears status r output h = insert-Bears status (codes "result") _ r refl h

completed_value-Bears :
    (lib : Codec) (status : Text) (source r : Map Value) (o : Option Value)
    → IsOutput lib o
    → lookup (codes "status") r ≡ some (text status)
    → Bears status (completed_value lib source r o)
unfolding text_eq
completed_value-Bears lib status source r none p h = insert-Bears status (codes "result") _ r refl h
completed_value-Bears lib status source r (some null) p h =
    insert-Bears status (codes "result") _ r refl h
completed_value-Bears lib status source r (some (object ms)) p h =
    of_output (lib.tool_output (object ms))
  where
    of_output :
        (o : Option (Map Value))
        → Bears status (put_result r (task_output_result lib o (lib.round_trip (object ms))))
    of_output (some output) = put-Bears status r _ h
    of_output none = rw p (put-Bears status r _ h)
completed_value-Bears lib status source r (some (boolean b)) p h = elim p [ ]
completed_value-Bears lib status source r (some (text s)) p h = elim p [ ]
completed_value-Bears lib status source r (some (integer x)) p h = elim p [ ]
completed_value-Bears lib status source r (some (float x)) p h = elim p [ ]
completed_value-Bears lib status source r (some (json_number x)) p h = elim p [ ]
completed_value-Bears lib status source r (some (texts x)) p h = elim p [ ]
completed_value-Bears lib status source r (some (array x)) p h = elim p [ ]

error_differs : text_eq (codes "error") (codes "status") ≡ false
unfolding text_eq
error_differs = refl

requests_differs : text_eq (codes "inputRequests") (codes "status") ≡ false
unfolding text_eq
requests_differs = refl

with_outcome-Bears :
    (lib : Codec) (source : Map Value) (status : Text) (r : Map Value)
    → IsOutput lib (lookup (codes "result") source)
    → lookup (codes "status") r ≡ some (text status)
    → Bears status (with_outcome lib source status r)
unfolding with_outcome
with_outcome-Bears lib source status r p h =
    of_tests (text_eq status (codes "completed")) (text_eq status (codes "failed"))
      (text_eq status (codes "input_required"))
  where
    other_key :
        (key : Text) (v : Value)
        → text_eq key (codes "status") ≡ false
        → Bears status (done (insert key v r))
    other_key key v differs = insert-Bears status key v r differs h

    of_tests :
        (a b c : Bool)
        → Bears status (
            if a
            then completed_value lib source r (lookup (codes "result") source)
            else if b
            then done (insert (codes "error") (error_value source) r)
            else if c
            then done (
                insert
                  (codes "inputRequests")
                  (requests_value (lookup (codes "inputRequests") source))
                  r)
            else done r)
    of_tests true b c = completed_value-Bears lib status source r _ p h
    of_tests false true c = other_key (codes "error") _ (error_differs)
    of_tests false false true = other_key (codes "inputRequests") _ requests_differs
    of_tests false false false = h

pub of_status-Bears :
    (lib : Codec) (source : Map Value) (id : Text) (poll : ℕ) (status : Text)
    → lacks_times source ≡ false
    → IsOutput lib (lookup (codes "result") source)
    → Bears
        (adjusted source (string_field source (codes "status" ∷ [])) status)
        (of_status lib source id poll (some status))
unfolding lookup text_eq
of_status-Bears lib source id poll status times p = rw times (
    with_outcome-Bears lib source _ _ p (
      with_message-Bears _ (string_field source (codes "statusMessage" ∷ codes "message" ∷ [])) _
        (complete_result-Bears lib _ _ refl)))
