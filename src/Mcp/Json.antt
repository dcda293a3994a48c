-- ===== src/Mcp/Json.antt =====
-- JSON objects as maps of values, for internal/mcpapi/tasks_http.go, and the errors that it looks into.
use zcr521_ai_mcp.Ops.Values.{
  Value, Members, text, object, null, no_members, with_member, members_map,
}
use zcr521_ai_mcp.Common.{
  [], ◌∷◌, Map, Option, Text, Bool, some, true, List, is_empty, false, none, lookup, has_prefix,
  ◌||◌,
}

unfoldable pub members_of : Map Value → Members
members_of [] = no_members
members_of ((key, v) ∷ m) = with_member key v (members_of m)

abbrev pub object_of : Map Value → Value
object_of m = object (members_of m)

-- A type assertion to map[string]any, whose failure is the nil map.
abbrev pub as_map : Option Value → Option (Map Value)
as_map (some (object ms)) = some (members_map ms)
as_map _ = none

abbrev pub map_or_nil : Option Value → Map Value
map_or_nil v = or_nil (as_map v)
  where
    or_nil : Option (Map Value) → Map Value
    or_nil none = []
    or_nil (some m) = m

-- A type assertion to string.
abbrev pub as_text : Option Value → Option Text
as_text (some (text s)) = some s
as_text _ = none

abbrev pub or_empty : Option Text → Text
or_empty none = []
or_empty (some s) = s

abbrev pub is_null : Option Value → Bool
is_null none = true
is_null (some null) = true
is_null (some _) = false

abbrev pub first_text : Option Text → Text → Text
first_text none next = next
first_text (some s) next = s

-- stringField
unfoldable pub string_field : Map Value → List Text → Text
string_field m [] = []
string_field m (key ∷ keys) = first_text (as_text (lookup key m)) (string_field m keys)

-- strings.Contains
unfoldable pub contains_text : Text → Text → Bool
contains_text part [] = is_empty part
contains_text part (c ∷ s) = let rest = contains_text part s in has_prefix part (c ∷ s) || rest

-- An error: its text, and whether it wraps os.ErrNotExist.
pub record Failure : Type 0 where
  pub not_exist : Bool
  pub words : Text

pub data Fallible {ℓ} (A : Type ℓ) : Type ℓ where
  done : A → Fallible A
  fault : Failure → Fallible A

-- errors.New
abbrev pub error_of {ℓ} : {A : Type ℓ} → Text → Fallible A
error_of words = fault (record { not_exist = false; words = words })
