-- ===== src/Schema/Actions.antt =====
-- actionSchema of internal/schema/registry.go, and what it takes of arguments.
use zcr521_ai_mcp.Schema.Parameters.{tool_parameters}
use zcr521_ai_mcp.Schema.Specs.{Spec}
use zcr521_ai_mcp.Schema.Catalog.{ParameterSchema, parameter_catalog}
use zcr521_ai_mcp.Ops.Values.{Value, text}
use zcr521_ai_mcp.Common.{
  [], ◌∷◌, List, Text, Map, Option, Bool, some, lookup, member, false, if◌then◌else◌, true, is_some,
  insert, none, text_eq, ◌&&◌, codes,
}

-- The schema of a tool: the enumeration of its actions and its other properties. The keyword
-- `required` names the action, and there are no additional properties.
pub record ActionSchema : Type 0 where
  pub actions : List Text
  pub properties : Map ParameterSchema

abbrev pub put_definition :
    Text → Option ParameterSchema → Option (Map ParameterSchema) → Option (Map ParameterSchema)
put_definition name (some p) (some m) = some (insert name p m)
put_definition name _ _ = none

-- The definitions of parameters; `none` is a panic.
unfoldable pub properties_of : List Text → Option (Map ParameterSchema)
properties_of [] = some []
properties_of (name ∷ names) =
    put_definition name (lookup name parameter_catalog) (properties_of names)

abbrev pub with_properties : List Text → Option (Map ParameterSchema) → Option ActionSchema
with_properties actions none = none
with_properties actions (some m) = some (record { actions = actions; properties = m })

abbrev pub with_names : Spec → Option (List Text) → Option ActionSchema
with_names s none = none
with_names s (some names) = with_properties s.actions (properties_of names)

unfoldable pub action_schema : Spec → Option ActionSchema
action_schema s = with_names s (lookup s.name tool_parameters)

-- A validator of JSON Schema, for which `conforms` has the schemas of the parameters.
module _ (conforms : ParameterSchema → Value → Bool) where
  abbrev pub is_enumerated : List Text → Value → Bool
  is_enumerated actions (text s) = member s actions
  is_enumerated actions _ = false

  abbrev pub conforms_some : Option ParameterSchema → Value → Bool
  conforms_some none v = false
  conforms_some (some p) v = conforms p v

  abbrev pub allows : ActionSchema → Text → Value → Bool
  allows sch key v =
      if text_eq key (codes "action")
      then is_enumerated sch.actions v
      else conforms_some (lookup key sch.properties) v

  unfoldable pub allows_all : ActionSchema → Map Value → Bool
  allows_all sch [] = true
  allows_all sch ((key, v) ∷ args) = allows sch key v && allows_all sch args

  abbrev pub accepts : ActionSchema → Map Value → Bool
  accepts sch args = is_some (lookup (codes "action") args) && allows_all sch args
