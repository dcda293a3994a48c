-- ===== src/Examples/Schema.antt =====
-- Arguments of zcr521_diagnostics under its schema (internal/schema/registry.go).
use zcr521_ai_mcp.Mcp.Handler.{is_background}
use zcr521_ai_mcp.Ops.Dispatch.{wants_background}
use zcr521_ai_mcp.Schema.Parameters.{tool_parameters}
use zcr521_ai_mcp.Schema.Specs.{Spec, specs}
use zcr521_ai_mcp.Schema.Actions.{ActionSchema, action_schema, properties_of, allows_all}
use zcr521_ai_mcp.Schema.Catalog.{ParameterSchema, boolean_schema, string_schema, parameter_catalog}
use zcr521_ai_mcp.Schema.Invocation.{find_spec, validate_invocation}
use zcr521_ai_mcp.Schema.Contract.{schema_contract}
use zcr521_ai_mcp.Ops.Values.{
  Value, text, boolean, null, integer, float, json_number, texts, array, object,
}
use zcr521_ai_mcp.Common.{
  [], ◌∷◌, Bool, Map, codes, true, ◌≡◌, false, arith, none, refl, lookup, insert, text_eq, member,
}

abbrev diagnostics : Spec
diagnostics = record {
  name = codes "zcr521_diagnostics";
  actions = codes "self_test" ∷ codes "collect" ∷ [];
  annotations = record { read_only = false; idempotent = false; destructive = false; heavy = true };
}

abbrev diagnostics_schema : ActionSchema
diagnostics_schema = record {
  actions = codes "self_test" ∷ codes "collect" ∷ [];
  properties =
      (codes "background", boolean_schema)
      ∷ (codes "output", string_schema 1 [] none)
      ∷ (codes "path", string_schema 1 [] none)
      ∷ [];
}

-- A validator that looks at Booleans.
abbrev is_boolean : Value → Bool
is_boolean (boolean b) = true
is_boolean _ = false

abbrev conforms : ParameterSchema → Value → Bool
conforms boolean_schema v = is_boolean v
conforms _ v = true

only_booleans : (v : Value) → conforms boolean_schema v ≡ true → (b : Bool) × (v ≡ boolean b)
only_booleans (boolean b) h = (b, refl)
only_booleans null h = ground arith
only_booleans (integer n) h = ground arith
only_booleans (float n) h = ground arith
only_booleans (json_number s) h = ground arith
only_booleans (text s) h = ground arith
only_booleans (texts ss) h = ground arith
only_booleans (array vs) h = ground arith
only_booleans (object ms) h = ground arith

abbrev collect_args : Map Value
collect_args = (codes "action", text (codes "collect")) ∷ (codes "background", boolean true) ∷ []

schema_contract_example :
    (validate_invocation (codes "zcr521_diagnostics") collect_args ≡ none)
    × (wants_background collect_args ≡ is_background collect_args)
unfolding find_spec specs action_schema tool_parameters parameter_catalog properties_of lookup
    insert text_eq member allows_all
schema_contract_example =
    schema_contract conforms (codes "zcr521_diagnostics") diagnostics diagnostics_schema
      collect_args only_booleans refl refl refl
