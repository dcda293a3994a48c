-- ===== src/Schema/Invocation.antt =====
-- ValidateInvocation and Find of internal/schema/registry.go.
use zcr521_ai_mcp.Mcp.Json.{as_text}
use zcr521_ai_mcp.Ops.Values.{Value}
use zcr521_ai_mcp.Schema.Specs.{Spec, specs}
use zcr521_ai_mcp.Common.{
  [], ◌∷◌, Text, Map, List, Option, none, some, if◌then◌else◌, text_eq, is_empty, member, lookup,
  codes,
}

pub data InvocationError : Type 0 where
  unknown_tool no_action unsupported_action : InvocationError

unfoldable pub find_spec : Text → List Spec → Option Spec
find_spec name [] = none
find_spec name (s ∷ rest) =
    let found = find_spec name rest in if text_eq s.name name then some s else found

abbrev pub check_action : Spec → Option Text → Option InvocationError
check_action s none = some no_action
check_action s (some action) =
    if is_empty action
    then some no_action
    else if member action s.actions
    then none
    else some unsupported_action

abbrev pub check_spec : Map Value → Option Spec → Option InvocationError
check_spec args none = some unknown_tool
check_spec args (some s) = check_action s (as_text (lookup (codes "action") args))

-- `none` is no error.
unfoldable pub validate_invocation : Text → Map Value → Option InvocationError
validate_invocation name args = check_spec args (find_spec name specs)

-- Find, of the tools that All has sorted by their names.
abbrev pub find : (List Spec → List Spec) → Text → Option Spec
find sort name = find_spec name (sort specs)
