-- ===== src/Service/Routes.antt =====
-- The tools of internal/schema/registry.go have operations in internal/ops/dispatch.go, and what
-- normalizePublicRequest leaves of a request.
use zcr521_ai_mcp.Transfer.Syntax.{trim_space}
use mathlib.Core.Path.{subst}
use zcr521_ai_mcp.Service.Call.{request_of}
use zcr521_ai_mcp.Schema.Specs.{specs, Spec}
use zcr521_ai_mcp.Schema.Invocation.{find_spec, validate_invocation, check_spec}
use zcr521_ai_mcp.Ops.Dispatch.{wants_background, operations, is_task_control, or_false}
use zcr521_ai_mcp.Ops.Naming.{
  normalize_public_request, normalize_tool, OpsRequest, drop_last_underscores, drop_underscores,
  with_alias, collapse, with_action, name_byte, alias_of, public_action_aliases,
}
use zcr521_ai_mcp.Ops.Values.{
  integer, json_number, Value, arg_bool, text, bool_of, boolean, float, texts, array, object, null,
}
use zcr521_ai_mcp.Common.{
  [], ◌∷◌, Text, List, Bool, Map, ◌≡◌, text_eq, true, some, none, ◌&&◌, arith, Option, lookup,
  is_some, Bool-cases, codes, ap, not, inl, map, is_empty, text_eq_iff, inr, ◌∙◌, false, member,
  lookup-insert, refl,
}

-- A tool whose name is normal, has an operation and is no control of tasks.
abbrev pub is_routed : Text → Bool
is_routed name =
    text_eq (normalize_tool (λ s. s) name) name
    && is_some (lookup name operations)
    && not (is_task_control name)
    && not (is_empty name)

abbrev all_routed : List Spec → Bool
all_routed [] = true
all_routed (s ∷ ss) = is_routed s.name && all_routed ss

specs_routed : all_routed specs ≡ true
unfolding specs operations normalize_tool text_eq drop_last_underscores drop_underscores collapse
    trim_space lookup member
specs_routed = refl

find_spec-routed :
    (name : Text) (ss : List Spec) (s : Spec)
    → find_spec name ss ≡ some s
    → all_routed ss ≡ true
    → is_routed name ≡ true
unfolding find_spec
find_spec-routed name [] s h all = ground arith
find_spec-routed name (x ∷ ss) s h all = elim (Bool-cases (text_eq x.name name)) [
  | inl same ↦
      let here : is_routed x.name ≡ true = ground arith in
      subst (λ n. is_routed n ≡ true) ((text_eq_iff x.name name).0 same) here
  | inr other ↦
      let later : all_routed ss ≡ true = ground arith in
      find_spec-routed name ss s (rw other at h) later
]

pub validate_invocation-routed :
    (name : Text) (args : Map Value) → validate_invocation name args ≡ none → is_routed name ≡ true
unfolding validate_invocation
validate_invocation-routed name args h = of_spec (find_spec name specs) refl h
  where
    of_spec :
        (o : Option Spec)
        → find_spec name specs ≡ o
        → check_spec args o ≡ none
        → is_routed name ≡ true
    of_spec none e c = ground arith
    of_spec (some s) e c = find_spec-routed name specs s e specs_routed

-- The request that Execute makes of a tool under its name and its arguments.
abbrev pub public_request : (Text → Text) → Text → Map Value → OpsRequest
public_request lower tool args = normalize_public_request lower (request_of tool args)

with_alias-same :
    (lower : Text → Text) (r : OpsRequest) (v : Option Value)
    → ((with_alias lower r v).tool ≡ r.tool)
      × (wants_background (with_alias lower r v).args ≡ wants_background r.args)
unfolding wants_background arg_bool text_eq
with_alias-same lower r (some (text action)) =
    of_alias (alias_of (normalize_tool lower action) (lookup r.tool public_action_aliases))
  where
    of_alias :
        (o : Option Text)
        → ((with_action r o).tool ≡ r.tool)
          × (wants_background (with_action r o).args ≡ wants_background r.args)
    of_alias none = (refl, refl)
    of_alias (some target) = (
      refl,
      ap (λ v. or_false (bool_of false v))
          (lookup-insert (codes "action") (codes "background") (text target) r.args),
    )
with_alias-same lower r none = (refl, refl)
with_alias-same lower r (some null) = (refl, refl)
with_alias-same lower r (some (boolean b)) = (refl, refl)
with_alias-same lower r (some (integer n)) = (refl, refl)
with_alias-same lower r (some (float n)) = (refl, refl)
with_alias-same lower r (some (json_number s)) = (refl, refl)
with_alias-same lower r (some (texts ss)) = (refl, refl)
with_alias-same lower r (some (array vs)) = (refl, refl)
with_alias-same lower r (some (object ms)) = (refl, refl)

pub public_request-same :
    (lower : Text → Text) (tool : Text) (args : Map Value)
    → ((public_request lower tool args).tool ≡ tool)
      × (wants_background (public_request lower tool args).args ≡ wants_background args)
unfolding normalize_public_request
public_request-same lower tool args =
    with_alias-same lower (request_of tool args) (lookup (codes "action") args)

pub normalize_tool-routed :
    (lower : Text → Text) (tool : Text)
    → lower tool ≡ tool
    → is_routed tool ≡ true
    → normalize_tool lower tool ≡ tool
unfolding normalize_tool
normalize_tool-routed lower tool low routed =
    let same : text_eq (normalize_tool (λ s. s) tool) tool ≡ true = ground arith in
    ap (λ s. drop_last_underscores (drop_underscores (collapse (map name_byte (trim_space s))))) low
    ∙ (text_eq_iff (normalize_tool (λ s. s) tool) tool).0 same
