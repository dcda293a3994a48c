-- ===== src/Schema/Contract.antt =====
-- The JSON Schema of internal/schema/registry.go, ValidateInvocation, and how
-- internal/service/service.go and internal/ops/types.go read the argument `background`.
use zcr521_ai_mcp.Schema.Sound.{
  is_sound, find_spec_sound, specs_sound, action_schema-actions, background_boolean,
}
use zcr521_ai_mcp.Mcp.Json.{as_text}
use zcr521_ai_mcp.Mcp.Handler.{is_background}
use mathlib.Core.Path.{subst}
use zcr521_ai_mcp.Ops.Dispatch.{wants_background}
use zcr521_ai_mcp.Ops.Values.{
  null, boolean, float, texts, array, object, Value, arg_bool, text, integer, json_number,
}
use zcr521_ai_mcp.Schema.Catalog.{ParameterSchema, boolean_schema}
use zcr521_ai_mcp.Schema.Specs.{Spec, specs}
use zcr521_ai_mcp.Schema.Invocation.{find_spec, validate_invocation, check_action}
use zcr521_ai_mcp.Schema.Actions.{
  action_schema, ActionSchema, allows_all, allows, accepts, is_enumerated, conforms_some,
}
use zcr521_ai_mcp.Common.{
  [], ◌∷◌, Option, Bool, Text, is_some, true, ◌≡◌, Map, some, lookup, none, arith, member,
  Bool-cases, text_eq, refl, inl, sym, ap, ◌∙◌, inr, text_eq_iff, false, codes,
}

allows_or : (ParameterSchema → Value → Bool) → ActionSchema → Text → Option Value → Bool
allows_or conforms sch k none = true
allows_or conforms sch k (some v) = allows conforms sch k v

allows_all-lookup :
    (conforms : ParameterSchema → Value → Bool) (sch : ActionSchema) (args : Map Value) (k : Text)
    (v : Value)
    → allows_all conforms sch args ≡ true
    → lookup k args ≡ some v
    → allows conforms sch k v ≡ true
unfolding allows_all lookup allows_or
allows_all-lookup conforms sch [] k v all h = ground arith
allows_all-lookup conforms sch ((j, w) ∷ args) k v all h = elim (Bool-cases (text_eq j k)) [
  | inl hit ↦
      let here : allows conforms sch j w ≡ true = ground arith in
      let same : some w ≡ some v = rw hit at h in
      subst (λ x. allows conforms sch x v ≡ true) ((text_eq_iff j k).0 hit)
        (sym (ap (λ o. allows_or conforms sch j o) same) ∙ here)
  | inr miss ↦
      let rest : allows_all conforms sch args ≡ true = ground arith in
      allows_all-lookup conforms sch args k v rest (rw miss at h)
]

-- Arguments whose `background`, if there is one, is a Boolean.
abbrev IsBoolean : Option Value → Type 0
IsBoolean none = Unit {0}
IsBoolean (some v) = (b : Bool) × (v ≡ boolean b)

background_agrees :
    (args : Map Value)
    → IsBoolean (lookup (codes "background") args)
    → wants_background args ≡ is_background args
unfolding wants_background arg_bool
background_agrees args h = of_value (lookup (codes "background") args) refl h
  where
    of_value :
        (o : Option Value)
        → lookup (codes "background") args ≡ o
        → IsBoolean o
        → wants_background args ≡ is_background args
    of_value none e h = rw e refl
    of_value (some v) e (b, same) = rw (e, same) refl

listed :
    (conforms : ParameterSchema → Value → Bool) (s : Spec) (v : Value)
    → member [] s.actions ≡ false
    → is_enumerated conforms s.actions v ≡ true
    → check_action s (as_text (some v)) ≡ none
listed conforms s (text []) no_empty h = ground arith
listed conforms s (text (c ∷ a)) no_empty h = rw h refl
listed conforms s null no_empty h = ground arith
listed conforms s (boolean b) no_empty h = ground arith
listed conforms s (integer n) no_empty h = ground arith
listed conforms s (float n) no_empty h = ground arith
listed conforms s (json_number n) no_empty h = ground arith
listed conforms s (texts ss) no_empty h = ground arith
listed conforms s (array vs) no_empty h = ground arith
listed conforms s (object ms) no_empty h = ground arith

-- Arguments that a validator accepts, which for a Boolean takes nothing but Booleans, under the
-- schema of a tool: ValidateInvocation accepts the tool and the arguments, and the service and the
-- operations agree on whether they ask for the background.
pub schema_contract :
    (conforms : ParameterSchema → Value → Bool) (tool : Text) (s : Spec) (sch : ActionSchema)
    (args : Map Value)
    → ((v : Value) → conforms boolean_schema v ≡ true → (b : Bool) × (v ≡ boolean b))
    → find_spec tool specs ≡ some s
    → action_schema s ≡ some sch
    → accepts conforms sch args ≡ true
    → (validate_invocation tool args ≡ none) × (wants_background args ≡ is_background args)
unfolding validate_invocation text_eq
schema_contract conforms tool s sch args only found made accepted = (
  rw found (action_checked (lookup (codes "action") args) refl),
  background_agrees args (of_background (lookup (codes "background") args) refl),
)
  where
    all : allows_all conforms sch args ≡ true
    all = ground arith

    no_empty : member [] s.actions ≡ false
    no_empty =
        let sound : is_sound s ≡ true = find_spec_sound tool specs s found specs_sound in
        ground arith

    action_checked :
        (o : Option Value) → lookup (codes "action") args ≡ o → check_action s (as_text o) ≡ none
    action_checked none e =
        let there : is_some (lookup (codes "action") args) ≡ true = ground arith in ground arith
    action_checked (some v) e = listed conforms s v no_empty (
        subst (λ actions. is_enumerated conforms actions v ≡ true)
          (action_schema-actions s sch made)
          (allows_all-lookup conforms sch args (codes "action") v all e))

    of_property :
        (v : Value) (o : Option ParameterSchema)
        → lookup (codes "background") sch.properties ≡ o
        → conforms_some conforms o v ≡ true
        → (b : Bool) × (v ≡ boolean b)
    of_property v none e h = ground arith
    of_property v (some p) e h =
        only v (subst (λ q. conforms q v ≡ true) (sym (background_boolean s sch p made e)) h)

    of_background : (o : Option Value) → lookup (codes "background") args ≡ o → IsBoolean o
    of_background none e = tt
    of_background (some v) e =
        of_property v (lookup (codes "background") sch.properties) refl
          (allows_all-lookup conforms sch args (codes "background") v all e)
