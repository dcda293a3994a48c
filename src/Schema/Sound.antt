-- ===== src/Schema/Sound.antt =====
-- actionSchema of internal/schema/registry.go makes a schema for every tool, of definitions of the
-- catalog.
use mathlib.Core.Path.{subst}
use zcr521_ai_mcp.Schema.Parameters.{tool_parameters}
use zcr521_ai_mcp.Schema.Catalog.{parameter_catalog, ParameterSchema, boolean_schema}
use zcr521_ai_mcp.Schema.Specs.{Spec, specs}
use zcr521_ai_mcp.Schema.Invocation.{find_spec}
use zcr521_ai_mcp.Schema.Actions.{
  properties_of, action_schema, ActionSchema, with_properties, put_definition, with_names,
}
use zcr521_ai_mcp.Common.{
  [], ◌∷◌, List, Option, lookup, Bool, Text, Map, is_some, true, insert, ◌≡◌, some, arith, text_eq,
  ◌&&◌, member, none, Bool-cases, sym, codes, not, refl, inl, if◌then◌else◌, ap, ◌∙◌, text_eq_iff,
  inr, lookup-insert, false,
}

abbrev pub is_sound : Spec → Bool
is_sound s = is_some (action_schema s) && not (member [] s.actions)

abbrev pub all_sound : List Spec → Bool
all_sound [] = true
all_sound (s ∷ ss) = is_sound s && all_sound ss

pub specs_sound : all_sound specs ≡ true
unfolding specs action_schema tool_parameters parameter_catalog properties_of lookup insert text_eq
    member
specs_sound = refl

sound_or : Option Spec → Bool
sound_or none = true
sound_or (some s) = is_sound s

pub find_spec_sound :
    (name : Text) (ss : List Spec) (s : Spec)
    → find_spec name ss ≡ some s
    → all_sound ss ≡ true
    → is_sound s ≡ true
unfolding find_spec sound_or
find_spec_sound name [] s h all = ground arith
find_spec_sound name (x ∷ ss) s h all = elim (Bool-cases (text_eq x.name name)) [
  | inl same ↦
      let found : some x ≡ some s = rw same at h in
      let here : is_sound x ≡ true = ground arith in sym (ap (λ o. sound_or o) found) ∙ here
  | inr other ↦
      let later : all_sound ss ≡ true = ground arith in
      find_spec_sound name ss s (rw other at h) later
]

actions_or : List Text → Option ActionSchema → List Text
actions_or actions none = actions
actions_or actions (some sch) = sch.actions

-- Properties as the catalog has them.
abbrev InCatalog : Option (Map ParameterSchema) → Type 0
InCatalog none = Unit {0}
InCatalog (some m) =
    (k : Text) (p : ParameterSchema) → lookup k m ≡ some p → lookup k parameter_catalog ≡ some p

properties_of-InCatalog : (names : List Text) → InCatalog (properties_of names)
unfolding properties_of lookup
properties_of-InCatalog [] = λ k p h. ground arith
properties_of-InCatalog (n ∷ names) =
    put (lookup n parameter_catalog) (properties_of names) refl (properties_of-InCatalog names)
  where
    put :
        (o : Option ParameterSchema) (r : Option (Map ParameterSchema))
        → lookup n parameter_catalog ≡ o
        → InCatalog r
        → InCatalog (put_definition n o r)
    put none r e h = tt
    put (some q) none e h = tt
    put (some q) (some m) e h =
        λ k p found. of_test k p (text_eq n k) refl (sym (lookup-insert n k q m) ∙ found)
      where
        of_test :
            (k : Text) (p : ParameterSchema) (b : Bool)
            → text_eq n k ≡ b
            → (if b then some q else lookup k m) ≡ some p
            → lookup k parameter_catalog ≡ some p
        of_test k p true same here =
            ap (λ j. lookup j parameter_catalog) (sym ((text_eq_iff n k).0 same)) ∙ e ∙ here
        of_test k p false differs later = h k p later

abbrev SchemaInCatalog : Option ActionSchema → Type 0
SchemaInCatalog none = Unit {0}
SchemaInCatalog (some sch) = InCatalog (some sch.properties)

action_schema-InCatalog : (s : Spec) → SchemaInCatalog (action_schema s)
unfolding action_schema
action_schema-InCatalog s = of_names (lookup s.name tool_parameters)
  where
    of_properties :
        (r : Option (Map ParameterSchema))
        → InCatalog r
        → SchemaInCatalog (with_properties s.actions r)
    of_properties none h = tt
    of_properties (some m) h = h

    of_names : (o : Option (List Text)) → SchemaInCatalog (with_names s o)
    of_names none = tt
    of_names (some names) = of_properties (properties_of names) (properties_of-InCatalog names)

pub action_schema-actions :
    (s : Spec) (sch : ActionSchema) → action_schema s ≡ some sch → sch.actions ≡ s.actions
unfolding action_schema actions_or
action_schema-actions s sch h = of_names (lookup s.name tool_parameters) h
  where
    of_properties :
        (r : Option (Map ParameterSchema))
        → with_properties s.actions r ≡ some sch
        → sch.actions ≡ s.actions
    of_properties none e = ground arith
    of_properties (some m) e = sym (ap (λ o. actions_or s.actions o) e)

    of_names : (o : Option (List Text)) → with_names s o ≡ some sch → sch.actions ≡ s.actions
    of_names none e = ground arith
    of_names (some names) e = of_properties (properties_of names) e

background_schema : lookup (codes "background") parameter_catalog ≡ some boolean_schema
unfolding lookup parameter_catalog text_eq
background_schema = refl

schema_or : Option ParameterSchema → ParameterSchema
schema_or none = boolean_schema
schema_or (some p) = p

-- A property `background` is a Boolean.
pub background_boolean :
    (s : Spec) (sch : ActionSchema) (p : ParameterSchema)
    → action_schema s ≡ some sch
    → lookup (codes "background") sch.properties ≡ some p
    → boolean_schema ≡ p
unfolding schema_or
background_boolean s sch p made h =
    let in_catalog : InCatalog (some sch.properties) =
      subst SchemaInCatalog made (action_schema-InCatalog s) in
    ap (λ o. schema_or o) (sym background_schema ∙ in_catalog (codes "background") p h)
