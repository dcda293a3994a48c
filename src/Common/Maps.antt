-- ===== src/Common/Maps.antt =====
-- Maps with text keys as association lists, the first entry of a key being its value.
use mathlib.Core.Path.{◌≡◌, refl}
use mathlib.Core.Logic.{inl, inr}
use mathlib.Core.Bool.{Bool, false, ◌||◌}
use mathlib.Core.List.{List, [], ◌∷◌}
use mathlib.Core.Option.{Option, none, some}
use native.Mathlib.Omega.{arith}
use zcr521_ai_mcp.Common.Tests.{if◌then◌else◌, Bool-cases}
use zcr521_ai_mcp.Common.Texts.{Text, text_eq, text_eq_iff, text_eq_sym}

abbrev pub Map {ℓ} : Type ℓ → Type ℓ
Map V = List (Text × V)

module _ {ℓ} {V : Type ℓ} where
  unfoldable pub lookup : Text → Map V → Option V
  lookup k [] = none
  lookup k ((j, v) ∷ m) = if text_eq j k then some v else lookup k m

  unfoldable pub insert : Text → V → Map V → Map V
  insert k v [] = (k, v) ∷ []
  insert k v ((j, w) ∷ m) = if text_eq j k then (k, v) ∷ m else (j, w) ∷ insert k v m

  unfoldable pub erase : Text → Map V → Map V
  erase k [] = []
  erase k ((j, w) ∷ m) = let rest = erase k m in if text_eq j k then rest else (j, w) ∷ rest

  pub lookup-insert :
      (k j : Text) (v : V) (m : Map V)
      → lookup j (insert k v m) ≡ (if text_eq k j then some v else lookup j m)
  unfolding lookup insert
  lookup-insert k j v [] = refl
  lookup-insert k j v ((i, w) ∷ m) =
      ground (arith, text_eq_iff k j, text_eq_iff i k, text_eq_iff i j, lookup-insert k j v m)

  pub lookup-erase :
      (k j : Text) (m : Map V) → lookup j (erase k m) ≡ (if text_eq k j then none else lookup j m)
  unfolding lookup erase
  lookup-erase k j [] = ground arith
  lookup-erase k j ((i, w) ∷ m) =
      ground (arith, text_eq_iff k j, text_eq_iff i k, text_eq_iff i j, lookup-erase k j m)

unfoldable pub member : Text → List Text → Bool
member k [] = false
member k (j ∷ ks) = text_eq j k || member k ks

-- No key twice.
abbrev pub Unique {ℓ} : {V : Type ℓ} → Map V → Type ℓ
Unique [] = Unit
Unique ((k, v) ∷ m) = (lookup k m ≡ none) × Unique m

module _ {ℓ} {V : Type ℓ} where
  pub insert-Unique : (k : Text) (v : V) (m : Map V) → Unique m → Unique (insert k v m)
  unfolding insert lookup
  insert-Unique k v [] u = (refl, tt)
  insert-Unique k v ((j, w) ∷ m) u = elim (Bool-cases (text_eq j k)) [
    | inl hit ↦ rw hit (rw (← (text_eq_iff j k).0 hit) u.0, u.1)
    | inr miss ↦
        rw miss
          (ground (arith, lookup-insert k j v m, text_eq_sym j k, u.0), insert-Unique k v m u.1)
  ]
