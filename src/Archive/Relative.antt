-- ===== src/Archive/Relative.antt =====
-- The relative paths of internal/ops/archive.go: what a check of filepath.Rel says of clean paths.
use mathlib.Core.Path.{subst}
use mathlib.Core.Option.{some-injective, none}
use zcr521_ai_mcp.Archive.Clean.{IsPlain, IsClean, suffix-IsClean, dot_dot_same}
use zcr521_ai_mcp.Archive.Paths.{strip, CleanPath, dot_dot, rel, inside, relative_of, is_same}
use zcr521_ai_mcp.Common.{
  map, [], ◌∷◌, List, Text, ◌≡◌, ◌++◌, All, ap, arith, Bool-cases, text_eq, inl, inr, false, some,
  if◌then◌else◌, Option, sym, ◌∙◌, text_eq_iff, Bool, true, refl,
}

-- A path that is some plain components below a root.
abbrev pub Below : CleanPath → CleanPath → List Text → Type 0
Below root target rest =
    (target.rooted ≡ root.rooted) × (target.parts ≡ root.parts ++ rest) × All IsPlain rest

strip-append :
    (base target : List Text) (rest : List Text)
    → strip base target ≡ ([], rest)
    → target ≡ base ++ rest
unfolding strip
strip-append [] target rest h = ap (λ p. p.1) h
strip-append (b ∷ bs) [] rest h = ground arith
strip-append (b ∷ bs) (t ∷ ts) rest h = elim (Bool-cases (text_eq b t)) [
  | inl same ↦
      let h' : strip bs ts ≡ ([], rest) =
        ap (λ x. if x then strip bs ts else (b ∷ bs, t ∷ ts)) (sym same) ∙ h in
      let e : b ≡ t = (text_eq_iff b t).0 same in let tail = strip-append bs ts rest h' in cc
  | inr differs ↦
      let h' : (b ∷ bs) ≡ [] =
        ap (λ p. p.0) (ap (λ x. if x then strip bs ts else (b ∷ bs, t ∷ ts)) (sym differs) ∙ h) in
      ground arith
]

IsClean-IsPlain :
    (c : Text) (cs : List Text)
    → text_eq c dot_dot ≡ false
    → IsClean (c ∷ cs)
    → All IsPlain (c ∷ cs)
IsClean-IsPlain c cs n (inl (e, h)) = ground arith
IsClean-IsPlain c cs n (inr a) = a

pub none_differs {ℓ} : {A : Type ℓ} (a : A) → ¬ (◌≡◌ {A = Option A} none (some a))
none_differs a h = ground arith

inside-some :
    (t rest : List Text) → IsClean t → inside (some t) ≡ some rest → (t ≡ rest) × All IsPlain t
inside-some [] rest c h = (some-injective _ _ h, tt)
inside-some (c ∷ cs) rest clean' h = elim (Bool-cases (text_eq c dot_dot)) [
  | inl hit ↦ absurd (none_differs rest (ap (λ b. if b then none else some (c ∷ cs)) (sym hit) ∙ h))
  | inr miss ↦ (
    some-injective _ _ (ap (λ b. if b then none else some (c ∷ cs)) (sym miss) ∙ h),
    IsClean-IsPlain c cs miss clean',
  )
]

leads_out : (b : Text) (bs t rest : List Text) → ¬ (inside (relative_of (b ∷ bs, t)) ≡ some rest)
leads_out b bs t rest h =
    let r : List Text = dot_dot ∷ map (λ _. dot_dot) bs ++ t in
    elim (Bool-cases (text_eq b dot_dot)) [
      | inl hit ↦ none_differs rest (ap (λ x. inside (if x then none else some r)) (sym hit) ∙ h)
      | inr miss ↦
          let h' : inside (some r) ≡ some rest =
            ap (λ x. inside (if x then none else some r)) (sym miss) ∙ h in
          none_differs rest (ap (λ x. if x then none else some r) (sym dot_dot_same) ∙ h')
    ]

inside-strip :
    (root target rest : List Text) (p : List Text × List Text)
    → IsClean target
    → strip root target ≡ p
    → inside (relative_of p) ≡ some rest
    → (target ≡ root ++ rest) × All IsPlain rest
inside-strip root target rest ([], t) clean' e h =
    let split_up = strip-append root target t e in
    let (same, a) = inside-some t rest (suffix-IsClean root t (subst IsClean split_up clean')) h in
    (split_up ∙ ap (λ x. root ++ x) same, subst (All IsPlain) same a)
inside-strip root target rest (b ∷ bs, t) clean' e h = absurd (leads_out b bs t rest h)

is_same_lem : (a b : Bool) → b ≡ a → is_same a b ≡ true
is_same_lem true b h = h
is_same_lem false true h = ground arith
is_same_lem false false h = refl

-- What the relative path of a clean target is, if it does not lead out.
pub inside-rel :
    (root target : CleanPath) (rest : List Text)
    → IsClean target.parts
    → target.rooted ≡ root.rooted
    → inside (rel root target) ≡ some rest
    → Below root target rest
unfolding rel
inside-rel root target rest clean' same h =
    let (e, a) =
      inside-strip root.parts target.parts rest (strip root.parts target.parts) clean' refl (
        ap (λ x. inside (if x then relative_of (strip root.parts target.parts) else none))
          (sym (is_same_lem root.rooted target.rooted same))
        ∙ h) in
    (same, e, a)
