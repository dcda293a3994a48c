-- ===== src/Archive/Clean.antt =====
-- The clean paths of internal/ops/archive.go: in one, `..` stands in front of all other components
-- only.
use zcr521_ai_mcp.Transfer.Syntax.{split}
use mathlib.Core.Option.{some-injective}
use zcr521_ai_mcp.Archive.Paths.{drop_last, last_part, push_part, push_parts, is_plain, dot_dot, up}
use zcr521_ai_mcp.Archive.Paths.{join, CleanPath, clean, is_rooted}
use zcr521_ai_mcp.Common.{
  [], ◌∷◌, Text, List, text_eq, All, ◌++◌, inl, Bool, ◌≡◌, inr, if◌then◌else◌, true, some, Option,
  ◌⊎◌, refl, sym, Bool-cases, ◌∙◌, false, arith, none,
}

abbrev pub IsPlain : Text → Type 0
IsPlain c = is_plain c ≡ true

abbrev pub IsClean : List Text → Type 0
IsClean [] = Unit
IsClean (c ∷ cs) = ((text_eq c dot_dot ≡ true) × IsClean cs) ⊎ (IsPlain c × All IsPlain cs)

All-IsClean : (cs : List Text) → All IsPlain cs → IsClean cs
All-IsClean [] a = tt
All-IsClean (c ∷ cs) a = inr a

append-IsPlain :
    (cs : List Text) (c : Text) → IsPlain c → All IsPlain cs → All IsPlain (cs ++ c ∷ [])
append-IsPlain [] c p a = (p, tt)
append-IsPlain (d ∷ cs) c p a = (a.0, append-IsPlain cs c p a.1)

append-IsClean : (cs : List Text) (c : Text) → IsPlain c → IsClean cs → IsClean (cs ++ c ∷ [])
append-IsClean [] c p h = inr (p, tt)
append-IsClean (d ∷ cs) c p (inl (e, h)) = inl (e, append-IsClean cs c p h)
append-IsClean (d ∷ cs) c p (inr (q, a)) = inr (q, append-IsPlain cs c p a)

drop_last-IsPlain : (cs : List Text) → All IsPlain cs → All IsPlain (drop_last cs)
unfolding drop_last
drop_last-IsPlain [] a = tt
drop_last-IsPlain (c ∷ []) a = tt
drop_last-IsPlain (c ∷ d ∷ cs) a = (a.0, drop_last-IsPlain (d ∷ cs) a.1)

pub drop_last-IsClean : (cs : List Text) → IsClean cs → IsClean (drop_last cs)
unfolding drop_last
drop_last-IsClean [] h = tt
drop_last-IsClean (c ∷ []) h = tt
drop_last-IsClean (c ∷ d ∷ cs) (inl (e, h)) = inl (e, drop_last-IsClean (d ∷ cs) h)
drop_last-IsClean (c ∷ d ∷ cs) (inr (p, a)) = inr (p, drop_last-IsPlain (d ∷ cs) a)

last_part-IsPlain :
    (c : Text) (cs : List Text)
    → IsPlain c
    → All IsPlain cs
    → (l : Text) × (last_part (c ∷ cs) ≡ some l) × IsPlain l
unfolding last_part
last_part-IsPlain c [] p a = (c, refl, p)
last_part-IsPlain c (d ∷ cs) p a = last_part-IsPlain d cs a.0 a.1

pub dot_dot_same : text_eq dot_dot dot_dot ≡ true
unfolding text_eq
dot_dot_same = refl

-- A `..` behind `..` alone.
append_up :
    (cs : List Text) (l : Text)
    → last_part cs ≡ some l
    → text_eq l dot_dot ≡ true
    → IsClean cs
    → IsClean (cs ++ dot_dot ∷ [])
unfolding last_part is_plain
append_up [] l e d h = inl (dot_dot_same, tt)
append_up (c ∷ []) l e d (inl (q, h)) = inl (q, inl (dot_dot_same, tt))
append_up (c ∷ c' ∷ cs) l e d (inl (q, h)) = inl (q, append_up (c' ∷ cs) l e d h)
append_up (c ∷ cs) l e d (inr (p, a)) =
    let (l', e', p') = last_part-IsPlain c cs p a in
    let same : l ≡ l' = some-injective l l' (sym e ∙ e') in
    let p'' : is_plain l ≡ true = rw same p' in ground arith

push_part-IsClean :
    (rooted : Bool) (cs : List Text) (c : Text) → IsClean cs → IsClean (push_part rooted cs c)
unfolding push_part
push_part-IsClean rooted cs c h = elim (Bool-cases (text_eq c dot_dot)) [
  | inl is_up ↦ rw is_up (up-IsClean (last_part cs) refl)
  | inr not_up ↦ elim (Bool-cases (is_plain c)) [
    | inl plain ↦ rw (not_up, plain) (append-IsClean cs c plain h)
    | inr skipped ↦ rw (not_up, skipped) h
  ]
]
  where
    root-IsClean : (b : Bool) → IsClean (if b then [] else dot_dot ∷ [])
    root-IsClean true = tt
    root-IsClean false = inl (dot_dot_same, tt)

    up-IsClean : (l : Option Text) → last_part cs ≡ l → IsClean (up rooted cs l)
    up-IsClean none e = root-IsClean rooted
    up-IsClean (some l) e = elim (Bool-cases (text_eq l dot_dot)) [
      | inl d ↦ rw d (append_up cs l e d h)
      | inr n ↦ rw n (drop_last-IsClean cs h)
    ]

pub push_parts-IsClean :
    (rooted : Bool) (names cs : List Text) → IsClean cs → IsClean (push_parts rooted cs names)
unfolding push_parts
push_parts-IsClean rooted [] cs h = h
push_parts-IsClean rooted (c ∷ names) cs h =
    push_parts-IsClean rooted names (push_part rooted cs c) (push_part-IsClean rooted cs c h)

pub suffix-IsClean : (cs ds : List Text) → IsClean (cs ++ ds) → IsClean ds
suffix-IsClean [] ds h = h
suffix-IsClean (c ∷ cs) ds (inl (e, h)) = suffix-IsClean cs ds h
suffix-IsClean (c ∷ cs) ds (inr (p, a)) = suffix-IsClean cs ds (All-IsClean (cs ++ ds) a)

pub join-IsClean : (p : CleanPath) (name : Text) → IsClean p.parts → IsClean (join p name).parts
unfolding join
join-IsClean p name h = push_parts-IsClean p.rooted (split b'/' name) p.parts h

pub join-rooted : (p : CleanPath) (name : Text) → (join p name).rooted ≡ p.rooted
unfolding join
join-rooted p name = refl

pub clean-IsClean : (s : Text) → IsClean (clean s).parts
clean-IsClean s = join-IsClean (record { rooted = is_rooted s; parts = [] }) s tt

append-All-IsPlain : (cs ds : List Text) → All IsPlain cs → All IsPlain ds → All IsPlain (cs ++ ds)
append-All-IsPlain [] ds a b = b
append-All-IsPlain (c ∷ cs) ds a b = (a.0, append-All-IsPlain cs ds a.1 b)

pub append-All-IsClean : (cs ds : List Text) → IsClean cs → All IsPlain ds → IsClean (cs ++ ds)
append-All-IsClean [] ds h a = All-IsClean ds a
append-All-IsClean (c ∷ cs) ds (inl (e, h)) a = inl (e, append-All-IsClean cs ds h a)
append-All-IsClean (c ∷ cs) ds (inr (p, b)) a = inr (p, append-All-IsPlain cs ds b a)
