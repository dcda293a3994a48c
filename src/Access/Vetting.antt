-- ===== src/Access/Vetting.antt =====
-- The networks that internal/frontend/security.go reads: which interfaces they are of.
use mathlib.Core.Option.{some-injective}
use mathlib.Core.Path.{subst, sym}
use zcr521_ai_mcp.Access.Validate.{
  read_addresses, all_addresses, taken_addresses, read_state, networks, reread,
}
use zcr521_ai_mcp.Access.Policy.{
  AccessPolicy, Library, NetworkState, Interface, is_trusted, is_cellular_interface,
}
use zcr521_ai_mcp.Access.Addresses.{Ip, Network}
use mathlib.Core.List.{Memᴰ, List, map}
use mathlib.Core.List.Memᴰ.{head, tail, not-nil}
use zcr521_ai_mcp.Common.{
  [], ◌∷◌, Option, ◌≡◌, true, ◌⊎◌, some, false, Bool-cases, arith, inl, inr, none, refl, Bool, ◌++◌,
  if◌then◌else◌, ap, ℕ, not, ◌==◌, ◌&&◌, ltb, ◌+◌,
}

-- A state that was read before, or whose networks are all those of interfaces that are up, not
-- point-to-point and not cellular.
abbrev pub IsVetted : Library → AccessPolicy → Option (List Interface) → NetworkState → Type 0
IsVetted lib p interfaces state =
    (state ≡ p.cached)
    ⊎ ((is : List Interface) × (interfaces ≡ some is)
        × ((n : Network)
            → Memᴰ n state.networks
            → (i : Interface) × Memᴰ i is
              × (i.is_up ≡ true)
              × (i.point_to_point ≡ false)
              × (is_cellular_interface lib i.name ≡ false)
              × ((ip : Ip) × Memᴰ (ip, n) (read_addresses i.addresses))))

map_Mem :
    (l : List (Ip × Network)) (n : Network) → Memᴰ n (map (λ a. a.1) l) → (ip : Ip) × Memᴰ (ip, n) l
map_Mem [] n m = absurd (not-nil m)
map_Mem (a ∷ l) n (head e) = (a.0, head (ap (λ x. (a.0, x)) e))
map_Mem (a ∷ l) n (tail m) = let (ip, at) = map_Mem l n m in (ip, tail at)

append_Mem {ℓ} : {A : Type ℓ} (a : A) (xs ys : List A) → Memᴰ a (xs ++ ys) → Memᴰ a xs ⊎ Memᴰ a ys
append_Mem a [] ys m = inr m
append_Mem a (x ∷ xs) ys (head e) = inl (head e)
append_Mem a (x ∷ xs) ys (tail m) = elim (append_Mem a xs ys m) [
  | inl l ↦ inl (tail l)
  | inr r ↦ inr r
]

if_Mem {ℓ} :
    {A : Type ℓ} (a : A) (b : Bool) (l : List A)
    → Memᴰ a (if b then l else [])
    → (b ≡ true) × Memᴰ a l
if_Mem a true l m = (refl, m)
if_Mem a false l m = absurd (not-nil m)

all_addresses-Mem :
    (lib : Library) (is : List Interface) (a : Ip × Network)
    → Memᴰ a (all_addresses lib is)
    → (i : Interface) × Memᴰ i is × (is_trusted lib i ≡ true) × Memᴰ a (read_addresses i.addresses)
unfolding all_addresses
all_addresses-Mem lib [] a m = absurd (not-nil m)
all_addresses-Mem lib (i ∷ is) a m =
    elim (append_Mem a (taken_addresses lib i) (all_addresses lib is) m) [
      | inl own ↦
          let (trusted, at) = if_Mem a (is_trusted lib i) (read_addresses i.addresses) own in
          (i, head refl, trusted, at)
      | inr rest ↦
          let (j, at, trusted, within) = all_addresses-Mem lib is a rest in
          (j, tail at, trusted, within)
    ]

read_state-networks :
    (lib : Library) (now : ℕ) (is : List Interface) (n : Network)
    → Memᴰ n (read_state lib now is).networks
    → (i : Interface) × Memᴰ i is
      × (i.is_up ≡ true)
      × (i.point_to_point ≡ false)
      × (is_cellular_interface lib i.name ≡ false)
      × ((ip : Ip) × Memᴰ (ip, n) (read_addresses i.addresses))
unfolding read_state
read_state-networks lib now is n m =
    let (ip, at) = map_Mem (all_addresses lib is) n m in
    let (i, member_of, trusted, within) = all_addresses-Mem lib is (ip, n) at in
    (i, member_of, ground arith, ground arith, ground arith, (ip, within))

-- What the policy reads, and what it keeps.
abbrev pub Reads :
    Library → AccessPolicy → Option (List Interface) → AccessPolicy × Option NetworkState → Type 0
Reads lib p interfaces after =
    (after.0.allow_lan ≡ p.allow_lan)
    × (after.0.allowed_origins ≡ p.allowed_origins)
    × ((state : NetworkState) → after.1 ≡ some state → IsVetted lib p interfaces state)

pub networks-Reads :
    (lib : Library) (now : ℕ) (interfaces : Option (List Interface)) (p : AccessPolicy)
    → Reads lib p interfaces (networks lib now interfaces p)
unfolding networks
networks-Reads lib now interfaces p =
    elim (Bool-cases (not (p.cached.read_at == 0) && ltb now (p.cached.read_at + 5000000000))) [
      | inl fresh ↦ rw fresh (refl, refl, λ state e. inl (sym (some-injective _ _ e)))
      | inr stale ↦ rw stale (of_interfaces interfaces)
    ]
  where
    of_interfaces : (o : Option (List Interface)) → Reads lib p o (reread lib now p o)
    of_interfaces none = (refl, refl, λ state e. ground arith)
    of_interfaces (some is) = (
      refl,
      refl,
      λ state e. inr (
        is,
        refl,
        λ n m.
            read_state-networks lib now is n
              (subst (λ x. Memᴰ n x.networks) (sym (some-injective _ _ e)) m),
      ),
    )
