-- ===== src/Access/Decision.antt =====
-- Whom the access policy of internal/frontend/security.go lets in.
use zcr521_ai_mcp.Access.Vetting.{IsVetted, networks-Reads}
use mathlib.Core.Path.{subst}
use zcr521_ai_mcp.Access.Origins.{
  is_bare, same_host_port, request_scheme, validate_origin, url_allowed,
}
use zcr521_ai_mcp.Transfer.Syntax.{trim_space}
use zcr521_ai_mcp.Access.Validate.{is_near, networks, validate, decide_state, decide_remote}
use zcr521_ai_mcp.Access.Policy.{
  AccessPolicy, Library, some_equal, valid_request_host, HttpRequest, NetworkState, host_only,
  Interface, host_ip_allowed, Url, remote_address_ip,
}
use zcr521_ai_mcp.Access.Addresses.{
  some_links, is_directly_on_link, Ip, is_loopback, Network, is_unspecified, ip_equal, is_multicast,
  contains, links,
}
use mathlib.Core.List.{Memᴰ, List}
use mathlib.Core.List.Memᴰ.{head, tail}
use zcr521_ai_mcp.Common.{
  [], ◌∷◌, Text, Option, is_empty, ◌≡◌, true, codes, ◌⊎◌, some, member, false, Bool-cases, arith,
  inl, inr, none, refl, Bool, ℕ,
}

-- A client on this device; or one on the local network, if the policy lets it in, in a network of the
-- state that is neither the loopback's nor unspecified.
abbrev pub IsNear : Bool → Ip → NetworkState → Type 0
IsNear lan remote state =
    (is_loopback remote ≡ true)
    ⊎ ((lan ≡ true)
        × (is_unspecified remote ≡ false)
        × (is_multicast remote ≡ false)
        × ((n : Network) × Memᴰ n state.networks
            × (is_loopback n.ip ≡ false)
            × (is_unspecified n.ip ≡ false)
            × (contains n remote ≡ true)))

-- A Host that names this device: `localhost` or a loopback address, of a client on it; or one of the
-- state's addresses.
abbrev pub NamesDevice : Library → Text → Ip → NetworkState → Type 0
NamesDevice lib host remote state =
    ((lib.equal_fold (host_only lib host) (codes "localhost") ≡ true) × (is_loopback remote ≡ true))
    ⊎ ((ip : Ip) × (lib.parse_ip (host_only lib host) ≡ some ip)
        × (((is_loopback ip ≡ true) × (is_loopback remote ≡ true))
            ⊎ ((local : Ip) × Memᴰ local state.ips × (ip_equal local ip ≡ true))))

-- An Origin that is absent, allowed, or a bare URL of the web with the request's own host and port.
abbrev pub IsSameOrigin : Library → List Text → HttpRequest → Type 0
IsSameOrigin lib origins r =
    (is_empty (trim_space r.origin) ≡ true)
    ⊎ ((member (trim_space r.origin) origins ≡ true)
        ⊎ ((u : Url) × (lib.parse_url (trim_space r.origin) ≡ some u)
            × (is_bare u ≡ true)
            × (same_host_port lib u.host r.host u.scheme (request_scheme r) ≡ true)))

some_links_sound :
    (remote : Ip) (ns : List Network)
    → some_links remote ns ≡ true
    → (n : Network) × Memᴰ n ns
      × (is_loopback n.ip ≡ false)
      × (is_unspecified n.ip ≡ false)
      × (contains n remote ≡ true)
unfolding some_links
some_links_sound remote [] h = ground arith
some_links_sound remote (n ∷ ns) h = elim (Bool-cases (links remote n)) [
  | inl hit ↦ (n, head refl, ground arith, ground arith, ground arith)
  | inr miss ↦
      let (m, at, a, b, c) = some_links_sound remote ns (ground arith) in (m, tail at, a, b, c)
]

some_equal_sound :
    (ip : Ip) (locals : List Ip)
    → some_equal ip locals ≡ true
    → (local : Ip) × Memᴰ local locals × (ip_equal local ip ≡ true)
unfolding some_equal
some_equal_sound ip [] h = ground arith
some_equal_sound ip (local ∷ locals) h = elim (Bool-cases (ip_equal local ip)) [
  | inl hit ↦ (local, head refl, hit)
  | inr miss ↦ let (m, at, rest) = some_equal_sound ip locals (ground arith) in (m, tail at, rest)
]

is_near-IsNear :
    (p : AccessPolicy) (remote : Ip) (state : NetworkState)
    → is_near p remote state ≡ true
    → IsNear p.allow_lan remote state
unfolding is_directly_on_link
is_near-IsNear p remote state h = elim (Bool-cases (is_loopback remote)) [
  | inl hit ↦ inl hit
  | inr miss ↦ inr (
    ground arith,
    ground arith,
    ground arith,
    some_links_sound remote state.networks (ground arith),
  )
]

valid_request_host-NamesDevice :
    (lib : Library) (host : Text) (remote : Ip) (state : NetworkState)
    → valid_request_host lib host remote state.ips ≡ true
    → NamesDevice lib host remote state
unfolding valid_request_host
valid_request_host-NamesDevice lib host remote state h =
    elim (Bool-cases (lib.equal_fold (host_only lib host) (codes "localhost"))) [
      | inl hit ↦ inl (hit, ground arith)
      | inr miss ↦ inr (of_ip (lib.parse_ip (host_only lib host)) refl (ground arith))
    ]
  where
    of_ip :
        (o : Option Ip)
        → lib.parse_ip (host_only lib host) ≡ o
        → host_ip_allowed o remote state.ips ≡ true
        → (ip : Ip) × (lib.parse_ip (host_only lib host) ≡ some ip)
          × (((is_loopback ip ≡ true) × (is_loopback remote ≡ true))
              ⊎ ((local : Ip) × Memᴰ local state.ips × (ip_equal local ip ≡ true)))
    of_ip none e v = ground arith
    of_ip (some ip) e v = elim (Bool-cases (is_loopback ip)) [
      | inl own ↦ (ip, e, inl (own, ground arith))
      | inr far ↦ (ip, e, inr (some_equal_sound ip state.ips (ground arith)))
    ]

validate_origin-IsSameOrigin :
    (lib : Library) (p : AccessPolicy) (r : HttpRequest)
    → validate_origin lib p r ≡ true
    → IsSameOrigin lib p.allowed_origins r
unfolding validate_origin
validate_origin-IsSameOrigin lib p r h = elim (Bool-cases (is_empty (trim_space r.origin))) [
  | inl absent ↦ inl absent
  | inr present ↦ inr (elim (Bool-cases (member (trim_space r.origin) p.allowed_origins)) [
    | inl listed ↦ inl listed
    | inr unlisted ↦ inr (of_url (lib.parse_url (trim_space r.origin)) refl (ground arith))
  ])
]
  where
    of_url :
        (o : Option Url)
        → lib.parse_url (trim_space r.origin) ≡ o
        → url_allowed lib r o ≡ true
        → (u : Url) × (lib.parse_url (trim_space r.origin) ≡ some u)
          × (is_bare u ≡ true)
          × (same_host_port lib u.host r.host u.scheme (request_scheme r) ≡ true)
    of_url none e v = ground arith
    of_url (some u) e v = (u, e, ground arith, ground arith)

-- Whom validate lets in: a client whose address can be read, and which is on this device, or is on
-- its local network if the policy lets those in, by a network that is neither the loopback's nor
-- unspecified; whose Host is `localhost` or a loopback address, both only from this device, or an
-- address of the device; and whose Origin is absent, allowed, or a bare web URL with the request's own
-- host and port. The networks were read before, or are all of interfaces that are up, neither
-- point-to-point nor cellular.
pub validate_admits :
    (lib : Library) (now : ℕ) (interfaces : Option (List Interface)) (r : HttpRequest)
    (p : AccessPolicy)
    → (validate lib now interfaces r p).1 ≡ none
    → (remote : Ip) × (state : NetworkState) × (remote_address_ip lib r.remote_addr ≡ some remote)
      × IsVetted lib p interfaces state
      × IsNear p.allow_lan remote state
      × NamesDevice lib r.host remote state
      × IsSameOrigin lib p.allowed_origins r
unfolding validate
validate_admits lib now interfaces r p h = of_remote (remote_address_ip lib r.remote_addr) refl h
  where
    of_state :
        (remote : Ip) (p' : AccessPolicy) (o : Option NetworkState)
        → decide_state lib p' r remote o ≡ none
        → (state : NetworkState) × (o ≡ some state)
          × IsNear p'.allow_lan remote state
          × NamesDevice lib r.host remote state
          × IsSameOrigin lib p'.allowed_origins r
    of_state remote p' none e = ground arith
    of_state remote p' (some state) e = (
      state,
      refl,
      is_near-IsNear p' remote state (ground arith),
      valid_request_host-NamesDevice lib r.host remote state (ground arith),
      validate_origin-IsSameOrigin lib p' r (ground arith),
    )

    of_remote :
        (o : Option Ip)
        → remote_address_ip lib r.remote_addr ≡ o
        → (decide_remote lib now interfaces r p o).1 ≡ none
        → (remote : Ip) × (state : NetworkState) × (remote_address_ip lib r.remote_addr
            ≡ some remote)
          × IsVetted lib p interfaces state
          × IsNear p.allow_lan remote state
          × NamesDevice lib r.host remote state
          × IsSameOrigin lib p.allowed_origins r
    of_remote none a e = ground arith
    of_remote (some remote) a e =
        let (lan, origins, vetted) = networks-Reads lib now interfaces p in
        let after : AccessPolicy × Option NetworkState = networks lib now interfaces p in
        let (state, read, near, host, origin) = of_state remote after.0 after.1 e in
        (
          remote,
          state,
          a,
          vetted state read,
          subst (λ l. IsNear l remote state) lan near,
          host,
          subst (λ l. IsSameOrigin lib l r) origins origin,
        )
