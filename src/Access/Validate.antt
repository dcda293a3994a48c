-- ===== src/Access/Validate.antt =====
-- newAccessPolicy, networks and validate of internal/frontend/security.go. A time is a number of
-- nanoseconds, and 0 Go's zero time.
use zcr521_ai_mcp.Access.Origins.{validate_origin}
use zcr521_ai_mcp.Transfer.Syntax.{trim_space}
use zcr521_ai_mcp.Access.Policy.{
  Library, AccessPolicy, Interface, NetworkState, HttpRequest, AccessError, trim_brackets,
  is_trusted, no_interfaces, off_link, remote_address_ip, valid_request_host, invalid_host,
  invalid_origin,
}
use zcr521_ai_mcp.Access.Addresses.{Ip, Network, is_loopback, v6_loopback, is_directly_on_link}
use zcr521_ai_mcp.Common.{
  [], ◌∷◌, List, Option, Text, Bool, ℕ, if◌then◌else◌, false, not, some, ◌++◌, map, is_empty, none,
  ◌==◌, ◌||◌, ◌&&◌, ltb, ◌+◌,
}

unfoldable pub trimmed_origins : List Text → List Text
trimmed_origins [] = []
trimmed_origins (o ∷ os) =
    let rest = trimmed_origins os in if is_empty (trim_space o) then rest else trim_space o ∷ rest

abbrev pub is_loopback_ip : Option Ip → Bool
is_loopback_ip none = false
is_loopback_ip (some ip) = is_loopback ip

unfoldable pub new_access_policy : Library → Text → List Text → AccessPolicy
new_access_policy lib listen_addr origins = record {
  allow_lan = not (is_loopback_ip (lib.parse_ip (trim_brackets (trim_space listen_addr))));
  allowed_origins = trimmed_origins origins;
  cached = record { ips = []; networks = []; read_at = 0 };
}

-- The addresses of an interface, none if they cannot be read or it is not one that the loop takes.
abbrev pub read_addresses : Option (List (Ip × Network)) → List (Ip × Network)
read_addresses none = []
read_addresses (some l) = l

abbrev pub taken_addresses : Library → Interface → List (Ip × Network)
taken_addresses lib i = if is_trusted lib i then read_addresses i.addresses else []

-- The loop over the interfaces.
unfoldable pub all_addresses : Library → List Interface → List (Ip × Network)
all_addresses lib [] = []
all_addresses lib (i ∷ is) = taken_addresses lib i ++ all_addresses lib is

abbrev pub v4_loopback : Ip
v4_loopback = 0 ∷ 0 ∷ 0 ∷ 0 ∷ 0 ∷ 0 ∷ 0 ∷ 0 ∷ 0 ∷ 0 ∷ 255 ∷ 255 ∷ 127 ∷ 0 ∷ 0 ∷ 1 ∷ []

unfoldable pub read_state : Library → ℕ → List Interface → NetworkState
read_state lib now is =
    let found = all_addresses lib is in
    record {
      ips = map (λ a. a.0) found ++ v4_loopback ∷ v6_loopback ∷ [];
      networks = map (λ a. a.1) found;
      read_at = now;
    }

abbrev pub reread :
    Library → ℕ → AccessPolicy → Option (List Interface) → AccessPolicy × Option NetworkState
reread lib now p none = (p, none)
reread lib now p (some is) =
    let next = read_state lib now is in (record p { cached = next }, some next)

-- What was read less than five seconds ago is taken again.
unfoldable pub networks :
    Library → ℕ → Option (List Interface) → AccessPolicy → AccessPolicy × Option NetworkState
networks lib now interfaces p =
    if not (p.cached.read_at == 0) && ltb now (p.cached.read_at + 5000000000)
    then (p, some p.cached)
    else reread lib now p interfaces

-- A client on this device, or on a link of it if those are let in.
abbrev pub is_near : AccessPolicy → Ip → NetworkState → Bool
is_near p remote state =
    is_loopback remote || (p.allow_lan && is_directly_on_link remote state.networks)

abbrev pub decide_state :
    Library → AccessPolicy → HttpRequest → Ip → Option NetworkState → Option AccessError
decide_state lib p r remote none = some no_interfaces
decide_state lib p r remote (some state) =
    if not (is_near p remote state)
    then some off_link
    else if not (valid_request_host lib r.host remote state.ips)
    then some invalid_host
    else if validate_origin lib p r
    then none
    else some invalid_origin

abbrev pub decide_remote :
    Library
    → ℕ
    → Option (List Interface)
    → HttpRequest
    → AccessPolicy
    → Option Ip
    → AccessPolicy × Option AccessError
decide_remote lib now interfaces r p none = (p, some off_link)
decide_remote lib now interfaces r p (some remote) =
    let (p', state) = networks lib now interfaces p in (p', decide_state lib p' r remote state)

-- `none` lets the request in.
unfoldable pub validate :
    Library
    → ℕ
    → Option (List Interface)
    → HttpRequest
    → AccessPolicy
    → AccessPolicy × Option AccessError
validate lib now interfaces r p =
    decide_remote lib now interfaces r p (remote_address_ip lib r.remote_addr)
