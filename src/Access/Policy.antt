-- ===== src/Access/Policy.antt =====
-- The access policy of internal/frontend/security.go. The parsers of package net and net/url, and
-- strings.ToLower and EqualFold, are parameters (`Library`).
use zcr521_ai_mcp.Transfer.Syntax.{trim_space}
use zcr521_ai_mcp.Access.Addresses.{Ip, Network, ip_equal, is_loopback}
use zcr521_ai_mcp.Common.{
  has_prefix, [], ◌∷◌, Text, List, Bool, ℕ, Option, ◌==◌, if◌then◌else◌, none, some, false, codes,
  any, ◌&&◌, ◌||◌, is_empty, not, has_prefix,
}

pub record Url : Type 0 where
  pub scheme : Text
  pub host : Text
  pub has_user : Bool
  pub path : Text
  pub raw_query : Text
  pub fragment : Text

-- net.ParseIP, IP.String, net.SplitHostPort, url.Parse.
pub record Library : Type 0 where
  pub lower : Text → Text
  pub equal_fold : Text → Text → Bool
  pub parse_ip : Text → Option Ip
  pub ip_text : Ip → Text
  pub split_host_port : Text → Option (Text × Text)
  pub parse_url : Text → Option Url

-- An interface with the addresses and networks that addressNetwork makes of its addresses; `none` is
-- an error of Addrs.
pub record Interface : Type 0 where
  pub name : Text
  pub is_up : Bool
  pub point_to_point : Bool
  pub addresses : Option (List (Ip × Network))

-- `read_at` is 0 for a state that was never read.
pub record NetworkState : Type 0 where
  pub ips : List Ip
  pub networks : List Network
  pub read_at : ℕ

pub record AccessPolicy : Type 0 where
  pub allow_lan : Bool
  pub allowed_origins : List Text
  pub cached : NetworkState

pub data AccessError : Type 0 where
  invalid_host invalid_origin off_link no_interfaces : AccessError

pub record HttpRequest : Type 0 where
  pub remote_addr : Text
  pub host : Text
  pub origin : Text
  pub has_tls : Bool

abbrev pub is_bracket : ℕ → Bool
is_bracket c = c == b'[' || c == b']'

unfoldable pub trim_left_brackets : Text → Text
trim_left_brackets [] = []
trim_left_brackets (c ∷ s) = let rest = trim_left_brackets s in if is_bracket c then rest else c ∷ s

unfoldable pub trim_right_brackets : Text → Text
trim_right_brackets [] = []
trim_right_brackets (c ∷ s) =
    let rest = trim_right_brackets s in if is_bracket c && is_empty rest then [] else c ∷ rest

-- strings.Trim(s, "[]")
abbrev pub trim_brackets : Text → Text
trim_brackets s = trim_right_brackets (trim_left_brackets s)

-- The text before the first percent sign, and before the last one.
unfoldable pub before_percent : Text → Text
before_percent [] = []
before_percent (c ∷ s) = let rest = before_percent s in if c == b'%' then [] else c ∷ rest

unfoldable pub before_last_percent : Text → Option Text
before_last_percent [] = none
before_last_percent (c ∷ s) = or_here (before_last_percent s)
  where
    or_here : Option Text → Option Text
    or_here (some rest) = some (c ∷ rest)
    or_here none = if c == b'%' then some [] else none

abbrev pub without_zone : Text → Text
without_zone host = or_whole (before_last_percent host)
  where
    or_whole : Option Text → Text
    or_whole none = host
    or_whole (some s) = s

abbrev pub host_or : Text → Option (Text × Text) → Text
host_or whole none = whole
host_or whole (some (host, _)) = host

unfoldable pub remote_address_ip : Library → Text → Option Ip
remote_address_ip lib remote =
    lib.parse_ip (trim_brackets (without_zone (host_or remote (lib.split_host_port remote))))

unfoldable pub host_only : Library → Text → Text
host_only lib hostport =
    trim_brackets (before_percent (host_or hostport (lib.split_host_port hostport)))

unfoldable pub some_equal : Ip → List Ip → Bool
some_equal ip [] = false
some_equal ip (local ∷ locals) = let rest = some_equal ip locals in ip_equal local ip || rest

abbrev pub host_ip_allowed : Option Ip → Ip → List Ip → Bool
host_ip_allowed none remote locals = false
host_ip_allowed (some ip) remote locals =
    if is_loopback ip then is_loopback remote else some_equal ip locals

unfoldable pub valid_request_host : Library → Text → Ip → List Ip → Bool
valid_request_host lib hostport remote locals =
    let host = host_only lib hostport in
    if lib.equal_fold host (codes "localhost")
    then is_loopback remote
    else host_ip_allowed (lib.parse_ip host) remote locals

abbrev pub cellular_prefixes : List Text
cellular_prefixes =
    codes "rmnet"
    ∷ codes "ccmni"
    ∷ codes "pdp"
    ∷ codes "wwan"
    ∷ codes "cellular"
    ∷ codes "v4-rmnet"
    ∷ codes "r_rmnet"
    ∷ []

unfoldable pub is_cellular_interface : Library → Text → Bool
is_cellular_interface lib name =
    any (λ p. has_prefix p (lib.lower (trim_space name))) cellular_prefixes

abbrev pub is_trusted : Library → Interface → Bool
is_trusted lib i = i.is_up && not i.point_to_point && not (is_cellular_interface lib i.name)
