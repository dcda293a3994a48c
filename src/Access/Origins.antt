-- ===== src/Access/Origins.antt =====
-- validateOrigin, sameHostPort and normalizedHostPort of internal/frontend/security.go.
use zcr521_ai_mcp.Access.Addresses.{Ip}
use zcr521_ai_mcp.Ops.Numbers.{atoi}
use zcr521_ai_mcp.Transfer.Syntax.{trim_space}
use zcr521_ai_mcp.Access.Policy.{
  Library, HttpRequest, Url, without_zone, AccessPolicy, trim_brackets,
}
use zcr521_ai_mcp.Common.{
  int_same, [], ℤ, Text, Bool, Option, text_eq, if◌then◌else◌, ◌&&◌, some, false, is_empty, codes,
  none, ◌||◌, not, member,
}

-- A port after strconv.Itoa: its number, or the text if that is none.
pub data Port : Type 0 where
  numbered : ℤ → Port
  unread : Text → Port

abbrev pub port_of : Text → Option ℤ → Port
port_of port none = unread port
port_of port (some n) = numbered n

abbrev pub port_equal : Port → Port → Bool
port_equal (numbered a) (numbered b) = int_same a b
port_equal (unread a) (unread b) = text_eq a b
port_equal _ _ = false

abbrev pub split_or_whole : Text → Option (Text × Text) → Text × Text
split_or_whole value none = (trim_brackets value, [])
split_or_whole value (some (host, port)) = (host, port)

abbrev pub default_port : Text → Text → Text
default_port scheme port =
    if is_empty port
    then (if text_eq scheme (codes "https") then codes "443" else codes "80")
    else port

abbrev pub canonical_host : Library → Text → Option Ip → Text
canonical_host lib host none = host
canonical_host lib host (some ip) = lib.ip_text ip

unfoldable pub normalized_host_port : Library → Text → Text → Text × Port
normalized_host_port lib value scheme =
    let (host, port) = split_or_whole value (lib.split_host_port value) in
    let port' = default_port scheme port in
    let host' = without_zone host in
    (canonical_host lib host' (lib.parse_ip host'), port_of port' (atoi port'))

unfoldable pub same_host_port : Library → Text → Text → Text → Text → Bool
same_host_port lib left right left_scheme right_scheme =
    let (left_host, left_port) = normalized_host_port lib left left_scheme in
    let (right_host, right_port) = normalized_host_port lib right right_scheme in
    lib.equal_fold left_host right_host && port_equal left_port right_port

abbrev pub request_scheme : HttpRequest → Text
request_scheme r = if r.has_tls then codes "https" else codes "http"

-- A URL that has a scheme of the web, a host, and nothing else.
abbrev pub is_bare : Url → Bool
is_bare u =
    (text_eq u.scheme (codes "http") || text_eq u.scheme (codes "https"))
    && not u.has_user
    && is_empty u.path
    && is_empty u.raw_query
    && is_empty u.fragment

abbrev pub url_allowed : Library → HttpRequest → Option Url → Bool
url_allowed lib r none = false
url_allowed lib r (some u) =
    is_bare u && same_host_port lib u.host r.host u.scheme (request_scheme r)

-- validateOrigin; false is the error errInvalidOrigin.
unfoldable pub validate_origin : Library → AccessPolicy → HttpRequest → Bool
validate_origin lib p r =
    let origin = trim_space r.origin in
    is_empty origin || member origin p.allowed_origins || url_allowed lib r (lib.parse_url origin)
