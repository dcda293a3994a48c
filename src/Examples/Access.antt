-- ===== src/Examples/Access.antt =====
-- A client on the device's own wireless network (internal/frontend/security.go).
use zcr521_ai_mcp.Transfer.Syntax.{trim_space}
use zcr521_ai_mcp.Access.Origins.{validate_origin}
use zcr521_ai_mcp.Access.Decision.{IsNear, NamesDevice, IsSameOrigin, validate_admits}
use zcr521_ai_mcp.Access.Vetting.{IsVetted}
use zcr521_ai_mcp.Access.Addresses.{
  Ip, is_directly_on_link, some_links, contains, same_masked, bit_and, to4, ip_equal, is_loopback,
  is_unspecified, is_multicast,
}
use zcr521_ai_mcp.Access.Policy.{
  Library, Interface, AccessPolicy, HttpRequest, NetworkState, remote_address_ip,
  is_cellular_interface, trim_left_brackets, trim_right_brackets, before_percent,
  before_last_percent, host_only, valid_request_host, some_equal,
}
use zcr521_ai_mcp.Access.Validate.{validate, networks, read_state, all_addresses}
use zcr521_ai_mcp.Common.{
  [], ◌∷◌, Text, Option, text_eq, codes, true, lookup, none, false, some, ◌≡◌, any, refl,
  has_prefix,
}

abbrev device : Ip
device = 192 ∷ 168 ∷ 1 ∷ 2 ∷ []

abbrev phone : Ip
phone = 192 ∷ 168 ∷ 1 ∷ 5 ∷ []

abbrev known_ip : Text → Option Ip
known_ip s = lookup s ((codes "192.168.1.2", device) ∷ (codes "192.168.1.5", phone) ∷ [])

abbrev known_host_port : Text → Option (Text × Text)
known_host_port s = lookup s (
    (codes "192.168.1.5:40000", (codes "192.168.1.5", codes "40000"))
    ∷ (codes "192.168.1.2:8765", (codes "192.168.1.2", codes "8765"))
    ∷ [])

abbrev lib : Library
lib = record {
  lower = λ s. s;
  equal_fold = text_eq;
  parse_ip = known_ip;
  ip_text = λ ip. ip;
  split_host_port = known_host_port;
  parse_url = λ s. none;
}

abbrev wlan : Interface
wlan = record {
  name = codes "wlan0";
  is_up = true;
  point_to_point = false;
  addresses = some ((device, record { ip = device; mask = 255 ∷ 255 ∷ 255 ∷ 0 ∷ [] }) ∷ []);
}

abbrev policy : AccessPolicy
policy = record {
  allow_lan = true;
  allowed_origins = [];
  cached = record { ips = []; networks = []; read_at = 0 };
}

abbrev visit : HttpRequest
visit = record {
  remote_addr = codes "192.168.1.5:40000";
  host = codes "192.168.1.2:8765";
  origin = [];
  has_tls = false;
}

visit_admitted : (validate lib 1 (some (wlan ∷ [])) visit policy).1 ≡ none
unfolding validate networks read_state all_addresses is_cellular_interface has_prefix
    remote_address_ip trim_left_brackets trim_right_brackets before_percent before_last_percent
    host_only valid_request_host some_equal is_directly_on_link some_links contains same_masked
    bit_and to4 ip_equal is_loopback is_unspecified is_multicast validate_origin lookup text_eq any
    trim_space
visit_admitted = refl

validate_admits_example :
    (remote : Ip) × (state : NetworkState) × (remote_address_ip lib visit.remote_addr ≡ some remote)
    × IsVetted lib policy (some (wlan ∷ [])) state
    × IsNear policy.allow_lan remote state
    × NamesDevice lib visit.host remote state
    × IsSameOrigin lib policy.allowed_origins visit
validate_admits_example = validate_admits lib 1 (some (wlan ∷ [])) visit policy visit_admitted
