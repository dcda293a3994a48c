-- ===== src/Access/Addresses.antt =====
-- The addresses and networks of package net that internal/frontend/security.go uses, as bytes, and
-- isDirectlyOnLink.
use Prim.Native.Nat.{zero}
use zcr521_ai_mcp.Common.{
  [], ◌∷◌, List, Option, Bool, ℕ, if◌then◌else◌, some, ◌||◌, suc, ◌==◌, false, length, not, ◌&&◌,
  text_eq, ◌/◌, ◌%◌, none, take, ◌*◌, true, drop, ◌+◌,
}

abbrev pub Ip : Type 0
Ip = List ℕ

abbrev pub v4_prefix : Ip
v4_prefix = 0 ∷ 0 ∷ 0 ∷ 0 ∷ 0 ∷ 0 ∷ 0 ∷ 0 ∷ 0 ∷ 0 ∷ 255 ∷ 255 ∷ []

abbrev pub v6_loopback : Ip
v6_loopback = 0 ∷ 0 ∷ 0 ∷ 0 ∷ 0 ∷ 0 ∷ 0 ∷ 0 ∷ 0 ∷ 0 ∷ 0 ∷ 0 ∷ 0 ∷ 0 ∷ 0 ∷ 1 ∷ []

abbrev pub v6_zero : Ip
v6_zero = 0 ∷ 0 ∷ 0 ∷ 0 ∷ 0 ∷ 0 ∷ 0 ∷ 0 ∷ 0 ∷ 0 ∷ 0 ∷ 0 ∷ 0 ∷ 0 ∷ 0 ∷ 0 ∷ []

-- IP.To4
unfoldable pub to4 : Ip → Option Ip
to4 ip =
    if length ip == 4
    then some ip
    else if length ip == 16 && text_eq (take 12 ip) v4_prefix
    then some (drop 12 ip)
    else none

-- IP.Equal
unfoldable pub ip_equal : Ip → Ip → Bool
ip_equal a b =
    if length a == length b
    then text_eq a b
    else if length a == 4 && length b == 16
    then text_eq (take 12 b) v4_prefix && text_eq a (drop 12 b)
    else length a == 16 && length b == 4 && text_eq (take 12 a) v4_prefix && text_eq (drop 12 a) b

abbrev pub loopback_of : Ip → Option Ip → Bool
loopback_of ip (some (b ∷ _)) = b == 127
loopback_of ip _ = ip_equal ip v6_loopback

unfoldable pub is_loopback : Ip → Bool
is_loopback ip = loopback_of ip (to4 ip)

unfoldable pub is_unspecified : Ip → Bool
is_unspecified ip = ip_equal ip (0 ∷ 0 ∷ 0 ∷ 0 ∷ []) || ip_equal ip v6_zero

abbrev pub multicast_of : Ip → Option Ip → Bool
multicast_of ip (some (b ∷ _)) = b / 16 == 14
multicast_of (b ∷ bs) _ = length (b ∷ bs) == 16 && b == 255
multicast_of [] _ = false

unfoldable pub is_multicast : Ip → Bool
is_multicast ip = multicast_of ip (to4 ip)

pub record Network : Type 0 where
  pub ip : Ip
  pub mask : Ip

-- Two bytes by bits, up to as many.
unfoldable pub bit_and : ℕ → ℕ → ℕ → ℕ
bit_and zero a b = 0
bit_and (suc bits) a b = a % 2 * (b % 2) + 2 * bit_and bits (a / 2) (b / 2)

unfoldable pub same_masked : Ip → Ip → Ip → Bool
same_masked (n ∷ ns) (m ∷ ms) (x ∷ xs) =
    let rest = same_masked ns ms xs in bit_and 8 n m == bit_and 8 x m && rest
same_masked [] ms [] = true
same_masked _ _ _ = false

abbrev pub or_self : Ip → Option Ip → Ip
or_self ip none = ip
or_self ip (some short) = short

abbrev pub mask_for : Ip → Ip → Option Ip
mask_for number mask =
    if length mask == 4
    then (if length number == 4 then some mask else none)
    else if length mask == 16
    then (if length number == 4 then some (drop 12 mask) else some mask)
    else none

abbrev pub contains_masked : Ip → Option Ip → Ip → Bool
contains_masked number none x = false
contains_masked number (some mask) x = same_masked number mask x

-- IPNet.Contains
unfoldable pub contains : Network → Ip → Bool
contains n ip =
    let number = or_self n.ip (to4 n.ip) in
    (length number == 4 || length number == 16)
    && contains_masked number (mask_for number n.mask) (or_self ip (to4 ip))

-- A network of the loop that holds the address.
abbrev pub links : Ip → Network → Bool
links remote n = not (is_loopback n.ip || is_unspecified n.ip) && contains n remote

unfoldable pub some_links : Ip → List Network → Bool
some_links remote [] = false
some_links remote (n ∷ ns) = let rest = some_links remote ns in links remote n || rest

unfoldable pub is_directly_on_link : Ip → List Network → Bool
is_directly_on_link remote networks =
    not (is_unspecified remote || is_multicast remote) && some_links remote networks
