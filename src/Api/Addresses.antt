-- ===== src/Api/Addresses.antt =====
-- internal/api/service.go: which addresses a request may be sent to again. An address is a net.IP, a
-- list of 4 or 16 bytes and empty for nil; the masks of package net are divisions here, as a byte is
-- below 256. net.ParseIP, the resolver and net.SplitHostPort are parameters.
mod Blocks
mod Refused
mod Guards
mod Tests
use packet_lab.Prelude.{
  ℕ, zero, suc, ◌/◌, ◌%◌, Bool, true, false, not, ◌&&◌, ◌||◌, Option, none, some, List, [], ◌∷◌,
  ◌++◌, ◌==◌, if◌then◌else◌, length, drop, get_or, Bytes, bytes, eqb, has_prefix, replicate,
}

-- the bytes in front of an IPv4 address that is written as an IPv6 address
abbrev pub mapped_prefix : Bytes
mapped_prefix = 0 ∷ 0 ∷ 0 ∷ 0 ∷ 0 ∷ 0 ∷ 0 ∷ 0 ∷ 0 ∷ 0 ∷ 255 ∷ 255 ∷ []

-- net.IP.To4
unfoldable pub to4 : Bytes → Option Bytes
to4 ip =
    if length ip == 4
    then some ip
    else if (length ip == 16) && has_prefix ip mapped_prefix
    then some (drop 12 ip)
    else none

abbrev pub is_v6 : Bytes → Bool
is_v6 ip = length ip == 16

-- the tests of net.IP that the code calls, on the address that `To4` returns or else on the whole
abbrev pub is_loopback : Option Bytes → Bytes → Bool
is_loopback (some ip4) ip = get_or ip4 0 0 == 127
is_loopback none ip = eqb ip (replicate 15 0 ++ (1 ∷ []))

abbrev pub is_link_local_unicast : Option Bytes → Bytes → Bool
is_link_local_unicast (some ip4) ip = (get_or ip4 0 0 == 169) && (get_or ip4 1 0 == 254)
is_link_local_unicast none ip = is_v6 ip && ((get_or ip 0 0 == 254) && (get_or ip 1 0 / 64 == 2))

abbrev pub is_link_local_multicast : Option Bytes → Bytes → Bool
is_link_local_multicast (some ip4) ip =
    (get_or ip4 0 0 == 224) && ((get_or ip4 1 0 == 0) && (get_or ip4 2 0 == 0))
is_link_local_multicast none ip = is_v6 ip && ((get_or ip 0 0 == 255) && (get_or ip 1 0 % 16 == 2))

abbrev pub is_multicast : Option Bytes → Bytes → Bool
is_multicast (some ip4) ip = get_or ip4 0 0 / 16 == 14
is_multicast none ip = is_v6 ip && (get_or ip 0 0 == 255)

abbrev pub is_unspecified : Option Bytes → Bytes → Bool
is_unspecified (some ip4) ip = eqb ip4 (replicate 4 0)
is_unspecified none ip = eqb ip (replicate 16 0)

abbrev pub is_private : Option Bytes → Bytes → Bool
is_private (some ip4) ip =
    (get_or ip4 0 0 == 10)
    || (((get_or ip4 0 0 == 172) && (get_or ip4 1 0 / 16 == 1))
        || ((get_or ip4 0 0 == 192) && (get_or ip4 1 0 == 168)))
is_private none ip = is_v6 ip && (get_or ip 0 0 / 2 == 126)

-- 100.64.0.0/10
abbrev pub is_carrier : Option Bytes → Bool
is_carrier (some ip4) = (get_or ip4 0 0 == 100) && (get_or ip4 1 0 / 64 == 1)
is_carrier none = false

abbrev pub is_reserved : Option Bytes → Bytes → Bool
is_reserved ip4 ip =
    is_loopback ip4 ip
    || (is_link_local_unicast ip4 ip
        || (is_link_local_multicast ip4 ip
            || (is_multicast ip4 ip || (is_unspecified ip4 ip || is_private ip4 ip))))

-- `blockedIP`
unfoldable pub blocked_ip : Bytes → Bool
blocked_ip [] = true
blocked_ip (b ∷ ip) =
    let ip4 = to4 (b ∷ ip) in if is_reserved ip4 (b ∷ ip) then true else is_carrier ip4

-- what the code uses of package net; `none` is an error, or no address
pub record Net : Type 0 where
  pub parse_ip : Bytes → Option Bytes
  pub lookup_ip_addr : Bytes → Option (List Bytes)
  pub split_host_port : Bytes → Option (Bytes × Bytes)

-- what `resolveAllowedIP` returns
pub data Resolved : Type 0 where
  allowed : Bytes → Resolved
  blocked : Resolved
  unresolved : Bytes → Resolved

-- the loop over the addresses of a host
unfoldable pub any_blocked : List Bytes → Bool
any_blocked [] = false
any_blocked (ip ∷ ips) = blocked_ip ip || any_blocked ips

abbrev pub first_allowed : Bytes → Option (List Bytes) → Resolved
first_allowed host none = unresolved host
first_allowed host (some []) = unresolved host
first_allowed host (some (ip ∷ ips)) = if any_blocked (ip ∷ ips) then blocked else allowed ip

-- `resolveAllowedIP`
unfoldable pub resolve_allowed_ip : Net → Bytes → Resolved
resolve_allowed_ip net host = elim (net.parse_ip host) [
  | some ip ↦ if blocked_ip ip then blocked else allowed ip
  | none ↦ first_allowed host (net.lookup_ip_addr host)
]

-- what the function that `resendDialContext` returns does: it connects to a checked address or to one
-- as it was given, or it returns an error
pub data Dialled : Type 0 where
  to_ip : Bytes → Bytes → Dialled
  as_given : Bytes → Dialled
  not_split : Dialled
  refused : Resolved → Dialled

abbrev pub dial_resolved : Bytes → Resolved → Dialled
dial_resolved port (allowed ip) = to_ip ip port
dial_resolved port blocked = refused blocked
dial_resolved port (unresolved host) = refused (unresolved host)

-- `resendDialContext`
unfoldable pub resend_dial_context : Net → Bool → Bytes → Dialled
resend_dial_context net trusted addr = elim (net.split_host_port addr) [
  | none ↦ not_split
  | some (host, port) ↦
      if not trusted then dial_resolved port (resolve_allowed_ip net host) else as_given addr
]

-- the errors of `checkResendTarget`
pub data TargetError : Type 0 where
  missing_host : TargetError
  is_private_address : Bytes → TargetError
  resolves_to_private : Bytes → TargetError
  cannot_resolve : Bytes → TargetError

abbrev pub target_error : Net → Bytes → Resolved → Option TargetError
target_error net host (allowed ip) = none
target_error net host blocked = elim (net.parse_ip host) [
  | some ip ↦ some (is_private_address host)
  | none ↦ some (resolves_to_private host)
]
target_error net host (unresolved name) = some (cannot_resolve name)

-- `checkResendTarget`, from the host name of the address
unfoldable pub check_resend_target : Net → Bytes → Bool → Option TargetError
check_resend_target net host trusted =
    if trusted
    then none
    else if eqb host []
    then some missing_host
    else target_error net host (resolve_allowed_ip net host)
