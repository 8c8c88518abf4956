-- ===== src/Api/Addresses/Guards.antt =====
-- What the dial of a resent request connects to.
use packet_lab.Prelude.{
  ◌≡◌, refl, Bool, true, false, Option, none, some, List, [], ◌∷◌, Bytes, All, if◌then◌else◌,
  Option-cases, inl, inr, arith,
}
use packet_lab.Api.Addresses.{
  blocked_ip, Net, Resolved, allowed, blocked, unresolved, any_blocked, first_allowed,
  resolve_allowed_ip, Dialled, to_ip, as_given, not_split, refused, dial_resolved,
  resend_dial_context,
}

abbrev IsOpen : Bytes → Type 0
IsOpen ip = blocked_ip ip ≡ false

-- an address that stands for itself, or the first of a host none of whose addresses is blocked
pub data Comes (net : Net) (host ip : Bytes) : Type 0 where
  literally : net.parse_ip host ≡ some ip → IsOpen ip → Comes net host ip
  first_of :
      (ips : List Bytes)
      → net.lookup_ip_addr host ≡ some (ip ∷ ips)
      → All IsOpen (ip ∷ ips)
      → Comes net host ip

abbrev ResolvesTo : Net → Bytes → Resolved → Type 0
ResolvesTo net host (allowed ip) = Comes net host ip
ResolvesTo net host blocked = Unit
ResolvesTo net host (unresolved name) = Unit

-- what a dial may connect to, when the target is not trusted
abbrev pub IsSafe : Net → Bytes → Dialled → Type 0
IsSafe net addr (to_ip ip port) =
    (host : Bytes) × (net.split_host_port addr ≡ some (host, port)) × Comes net host ip
IsSafe net addr (as_given given) = ⊥
IsSafe net addr not_split = Unit
IsSafe net addr (refused r) = Unit

any_blocked-All : (ips : List Bytes) → any_blocked ips ≡ false → All IsOpen ips
unfolding any_blocked
any_blocked-All [] h = tt
any_blocked-All (ip ∷ ips) h = (ground arith, any_blocked-All ips (ground arith))

resolved : (net : Net) (host : Bytes) → ResolvesTo net host (resolve_allowed_ip net host)
unfolding resolve_allowed_ip
resolved net host = elim (Option-cases (net.parse_ip host)) [
  | inr (ip, e) ↦ rw (resolve_allowed_ip, e) (literal ip e (blocked_ip ip) refl)
  | inl e ↦ rw (resolve_allowed_ip, e) (looked_up (net.lookup_ip_addr host) refl)
]
  where
    literal :
        (ip : Bytes)
        → net.parse_ip host ≡ some ip
        → (b : Bool) → blocked_ip ip ≡ b
        → ResolvesTo net host (if b then blocked else allowed ip)
    literal ip e true h = tt
    literal ip e false h = literally e h

    among :
        (ip : Bytes) (ips : List Bytes)
        → net.lookup_ip_addr host ≡ some (ip ∷ ips)
        → (b : Bool) → any_blocked (ip ∷ ips) ≡ b
        → ResolvesTo net host (if b then blocked else allowed ip)
    among ip ips e true h = tt
    among ip ips e false h = first_of ips e (any_blocked-All (ip ∷ ips) h)

    looked_up :
        (o : Option (List Bytes))
        → net.lookup_ip_addr host ≡ o
        → ResolvesTo net host (first_allowed host o)
    looked_up none e = tt
    looked_up (some []) e = tt
    looked_up (some (ip ∷ ips)) e = among ip ips e (any_blocked (ip ∷ ips)) refl

-- Without trust a dial connects only to an address that is not blocked: that of the host if it is an
-- address, or else the first of the host's addresses, none of which is blocked.
pub resend_dial_context-IsSafe :
    (net : Net) (addr : Bytes) → IsSafe net addr (resend_dial_context net false addr)
unfolding resend_dial_context
resend_dial_context-IsSafe net addr = split (net.split_host_port addr) refl
  where
    ended :
        (host port : Bytes)
        → net.split_host_port addr ≡ some (host, port)
        → (r : Resolved) → ResolvesTo net host r
        → IsSafe net addr (dial_resolved port r)
    ended host port e (allowed ip) h = (host, e, h)
    ended host port e blocked h = tt
    ended host port e (unresolved name) h = tt

    split :
        (o : Option (Bytes × Bytes))
        → net.split_host_port addr ≡ o
        → IsSafe net addr (elim o [
          | none ↦ not_split
          | some (host, port) ↦ dial_resolved port (resolve_allowed_ip net host)
        ])
    split none e = tt
    split (some (host, port)) e =
        ended host port e (resolve_allowed_ip net host) (resolved net host)
