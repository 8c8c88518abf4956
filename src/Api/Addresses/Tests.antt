-- ===== src/Api/Addresses/Tests.antt =====
-- Addresses that are refused or not, and a witness for each property.
use packet_lab.Prelude.{
  ◌≡◌, refl, true, false, none, some, [], ◌∷◌, ◌++◌, Bytes, bytes, arith, inl, has_prefix, eqb,
}
use packet_lab.Api.Addresses.{
  mapped_prefix, to4, blocked_ip, Net, resend_dial_context, resolve_allowed_ip, any_blocked,
  refused, blocked, check_resend_target, resolves_to_private,
}
use packet_lab.Api.Addresses.Blocks.{is_refused}
use packet_lab.Api.Addresses.Refused.{blocked_ip-is_refused}
use packet_lab.Api.Addresses.Guards.{IsSafe, resend_dial_context-IsSafe}

abbrev home : Bytes
home = 192 ∷ 168 ∷ 1 ∷ 7 ∷ []

abbrev far : Bytes
far = 8 ∷ 8 ∷ 4 ∷ 4 ∷ []

-- a resolver that knows one host, with a public and a private address
abbrev net : Net
net = record {
  parse_ip = λ host. none;
  lookup_ip_addr = λ host. some (far ∷ home ∷ []);
  split_host_port = λ addr. some (bytes "a.io", bytes "80");
}

refused_home : blocked_ip (mapped_prefix ++ home) ≡ true
unfolding blocked_ip to4 has_prefix eqb
refused_home = refl

rebound : resend_dial_context net false (bytes "a.io:80") ≡ refused blocked
unfolding resend_dial_context resolve_allowed_ip any_blocked blocked_ip to4 has_prefix eqb
rebound = refl

rebound_check :
    check_resend_target net (bytes "a.io") false ≡ some (resolves_to_private (bytes "a.io"))
unfolding check_resend_target resolve_allowed_ip any_blocked blocked_ip to4 has_prefix eqb
rebound_check = refl

blocked_ip-is_refused_example : blocked_ip home ≡ is_refused home
blocked_ip-is_refused_example =
    blocked_ip-is_refused home (inl refl)
      (omega arith, (omega arith, (omega arith, (omega arith, tt))))

-- the same without the private address
abbrev open_net : Net
open_net = record net { lookup_ip_addr = λ host. some (far ∷ []) }

resend_dial_context-IsSafe_example :
    IsSafe open_net (bytes "a.io:80") (resend_dial_context open_net false (bytes "a.io:80"))
resend_dial_context-IsSafe_example = resend_dial_context-IsSafe open_net (bytes "a.io:80")
