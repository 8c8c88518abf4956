-- ===== src/Llm/Endpoints/Tests.antt =====
-- Runs of the registry.
use packet_lab.Prelude.{
  ◌≡◌, refl, true, false, none, [], ◌∷◌, bytes, eqb, to_lower, has_prefix, has_suffix,
}
use packet_lab.Llm.Endpoints.{
  CustomEndpoint, put, register, unregister, SplitHostPort, host_matches, accepts,
}

abbrev no_port : SplitHostPort
no_port host = none

abbrev seek : CustomEndpoint
seek = record { host = bytes "api.Seek.com"; path = bytes "/v1/"; name = bytes "Seek" }

abbrev seek_again : CustomEndpoint
seek_again = record seek { host = bytes "API.seek.com"; name = [] }

replaced : register seek_again (seek ∷ []) ≡ seek_again ∷ []
unfolding register put eqb to_lower
replaced = refl

seek-accepts :
    accepts no_port (to_lower (bytes "x.api.seek.com")) (to_lower (bytes "/V1/chat")) seek ≡ true
unfolding accepts host_matches eqb to_lower has_prefix has_suffix
seek-accepts = refl

has_host : eqb seek.host [] ≡ false
unfolding eqb
has_host = refl

-- registering takes these two for the same, removing does not
kept : unregister (bytes "api.seek.com") (bytes "/v1/") (seek ∷ []) ≡ seek ∷ []
unfolding unregister eqb
kept = refl
