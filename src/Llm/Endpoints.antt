-- ===== src/Llm/Endpoints.antt =====
-- internal/llm/custom_endpoints.go: the registry of endpoints that the user adds.
mod Matching
mod Registry
mod Tests
use packet_lab.Prelude.{
  Bool, true, false, ◌&&◌, ◌||◌, Option, none, some, List, [], ◌∷◌, ◌++◌, if◌then◌else◌, Bytes,
  bytes, eqb, to_lower, has_prefix, has_suffix,
}

-- `CustomEndpoint`
pub record CustomEndpoint : Type 0 where
  pub host : Bytes
  pub path : Bytes
  pub name : Bytes

-- strings.EqualFold, on ASCII
abbrev pub equal_fold : Bytes → Bytes → Bool
equal_fold a b = eqb (to_lower a) (to_lower b)

-- the test for an endpoint that is there already
abbrev pub same_endpoint : CustomEndpoint → CustomEndpoint → Bool
same_endpoint old ep = equal_fold old.host ep.host && eqb old.path ep.path

-- the loop of `RegisterCustomEndpoint`
unfoldable pub put : CustomEndpoint → List CustomEndpoint → List CustomEndpoint
put ep [] = ep ∷ []
put ep (old ∷ eps) = let rest = put ep eps in if same_endpoint old ep then ep ∷ eps else old ∷ rest

-- `RegisterCustomEndpoint`
unfoldable pub register : CustomEndpoint → List CustomEndpoint → List CustomEndpoint
register ep eps = if eqb ep.host [] then eps else put ep eps

-- `UnregisterCustomEndpoint`
unfoldable pub unregister : Bytes → Bytes → List CustomEndpoint → List CustomEndpoint
unregister host path [] = []
unregister host path (old ∷ eps) =
    let rest = unregister host path eps in
    if eqb old.host host && eqb old.path path then eps else old ∷ rest

-- net.SplitHostPort, of which the code uses the host
abbrev pub SplitHostPort : Type 0
SplitHostPort = Bytes → Option Bytes

abbrev pub without_port : SplitHostPort → Bytes → Bytes
without_port split host = elim (split host) [ none ↦ host | some h ↦ h ]

-- `hostMatches`
unfoldable pub host_matches : SplitHostPort → Bytes → Bytes → Bool
host_matches split host0 pattern0 =
    let host = without_port split (to_lower host0) in
    let pattern = to_lower pattern0 in
    if eqb host pattern then true else has_suffix host (bytes "." ++ pattern)

-- one round of `matchCustomEndpoint`
unfoldable pub accepts : SplitHostPort → Bytes → Bytes → CustomEndpoint → Bool
accepts split host path ep =
    host_matches split host (to_lower ep.host)
    && (eqb ep.path [] || has_prefix path (to_lower ep.path))

unfoldable pub first_accepting :
    SplitHostPort → Bytes → Bytes → List CustomEndpoint → Option CustomEndpoint
first_accepting split host path [] = none
first_accepting split host path (ep ∷ eps) =
    let later = first_accepting split host path eps in
    if accepts split host path ep then some ep else later

-- `matchCustomEndpoint`
unfoldable pub match_custom_endpoint :
    SplitHostPort → Bytes → Bytes → List CustomEndpoint → Option CustomEndpoint
match_custom_endpoint split host path eps =
    first_accepting split (to_lower host) (to_lower path) eps
