-- ===== src/Proxy/Rules/Tests.antt =====
-- Runs of the rules, and a witness for each of their properties.
use packet_lab.Prelude.{
  ap, length, get_or, arith, ◌≡◌, ◌⊎◌, ◌↔◌, refl, true, false, none, List, [], ◌∷◌, ◌++◌, Bytes,
  bytes, eqb, to_lower, to_upper, has_prefix, has_suffix, index_of, trim_space, trim_by, drop_while,
  split_on, All,
}
use packet_lab.Models.{InterceptRule}
use packet_lab.Proxy.Rules.{
  Request, pass, act, method_listed, method_matches, wildcard_matches, path_matches, match_rule,
  handle_auto,
}
use packet_lab.Proxy.Rules.Match.{match_rule_iff}
use packet_lab.Proxy.Rules.Spec.{HostMatches, same, below, MethodMatches, TargetMatches}
use packet_lab.Proxy.Rules.First.{
  ActsAs, Applies, Skipped, no_match, first_rule_acts, handle_auto_decides,
}
use packet_lab.Proxy.Rules.Case.{match_rule-path_lower}

abbrev no_ads : InterceptRule
no_ads = record {
  id = 1;
  pattern = bytes "*.Ads.com";
  method = bytes "get, POST";
  action = bytes "block";
  enabled = true;
  created_at = 0;
}

abbrev api_only : InterceptRule
api_only = record no_ads { pattern = bytes "site.org/api"; method = []; action = bytes "allow" }

abbrev to_ads : Request
to_ads = record {
  method = bytes "GET";
  url = bytes "http://x.ads.com/a";
  host = bytes "x.ads.com";
  path = bytes "/a";
}

no_ads_matches : match_rule no_ads to_ads.method to_ads.host to_ads.path ≡ true
unfolding match_rule method_matches method_listed eqb to_lower to_upper trim_space trim_by
    drop_while split_on wildcard_matches has_prefix has_suffix
no_ads_matches = refl

api_only_skipped : match_rule api_only to_ads.method to_ads.host to_ads.path ≡ false
unfolding match_rule method_matches method_listed eqb to_lower to_upper trim_space trim_by
    drop_while split_on wildcard_matches has_prefix has_suffix path_matches index_of
api_only_skipped = refl

api_matches : match_rule api_only (bytes "GET") (bytes "Site.org") (bytes "/api/v1") ≡ true
unfolding match_rule method_matches method_listed eqb to_lower to_upper trim_space trim_by
    drop_while split_on wildcard_matches has_prefix has_suffix path_matches index_of
api_matches = refl

api_not_host : HostMatches (to_lower api_only.pattern) (to_lower (bytes "Site.org")) → ⊥
unfolding to_lower
api_not_host (same e) = let long : 12 ≡ 8 = ap length e in absurd (omega (arith, long))
api_not_host (below d n e f) =
    let first : 115 ≡ 42 = ap (λ s. get_or s 0 0) e in absurd (omega (arith, first))

match_rule_iff_example : (match_rule no_ads to_ads.method to_ads.host to_ads.path ≡ true) ↔ (
    MethodMatches no_ads.method to_ads.method
    × TargetMatches (to_lower no_ads.pattern) (to_lower to_ads.host) to_ads.path)
match_rule_iff_example = match_rule_iff no_ads to_ads.method to_ads.host to_ads.path

first_rule_acts_example : handle_auto (api_only ∷ no_ads ∷ []) to_ads ≡ act no_ads to_ads
first_rule_acts_example =
    first_rule_acts to_ads (api_only ∷ []) no_ads [] (no_match api_only_skipped, tt)
      (record { is_enabled = refl; matches = no_ads_matches })

handle_auto_decides_example :
    ((handle_auto (no_ads ∷ []) to_ads ≡ pass none) × All (Skipped to_ads) (no_ads ∷ []))
    ⊎ ((before : List InterceptRule) × (rule : InterceptRule) × (after : List InterceptRule)
        × (no_ads ∷ [] ≡ before ++ (rule ∷ after))
        × All (Skipped to_ads) before
        × Applies to_ads rule
        × ActsAs rule to_ads (handle_auto (no_ads ∷ []) to_ads))
handle_auto_decides_example = handle_auto_decides to_ads (no_ads ∷ [])

match_rule-path_lower_example :
    (site prefix rest : Bytes) × (to_lower api_only.pattern ≡ site ++ (b'/' ∷ prefix))
    × (to_lower prefix ≡ prefix)
    × (bytes "/api/v1" ≡ (b'/' ∷ prefix) ++ rest)
match_rule-path_lower_example =
    match_rule-path_lower api_only (bytes "GET") (bytes "Site.org") (bytes "/api/v1") api_matches
      api_not_host
