-- ===== src/Proxy/Rules/Case.antt =====
-- The case of letters in a rule: the pattern is put in lower case as a whole, the path of a request
-- is not.
use packet_lab.Prelude.{
  ◌≡◌, refl, subst, true, [], ◌∷◌, ◌++◌, arith, All, Bytes, to_lower, lower_byte,
}
use packet_lab.Models.{InterceptRule}
use packet_lab.Proxy.Rules.{match_rule}
use packet_lab.Proxy.Rules.Match.{match_rule_iff}
use packet_lab.Proxy.Rules.Spec.{HostMatches, any_path, some_paths}

IsLower : Bytes → Type 0
IsLower = All (λ b. lower_byte b ≡ b)

to_lower-IsLower : (s : Bytes) → IsLower (to_lower s)
unfolding to_lower IsLower
to_lower-IsLower [] = tt
to_lower-IsLower (b ∷ s) = (ground arith, to_lower-IsLower s)

behind : (s t : Bytes) → IsLower (s ++ t) → IsLower t
unfolding IsLower
behind [] t h = h
behind (b ∷ s) t h = behind s t h.1

to_lower_same : (s : Bytes) → IsLower s → to_lower s ≡ s
unfolding to_lower IsLower
to_lower_same [] h = refl
to_lower_same (b ∷ s) h = cc (h.0, to_lower_same s h.1)

-- A rule whose pattern has a path, and that matches though its whole pattern is no match for the
-- host, matches by a path prefix that is in lower case, and the path of the request starts with
-- these very bytes.
pub match_rule-path_lower :
    (rule : InterceptRule) (method host path : Bytes)
    → match_rule rule method host path ≡ true
    → (HostMatches (to_lower rule.pattern) (to_lower host) → ⊥)
    → (site prefix rest : Bytes) × (to_lower rule.pattern ≡ site ++ (b'/' ∷ prefix))
      × (to_lower prefix ≡ prefix)
      × (path ≡ (b'/' ∷ prefix) ++ rest)
match_rule-path_lower rule method host path h not_host =
    elim ((match_rule_iff rule method host path).0 h).1 [
      | any_path m ↦ absurd (not_host m)
      | some_paths site prefix rest p ne no_slash m q ↦
          let lower =
            behind site (b'/' ∷ prefix) (subst IsLower p (to_lower-IsLower rule.pattern)) in
          (site, prefix, rest, p, to_lower_same prefix (behind (b'/' ∷ []) prefix lower), q)
    ]
