-- ===== src/Proxy/Rules/Spec.antt =====
-- What it means that a rule matches a request, said without the code's tests, for its method and for
-- its host.
use packet_lab.Prelude.{
  or_iff, and_iff, ◌≡◌, ◌≢◌, ◌↔◌, inl, inr, sym, ap, ◌∙◌, Bool, true, false, ◌||◌, List, [], ◌∷◌,
  ◌++◌, if◌then◌else◌, Bool-cases, drop, All, Any, Bytes, bytes, eqb, eqb_iff, to_upper, has_prefix,
  has_suffix, trim_space, split_on, has_prefix_iff, has_suffix_iff,
}
use packet_lab.Proxy.Rules.{method_listed, method_matches, wildcard_matches}

-- the host is the pattern's, or lies in the domain of a pattern `*.domain`
pub data HostMatches (pattern host : Bytes) : Type 0 where
  same : pattern ≡ host → HostMatches pattern host
  below :
      (domain name : Bytes)
      → pattern ≡ bytes "*." ++ domain
      → host ≡ name ++ (bytes "." ++ domain)
      → HostMatches pattern host

-- the whole pattern is for hosts, or it is for hosts and for the paths with a prefix
pub data TargetMatches (pattern host path : Bytes) : Type 0 where
  any_path : HostMatches pattern host → TargetMatches pattern host path
  some_paths :
      (site prefix rest : Bytes)
      → pattern ≡ site ++ (b'/' ∷ prefix)
      → site ≢ []
      → All (λ b. b ≢ b'/') site
      → HostMatches site host
      → path ≡ (b'/' ∷ prefix) ++ rest
      → TargetMatches pattern host path

-- the rule names no method, or one that is the request's but for case and white space
pub data MethodMatches (rule_method method : Bytes) : Type 0 where
  any_method : rule_method ≡ [] → MethodMatches rule_method method
  listed :
      Any (λ rm. to_upper (trim_space rm) ≡ to_upper method) (split_on b',' rule_method)
      → MethodMatches rule_method method

method_listed_iff :
    (rms : List Bytes) (m : Bytes)
    → (method_listed rms m ≡ true) ↔ Any (λ rm. to_upper (trim_space rm) ≡ m) rms
unfolding method_listed
method_listed_iff [] m = (λ h. cc, λ h. absurd h)
method_listed_iff (rm ∷ rms) m =
    let here = eqb_iff (to_upper (trim_space rm)) m in
    let later = method_listed_iff rms m in
    let split = or_iff (eqb (to_upper (trim_space rm)) m) (method_listed rms m) in
    (
      λ h. elim (split.0 h) [ inl e ↦ inl (here.0 e) | inr e ↦ inr (later.0 e) ],
      λ h. split.1 (elim h [ inl e ↦ inl (here.1 e) | inr e ↦ inr (later.1 e) ]),
    )

pub method_matches_iff : (rm m : Bytes) → (method_matches rm m ≡ true) ↔ MethodMatches rm m
unfolding method_matches
method_matches_iff rm m =
    let empty = eqb_iff rm [] in
    let list = method_listed_iff (split_on b',' rm) (to_upper m) in
    elim (Bool-cases (eqb rm [])) [
      | inl e ↦ (λ h. any_method (empty.0 e), λ h. rw e)
      | inr e ↦ (
        λ h. listed (
            list.0 (
              sym (ap (λ b. if b then true else method_listed (split_on b',' rm) (to_upper m)) e)
              ∙ h)),
        λ h. rw (e) (elim h [ any_method z ↦ absurd (contra e (empty.1 z)) | listed l ↦ list.1 l ]),
      )
    ]
  where
    contra : {b : Bool} → b ≡ false → b ≡ true → ⊥
    contra e f = cc

wildcard_iff :
    (pattern host : Bytes)
    → (wildcard_matches pattern host ≡ true) ↔ (
        (domain : Bytes) × (name : Bytes) × (pattern ≡ bytes "*." ++ domain)
        × (host ≡ name ++ (bytes "." ++ domain)))
unfolding wildcard_matches
wildcard_iff pattern host =
    let split = and_iff (has_prefix pattern (bytes "*.")) (has_suffix host (drop 1 pattern)) in
    let starts = has_prefix_iff pattern (bytes "*.") in
    let ends = has_suffix_iff host (drop 1 pattern) in
    (
      λ h.
          let (p, s) = split.0 h in
          let (domain, e) = starts.0 p in
          let (name, f) = ends.0 s in (domain, name, e, f ∙ ap (λ q. name ++ drop 1 q) e),
      λ (domain, name, e, f).
          split.1 (starts.1 (domain, e), ends.1 (name, f ∙ ap (λ q. name ++ drop 1 q) (sym e))),
    )

pub host_iff :
    (pattern host : Bytes)
    → ((eqb pattern host || wildcard_matches pattern host) ≡ true) ↔ HostMatches pattern host
host_iff pattern host =
    let split = or_iff (eqb pattern host) (wildcard_matches pattern host) in
    let exact = eqb_iff pattern host in
    let wild = wildcard_iff pattern host in
    (
      λ h. elim (split.0 h) [
        | inl e ↦ same (exact.0 e)
        | inr e ↦ let (d, n, p, q) = wild.0 e in below d n p q
      ],
      λ h.
          split.1 (elim h [ same e ↦ inl (exact.1 e) | below d n p q ↦ inr (wild.1 (d, n, p, q)) ]),
    )
