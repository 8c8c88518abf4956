-- ===== src/Proxy/Rules/Match.antt =====
-- That `matchRule` decides whether a rule matches a request.
use packet_lab.Prelude.{
  or_iff, and_iff, ℕ, ◌<◌, ◌≡◌, ◌≢◌, ◌↔◌, inl, inr, refl, sym, ap, ◌∙◌, Bool, true, false, not,
  ◌&&◌, ◌||◌, none, some, [], ◌∷◌, ◌++◌, arith, ltb, lt→ltb, ltb→lt, if◌then◌else◌, Option-cases,
  length, take, drop, All, Bytes, bytes, eqb, to_lower, has_prefix, index_of, has_prefix_iff,
  index_of_byte, index_of_skip, take-append-drop, take-length-append, drop-length-append,
  index_of-le, length-take,
}
use packet_lab.Models.{InterceptRule}
use packet_lab.Proxy.Rules.{method_matches, wildcard_matches, path_matches, match_rule}
use packet_lab.Proxy.Rules.Spec.{
  HostMatches, TargetMatches, any_path, some_paths, MethodMatches, method_matches_iff, host_iff,
}

path_sound :
    (pattern host path : Bytes) (idx : ℕ)
    → index_of (bytes "/") pattern ≡ some idx
    → path_matches pattern host path idx ≡ true
    → TargetMatches pattern host path
unfolding path_matches
path_sound pattern host path idx found h =
    let site = take idx pattern in
    let prefix = drop idx pattern in
    let (some_site, both) =
      (and_iff (ltb 0 idx)
          ((eqb site host || wildcard_matches site host) && has_prefix path prefix)).0
        h in
    let (at_host, at_path) =
      (and_iff (eqb site host || wildcard_matches site host) (has_prefix path prefix)).0 both in
    let (no_slash, (tail, cut)) = index_of_byte b'/' pattern idx found in
    let (rest, split) = (has_prefix_iff path prefix).0 at_path in
    some_paths site tail rest (sym (take-append-drop idx pattern) ∙ ap (λ q. site ++ q) cut)
      (λ e. omega (
        arith,
        ap length e,
        length-take idx pattern,
        ltb→lt 0 idx some_site,
        index_of-le (bytes "/") pattern idx found,
      ))
      no_slash ((host_iff site host).0 at_host) (split ∙ ap (λ q. q ++ rest) cut)

path_complete :
    (site prefix rest host : Bytes)
    → site ≢ []
    → All (λ b. b ≢ b'/') site
    → HostMatches site host
    → path_matches (site ++ (b'/' ∷ prefix)) host ((b'/' ∷ prefix) ++ rest) (length site) ≡ true
unfolding path_matches
path_complete site prefix rest host ne no_slash at_host =
    rw (take-length-append site (b'/' ∷ prefix), drop-length-append site (b'/' ∷ prefix))
      ((and_iff (ltb 0 (length site)) (
          (eqb site host || wildcard_matches site host)
          && has_prefix ((b'/' ∷ prefix) ++ rest) (b'/' ∷ prefix))).1
        (
          lt→ltb 0 (length site) (not_empty site ne),
          (and_iff (eqb site host || wildcard_matches site host)
                (has_prefix ((b'/' ∷ prefix) ++ rest) (b'/' ∷ prefix))).1
              (
                (host_iff site host).1 at_host,
                (has_prefix_iff ((b'/' ∷ prefix) ++ rest) (b'/' ∷ prefix)).1 (rest, refl),
              ),
        ))
  where
    not_empty : (s : Bytes) → s ≢ [] → 0 < length s
    not_empty [] h = absurd (h refl)
    not_empty (b ∷ s) h = omega arith

-- the branches of `matchRule`, as one test
path_part : Bytes → Bytes → Bytes → Bool
path_part pattern host path = elim (index_of (bytes "/") pattern) [
  | some idx ↦ path_matches pattern host path idx
  | none ↦ false
]

target_part : Bytes → Bytes → Bytes → Bool
target_part pattern host path =
    (eqb pattern host || wildcard_matches pattern host) || path_part pattern host path

branches :
    (m e w p : Bool)
    → (if not m then false else if e then true else if w then true else p) ≡ (m && ((e || w) || p))
branches false e w p = refl
branches true true w p = refl
branches true false true p = refl
branches true false false p = refl

match_rule_split :
    (rule : InterceptRule) (method host path : Bytes)
    → match_rule rule method host path ≡ (
        method_matches rule.method method
        && target_part (to_lower rule.pattern) (to_lower host) path)
unfolding match_rule target_part path_part
match_rule_split rule method host path =
    let pattern = to_lower rule.pattern in
    branches (method_matches rule.method method) (eqb pattern (to_lower host))
      (wildcard_matches pattern (to_lower host)) (path_part pattern (to_lower host) path)

path_part_at :
    (pattern host path : Bytes) (idx : ℕ)
    → index_of (bytes "/") pattern ≡ some idx
    → path_part pattern host path ≡ path_matches pattern host path idx
unfolding path_part
path_part_at pattern host path idx e = rw (path_part, e)

path_part-none :
    (pattern host path : Bytes)
    → index_of (bytes "/") pattern ≡ none
    → path_part pattern host path ≡ false
unfolding path_part
path_part-none pattern host path e = rw (path_part, e)

path_part_sound :
    (pattern host path : Bytes)
    → (path_part pattern host path ≡ true)
    → TargetMatches pattern host path
path_part_sound pattern host path h = elim (Option-cases (index_of (bytes "/") pattern)) [
  | inl e ↦ let contra : false ≡ true = sym (path_part-none pattern host path e) ∙ h in cc
  | inr (idx, e) ↦
      path_sound pattern host path idx e (sym (path_part_at pattern host path idx e) ∙ h)
]

from_parts :
    (site prefix rest host : Bytes)
    → site ≢ []
    → All (λ b. b ≢ b'/') site
    → HostMatches site host
    → path_part (site ++ (b'/' ∷ prefix)) host ((b'/' ∷ prefix) ++ rest) ≡ true
from_parts site prefix rest host ne no_slash m =
    path_part_at (site ++ (b'/' ∷ prefix)) host ((b'/' ∷ prefix) ++ rest) (length site)
      (index_of_skip b'/' [] site prefix no_slash)
    ∙ path_complete site prefix rest host ne no_slash m

target_iff :
    (pattern host path : Bytes)
    → (target_part pattern host path ≡ true) ↔ TargetMatches pattern host path
unfolding target_part
target_iff pattern host path =
    let split =
      or_iff (eqb pattern host || wildcard_matches pattern host) (path_part pattern host path) in
    let hosts = host_iff pattern host in
    (
      λ h. elim (split.0 h) [
        | inl e ↦ any_path (hosts.0 e)
        | inr e ↦ path_part_sound pattern host path e
      ],
      λ h. split.1 (elim h [
        | any_path m ↦ inl (hosts.1 m)
        | some_paths site prefix rest p ne no_slash m q ↦
            inr (rw (p, q) (from_parts site prefix rest host ne no_slash m))
      ]),
    )

-- `matchRule` says yes exactly if the method is one that the rule lists, or the rule lists none, and
-- the pattern in lower case is the host's, a wildcard above the host, or one of these two with a
-- path that is a prefix of the request's.
pub match_rule_iff :
    (rule : InterceptRule) (method host path : Bytes)
    → (match_rule rule method host path ≡ true) ↔ (
        MethodMatches rule.method method
        × TargetMatches (to_lower rule.pattern) (to_lower host) path)
match_rule_iff rule method host path =
    let split =
      and_iff (method_matches rule.method method)
        (target_part (to_lower rule.pattern) (to_lower host) path) in
    let methods = method_matches_iff rule.method method in
    let targets = target_iff (to_lower rule.pattern) (to_lower host) path in
    let eq = match_rule_split rule method host path in
    (
      λ h. let (m, t) = split.0 (sym eq ∙ h) in (methods.0 m, targets.0 t),
      λ (m, t). eq ∙ split.1 (methods.1 m, targets.1 t),
    )
