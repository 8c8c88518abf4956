-- ===== src/Llm/Endpoints/Matching.antt =====
-- What it means that a host matches a pattern, and that `hostMatches` decides it.
use packet_lab.Prelude.{
  ◌≡◌, ◌↔◌, inl, inr, refl, sym, ◌∙◌, Bool, true, false, ◌||◌, or_iff, ◌++◌, if◌then◌else◌, Bytes,
  bytes, eqb, eqb_iff, to_lower, has_suffix, has_suffix_iff,
}
use packet_lab.Llm.Endpoints.{SplitHostPort, without_port, host_matches}

-- the host without its port is the pattern's, or one below it
pub data InDomain (host pattern : Bytes) : Type 0 where
  same : host ≡ pattern → InDomain host pattern
  below : (name : Bytes) → host ≡ name ++ (bytes "." ++ pattern) → InDomain host pattern

if_or : (a b : Bool) → (if a then true else b) ≡ (a || b)
if_or true b = refl
if_or false b = refl

-- `hostMatches` says yes exactly if the host in lower case and without its port is the pattern in lower
-- case, or ends with it behind a dot.
pub host_matches_iff :
    (split : SplitHostPort) (host pattern : Bytes)
    → (host_matches split host pattern ≡ true)
      ↔ InDomain (without_port split (to_lower host)) (to_lower pattern)
unfolding host_matches
host_matches_iff split host pattern =
    let h = without_port split (to_lower host) in
    let p = to_lower pattern in
    let either = or_iff (eqb h p) (has_suffix h (bytes "." ++ p)) in
    let exact = eqb_iff h p in
    let ends = has_suffix_iff h (bytes "." ++ p) in
    let eq = if_or (eqb h p) (has_suffix h (bytes "." ++ p)) in
    (
      λ m. elim (either.0 (sym eq ∙ m)) [
        | inl e ↦ same (exact.0 e)
        | inr e ↦ let (name, cut) = ends.0 e in below name cut
      ],
      λ d.
          eq
          ∙ either.1
              (elim d [ same e ↦ inl (exact.1 e) | below name cut ↦ inr (ends.1 (name, cut)) ]),
    )
