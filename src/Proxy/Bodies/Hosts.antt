-- ===== src/Proxy/Bodies/Hosts.antt =====
-- `shouldMITM` goes by the end of the host.
use packet_lab.Prelude.{
  ◌≡◌, ◌↔◌, refl, true, false, ◌||◌, List, [], ◌∷◌, ◌++◌, Bytes, eqb, eqb_iff, has_suffix,
  has_suffix_iff, arith, Bool-cases, or_iff, inl, inr, Any,
}
use packet_lab.Llm.Endpoints.{SplitHostPort, without_port}
use packet_lab.Proxy.Bodies.{skip_suffixes, none_ends, should_mitm}

none_ends_iff :
    (host : Bytes) (ss : List Bytes)
    → (none_ends host ss ≡ false) ↔ Any (λ s. (t : Bytes) × (host ≡ t ++ s)) ss
unfolding none_ends
none_ends_iff host [] = (λ h. cc, λ x. absurd x)
none_ends_iff host (s ∷ ss) = elim (Bool-cases (eqb host s || has_suffix host s)) [
  | inl ends ↦ rw (ends) (λ _. inl (cut ends), λ _. refl)
  | inr other ↦
      let later = none_ends_iff host ss in
      rw (other) (
        λ h. inr (later.0 h),
        λ x. elim x [
          | inl (t, e) ↦
              let wrong = (has_suffix_iff host s).1 (t, e) in ground (arith, wrong, other)
          | inr y ↦ later.1 y
        ],
      )
]
  where
    cut : (eqb host s || has_suffix host s) ≡ true → (t : Bytes) × (host ≡ t ++ s)
    cut h = elim ((or_iff (eqb host s) (has_suffix host s)).0 h) [
      | inl same ↦ ([], (eqb_iff host s).0 same)
      | inr ends ↦ (has_suffix_iff host s).0 ends
    ]

-- `shouldMITM` says no exactly if the host without its port ends with one of the names that it skips.
pub should_mitm_iff :
    (split : SplitHostPort) (raw_host : Bytes)
    → (should_mitm split raw_host ≡ false)
      ↔ Any (λ s. (t : Bytes) × (without_port split raw_host ≡ t ++ s)) skip_suffixes
unfolding should_mitm
should_mitm_iff split raw_host = none_ends_iff (without_port split raw_host) skip_suffixes
