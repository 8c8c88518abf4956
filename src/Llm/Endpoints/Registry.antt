-- ===== src/Llm/Endpoints/Registry.antt =====
-- What registering and removing an endpoint do to the registry.
use packet_lab.Prelude.{
  ◌≡◌, inl, inr, refl, sym, ap, ◌∙◌, Bool, true, false, ◌&&◌, and_iff, is_some, List, [], ◌∷◌,
  if◌then◌else◌, Bool-cases, All, Bytes, eqb, eqb_iff, to_lower,
}
use packet_lab.Llm.Endpoints.{
  CustomEndpoint, equal_fold, same_endpoint, put, register, SplitHostPort, accepts, first_accepting,
  match_custom_endpoint,
}

-- no two endpoints have the same path and, but for case, the same host
abbrev pub Distinct : List CustomEndpoint → Type 0
Distinct [] = Unit
Distinct (ep ∷ eps) = All (λ other. same_endpoint ep other ≡ false) eps × Distinct eps

-- endpoints that are the same as one are the same as each other
same_trans :
    (a b c : CustomEndpoint) → same_endpoint a b ≡ true → same_endpoint a c ≡ same_endpoint b c
same_trans a b c h =
    let (hosts, paths) = (and_iff (equal_fold a.host b.host) (eqb a.path b.path)).0 h in
    let host_eq = (eqb_iff (to_lower a.host) (to_lower b.host)).0 hosts in
    let path_eq = (eqb_iff a.path b.path).0 paths in
    ap (λ x. eqb x (to_lower c.host) && eqb a.path c.path) host_eq
    ∙ ap (λ x. equal_fold b.host c.host && eqb x c.path) path_eq

put-All :
    (ep : CustomEndpoint) (P : CustomEndpoint → Type 0) (eps : List CustomEndpoint)
    → P ep
    → All P eps
    → All P (put ep eps)
unfolding put
put-All ep P [] p all = (p, tt)
put-All ep P (old ∷ eps) p all = elim (Bool-cases (same_endpoint old ep)) [
  | inl e ↦ rw (e) (p, all.1)
  | inr e ↦ rw (e) (all.0, put-All ep P eps p all.1)
]

same-All :
    (a b : CustomEndpoint) (eps : List CustomEndpoint)
    → same_endpoint a b ≡ true
    → All (λ c. same_endpoint a c ≡ false) eps
    → All (λ c. same_endpoint b c ≡ false) eps
same-All a b [] h all = tt
same-All a b (c ∷ eps) h all = (sym (same_trans a b c h) ∙ all.0, same-All a b eps h all.1)

put-Distinct :
    (ep : CustomEndpoint) (eps : List CustomEndpoint) → Distinct eps → Distinct (put ep eps)
unfolding put
put-Distinct ep [] d = (tt, tt)
put-Distinct ep (old ∷ eps) d = elim (Bool-cases (same_endpoint old ep)) [
  | inl e ↦ rw (e) (same-All old ep eps e d.0, d.1)
  | inr e ↦
      rw (e) (put-All ep (λ c. same_endpoint old c ≡ false) eps e d.0, put-Distinct ep eps d.1)
]

-- Registering keeps a registry free of endpoints that differ only in the case of their hosts.
pub register-Distinct :
    (ep : CustomEndpoint) (eps : List CustomEndpoint) → Distinct eps → Distinct (register ep eps)
unfolding register
register-Distinct ep eps d = go (eqb ep.host [])
  where
    go : (b : Bool) → Distinct (if b then eps else put ep eps)
    go true = d
    go false = put-Distinct ep eps d

found_put :
    (split : SplitHostPort) (host path : Bytes) (ep : CustomEndpoint) (eps : List CustomEndpoint)
    → accepts split host path ep ≡ true
    → is_some (first_accepting split host path (put ep eps)) ≡ true
unfolding put first_accepting
found_put split host path ep [] a = simp (a) refl
found_put split host path ep (old ∷ eps) a = elim (Bool-cases (same_endpoint old ep)) [
  | inl e ↦ simp (e, a) refl
  | inr e ↦ elim (Bool-cases (accepts split host path old)) [
    | inl f ↦ simp (e, f) refl
    | inr f ↦ simp (e, f) (found_put split host path ep eps a)
  ]
]

-- After an endpoint with a host is registered, each request that it accepts is recognized.
pub registered_found :
    (split : SplitHostPort) (host path : Bytes) (ep : CustomEndpoint) (eps : List CustomEndpoint)
    → eqb ep.host [] ≡ false
    → accepts split (to_lower host) (to_lower path) ep ≡ true
    → is_some (match_custom_endpoint split host path (register ep eps)) ≡ true
unfolding match_custom_endpoint register
registered_found split host path ep eps h a =
    simp (h) (found_put split (to_lower host) (to_lower path) ep eps a)
