-- ===== src/Proxy/Pending/Changes.antt =====
-- A write of one entry keeps what holds at every time.
use packet_lab.Prelude.{
  ℕ, ◌≡◌, inl, inr, sym, ap, subst, ◌∙◌, true, false, none, some, arith, Bytes, lookup, erase,
  lookup-erase, length-erase-le, eqb, eqb_iff, Bool-cases, if◌then◌else◌,
}
use packet_lab.Proxy.Pending.{Entry, Interceptor, entry, write_entry}
use packet_lab.Proxy.Pending.Inv.{IsGood, IsIdle, IsValid, write-IsValid}

-- a write that leaves the queue as it is
pub rewrite-IsValid :
    {it : Interceptor} (p : ℕ) (e : Entry)
    → IsValid it
    → IsGood e
    → e.id ≡ (entry it p).id
    → (IsIdle (entry it p) → IsIdle e)
    → IsValid (write_entry it p e)
rewrite-IsValid {it} p e v good same_id idle =
    write-IsValid v p e it.pending good same_id (omega arith) (λ id q found.
      (found, λ same. idle (subst (λ k. IsIdle (entry it k)) same (v.queued id q found).idle)))

-- a write that takes the entry's id from the queue
pub unqueue-IsValid :
    {it : Interceptor} (p : ℕ) (e : Entry)
    → IsValid it
    → IsGood e
    → e.id ≡ (entry it p).id
    → IsValid (write_entry (record it { pending = erase e.id it.pending }) p e)
unqueue-IsValid {it} p e v good same_id =
    write-IsValid v p e (erase e.id it.pending) good same_id (length-erase-le e.id it.pending) stays
  where
    stays :
        (id : Bytes) (q : ℕ)
        → lookup id (erase e.id it.pending) ≡ some q
        → (lookup id it.pending ≡ some q) × (q ≡ p → IsIdle e)
    stays id q found = elim (Bool-cases (eqb e.id id)) [
      | inl same ↦
          let contra : none ≡ some q =
            sym (
              lookup-erase e.id id it.pending
              ∙ ap (λ b. if b then none else lookup id it.pending) same)
            ∙ found in
          cc
      | inr other ↦
          let before : lookup id it.pending ≡ some q =
            sym (
              lookup-erase e.id id it.pending
              ∙ ap (λ b. if b then none else lookup id it.pending) other)
            ∙ found in
          (
            before,
            λ at_p. absurd (
                clash other (
                  same_id ∙ ap (λ k. (entry it k).id) (sym at_p) ∙ (v.queued id q before).same_id)),
          )
    ]
      where
        clash : eqb e.id id ≡ false → e.id ≡ id → ⊥
        clash other same = let contra : false ≡ true = sym other ∙ (eqb_iff e.id id).1 same in cc
