-- ===== src/Proxy/Pending/Enqueue.antt =====
-- A new entry in the queue keeps what holds at every time.
use packet_lab.Prelude.{
  ℕ, ◌+◌, ◌<◌, ◌≡◌, ◌⊎◌, inl, inr, refl, sym, ap, subst, ◌∙◌, some, List, [], ◌∷◌, ◌++◌, arith,
  length, get_or, Bytes, lookup, insert, lookup-insert, length-insert-le, length-append,
  get_or-append, eqb, eqb_iff, Bool-cases, if◌then◌else◌,
}
use packet_lab.Models.{InterceptLog}
use packet_lab.Proxy.Pending.{
  Entry, Interceptor, max_pending, no_entry, entry, enqueue_pending, fresh,
}
use packet_lab.Proxy.Pending.Inv.{IsGood, IsIdle, Queued, IsValid, write_log-IsValid}
use packet_lab.Proxy.Pending.Cases.{enqueue_cases}

module _ (e : Entry) (it : Interceptor) where
  abbrev queue_up : Interceptor
  queue_up = record it {
    heap = it.heap ++ (fresh e ∷ []);
    pending = insert e.id (length it.heap) it.pending;
  }

  fresh-IsGood : IsGood (fresh e)
  fresh-IsGood = record {
    one_result = omega arith;
    sending_for = tt;
    result_for = tt;
    decision_for = tt;
  }

  -- the heap with the entry at its end
  grown :
      (q : ℕ)
      → ((q ≡ length it.heap) × (entry queue_up q ≡ fresh e)) ⊎ (entry queue_up q ≡ entry it q)
  grown q = go it.heap q
    where
      go :
          (h : List Entry) (q : ℕ)
          → ((q ≡ length h) × (get_or (h ++ (fresh e ∷ [])) q no_entry ≡ fresh e))
            ⊎ (get_or (h ++ (fresh e ∷ [])) q no_entry ≡ get_or h q no_entry)
      go [] ℕ.zero = inl (refl, refl)
      go [] (ℕ.suc q) = inr refl
      go (x ∷ h) ℕ.zero = inr refl
      go (x ∷ h) (ℕ.suc q) = elim (go h q) [
        | inl (at_end, there) ↦ inl (ap ℕ.suc at_end, there)
        | inr other ↦ inr other
      ]

  at_end : entry queue_up (length it.heap) ≡ fresh e
  at_end = go it.heap
    where
      go : (h : List Entry) → get_or (h ++ (fresh e ∷ [])) (length h) no_entry ≡ fresh e
      go [] = refl
      go (x ∷ h) = go h

  longer : length queue_up.heap ≡ length it.heap + 1
  longer = omega (arith, length-append it.heap (fresh e ∷ []))

  still_there : IsValid it → (q : ℕ) → q < length it.heap → entry queue_up q ≡ entry it q
  still_there v q inside = get_or-append it.heap (fresh e ∷ []) q no_entry inside

  queue_up-Queued :
      IsValid it → (id : Bytes) (q : ℕ) → lookup id queue_up.pending ≡ some q → Queued queue_up id q
  queue_up-Queued v id q found =
      let look = lookup-insert e.id id (length it.heap) it.pending in
      elim (Bool-cases (eqb e.id id)) [
        | inl same ↦
            let hit : some (length it.heap) ≡ some q =
              sym (look ∙ ap (λ b. if b then some (length it.heap) else lookup id it.pending) same)
              ∙ found in
            subst (Queued queue_up id) (some_inj hit) (record {
              allocated = omega (arith, longer);
              same_id = ap (λ x. x.id) at_end ∙ (eqb_iff e.id id).0 same;
              idle = subst IsIdle (sym at_end) (record { no_result = refl; waits = refl });
            })
        | inr other ↦
            let before : lookup id it.pending ≡ some q =
              sym (look ∙ ap (λ b. if b then some (length it.heap) else lookup id it.pending) other)
              ∙ found in
            let old = v.queued id q before in
            let same = still_there v q old.allocated in
            record {
              allocated = omega (arith, longer, old.allocated);
              same_id = ap (λ x. x.id) same ∙ old.same_id;
              idle = subst IsIdle (sym same) old.idle;
            }
      ]
    where
      some_inj : {a b : ℕ} → some a ≡ some b → a ≡ b
      some_inj h = cc

  queue_up-IsValid : IsValid it → length it.pending < max_pending → IsValid queue_up
  queue_up-IsValid v room = record {
    few = omega (arith, room, length-insert-le e.id (length it.heap) it.pending);
    few_logs = v.few_logs;
    good = λ q. elim (grown q) [
      | inl (_, here) ↦ subst IsGood (sym here) fresh-IsGood
      | inr other ↦ subst IsGood (sym other) (v.good q)
    ];
    queued = queue_up-Queued v;
  }

pub enqueue-IsValid :
    (e : Entry) (log : InterceptLog) {it : Interceptor}
    → IsValid it
    → IsValid (enqueue_pending (fresh e) log it).1
enqueue-IsValid e log {it} v = elim (enqueue_cases (fresh e) log it) [
  | inl (_, eq) ↦ subst (λ x. IsValid x.1) (sym eq) (write_log-IsValid log v)
  | inr (room, eq) ↦ subst (λ x. IsValid x.1) (sym eq) (queue_up-IsValid e it v room)
]
