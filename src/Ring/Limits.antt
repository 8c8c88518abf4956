-- ===== src/Ring/Limits.antt =====
-- What a `Push` does to the counters: the records it keeps and drops, and the bytes it leaves.
use packet_lab.Prelude.{
  ℕ, ◌+◌, ◌^◌, ◌≤◌, ◌<◌, ◌≡◌, ◌≢◌, refl, ap, subst, sym, ◌∙◌, inl, inr, Bool, true, false, Option,
  some, List, [], ◌∷◌, arith, Bool-cases, length, length-append,
}
use packet_lab.Models.{CapturedRequest}
use packet_lab.Ring.{MemRingBuffer, Slot, record_size, push_size, new_slot, must_evict, push}
use packet_lab.Ring.Spec.{Queue, total, rest, total-append}
use packet_lab.Ring.Inv.{IsValid, contents, length-contents, bytes-lt, max_bytes-lt}
use packet_lab.Ring.Refine.{
  too_large, full, push_oversize, push_evicts, push_stores, view, view-after_evict,
  view-after_store, after_evict-IsValid, contents-after_evict,
}

length-rest : (l : List Slot) → length l ≢ 0 → length (rest l) + 1 ≡ length l
length-rest [] h = absurd (h refl)
length-rest (x ∷ l) h = omega arith

-- dropped records and resident ones
abbrev tally : Queue → ℕ
tally q = q.dropped + length q.records

abbrev accepted : Bool × MemRingBuffer → ℕ
accepted p = tally (view p.1)

module _ {k : ℕ} {r : MemRingBuffer} (v : IsValid k r) (req : Option CapturedRequest)
    (now : ℕ) where
  -- While the counter does not wrap, a `Push` on a running ring returns true, and either adds one
  -- record or counts one as dropped: nothing is lost without being counted.
  pub push_conserves :
      r.stopped ≡ false
      → r.dropped + 1 < 2 ^ 64
      → let (b, r') = push r req now in
        (b ≡ true) × (r'.dropped + length (contents r') ≡ r.dropped + length (contents r) + 1)
  push_conserves s d = elim (Bool-cases (too_large r req)) [
    | inl e ↦ let p = push_oversize v req now s e in (ap (λ q. q.0) p, ap accepted p ∙ omega arith)
    | inr h ↦ elim (Bool-cases (must_evict r req)) [
      | inl e ↦
          let p = push_evicts v req now s h e in
          (
            ap (λ q. q.0) p,
            ap accepted p
                ∙ ap tally (view-after_evict v req now h e)
                ∙ omega (
                  arith,
                  length-append (rest (contents r)) (new_slot req now ∷ []),
                  length-rest (contents r) (λ z. full v req now h e (sym (length-contents r) ∙ z)),
                ),
          )
      | inr e ↦
          let p = push_stores v req now s h e in
          (
            ap (λ q. q.0) p,
            ap accepted p
                ∙ ap tally (view-after_store v req now h e)
                ∙ omega (arith, length-append (contents r) (new_slot req now ∷ [])),
          )
    ]
  ]

-- The byte ceiling is not kept: a `Push` evicts one record, so a request whose size exceeds what the
-- oldest record frees leaves the ring above `max_bytes`.
pub push_exceeds :
    {k : ℕ} {r : MemRingBuffer} (v : IsValid k r) (req : CapturedRequest) (now : ℕ) (x : Slot)
    (l : List Slot)
    → r.stopped ≡ false
    → record_size req ≤ r.max_bytes
    → contents r ≡ x ∷ l
    → r.max_bytes + x.size < r.bytes + record_size req
    → r.max_bytes < (push r (some req) now).1.bytes
push_exceeds {k} {r} v req now x l s fits e over =
    subst (λ n. r.max_bytes < n)
      (sym (
        ap (λ (p : Bool × MemRingBuffer). p.1.bytes) (push_evicts v (some req) now s h must)
        ∙ (after_evict-IsValid v (some req) now h must).accounted
        ∙ ap total (contents-after_evict v (some req) now h must)
        ∙ total-append (rest (contents r)) (new_slot (some req) now ∷ [])))
      (unfold new_slot push_size in
        omega (arith, ap total e, ap (λ l. total (rest l)) e, v.accounted))
  where
    h : too_large r (some req) ≡ false
    h = unfold push_size in ground arith

    must : must_evict r (some req) ≡ true
    must = unfold must_evict push_size in ground (arith, bytes-lt v, max_bytes-lt v)
