-- ===== src/Ring/Drain.antt =====
-- `PopBatch` and `Stop` against the queue, and whole histories of calls.
use packet_lab.Prelude.{
  ℕ, zero, suc, ◌+◌, ◌≤◌, ◌≡◌, ◌≢◌, refl, sym, subst, ap, ◌∙◌, inl, inr, Bool, true, false, Option,
  none, some, List, [], ◌∷◌, arith, ltb, ◌==◌, if◌then◌else◌, length, get_or, Bool-cases, add_u64,
  bit_and, sub_u64,
}
use packet_lab.Ring.{Slot, zero_slot, MemRingBuffer, copy_from, pop_batch, stop}
use packet_lab.Ring.Window.{wrap, window, window-zero, window-suc}
use packet_lab.Ring.Spec.{Queue, total, Fits}
use packet_lab.Ring.Spec
use packet_lab.Ring.Inv.{
  IsValid, count, contents, length-contents, and-mask, count-lt, marks-IsValid,
}
use packet_lab.Ring.Refine.{view}

-- the result of `PopBatch`, with the queue in place of the ring
abbrev pub drain_outcome : Option (List Slot × MemRingBuffer) → Option (List Slot × Queue)
drain_outcome none = none
drain_outcome (some (batch, s)) = some (batch, view s)

module _ {k : ℕ} {r : MemRingBuffer} (v : IsValid k r) where
  -- The loop copies the window that starts `i` slots after the tail.
  copy_from-window :
      (i n : ℕ)
      → i + n ≤ r.mask + 1
      → copy_from r.buf r.mask r.tail i n
        ≡ window r.buf (r.mask + 1) (wrap (r.mask + 1) (r.tail + i)) n
  unfolding copy_from
  copy_from-window i zero h = sym (window-zero r.buf _ _)
  copy_from-window i (suc n) h =
      ap (λ j. get_or r.buf j zero_slot ∷ copy_from r.buf r.mask r.tail (i + 1) n) index
      ∙ ap (◌∷◌ (get_or r.buf (wrap (r.mask + 1) (r.tail + i)) zero_slot))
          (copy_from-window (i + 1) n (omega arith) ∙ ap (λ t. window r.buf (r.mask + 1) t n) next)
      ∙ sym (window-suc r.buf (r.mask + 1) (wrap (r.mask + 1) (r.tail + i)) n)
    where
      index : bit_and (add_u64 r.tail i) r.mask ≡ wrap (r.mask + 1) (r.tail + i)
      index =
          ap (λ j. bit_and j r.mask) (omega (arith, v.few, v.tail_in))
          ∙ and-mask v (r.tail + i) (omega (arith, v.tail_in))

      next :
          wrap (r.mask + 1) (r.tail + (i + 1))
          ≡ wrap (r.mask + 1) (wrap (r.mask + 1) (r.tail + i) + 1)
      next = ground (arith, v.tail_in)

  -- the count that `PopBatch` computes
  abbrev popped : ℕ
  popped =
      if ltb r.tail r.head
      then sub_u64 r.head r.tail
      else add_u64 (sub_u64 (add_u64 r.mask 1) r.tail) r.head

  popped-eq-count : r.head ≢ r.tail → popped ≡ count r
  popped-eq-count h = ground (arith, v.few)

  nonempty : r.head ≢ r.tail → count r ≢ 0
  nonempty h = ground arith

  abbrev drained : MemRingBuffer
  drained = record r { tail = r.head; bytes = 0 }

  count-drained : count drained ≡ 0
  count-drained = ground arith

  contents-drained : contents drained ≡ []
  contents-drained = ap (window _ _ _) count-drained ∙ window-zero r.buf (r.mask + 1) r.head

  drained-IsValid : IsValid k drained
  drained-IsValid = record {
    room = v.room;
    power = v.power;
    two_slots = v.two_slots;
    head_in = v.head_in;
    tail_in = v.head_in;
    small = v.small;
    few = v.few;
    accounted = sym (ap total contents-drained);
    fit = subst (Fits r.max_bytes) (sym contents-drained) tt;
  }

  batch-contents : r.head ≢ r.tail → copy_from r.buf r.mask r.tail 0 popped ≡ contents r
  batch-contents h =
      ap (copy_from r.buf r.mask r.tail 0) (popped-eq-count h)
      ∙ copy_from-window 0 (count r) (omega (arith, count-lt v))
      ∙ ap (λ t. window r.buf (r.mask + 1) t (count r)) (ground (arith, v.tail_in))

  -- Equal indices mean that the ring is empty.
  empty_lem : (length (contents r) == 0) ≡ (r.head == r.tail)
  empty_lem = ground (arith, length-contents r, v.tail_in, v.head_in)

  pop_empty : (r.head == r.tail) ≡ true → pop_batch r ≡ (if r.stopped then some ([], r) else none)
  unfolding pop_batch
  pop_empty e = rw e

  pop_full : (r.head == r.tail) ≡ false → pop_batch r ≡ some (contents r, drained)
  unfolding pop_batch
  pop_full e = rw e (ap (λ l. some (l, drained)) (batch-contents (λ p. ground arith)))

  -- `PopBatch` waits on an empty ring that runs, returns nothing on an empty ring that is stopped,
  -- and otherwise returns the contents, oldest first, and empties the ring.
  pub pop_batch_refines : drain_outcome (pop_batch r) ≡ Spec.pop_batch (view r)
  unfolding Spec.pop_batch
  pop_batch_refines = elim (Bool-cases (r.head == r.tail)) [
    | inl e ↦
        ap drain_outcome (pop_empty e)
        ∙ waits r.stopped
        ∙ sym (
            ap
              (λ b.
                if b
                then (if r.stopped then some ([], view r) else none)
                else some
                    (contents r, record { records = []; dropped = r.dropped; stopped = r.stopped }))
              (empty_lem ∙ e))
    | inr e ↦
        ap drain_outcome (pop_full e)
        ∙ ap
            (λ l.
              some (contents r, record { records = l; dropped = r.dropped; stopped = r.stopped }))
            contents-drained
        ∙ sym (
            ap
              (λ b.
                if b
                then (if r.stopped then some ([], view r) else none)
                else some
                    (contents r, record { records = []; dropped = r.dropped; stopped = r.stopped }))
              (empty_lem ∙ e))
  ]
    where
      waits :
          (b : Bool)
          → drain_outcome (if b then some ([], r) else none)
            ≡ (if b then some ([], view r) else none)
      waits true = refl
      waits false = refl

  -- `PopBatch` keeps the invariant.
  pub pop_batch-IsValid :
      (batch : List Slot) (s : MemRingBuffer) → pop_batch r ≡ some (batch, s) → IsValid k s
  pop_batch-IsValid batch s e = elim (Bool-cases (r.head == r.tail)) [
    | inl p ↦ elim (Bool-cases r.stopped) [
      | inl t ↦
          let same : r ≡ s = cc (
            pop_empty p,
            ap (λ b. if◌then◌else◌ {A = Option (List Slot × MemRingBuffer)} b (some ([], r)) none)
                t,
          ) in
          subst (IsValid k) same v
      | inr t ↦ cc (
        pop_empty p,
        ap (λ b. if◌then◌else◌ {A = Option (List Slot × MemRingBuffer)} b (some ([], r)) none) t,
      )
    ]
    | inr p ↦ let same : drained ≡ s = cc (pop_full p) in subst (IsValid k) same drained-IsValid
  ]

  -- `Stop` keeps the invariant.
  pub stop-IsValid : IsValid k (stop r)
  unfolding stop
  stop-IsValid = marks-IsValid v r.dropped true
