-- ===== src/Ring/Refine.antt =====
-- A valid ring behaves as the queue of its contents.
use packet_lab.Prelude.{
  ℕ, ◌*◌, ◌≤◌, ◌<◌, ◌≡◌, ◌≢◌, refl, sym, ap, ◌∙◌, inl, inr, Bool, true, false, not, ◌&&◌, Option,
  [], ◌∷◌, ◌++◌, arith, ltb, Bool-cases, add_u64,
}
use packet_lab.Models.{CapturedRequest}
use packet_lab.Ring.{
  MemRingBuffer, push_size, is_nil, new_slot, next_head, must_evict, evict, store_slot, push,
}
use packet_lab.Ring.Spec.{Queue, total, rest, Fits, total-le, no_room}
use packet_lab.Ring.Spec
use packet_lab.Ring.Inv.{
  IsValid, count, contents, length-contents, next_head_lem, bytes-lt, max_bytes-lt, contents-evict,
  evict-IsValid, count-evict, count-lt, marks-IsValid, store_contents, store-IsValid,
}

-- the queue that a ring stands for
abbrev pub view : MemRingBuffer → Queue
view r = record { records = contents r; dropped = r.dropped; stopped = r.stopped }

-- what the guard of `Push` refuses
abbrev pub too_large : MemRingBuffer → Option CapturedRequest → Bool
too_large r req = not (is_nil req) && ltb r.max_bytes (push_size req)

module _ {k : ℕ} {r : MemRingBuffer} (v : IsValid k r) (req : Option CapturedRequest) where
  -- The two tests for an eviction agree: equal indices mean a full queue, and the byte sum does not
  -- wrap.
  pub must_evict_lem :
      too_large r req ≡ false → must_evict r req ≡ no_room r.mask r.max_bytes (view r) req
  unfolding must_evict no_room
  must_evict_lem h =
      rw (next_head_lem v, length-contents r)
        (ground (arith, bytes-lt v, max_bytes-lt v, v.accounted))

  total_of_empty : count r ≡ 0 → total (contents r) ≡ 0
  total_of_empty e = omega (
    arith,
    total-le r.max_bytes (contents r) v.fit,
    ap (λ n. n * r.max_bytes) (length-contents r ∙ e),
  )

  -- The eviction never runs on an empty ring.
  evict_nonempty : too_large r req ≡ false → must_evict r req ≡ true → count r ≢ 0
  unfolding must_evict
  evict_nonempty h e z = ground (
    arith,
    next_head_lem v,
    total_of_empty z,
    v.accounted,
    max_bytes-lt v,
    bytes-lt v,
    v.two_slots,
  )

  pub slot-fits : (now : ℕ) → too_large r req ≡ false → (new_slot req now).size ≤ r.max_bytes
  unfolding new_slot
  slot-fits now h = ground arith

  module _ (now : ℕ) (h : too_large r req ≡ false) where
    -- the two ways in which `Push` writes
    abbrev after_evict : MemRingBuffer
    after_evict = store_slot (evict r) (new_slot req now) (next_head r)

    abbrev after_store : MemRingBuffer
    after_store = store_slot r (new_slot req now) (next_head r)

    module _ (e : must_evict r req ≡ true) where
      pub full : count r ≢ 0
      full = evict_nonempty h e

      free_after_evict : count (evict r) < (evict r).mask
      free_after_evict =
          let same : (evict r).mask ≡ r.mask = unfold evict in refl in
          omega (arith, count-evict v full, count-lt v, full, same)

      pub after_evict-IsValid : IsValid k after_evict
      unfolding evict
      after_evict-IsValid =
          store-IsValid (evict-IsValid v full) (new_slot req now) (slot-fits now h) free_after_evict

      pub contents-after_evict : contents after_evict ≡ rest (contents r) ++ new_slot req now ∷ []
      unfolding evict
      contents-after_evict =
          store_contents (evict-IsValid v full) (new_slot req now) (slot-fits now h)
            free_after_evict
          ∙ ap (λ l. rest l ++ new_slot req now ∷ []) (sym (contents-evict v full))

    module _ (e : must_evict r req ≡ false) where
      free : count r < r.mask
      free =
          let room : no_room r.mask r.max_bytes (view r) req ≡ false = sym (must_evict_lem h) ∙ e in
          unfold no_room in ground (arith, room, count-lt v, length-contents r)

      pub after_store-IsValid : IsValid k after_store
      after_store-IsValid = store-IsValid v (new_slot req now) (slot-fits now h) free

      pub contents-after_store : contents after_store ≡ contents r ++ new_slot req now ∷ []
      contents-after_store = store_contents v (new_slot req now) (slot-fits now h) free

  abbrev outcome : Bool × MemRingBuffer → Bool × Queue
  outcome (b, s) = (b, view s)

  -- the four ways through `Push`
  pub push_stopped : (now : ℕ) → r.stopped ≡ true → push r req now ≡ (false, r)
  unfolding push
  push_stopped now s = ground arith

  pub push_oversize :
      (now : ℕ)
      → r.stopped ≡ false
      → too_large r req ≡ true
      → push r req now ≡ (true, record r { dropped = add_u64 r.dropped 1 })
  unfolding push
  push_oversize now s e = simp (s, e)

  pub push_evicts :
      (now : ℕ)
      → r.stopped ≡ false
      → too_large r req ≡ false
      → must_evict r req ≡ true
      → push r req now ≡ (true, store_slot (evict r) (new_slot req now) (next_head r))
  unfolding push
  push_evicts now s h e = simp (s, h, e)

  pub push_stores :
      (now : ℕ)
      → r.stopped ≡ false
      → too_large r req ≡ false
      → must_evict r req ≡ false
      → push r req now ≡ (true, store_slot r (new_slot req now) (next_head r))
  unfolding push
  push_stores now s h e = simp (s, h, e)

  -- `Push` keeps the invariant.
  pub push-IsValid : (now : ℕ) → IsValid k (push r req now).1
  push-IsValid now = elim (Bool-cases r.stopped) [
    | inl s ↦ rw (push_stopped now s) v
    | inr s ↦ elim (Bool-cases (too_large r req)) [
      | inl e ↦ rw (push_oversize now s e) (marks-IsValid v (add_u64 r.dropped 1) r.stopped)
      | inr h ↦ elim (Bool-cases (must_evict r req)) [
        | inl e ↦ rw (push_evicts now s h e) (after_evict-IsValid now h e)
        | inr e ↦ rw (push_stores now s h e) (after_store-IsValid now h e)
      ]
    ]
  ]

  -- the records that the two writing branches leave, as queues
  pub view-after_evict :
      (now : ℕ) (h : too_large r req ≡ false) (e : must_evict r req ≡ true)
      → view (store_slot (evict r) (new_slot req now) (next_head r)) ≡ record {
        records = rest (contents r) ++ new_slot req now ∷ [];
        dropped = add_u64 r.dropped 1;
        stopped = r.stopped;
      }
  unfolding evict store_slot
  view-after_evict now h e = λ i. record {
    records = contents-after_evict now h e i;
    dropped = add_u64 r.dropped 1;
    stopped = r.stopped;
  }

  pub view-after_store :
      (now : ℕ) (h : too_large r req ≡ false) (e : must_evict r req ≡ false)
      → view (store_slot r (new_slot req now) (next_head r)) ≡ record {
        records = contents r ++ new_slot req now ∷ [];
        dropped = r.dropped;
        stopped = r.stopped;
      }
  unfolding store_slot
  view-after_store now h e = λ i. record {
    records = contents-after_store now h e i;
    dropped = r.dropped;
    stopped = r.stopped;
  }

  room_of :
      (b : Bool)
      → too_large r req ≡ false
      → must_evict r req ≡ b
      → no_room r.mask r.max_bytes (view r) req ≡ b
  room_of b h e = sym (must_evict_lem h) ∙ e

  -- `Push` does to the contents what the queue's push does.
  pub push_refines :
      (now : ℕ)
      → let (b, r') = push r req now in (b, view r') ≡ Spec.push r.mask r.max_bytes (view r) req now
  unfolding Spec.push
  push_refines now = elim (Bool-cases r.stopped) [
    | inl s ↦ ap outcome (push_stopped now s) ∙ ground arith
    | inr s ↦ elim (Bool-cases (too_large r req)) [
      | inl e ↦ ap outcome (push_oversize now s e) ∙ simp (s, e)
      | inr h ↦ elim (Bool-cases (must_evict r req)) [
        | inl e ↦
            ap outcome (push_evicts now s h e)
            ∙ ap (λ q. (true, q)) (view-after_evict now h e)
            ∙ simp (room_of true h e) (simp (s, h))
        | inr e ↦
            ap outcome (push_stores now s h e)
            ∙ ap (λ q. (true, q)) (view-after_store now h e)
            ∙ simp (room_of false h e) (simp (s, h))
      ]
    ]
  ]
