-- ===== src/Ring/New.antt =====
-- `NewMemRingBuffer`: the search for a power of two ends, and what it makes is a valid ring.
use packet_lab.Prelude.{
  ℕ, zero, suc, ◌+◌, ◌-◌, ◌*◌, ◌^◌, ◌≤◌, ◌<◌, ◌≡◌, refl, ap, sym, subst, ◌∙◌, ◌⊎◌, inl, inr, true,
  false, some, [], arith, ltb, leb, ◌||◌, Bool-cases, length-replicate, replicate, u64, two_pow,
}
use packet_lab.Prelude.Int.{ℤ}
use packet_lab.Ring.{
  MemRingBuffer, zero_slot, grow, entry_count, new_mem_ring_buffer, max_ring_bytes,
}
use packet_lab.Ring.Window.{window-zero}
use packet_lab.Ring.Spec.{total, Fits}
use packet_lab.Ring.Inv.{IsValid, contents}

-- what the loop finds
record Grown (count size : ℕ) (found : ℕ) : Type 0 where
  covers : count ≤ found
  least : (found < 2 * count) ⊎ (found ≡ size)

grow_more :
    (f count size : ℕ)
    → (ltb size count || leb (2 ^ 63) size) ≡ true
    → grow (suc f) count size ≡ grow f count (u64 (size * 2))
unfolding grow
grow_more f count size h = rw h

grow_stop :
    (f count size : ℕ)
    → (ltb size count || leb (2 ^ 63) size) ≡ false
    → grow (suc f) count size ≡ some size
unfolding grow
grow_stop f count size h = rw h

-- From a power of two the loop reaches a power of two that covers the count.
grow_total :
    (f count size k : ℕ)
    → count ≤ 2 ^ 62
    → count ≤ size * 2 ^ f
    → size < 2 ^ 63
    → size ≡ 2 ^ k
    → (s : ℕ) × (j : ℕ) × (grow (suc f) count size ≡ some s) × (s ≡ 2 ^ j) × Grown count size s
grow_total zero count size k hc hf hs e = (
  size,
  k,
  grow_stop 0 count size (ground arith),
  e,
  record { covers = omega arith; least = inr refl },
)
grow_total (suc f) count size k hc hf hs e =
    elim (Bool-cases (ltb size count || leb (2 ^ 63) size)) [
      | inl more ↦
          let below : size < count = ground arith in
          let (s, j, found, power, g) =
            grow_total f count (size * 2) (suc k) hc (omega (arith, ap (λ p. size * p) (two_pow f)))
              (omega arith) (omega (arith, two_pow k)) in
          (
            s,
            j,
            grow_more (suc f) count size more ∙ ap (grow (suc f) count) (omega arith) ∙ found,
            power,
            record { covers = g.covers; least = ground (arith, g.least) },
          )
      | inr stop ↦ (
        size,
        k,
        grow_stop (suc f) count size stop,
        e,
        record { covers = ground arith; least = inr refl },
      )
    ]

entry_count-le : (n : ℤ) → 2 ≤ entry_count n
unfolding entry_count
entry_count-le n = ground arith

fresh : ℕ → MemRingBuffer
fresh size = record {
  buf = replicate size zero_slot;
  head = 0;
  tail = 0;
  mask = size - 1;
  bytes = 0;
  max_bytes = max_ring_bytes;
  dropped = 0;
  stopped = false;
}

contents-fresh : (size : ℕ) → contents (fresh size) ≡ []
unfolding fresh
contents-fresh size = window-zero (replicate size zero_slot) (size - 1 + 1) 0

fresh-IsValid : (size k : ℕ) → 2 ≤ size → size < 2 ^ 34 → size ≡ 2 ^ k → IsValid k (fresh size)
unfolding fresh
fresh-IsValid size k lo hi e = record {
  room = omega (arith, length-replicate size zero_slot);
  power = omega arith;
  two_slots = omega arith;
  head_in = omega arith;
  tail_in = omega arith;
  small = omega arith;
  few = omega arith;
  accounted = sym (ap total (contents-fresh size));
  fit = subst (Fits max_ring_bytes) (sym (contents-fresh size)) tt;
}

-- For a count up to 2 ^ 33 the constructor returns a valid ring without records, running, whose
-- number of slots is the least power of two that is not below the count.
pub new-IsValid :
    (n : ℤ)
    → entry_count n ≤ 2 ^ 33
    → (r : MemRingBuffer) × (k : ℕ) × (new_mem_ring_buffer 64 n ≡ some r)
      × IsValid k r
      × (contents r ≡ [])
      × (entry_count n ≤ r.mask + 1)
      × (r.mask + 1 < 2 * entry_count n)
      × (r.stopped ≡ false)
unfolding new_mem_ring_buffer
new-IsValid n h =
    let (s, k, found, e, g) =
      grow_total 63 (entry_count n) 1 0 (omega arith) (omega arith) (omega arith) refl in
    let small : s < 2 * entry_count n = ground (arith, g.least, entry_count-le n) in
    (
      fresh s,
      k,
      rw (found, new_mem_ring_buffer) (unfold fresh in refl),
      fresh-IsValid s k (omega (arith, g.covers, entry_count-le n)) (omega arith) e,
      contents-fresh s,
      unfold fresh in omega (arith, g.covers, entry_count-le n),
      unfold fresh in omega (arith, g.covers, entry_count-le n),
      unfold fresh in refl,
    )
