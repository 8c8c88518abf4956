-- ===== src/Ring/Inv.antt =====
-- The representation invariant of `MemRingBuffer`: indices in range, an exact byte count, and no
-- uint64 addition that wraps.
use packet_lab.Prelude.{
  ℕ, suc, ◌+◌, ◌-◌, ◌*◌, ◌%◌, ◌^◌, ◌≤◌, ◌<◌, ◌≡◌, ◌≢◌, sym, subst, ap, ◌∙◌, bit_and, Bool, List, [],
  ◌∷◌, ◌++◌, arith, length, get_or, length-set, bit_and_mask, add_u64,
}
use packet_lab.Ring.{Slot, zero_slot, MemRingBuffer, next_head, evict, store_slot}
use packet_lab.Ring.Window.{wrap, gap, window, length-window, window_pos, window-set, mod-eq-wrap}
use packet_lab.Ring.Spec.{total, Fits, total-le, total-append, Fits-append}

-- how many records the ring holds, and which, oldest first
abbrev pub count : MemRingBuffer → ℕ
count r = gap (r.mask + 1) r.head r.tail

abbrev pub contents : MemRingBuffer → List Slot
contents r = window r.buf (r.mask + 1) r.tail (count r)

pub record IsValid (k : ℕ) (r : MemRingBuffer) : Type 0 where
  pub room : length r.buf ≡ r.mask + 1
  pub power : r.mask + 1 ≡ 2 ^ k
  pub two_slots : 1 ≤ r.mask
  pub head_in : r.head < r.mask + 1
  pub tail_in : r.tail < r.mask + 1
  pub small : (r.mask + 1) * r.max_bytes < 2 ^ 63
  pub few : r.mask + 1 < 2 ^ 63
  pub accounted : r.bytes ≡ total (contents r)
  pub fit : Fits r.max_bytes (contents r)

-- `&` with the mask is a reduction by the capacity.
pub and-mask :
    {k : ℕ} {r : MemRingBuffer} (v : IsValid k r) (i : ℕ)
    → i < (r.mask + 1) + (r.mask + 1)
    → bit_and i r.mask ≡ wrap (r.mask + 1) i
and-mask {k} {r} v i h =
    ap (bit_and i) ones
    ∙ bit_and_mask k i
    ∙ ap (λ c. i % c) (omega arith)
    ∙ mod-eq-wrap (r.mask + 1) i h
  where
    ones : r.mask ≡ 2 ^ k - 1
    ones = omega arith

mul_mono : (a b m : ℕ) → a ≤ b → a * m ≤ b * m
mul_mono a b m h = grind arith

pub length-contents : (r : MemRingBuffer) → length (contents r) ≡ count r
length-contents r = length-window r.buf (r.mask + 1) r.tail (count r)

module _ {k : ℕ} {r : MemRingBuffer} (v : IsValid k r) where
  pub next_head_lem : next_head r ≡ wrap (r.mask + 1) (r.head + 1)
  next_head_lem = ap (λ i. bit_and i r.mask) (omega arith) ∙ and-mask v (r.head + 1) (omega arith)

  pub next_tail_lem : bit_and (add_u64 r.tail 1) r.mask ≡ wrap (r.mask + 1) (r.tail + 1)
  next_tail_lem = ap (λ i. bit_and i r.mask) (omega arith) ∙ and-mask v (r.tail + 1) (omega arith)

  -- The counter of drops and the stop mark do not touch the invariant.
  pub marks-IsValid : (d : ℕ) (b : Bool) → IsValid k (record r { dropped = d; stopped = b })
  marks-IsValid d b = record {
    room = v.room;
    power = v.power;
    two_slots = v.two_slots;
    head_in = v.head_in;
    tail_in = v.tail_in;
    small = v.small;
    few = v.few;
    accounted = v.accounted;
    fit = v.fit;
  }

  -- the resident bytes stay below half of the uint64 range
  pub bytes-lt : r.bytes < 2 ^ 63
  bytes-lt = omega (
    arith,
    total-le r.max_bytes (contents r) v.fit,
    ap (λ n. n * r.max_bytes) (length-contents r),
    mul_mono (count r) (r.mask + 1) r.max_bytes (ground arith),
  )

  pub max_bytes-lt : r.max_bytes < 2 ^ 63
  max_bytes-lt = omega (arith, v.small, mul_mono 1 (r.mask + 1) r.max_bytes (omega arith))

  pub count-lt : count r < r.mask + 1
  count-lt = ground arith

  pub count-evict : count r ≢ 0 → count (evict r) ≡ count r - 1
  unfolding evict
  count-evict h = rw next_tail_lem (ground arith)

  -- An eviction takes off the oldest record and nothing else.
  pub contents-evict : count r ≢ 0 → contents r ≡ get_or r.buf r.tail zero_slot ∷ contents (evict r)
  unfolding evict
  contents-evict h =
      window_pos r.buf (r.mask + 1) r.tail (count r) h
      ∙ ap
          (λ n.
            get_or r.buf r.tail zero_slot
            ∷ window r.buf (r.mask + 1) (wrap (r.mask + 1) (r.tail + 1)) n)
          (sym (count-evict h))
      ∙ ap (λ t. get_or r.buf r.tail zero_slot ∷ window r.buf (r.mask + 1) t (count (evict r)))
          (sym next_tail_lem)

  evict_bytes : count r ≢ 0 → (evict r).bytes ≡ total (contents (evict r))
  evict_bytes h = unfold evict in ground (arith, bytes-lt, ap total (contents-evict h))

  pub evict-IsValid : count r ≢ 0 → IsValid k (evict r)
  unfolding evict
  evict-IsValid h = record {
    room = v.room;
    power = v.power;
    two_slots = v.two_slots;
    head_in = v.head_in;
    tail_in = rw next_tail_lem (ground arith);
    small = v.small;
    few = v.few;
    accounted = evict_bytes h;
    fit = (subst (Fits r.max_bytes) (contents-evict h) v.fit).1;
  }

  module _ (s : Slot) (fits : s.size ≤ r.max_bytes) (free : count r < r.mask) where
    store_count : count (store_slot r s (next_head r)) ≡ suc (count r)
    unfolding store_slot
    store_count = rw next_head_lem (ground arith)

    -- A slot that is written while there is room becomes the newest record.
    pub store_contents : contents (store_slot r s (next_head r)) ≡ contents r ++ s ∷ []
    store_contents =
        ap (window _ _ _) store_count
        ∙ (unfold store_slot in
            window-set r.buf (r.mask + 1) r.tail (count r) r.head s v.room v.tail_in (omega arith)
              (ground arith))

    store_fit : Fits r.max_bytes (contents (store_slot r s (next_head r)))
    store_fit =
        subst (Fits r.max_bytes) (sym store_contents)
          (Fits-append r.max_bytes (contents r) (s ∷ []) v.fit (fits, tt))

    store_bytes :
        (store_slot r s (next_head r)).bytes ≡ total (contents (store_slot r s (next_head r)))
    store_bytes =
        unfold store_slot in
        omega (
          arith,
          bytes-lt,
          max_bytes-lt,
          ap total store_contents,
          total-append (contents r) (s ∷ []),
        )

    pub store-IsValid : IsValid k (store_slot r s (next_head r))
    unfolding store_slot
    store-IsValid = record {
      room = length-set r.buf r.head s ∙ v.room;
      power = v.power;
      two_slots = v.two_slots;
      head_in = rw next_head_lem (ground arith);
      tail_in = v.tail_in;
      small = v.small;
      few = v.few;
      accounted = store_bytes;
      fit = store_fit;
    }
