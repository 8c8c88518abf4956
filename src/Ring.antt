-- ===== src/Ring.antt =====
-- `MemRingBuffer` of internal/capture/memring.go. A method that runs under `r.mu` is a function from
-- the ring to the ring; `time.Now()` is an argument.
mod Window
mod Spec
mod Inv
mod Refine
mod Drain
mod History
mod New
mod Limits
mod Tests
use packet_lab.Prelude.{
  ℕ, zero, suc, ◌+◌, ◌-◌, ◌*◌, ◌^◌, bit_and, Bool, true, false, not, ◌&&◌, ◌||◌, Option, none, some,
  List, [], ◌∷◌, ltb, leb, ◌==◌, if◌then◌else◌, length, get_or, set, replicate, add_u64, sub_u64,
  u64,
}
use packet_lab.Prelude.Int.{ℤ, pos, leb_ℤ, pos_part}
use packet_lab.Models.{CapturedRequest, empty_request}

-- `Record`
pub record Slot : Type 0 where
  pub req : CapturedRequest
  pub timestamp : ℕ
  pub size : ℕ

-- what `make([]Record, size)` holds
abbrev pub zero_slot : Slot
zero_slot = record { req = empty_request; timestamp = 0; size = 0 }

-- `MemRingBuffer`; `dropped` and the indices are uint64
pub record MemRingBuffer : Type 0 where
  pub buf : List Slot
  pub head : ℕ
  pub tail : ℕ
  pub mask : ℕ
  pub bytes : ℕ
  pub max_bytes : ℕ
  pub dropped : ℕ
  pub stopped : Bool

abbrev pub max_ring_bytes : ℕ
max_ring_bytes = 512 * 1024 * 1024

-- `recordSize`
unfoldable pub record_size : CapturedRequest → ℕ
record_size req =
    add_u64 (u64 (length req.req_body + length req.res_body + length req.sse_events)) 2048

-- `for size < entryCount { size <<= 1 }`, on fuel. `size` is an int64 as a bit pattern; from 2 ^ 63
-- on it is negative, and so below every count.
unfoldable pub grow : ℕ → ℕ → ℕ → Option ℕ
grow zero count size = none
grow (suc fuel) count size =
    let again = grow fuel count (u64 (size * 2)) in
    if ltb size count || leb (2 ^ 63) size then again else some size

-- the count after the two checks of `NewMemRingBuffer`
unfoldable pub entry_count : ℤ → ℕ
entry_count n =
    let count = if leb_ℤ n (pos 0) then 262144 else pos_part n in if ltb count 2 then 2 else count

-- `NewMemRingBuffer`
unfoldable pub new_mem_ring_buffer : ℕ → ℤ → Option MemRingBuffer
new_mem_ring_buffer fuel n = elim (grow fuel (entry_count n) 1) [
  | none ↦ none
  | some size ↦ some (record {
    buf = replicate size zero_slot;
    head = 0;
    tail = 0;
    mask = size - 1;
    bytes = 0;
    max_bytes = max_ring_bytes;
    dropped = 0;
    stopped = false;
  })
]

-- the size that `Push` computes: 0 for a nil request
unfoldable pub push_size : Option CapturedRequest → ℕ
unfolding record_size
push_size none = 0
push_size (some req) = record_size req

abbrev pub is_nil : Option CapturedRequest → Bool
is_nil none = true
is_nil (some req) = false

-- the record that `Push` writes into the slot
unfoldable pub new_slot : Option CapturedRequest → ℕ → Slot
new_slot none now = record { req = empty_request; timestamp = now; size = 0 }
new_slot (some req) now = record { req = req; timestamp = now; size = push_size (some req) }

abbrev pub next_head : MemRingBuffer → ℕ
next_head r = bit_and (add_u64 r.head 1) r.mask

-- the test for the eviction of the oldest record
unfoldable pub must_evict : MemRingBuffer → Option CapturedRequest → Bool
must_evict r req =
    (next_head r == r.tail)
    || (not (is_nil req) && ltb r.max_bytes (add_u64 r.bytes (push_size req)))

-- the body of that branch
unfoldable pub evict : MemRingBuffer → MemRingBuffer
evict r =
    let oldest = (get_or r.buf r.tail zero_slot).size in
    record r {
      bytes = if ltb r.bytes oldest then 0 else sub_u64 r.bytes oldest;
      tail = bit_and (add_u64 r.tail 1) r.mask;
      dropped = add_u64 r.dropped 1;
    }

-- the write of the slot, with `next` computed before the eviction
unfoldable pub store_slot : MemRingBuffer → Slot → ℕ → MemRingBuffer
store_slot r slot next = record r {
  buf = set r.buf r.head slot;
  bytes = add_u64 r.bytes slot.size;
  head = next;
}

-- `Push`
unfoldable pub push : MemRingBuffer → Option CapturedRequest → ℕ → Bool × MemRingBuffer
push r req now =
    if r.stopped
    then (false, r)
    else if not (is_nil req) && ltb r.max_bytes (push_size req)
    then (true, record r { dropped = add_u64 r.dropped 1 })
    else (
      true,
      store_slot (if must_evict r req then evict r else r) (new_slot req now) (next_head r),
    )

-- the number of records between the indices
unfoldable pub used : MemRingBuffer → ℕ
used r =
    if leb r.tail r.head
    then sub_u64 r.head r.tail
    else add_u64 (sub_u64 (add_u64 r.mask 1) r.tail) r.head

-- the copying loop of `PopBatch`, with the rounds left
unfoldable pub copy_from : List Slot → ℕ → ℕ → ℕ → ℕ → List Slot
copy_from buf mask tail i zero = []
copy_from buf mask tail i (suc n) =
    get_or buf (bit_and (add_u64 tail i) mask) zero_slot ∷ copy_from buf mask tail (i + 1) n

-- `PopBatch`; `none` stands for a call that waits. Its count has a strict test where `Usage` has
-- `>=`, and the two agree since the indices differ here.
unfoldable pub pop_batch : MemRingBuffer → Option (List Slot × MemRingBuffer)
pop_batch r =
    if r.head == r.tail
    then (if r.stopped then some ([], r) else none)
    else let n =
        if ltb r.tail r.head
        then sub_u64 r.head r.tail
        else add_u64 (sub_u64 (add_u64 r.mask 1) r.tail) r.head in
      some (copy_from r.buf r.mask r.tail 0 n, record r { tail = r.head; bytes = 0 })

-- `Usage`, as a numerator and a denominator
unfoldable pub usage : MemRingBuffer → ℕ × ℕ
usage r = (used r, add_u64 r.mask 1)

-- `Stop`
unfoldable pub stop : MemRingBuffer → MemRingBuffer
stop r = record r { stopped = true }
