-- ===== src/Ring/Spec.antt =====
-- What `MemRingBuffer` promises: a queue of at most `limit` records, oldest first, which drops
-- its oldest record to make room and refuses a record above the byte limit.
use packet_lab.Prelude.{
  ℕ, ◌+◌, ◌*◌, ◌≤◌, ◌≡◌, Bool, true, false, not, ◌&&◌, ◌||◌, Option, none, some, List, [], ◌∷◌,
  ◌++◌, arith, ltb, ◌==◌, if◌then◌else◌, length, add_u64,
}
use packet_lab.Models.{CapturedRequest}
use packet_lab.Ring.{Slot, push_size, is_nil, new_slot}

pub record Queue : Type 0 where
  pub records : List Slot
  pub dropped : ℕ
  pub stopped : Bool

abbrev pub total : List Slot → ℕ
total [] = 0
total (s ∷ l) = s.size + total l

abbrev pub rest : List Slot → List Slot
rest [] = []
rest (s ∷ l) = l

-- every record is within the byte limit
abbrev pub Fits : ℕ → List Slot → Type 0
Fits m [] = Unit {0}
Fits m (s ∷ l) = (s.size ≤ m) × Fits m l

pub total-append : (xs ys : List Slot) → total (xs ++ ys) ≡ total xs + total ys
total-append [] ys = omega arith
total-append (x ∷ xs) ys = omega (arith, total-append xs ys)

pub Fits-append : (m : ℕ) (xs ys : List Slot) → Fits m xs → Fits m ys → Fits m (xs ++ ys)
Fits-append m [] ys p q = q
Fits-append m (x ∷ xs) ys p q = (p.0, Fits-append m xs ys p.1 q)

pub total-le : (m : ℕ) (xs : List Slot) → Fits m xs → total xs ≤ length xs * m
total-le m [] p = omega arith
total-le m (x ∷ xs) p = omega (arith, total-le m xs p.1)

module _ (limit max_bytes : ℕ) where
  -- room is made when the queue is full, or when a request would pass the byte limit
  unfoldable pub no_room : Queue → Option CapturedRequest → Bool
  no_room q req =
      (length q.records == limit)
      || (not (is_nil req) && ltb max_bytes (total q.records + push_size req))

  unfoldable pub push : Queue → Option CapturedRequest → ℕ → Bool × Queue
  push q req now =
      if q.stopped
      then (false, q)
      else if not (is_nil req) && ltb max_bytes (push_size req)
      then (true, record q { dropped = add_u64 q.dropped 1 })
      else if no_room q req
      then (
        true,
        record q {
          records = rest q.records ++ new_slot req now ∷ [];
          dropped = add_u64 q.dropped 1;
        },
      )
      else (true, record q { records = q.records ++ new_slot req now ∷ [] })

-- the records leave all at once; a reader of an empty queue waits, or returns if it is stopped
unfoldable pub pop_batch : Queue → Option (List Slot × Queue)
pop_batch q =
    if length q.records == 0
    then (if q.stopped then some ([], q) else none)
    else some (q.records, record q { records = [] })
