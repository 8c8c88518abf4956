-- ===== src/Capture/Writer.antt =====
-- `AsyncWriterPool` of internal/capture/memring.go: the flush of what the ring buffer holds, in chunks
-- of 500 with three attempts each and a fallback that stores one request at a time.
mod Attempts
mod Kept
mod Tests
use packet_lab.Prelude.{
  ℕ, zero, suc, ◌+◌, Bool, true, false, Option, none, some, List, [], ◌∷◌, ◌++◌, map, ltb, ◌==◌,
  if◌then◌else◌, length, take, drop, add_u64,
}
use packet_lab.Models.{CapturedRequest}
use packet_lab.Storage.{Storage}
use packet_lab.Ring.{Slot, MemRingBuffer, pop_batch}

abbrev pub chunk_size : ℕ
chunk_size = 500

-- `AsyncWriterPool`, with the calls of `BroadcastCapture` in `sent`, and in `lost` the requests whose
-- last save fails, of which the code keeps nothing
pub record Pool (S : Type 0) : Type 0 where
  pub store : S
  pub written : ℕ
  pub has_hub : Bool
  pub sent : List CapturedRequest
  pub lost : List CapturedRequest

-- the ids of a chunk that was saved
abbrev pub with_ids : List CapturedRequest → List ℕ → List CapturedRequest
with_ids [] ids = []
with_ids (r ∷ rs) [] = r ∷ rs
with_ids (r ∷ rs) (id ∷ ids) = record r { id = id } ∷ with_ids rs ids

-- the loop that broadcasts the saved requests of a chunk
unfoldable pub saved_ones : List CapturedRequest → List CapturedRequest
saved_ones [] = []
saved_ones (r ∷ rs) = let later = saved_ones rs in if ltb 0 r.id then r ∷ later else later

unfoldable pub broadcast : {S : Type 0} → List CapturedRequest → Pool S → Pool S
broadcast chunk p = if p.has_hub then record p { sent = p.sent ++ saved_ones chunk } else p

module _ {S : Type 0} (db : Storage S) (stop_seen : ℕ → ℕ → Bool) where
  -- the attempts with `SaveBatch`, of which `n` are left; behind a failure that is not the last one
  -- the select sees the stop signal or the end of the pause
  unfoldable pub attempts : ℕ → ℕ → List CapturedRequest → S → Option (List ℕ) × S
  attempts zero index chunk s = (none, s)
  attempts (suc n) index chunk s =
      let (ids, t) = db.save_batch chunk s in
      let again = attempts n index chunk t in
      elim ids [ some is ↦ (some is, t) | none ↦ if stop_seen index n then (none, t) else again ]

  -- the fallback
  unfoldable pub save_each : List CapturedRequest → Pool S → List CapturedRequest × Pool S
  save_each [] p = ([], p)
  save_each (r ∷ rs) p =
      let (id, s) = db.save r p.store in
      elim id [
        | some n ↦
            let (later, q) = save_each rs (record p { store = s; written = add_u64 p.written 1 }) in
            (record r { id = n } ∷ later, q)
        | none ↦
            let (later, q) = save_each rs (record p { store = s; lost = p.lost ++ (r ∷ []) }) in
            (r ∷ later, q)
      ]

  -- the body of the loop over the chunks
  unfoldable pub store_chunk : ℕ → List CapturedRequest → Pool S → Pool S
  store_chunk index chunk p =
      let (ids, s) = attempts 3 index chunk p.store in
      elim ids [
        | some is ↦
            broadcast (with_ids chunk is)
              (record p { store = s; written = add_u64 p.written (length is) })
        | none ↦ let (chunk2, q) = save_each chunk (record p { store = s }) in broadcast chunk2 q
      ]

  -- the loop over the chunks; every round takes some requests, so their number is enough fuel
  unfoldable pub store_chunks : ℕ → ℕ → List CapturedRequest → Pool S → Pool S
  store_chunks zero index reqs p = p
  store_chunks (suc fuel) index [] p = p
  store_chunks (suc fuel) index (r ∷ rs) p =
      store_chunks fuel (suc index) (drop chunk_size (r ∷ rs))
        (store_chunk index (take chunk_size (r ∷ rs)) p)

  -- `flushAll`; `none` is a call that waits in `PopBatch`
  unfoldable pub flush_all : MemRingBuffer → Pool S → Option (MemRingBuffer × Pool S)
  flush_all ring p = elim (pop_batch ring) [
    | none ↦ none
    | some (batch, after) ↦
        let reqs = map (λ s. s.req) batch in some (after, store_chunks (length reqs) 0 reqs p)
  ]
