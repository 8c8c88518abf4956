-- ===== src/Capture/Writer/Tests.antt =====
-- A run of the flush, and a witness for its property.
use packet_lab.Prelude.{ℕ, ◌≡◌, refl, true, false, some, List, [], ◌∷◌, ◌==◌, map}
use packet_lab.Models.{CapturedRequest, empty_request}
use packet_lab.Storage.Scripted.{Table, scripted, scripted-IsTable}
use packet_lab.Ring.{Slot, MemRingBuffer, zero_slot, pop_batch, copy_from}
use packet_lab.Capture.Writer.{
  Pool, saved_ones, broadcast, attempts, save_each, store_chunk, store_chunks, flush_all,
}
use packet_lab.Capture.Writer.Kept.{Stores, flush_all-Stores}

abbrev numbered : ℕ → CapturedRequest
numbered n = record empty_request { status_code = n }

abbrev two : List Slot
two = record zero_slot { req = numbered 1 } ∷ record zero_slot { req = numbered 2 } ∷ []

abbrev ring : MemRingBuffer
ring = record {
  buf =
      zero_slot
      ∷ record zero_slot { req = numbered 1 }
      ∷ record zero_slot { req = numbered 2 }
      ∷ zero_slot
      ∷ [];
  mask = 3;
  head = 3;
  tail = 1;
  dropped = 0;
  bytes = 0;
  max_bytes = 100;
  stopped = false;
}

abbrev drained : MemRingBuffer
drained = record ring { tail = 3 }

-- one attempt fails and the stop signal is there; then the first of the two saves fails
abbrev pool : Pool Table
pool = record {
  store = record { script = false ∷ false ∷ []; rows = [] };
  written = 7;
  has_hub = true;
  sent = [];
  lost = [];
}

popped : pop_batch ring ≡ some (two, drained)
unfolding pop_batch copy_from
popped = refl

after_flush :
    flush_all scripted (λ i n. true) ring pool
    ≡ some (
      drained,
      record {
        store = record { script = []; rows = numbered 2 ∷ [] };
        written = 8;
        has_hub = true;
        sent = record (numbered 2) { id = 1 } ∷ [];
        lost = numbered 1 ∷ [];
      },
    )
unfolding flush_all pop_batch copy_from store_chunks store_chunk attempts save_each broadcast
    saved_ones
after_flush = refl

flush_all-Stores_example :
    (p2 : Pool Table) × (flush_all scripted (λ i n. true) ring pool ≡ some (drained, p2))
    × Stores scripted scripted-IsTable
        (λ i n. true)
        (λ r. r.status_code == 1)
        (map (λ s. s.req) two)
        pool
        p2
flush_all-Stores_example =
    flush_all-Stores scripted scripted-IsTable (λ i n. true) (λ r. r.status_code == 1) ring drained
      two pool popped
