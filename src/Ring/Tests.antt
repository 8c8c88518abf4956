-- ===== src/Ring/Tests.antt =====
-- Runs of the ring at concrete inputs, and the theorems at inputs that meet their hypotheses.
use packet_lab.Prelude.{
  ℕ, ◌+◌, ◌*◌, ◌≤◌, ◌<◌, ◌≡◌, refl, true, false, none, some, List, [], ◌∷◌, arith, bytes, replicate,
}
use packet_lab.Prelude.Int.{pos, negsuc}
use packet_lab.Models.{CapturedRequest, empty_request}
use packet_lab.Ring.{
  Slot, zero_slot, MemRingBuffer, record_size, entry_count, grow, new_mem_ring_buffer, push_size,
  new_slot, must_evict, evict, store_slot, push, copy_from, pop_batch, stop, used, usage,
}
use packet_lab.Ring.Window.{window}
use packet_lab.Ring.Inv.{IsValid, contents}
use packet_lab.Ring.Refine.{view, push_refines}
use packet_lab.Ring.Spec
use packet_lab.Ring.History.{
  Call, pushes, pops, stops, pushed, popped, waits, done, run, queue_run, step, run_refines,
}
use packet_lab.Ring.New.{new-IsValid}
use packet_lab.Ring.Limits.{push_exceeds}

abbrev hello : CapturedRequest
hello = record empty_request { url = bytes "http://a/"; req_body = bytes "hello" }

abbrev big : CapturedRequest
big = record empty_request { url = bytes "http://b/"; res_body = replicate 1905 b'x' }

abbrev plain : Slot
plain = record { req = empty_request; timestamp = 7; size = 2048 }

-- Two records in four slots, going round the end, with a limit of 6000 bytes.
abbrev pair : MemRingBuffer
pair = record {
  buf = plain ∷ zero_slot ∷ zero_slot ∷ plain ∷ [];
  head = 1;
  tail = 3;
  mask = 3;
  bytes = 4096;
  max_bytes = 6000;
  dropped = 0;
  stopped = false;
}

contents-pair : contents pair ≡ plain ∷ plain ∷ []
unfolding window
contents-pair = refl

pair-IsValid : IsValid 2 pair
unfolding window
pair-IsValid = record {
  room = refl;
  power = refl;
  two_slots = omega arith;
  head_in = omega arith;
  tail_in = omega arith;
  small = omega arith;
  few = omega arith;
  accounted = refl;
  fit = omega arith;
}

record_size_runs : record_size hello ≡ 2053
unfolding record_size
record_size_runs = refl

-- The counts that `NewMemRingBuffer` settles on, and the sizes that it finds.
entry_counts :
    (entry_count (pos 0) ≡ 262144) × (entry_count (negsuc 4) ≡ 262144) × (entry_count (pos 1) ≡ 2)
unfolding entry_count
entry_counts = (refl, refl, refl)

grow_runs : (grow 64 1000 1 ≡ some 1024) × (grow 64 1024 1 ≡ some 1024) × (grow 3 1024 1 ≡ none)
unfolding grow
grow_runs = (refl, refl, refl)

usage_runs : usage pair ≡ (2, 4)
unfolding usage used
usage_runs = refl

new-IsValid_example :
    (r : MemRingBuffer) × (k : ℕ) × (new_mem_ring_buffer 64 (pos 1000) ≡ some r)
    × IsValid k r
    × (contents r ≡ [])
    × (1000 ≤ r.mask + 1)
    × (r.mask + 1 < 2 * 1000)
    × (r.stopped ≡ false)
unfolding entry_count
new-IsValid_example = new-IsValid (pos 1000) (omega arith)

push_refines_example :
    let (b, r) = push pair (some hello) 9 in
    (b, view r) ≡ Spec.push 3 6000 (view pair) (some hello) 9
push_refines_example = push_refines pair-IsValid (some hello) 9

abbrev script : List Call
script = pushes none 1 ∷ pushes (some hello) 2 ∷ pops ∷ pops ∷ stops ∷ pushes none 3 ∷ pops ∷ []

-- The second push drops the oldest record: the limit of three records is reached.
script_replies :
    run pair script
    ≡ pushed true
      ∷ pushed true
      ∷ popped (
          plain
          ∷ record zero_slot { timestamp = 1 }
          ∷ record { req = hello; timestamp = 2; size = 2053 }
          ∷ [])
      ∷ waits
      ∷ done
      ∷ pushed false
      ∷ popped []
      ∷ []
unfolding run step push pop_batch copy_from stop must_evict evict store_slot new_slot push_size
    record_size
script_replies = refl

run_refines_example : run pair script ≡ queue_run 3 6000 (view pair) script
run_refines_example = run_refines pair script pair-IsValid

push_exceeds_example : 6000 < (push pair (some big) 9).1.bytes
unfolding record_size window
push_exceeds_example =
    push_exceeds pair-IsValid big 9 plain (plain ∷ []) refl (omega arith) refl (omega arith)
