-- ===== src/Proxy/Batch/Tests.antt =====
-- Runs of the batch writer, and a witness for each of its properties.
use packet_lab.Prelude.{ℕ, ◌+◌, ◌≡◌, refl, Bool, false, List, [], ◌∷◌, ◌==◌}
use packet_lab.Prelude.Int.{pos}
use packet_lab.Models.{CapturedRequest, empty_request}
use packet_lab.Storage.{count}
use packet_lab.Storage.Scripted.{Table, scripted, scripted-IsTable}
use packet_lab.Proxy.Batch.{
  Writer, first, second, new_writer, save_sync, save_each, enqueue, attempt, flush, receive, fires,
  takes_last, stop, Step, enqueues, receives, run_step, run_steps,
}
use packet_lab.Proxy.Batch.Kept.{accounted, asks, brought_by, run_keeps}
use packet_lab.Proxy.Batch.Stopped.{stop_stores}

abbrev numbered : ℕ → CapturedRequest
numbered n = record empty_request { status_code = n }

-- four failures: the three attempts of the first flush and the first save of its fallback
abbrev start : Writer Table
start = new_writer (record { script = false ∷ false ∷ false ∷ false ∷ []; rows = [] }) (pos 2)

abbrev script : List (Step scripted)
script =
    enqueues (numbered 1)
    ∷ receives first
    ∷ enqueues (numbered 2)
    ∷ enqueues (numbered 3)
    ∷ receives second
    ∷ receives first
    ∷ []

abbrev is_third : CapturedRequest → Bool
is_third r = r.status_code == 3

-- the batch of 1 and 3 is full; 1 is lost to the error log, 3 is stored, 2 waits
script_run :
    let w = run_steps scripted script start in
    (w.failed ≡ numbered 1 ∷ [])
    × (w.store.rows ≡ numbered 3 ∷ [])
    × (w.second_batch ≡ numbered 2 ∷ [])
    × (w.first_batch ≡ [])
unfolding run_steps run_step enqueue receive flush attempt save_each save_sync new_writer
script_run = (refl, refl, refl, refl)

run_keeps_example :
    accounted scripted scripted-IsTable is_third (run_steps scripted script start)
    ≡ accounted scripted scripted-IsTable is_third start
      + brought_by scripted scripted-IsTable is_third script
run_keeps_example = run_keeps scripted scripted-IsTable is_third script start

waiting : Writer Table
waiting = record start { ch = numbered 3 ∷ []; second_batch = numbered 2 ∷ [] }

stop_stores_example :
    let z = stop scripted ((first, takes_last) ∷ (second, fires) ∷ []) second [] waiting in
    (z.ch ≡ [])
    × (z.first_batch ≡ [])
    × (z.second_batch ≡ [])
    × (count is_third (scripted-IsTable.rows z.store)
          + count (asks scripted scripted-IsTable is_third) z.failed
        ≡ accounted scripted scripted-IsTable is_third waiting)
unfolding waiting new_writer
stop_stores_example =
    stop_stores scripted scripted-IsTable is_third ((first, takes_last) ∷ (second, fires) ∷ [])
      second [] waiting refl
