-- ===== src/Proxy/Pending/Tests.antt =====
-- Runs of the queue, and a witness for each of its properties.
use packet_lab.Prelude.{◌≡◌, refl, true, false, none, some, [], ◌∷◌, bytes, lookup, insert, eqb}
use packet_lab.Prelude.Int.{pos}
use packet_lab.Models.{InterceptResult, InterceptLog}
use packet_lab.Proxy.Pending.{
  Entry, Interceptor, waiting, expiring, decided, no_entry, entry, new_interceptor, enqueue_pending,
  resolve_begin, resolve_send, await_result, tick, check_result, expire, allow_result, enqueues,
  ticks, checks, run_step, run_steps, resolve_log,
}
use packet_lab.Proxy.Pending.Inv.{IsValid}
use packet_lab.Proxy.Pending.Steps.{reached-IsValid}
use packet_lab.Proxy.Pending.Decisions.{resolve_delivers, resolve_lost}

abbrev first : Entry
first = record no_entry { id = bytes "req_1"; method = bytes "GET"; host = bytes "a.org" }

abbrev drop : InterceptResult
drop = record allow_result { action = bytes "drop" }

abbrev log : InterceptLog
log = resolve_log first (bytes "allow")

abbrev queue : Interceptor
queue = run_steps (enqueues first log ∷ []) (new_interceptor (pos 0))

abbrev late : Interceptor
late = run_steps (enqueues first log ∷ ticks 0 ∷ checks 0 ∷ []) (new_interceptor (pos 0))

reached-IsValid_example : IsValid queue
reached-IsValid_example = reached-IsValid (pos 0) (enqueues first log ∷ [])

late-IsValid : IsValid late
late-IsValid = reached-IsValid (pos 0) (enqueues first log ∷ ticks 0 ∷ checks 0 ∷ [])

queued_first : lookup (bytes "req_1") queue.pending ≡ some 0
unfolding run_steps run_step new_interceptor enqueue_pending insert lookup eqb
queued_first = refl

first_waits : (entry queue 0).phase ≡ waiting
unfolding run_steps run_step new_interceptor enqueue_pending insert
first_waits = refl

queued_late : lookup (bytes "req_1") late.pending ≡ some 0
unfolding run_steps run_step new_interceptor enqueue_pending tick check_result insert lookup eqb
queued_late = refl

late_expires : (entry late 0).phase ≡ expiring
unfolding run_steps run_step new_interceptor enqueue_pending tick check_result insert
late_expires = refl

resolve_delivers_example :
    let (ok, one) = resolve_begin (bytes "req_1") drop queue in
    let (sent, two) = resolve_send 0 one in
    (ok ≡ true)
    × (lookup (bytes "req_1") one.pending ≡ none)
    × (sent ≡ true)
    × ((entry (await_result 0 two) 0).phase
        ≡ decided (record drop { request_id = bytes "req_1" }) false)
resolve_delivers_example =
    resolve_delivers (reached-IsValid (pos 0) (enqueues first log ∷ [])) (bytes "req_1") drop 0
      queued_first first_waits

resolve_lost_example :
    let (ok, one) = resolve_begin (bytes "req_1") drop late in
    let (sent, two) = resolve_send 0 one in
    (ok ≡ true) × (sent ≡ true) × ((entry (expire log 0 two) 0).phase ≡ decided allow_result true)
resolve_lost_example = resolve_lost late-IsValid (bytes "req_1") drop 0 queued_late log late_expires
