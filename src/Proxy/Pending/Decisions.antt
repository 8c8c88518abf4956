-- ===== src/Proxy/Pending/Decisions.antt =====
-- What becomes of a decision of the user.
use packet_lab.Prelude.{
  ℕ, ◌<◌, ◌≡◌, inl, inr, refl, sym, ap, Bool, subst, ◌∙◌, true, false, Option, none, some, List, [],
  ◌∷◌, ◌++◌, arith, length, get_or, set, get_or-set_self, length-set, Bytes, lookup, erase,
  lookup-erase, eqb_iff, if◌then◌else◌,
}
use packet_lab.Models.{InterceptResult, InterceptLog}
use packet_lab.Proxy.Pending.{
  waiting, expiring, decided, Entry, Interceptor, no_entry, entry, write_entry, write_log, taken_by,
  fill, returned, resolve_log, resolve_take, stop_timer, resolve_begin, resolve_send, await_result,
  expire, allow_result,
}
use packet_lab.Proxy.Pending.Inv.{IsIdle, IsValid, in_channel, write_log_cases}
use packet_lab.Proxy.Pending.Cases.{resolve_take_cases, send_at, take_at, expire_at}

heap-write_log : (log : InterceptLog) (it : Interceptor) → (write_log log it).heap ≡ it.heap
heap-write_log log it = elim (write_log_cases log it) [
  | inl e ↦ ap (λ x. x.heap) e
  | inr (_, e) ↦ ap (λ x. x.heap) e
]

pending-write_log :
    (log : InterceptLog) (it : Interceptor) → (write_log log it).pending ≡ it.pending
pending-write_log log it = elim (write_log_cases log it) [
  | inl e ↦ ap (λ x. x.pending) e
  | inr (_, e) ↦ ap (λ x. x.pending) e
]

no_sending : (e : Entry) → IsIdle e → (e.sending ≡ []) × (e.result ≡ none)
no_sending e i =
    (empty e.sending (omega (arith, i.no_result)), no_result e.result (omega (arith, i.no_result)))
  where
    empty : (rs : List InterceptResult) → length rs ≡ 0 → rs ≡ []
    empty [] h = refl
    empty (r ∷ rs) h = absurd (omega arith)

    no_result : (o : Option InterceptResult) → in_channel o ≡ 0 → o ≡ none
    no_result none h = refl
    no_result (some r) h = absurd (omega arith)

module _ {it : Interceptor} (v : IsValid it) (id : Bytes) (r : InterceptResult) (p : ℕ)
    (found : lookup id it.pending ≡ some p) where
  abbrev given : InterceptResult
  given = record r { request_id = id }

  abbrev begun : Interceptor
  begun = (resolve_begin id r it).1

  abbrev sent : Interceptor
  sent = (resolve_send p begun).1

  abbrev taken : Interceptor
  taken = write_entry (record it { pending = erase id it.pending }) p (taken_by id r (entry it p))

  take_lem : resolve_take id r it ≡ (some p, taken)
  take_lem = elim (resolve_take_cases id r it) [
    | inl (n, _) ↦ let contra : none ≡ some p = sym n ∙ found in cc
    | inr (q, f, e) ↦
        let same : q ≡ p = cc (f, found) in
        subst
          (λ k. resolve_take id r it ≡ (
            some k,
            write_entry (record it { pending = erase id it.pending }) k
                (taken_by id r (entry it k)),
          ))
          same e
  ]

  begin_lem : resolve_begin id r it ≡ (true, stop_timer p r.action taken)
  unfolding resolve_begin
  begin_lem =
      ap
        (λ x. elim x.0 as (λ _. Bool × Interceptor) [
          | none ↦ (false, x.1)
          | some q ↦ (true, stop_timer q r.action x.1)
        ])
        take_lem

  entry_taken : entry taken p ≡ taken_by id r (entry it p)
  entry_taken =
      get_or-set_self it.heap p (taken_by id r (entry it p)) no_entry
        (v.queued id p found).allocated

  abbrev timer_off : Entry
  timer_off = record (entry taken p) { timer_stopped = true }

  stop_lem :
      stop_timer p r.action taken
      ≡ write_log (resolve_log (entry taken p) r.action) (write_entry taken p timer_off)
  unfolding stop_timer
  stop_lem = refl

  heap_begun : begun.heap ≡ set taken.heap p timer_off
  heap_begun =
      ap (λ x. x.1.heap) begin_lem
      ∙ ap (λ x. x.heap) stop_lem
      ∙ heap-write_log (resolve_log (entry taken p) r.action) (write_entry taken p timer_off)

  inside_taken : p < length taken.heap
  inside_taken =
      omega
        (arith, (v.queued id p found).allocated, length-set it.heap p (taken_by id r (entry it p)))

  entry-begun : entry begun p ≡ timer_off
  entry-begun =
      ap (λ h. get_or h p no_entry) heap_begun
      ∙ get_or-set_self taken.heap p timer_off no_entry inside_taken

  sending_begun : (entry begun p).sending ≡ given ∷ []
  sending_begun =
      ap (λ e. e.sending) entry-begun
      ∙ ap (λ e. e.sending) entry_taken
      ∙ ap (λ rs. rs ++ (given ∷ [])) (no_sending (entry it p) (v.queued id p found).idle).0

  result_begun : (entry begun p).result ≡ none
  result_begun =
      ap (λ e. e.result) entry-begun
      ∙ ap (λ e. e.result) entry_taken
      ∙ (no_sending (entry it p) (v.queued id p found).idle).1

  send_lem : resolve_send p begun ≡ (true, write_entry begun p (fill (entry begun p) given []))
  send_lem = send_at p begun given [] sending_begun result_begun

  inside : p < length begun.heap
  inside = omega (arith, inside_taken, ap length heap_begun, length-set taken.heap p timer_off)

  entry_sent : entry sent p ≡ fill (entry begun p) given []
  entry_sent =
      ap (λ x. entry x.1 p) send_lem
      ∙ get_or-set_self begun.heap p (fill (entry begun p) given []) no_entry inside

  inside_sent : p < length sent.heap
  inside_sent = omega (
    arith,
    inside,
    ap (λ x. length x.1.heap) send_lem,
    length-set begun.heap p (fill (entry begun p) given []),
  )

  phase_sent : (entry sent p).phase ≡ (entry it p).phase
  phase_sent =
      ap (λ e. e.phase) entry_sent ∙ ap (λ e. e.phase) entry-begun ∙ ap (λ e. e.phase) entry_taken

  unqueued : lookup id begun.pending ≡ none
  unqueued =
      ap (λ x. lookup id x.1.pending) begin_lem
      ∙ ap (λ x. lookup id x.pending) stop_lem
      ∙ ap (lookup id)
          (pending-write_log (resolve_log (entry taken p) r.action) (write_entry taken p timer_off))
      ∙ lookup-erase id id it.pending
      ∙ ap (λ b. if b then none else lookup id it.pending) ((eqb_iff id id).1 refl)

  -- `Resolve` of an entry in the queue takes it off the queue and never blocks on the send; a goroutine
  -- that waits in the outer select then returns this decision, under the id it was made for.
  pub resolve_delivers :
      (entry it p).phase ≡ waiting
      → ((resolve_begin id r it).0 ≡ true)
        × (lookup id (resolve_begin id r it).1.pending ≡ none)
        × ((resolve_send p (resolve_begin id r it).1).0 ≡ true)
        × ((entry (await_result p (resolve_send p (resolve_begin id r it).1).1) p).phase
            ≡ decided (record r { request_id = id }) false)
  resolve_delivers w = (
    ap (λ x. x.0) begin_lem,
    unqueued,
    ap (λ x. x.0) send_lem,
    ap (λ x. (entry x p).phase)
          (take_at p sent given (phase_sent ∙ w) (ap (λ e. e.result) entry_sent))
        ∙ ap (λ e. e.phase)
            (get_or-set_self sent.heap p (returned (entry sent p) given) no_entry inside_sent),
  )

  -- `Resolve` reports success for an entry whose goroutine has found the channel empty after the
  -- timer's tick and does not hold the lock yet; the goroutine then returns `allow_result` as timed out,
  -- whatever the decision was.
  pub resolve_lost :
      (log : InterceptLog)
      → (entry it p).phase ≡ expiring
      → ((resolve_begin id r it).0 ≡ true)
        × ((resolve_send p (resolve_begin id r it).1).0 ≡ true)
        × ((entry (expire log p (resolve_send p (resolve_begin id r it).1).1) p).phase
            ≡ decided allow_result true)
  resolve_lost log x = (
    ap (λ y. y.0) begin_lem,
    ap (λ y. y.0) send_lem,
    ap (λ y. (entry y p).phase) (expire_at log p sent (phase_sent ∙ x))
        ∙ ap (λ h. (get_or h p no_entry).phase)
            (heap-write_log log (
              write_entry (record sent { pending = erase (entry sent p).id sent.pending }) p
                (record (entry sent p) { phase = decided allow_result true })))
        ∙ ap (λ e. e.phase)
            (get_or-set_self sent.heap p
              (record (entry sent p) { phase = decided allow_result true }) no_entry inside_sent),
  )
