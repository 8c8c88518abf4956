-- ===== src/Proxy/Pending/Steps.antt =====
-- Every step keeps what holds at every time.
use packet_lab.Prelude.{
  ℕ, ◌≤◌, ◌≡◌, inl, inr, refl, sym, ap, subst, true, none, some, List, [], ◌∷◌, arith, length, All,
  All-snoc, Bytes, lookup, erase, length-append,
}
use packet_lab.Prelude.Int.{ℤ}
use packet_lab.Models.{InterceptResult, InterceptLog}
use packet_lab.Proxy.Pending.{
  ticked, expiring, decided, Entry, Interceptor, entry, write_entry, new_interceptor, taken_by,
  resolve_take, stop_timer, resolve_send, take_result, await_result, tick, check_result, expire,
  fill, returned, resolve_log, allow_result, Step, enqueues, takes, stops_timer, sends, receives,
  ticks, checks, expires, sets_mode, sets_rules, saves_log, stops, run_step, run_steps,
  behind_first,
}
use packet_lab.Proxy.Pending.Inv.{
  IsGood, IsIdle, IsValid, write_log-IsValid, with_fields, in_channel, used, ResultIsFor,
}
use packet_lab.Proxy.Pending.Enqueue.{enqueue-IsValid}
use packet_lab.Proxy.Pending.Changes.{rewrite-IsValid, unqueue-IsValid}
use packet_lab.Proxy.Pending.Cases.{
  resolve_take_cases, send_cases, take_cases, await_cases, tick_cases, check_cases, expire_cases,
}

taken-IsGood :
    (id : Bytes) (r : InterceptResult) (e : Entry)
    → IsGood e
    → IsIdle e
    → e.id ≡ id
    → IsGood (taken_by id r e)
taken-IsGood id r e g i same = record {
  one_result =
      omega (arith, i.no_result, length-append e.sending (record r { request_id = id } ∷ []));
  sending_for =
      All-snoc (λ r. r.request_id ≡ e.id) e.sending (record r { request_id = id }) g.sending_for
        (sym same);
  result_for = g.result_for;
  decision_for = g.decision_for;
}

fill-IsGood :
    (e : Entry) (r : InterceptResult) (rest : List InterceptResult)
    → e.sending ≡ r ∷ rest
    → e.result ≡ none
    → IsGood e
    → IsGood (fill e r rest)
fill-IsGood e r rest s n g =
    let all = subst (All (λ r. r.request_id ≡ e.id)) s g.sending_for in
    record {
      one_result = omega (arith, g.one_result, ap length s);
      sending_for = all.1;
      result_for = all.0;
      decision_for = g.decision_for;
    }

returned-IsGood :
    (e : Entry) (r : InterceptResult) → e.result ≡ some r → IsGood e → IsGood (returned e r)
returned-IsGood e r s g = record {
  one_result = omega (arith, g.one_result, ap in_channel s);
  sending_for = g.sending_for;
  result_for = tt;
  decision_for = subst (ResultIsFor e.id) s g.result_for;
}

resolve_take-IsValid :
    (id : Bytes) (r : InterceptResult) {it : Interceptor}
    → IsValid it
    → IsValid (resolve_take id r it).1
resolve_take-IsValid id r {it} v = elim (resolve_take_cases id r it) [
  | inl (_, e) ↦ subst (λ x. IsValid x.1) (sym e) v
  | inr (p, found, e) ↦
      let q = v.queued id p found in
      let good = taken-IsGood id r (entry it p) (v.good p) q.idle q.same_id in
      subst (λ x. IsValid x.1) (sym e)
        (subst
          (λ k. IsValid (
            write_entry (record it { pending = erase k it.pending }) p
              (taken_by id r (entry it p))))
          q.same_id (unqueue-IsValid p (taken_by id r (entry it p)) v good refl))
]

stop_timer-IsValid :
    (p : ℕ) (action : Bytes) {it : Interceptor} → IsValid it → IsValid (stop_timer p action it)
unfolding stop_timer
stop_timer-IsValid p action {it} v =
    let g = v.good p in
    write_log-IsValid (resolve_log (entry it p) action) (
      rewrite-IsValid p (record (entry it p) { timer_stopped = true }) v
        (record {
          one_result = g.one_result;
          sending_for = g.sending_for;
          result_for = g.result_for;
          decision_for = g.decision_for;
        })
        refl (λ i. record { no_result = i.no_result; waits = i.waits }))

busy_result : (e : Entry) (r : InterceptResult) → e.result ≡ some r → IsIdle e → ⊥
busy_result e r s i = absurd (omega (arith, i.no_result, ap in_channel s))

send-IsValid : (p : ℕ) {it : Interceptor} → IsValid it → IsValid (resolve_send p it).1
send-IsValid p {it} v = elim (send_cases p it) [
  | inl e ↦ subst (λ x. IsValid x.1) (sym e) v
  | inr (r, rest, s, n, e) ↦
      subst (λ x. IsValid x.1) (sym e)
        (rewrite-IsValid p (fill (entry it p) r rest) v
          (fill-IsGood (entry it p) r rest s n (v.good p)) refl
          (λ i. absurd (omega (arith, i.no_result, ap length s))))
]

return-IsValid :
    (p : ℕ) (r : InterceptResult) {it : Interceptor}
    → (entry it p).result ≡ some r
    → IsValid it
    → IsValid (write_entry it p (returned (entry it p) r))
return-IsValid p r {it} s v =
    rewrite-IsValid p (returned (entry it p) r) v (returned-IsGood (entry it p) r s (v.good p)) refl
      (λ i. absurd (busy_result (entry it p) r s i))

take-IsValid : (p : ℕ) {it : Interceptor} → IsValid it → IsValid (take_result p it)
take-IsValid p {it} v = elim (take_cases p it) [
  | inl e ↦ subst IsValid (sym e) v
  | inr (r, s, e) ↦ subst IsValid (sym e) (return-IsValid p r s v)
]

await-IsValid : (p : ℕ) {it : Interceptor} → IsValid it → IsValid (await_result p it)
await-IsValid p {it} v = elim (await_cases p it) [
  | inl e ↦ subst IsValid (sym e) v
  | inr (_, e) ↦ subst IsValid (sym e) (take-IsValid p v)
]

tick-IsValid : (p : ℕ) {it : Interceptor} → IsValid it → IsValid (tick p it)
tick-IsValid p {it} v = elim (tick_cases p it) [
  | inl e ↦ subst IsValid (sym e) v
  | inr (w, e) ↦
      let g = v.good p in
      subst IsValid (sym e) (
        rewrite-IsValid p (record (entry it p) { phase = ticked }) v
          (record {
            one_result = omega (arith, g.one_result, ap used w);
            sending_for = g.sending_for;
            result_for = g.result_for;
            decision_for = tt;
          })
          refl (λ i. record { no_result = omega (arith, i.no_result, ap used w); waits = refl }))
]

check-IsValid : (p : ℕ) {it : Interceptor} → IsValid it → IsValid (check_result p it)
check-IsValid p {it} v = elim (check_cases p it) [
  | inl e ↦ subst IsValid (sym e) v
  | inr (t, inl (n, e)) ↦
      let g = v.good p in
      subst IsValid (sym e) (
        rewrite-IsValid p (record (entry it p) { result = none; phase = expiring }) v
          (record {
            one_result = omega (arith, g.one_result, ap used t, ap in_channel n);
            sending_for = g.sending_for;
            result_for = tt;
            decision_for = tt;
          })
          refl
          (λ i. record {
            no_result = omega (arith, i.no_result, ap used t, ap in_channel n);
            waits = refl;
          }))
  | inr (t, inr (r, s, e)) ↦ subst IsValid (sym e) (return-IsValid p r s v)
]

expire-IsValid :
    (log : InterceptLog) (p : ℕ) {it : Interceptor} → IsValid it → IsValid (expire log p it)
expire-IsValid log p {it} v = elim (expire_cases log p it) [
  | inl e ↦ subst IsValid (sym e) v
  | inr (x, e) ↦
      let g = v.good p in
      subst IsValid (sym e) (
        write_log-IsValid log (
          unqueue-IsValid p (record (entry it p) { phase = decided allow_result true }) v
            (record {
              one_result = omega (arith, g.one_result, ap used x);
              sending_for = g.sending_for;
              result_for = g.result_for;
              decision_for = tt;
            })
            refl))
]

behind_first-le : (logs : List InterceptLog) → length (behind_first logs) ≤ length logs
behind_first-le [] = omega arith
behind_first-le (log ∷ logs) = omega arith

-- Every step of any goroutine keeps what holds of the queue at every time.
pub step-IsValid : (s : Step) {it : Interceptor} → IsValid it → IsValid (run_step s it)
unfolding run_step
step-IsValid (enqueues e log) v = enqueue-IsValid e log v
step-IsValid (takes id r) v = resolve_take-IsValid id r v
step-IsValid (stops_timer p action) v = stop_timer-IsValid p action v
step-IsValid (sends p) v = send-IsValid p v
step-IsValid (receives p) v = await-IsValid p v
step-IsValid (ticks p) v = tick-IsValid p v
step-IsValid (checks p) v = check-IsValid p v
step-IsValid (expires log p) v = expire-IsValid log p v
step-IsValid (sets_mode m) {it} v = with_fields m it.rules it.log_ch it.closed v.few_logs v
step-IsValid (sets_rules rs) {it} v = with_fields it.mode rs it.log_ch it.closed v.few_logs v
step-IsValid saves_log {it} v =
    with_fields it.mode it.rules (behind_first it.log_ch) it.closed
      (omega (arith, v.few_logs, behind_first-le it.log_ch)) v
step-IsValid stops {it} v = with_fields it.mode it.rules it.log_ch true v.few_logs v

new-IsValid : (timeout : ℤ) → IsValid (new_interceptor timeout)
unfolding new_interceptor lookup
new-IsValid timeout = record {
  few = omega arith;
  few_logs = omega arith;
  good = λ p. record {
    one_result = omega arith;
    sending_for = tt;
    result_for = tt;
    decision_for = tt;
  };
  queued = λ id p found. cc;
}

steps-IsValid : (ss : List Step) {it : Interceptor} → IsValid it → IsValid (run_steps ss it)
unfolding run_steps
steps-IsValid [] v = v
steps-IsValid (s ∷ ss) v = steps-IsValid ss (step-IsValid s v)

-- After any steps of any goroutines from the start: at most 512 entries and 1024 logs wait, every
-- entry has at most one result, made for its id, and an entry in the queue has none and still waits.
pub reached-IsValid :
    (timeout : ℤ) (ss : List Step) → IsValid (run_steps ss (new_interceptor timeout))
reached-IsValid timeout ss = steps-IsValid ss (new-IsValid timeout)
