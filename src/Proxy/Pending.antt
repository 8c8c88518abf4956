-- ===== src/Proxy/Pending.antt =====
-- The queue of requests that wait for a decision, in internal/proxy/interceptor.go: the state of
-- `Interceptor` with the heap of its entries, `enqueuePending`, `Resolve`, `awaitDecision`,
-- `writeLog`, `Stop` and the setters, in the steps between which other goroutines can run.
mod Changes
mod Cases
mod Inv
mod Enqueue
mod Steps
mod Decisions
mod Tests
use packet_lab.Prelude.{
  ℕ, zero, suc, ◌+◌, ◌*◌, ◌^◌, Bool, true, false, Option, none, some, List, [], ◌∷◌, ◌++◌, ltb, leb,
  if◌then◌else◌, length, get_or, set, Bytes, bytes, Map, lookup, erase, insert,
}
use packet_lab.Prelude.Int.{ℤ, pos, negsuc}
use packet_lab.Models.{InterceptRule, InterceptResult, InterceptLog}

-- where the goroutine in `awaitDecision` stands: in the outer select, behind the timer's tick, behind
-- the inner select that found no result, or returned, with whether it was the timer
pub data Phase : Type 0 where
  waiting : Phase
  ticked : Phase
  expiring : Phase
  decided : InterceptResult → Bool → Phase

-- `pendingReq`, with what its goroutines do: `sending` holds the results of calls of `Resolve` that
-- have taken the entry from the queue and have not sent yet, `result` is the channel of capacity 1
pub record Entry : Type 0 where
  pub id : Bytes
  pub is_response : Bool
  pub method : Bytes
  pub url : Bytes
  pub host : Bytes
  pub path : Bytes
  pub preview : Bytes
  pub created_at : ℕ
  pub timer_stopped : Bool
  pub sending : List InterceptResult
  pub result : Option InterceptResult
  pub phase : Phase

-- `Interceptor`; the queue holds pointers into the heap
pub record Interceptor : Type 0 where
  pub mode : Bytes
  pub rules : List InterceptRule
  pub pending : Map ℕ
  pub timeout : ℕ
  pub log_ch : List InterceptLog
  pub closed : Bool
  pub heap : List Entry

abbrev pub max_pending : ℕ
max_pending = 512

abbrev pub log_capacity : ℕ
log_capacity = 1024

abbrev pub default_timeout : ℕ
default_timeout = 15 * 10 ^ 9

abbrev timeout_of : ℤ → ℕ
timeout_of (pos zero) = default_timeout
timeout_of (pos (suc n)) = suc n
timeout_of (negsuc n) = default_timeout

-- `NewInterceptor`
unfoldable pub new_interceptor : ℤ → Interceptor
new_interceptor timeout = record {
  mode = bytes "auto";
  rules = [];
  pending = [];
  timeout = timeout_of timeout;
  log_ch = [];
  closed = false;
  heap = [];
}

abbrev pub no_entry : Entry
no_entry = record {
  id = [];
  is_response = false;
  method = [];
  url = [];
  host = [];
  path = [];
  preview = [];
  created_at = 0;
  timer_stopped = false;
  sending = [];
  result = none;
  phase = waiting;
}

-- `*p`
abbrev pub entry : Interceptor → ℕ → Entry
entry it p = get_or it.heap p no_entry

abbrev pub write_entry : Interceptor → ℕ → Entry → Interceptor
write_entry it p e = record it { heap = set it.heap p e }

-- `writeLog`: the log is lost when the channel is full or closed
unfoldable pub write_log : InterceptLog → Interceptor → Interceptor
write_log log it =
    if it.closed
    then it
    else if ltb (length it.log_ch) log_capacity
    then record it { log_ch = it.log_ch ++ (log ∷ []) }
    else it

-- `enqueuePending`, with the entry newly allocated; the pointer stands for `true`, and then the front
-- end is told
unfoldable pub enqueue_pending : Entry → InterceptLog → Interceptor → Option ℕ × Interceptor
enqueue_pending e drop_log it =
    if leb max_pending (length it.pending)
    then (none, write_log drop_log it)
    else let p = length it.heap in
      (some p, record it { heap = it.heap ++ (e ∷ []); pending = insert e.id p it.pending })

-- the log of a decision by the user
abbrev pub resolve_log : Entry → Bytes → InterceptLog
resolve_log e action = record {
  id = 0;
  action = action;
  request_url = e.url;
  request_method = e.method;
  request_host = e.host;
  rule_pattern = [];
  mode = bytes "manual";
  created_at = [];
}

abbrev pub taken_by : Bytes → InterceptResult → Entry → Entry
taken_by id r e = record e { sending = e.sending ++ (record r { request_id = id } ∷ []) }

-- `Resolve` under the lock: `none` is the error `request not found`
unfoldable pub resolve_take : Bytes → InterceptResult → Interceptor → Option ℕ × Interceptor
resolve_take id r it = elim (lookup id it.pending) [
  | none ↦ (none, it)
  | some p ↦
      let taken = record it { pending = erase id it.pending } in
      (some p, write_entry taken p (taken_by id r (entry it p)))
]

-- `p.timer.Stop()` and the log of the decision
unfoldable pub stop_timer : ℕ → Bytes → Interceptor → Interceptor
stop_timer p action it =
    let e = entry it p in
    write_log (resolve_log e action) (write_entry it p (record e { timer_stopped = true }))

-- `Resolve` up to the send, when nothing comes between: false is the error
unfoldable pub resolve_begin : Bytes → InterceptResult → Interceptor → Bool × Interceptor
resolve_begin id r it =
    let (found, taken) = resolve_take id r it in
    elim found [ none ↦ (false, taken) | some p ↦ (true, stop_timer p r.action taken) ]

abbrev pub fill : Entry → InterceptResult → List InterceptResult → Entry
fill e r rest = record e { sending = rest; result = some r }

-- `p.result <- result`: false if the channel is full, and the goroutine of `Resolve` stays blocked
unfoldable pub resolve_send : ℕ → Interceptor → Bool × Interceptor
resolve_send p it =
    let e = entry it p in
    elim e.sending [
      | [] ↦ (false, it)
      | r ∷ rest ↦ elim e.result [
        | none ↦ (true, write_entry it p (fill e r rest))
        | some _ ↦ (false, it)
      ]
    ]

abbrev pub returned : Entry → InterceptResult → Entry
returned e r = record e { result = none; phase = decided r false }

-- `case r := <-pr.result` of either select
unfoldable pub take_result : ℕ → Interceptor → Interceptor
take_result p it =
    let e = entry it p in elim e.result [ none ↦ it | some r ↦ write_entry it p (returned e r) ]

-- a goroutine that is not at the statement does not run it
unfoldable pub await_result : ℕ → Interceptor → Interceptor
await_result p it = elim (entry it p).phase [
  | waiting ↦ take_result p it
  | ticked ↦ it
  | expiring ↦ it
  | decided _ _ ↦ it
]

-- `case <-pr.timer.C`, when the timer still runs
unfoldable pub tick : ℕ → Interceptor → Interceptor
tick p it =
    let e = entry it p in
    elim e.phase [
      | waiting ↦ if e.timer_stopped then it else write_entry it p (record e { phase = ticked })
      | ticked ↦ it
      | expiring ↦ it
      | decided _ _ ↦ it
    ]

-- the inner select, whose default goes on to the lock
unfoldable pub check_result : ℕ → Interceptor → Interceptor
check_result p it =
    let e = entry it p in
    elim e.phase [
      | waiting ↦ it
      | ticked ↦ elim e.result [
        | none ↦ write_entry it p (record e { phase = expiring })
        | some r ↦ write_entry it p (returned e r)
      ]
      | expiring ↦ it
      | decided _ _ ↦ it
    ]

abbrev pub allow_result : InterceptResult
allow_result = record {
  request_id = [];
  action = bytes "allow";
  method = [];
  url = [];
  new_headers = [];
  new_body = [];
  status_code = 0;
}

abbrev pub timed_out : InterceptLog → ℕ → Interceptor → Interceptor
timed_out log p it =
    let e = entry it p in
    write_log log (
      write_entry (record it { pending = erase e.id it.pending }) p
        (record e { phase = decided allow_result true }))

-- the timeout from the lock on
unfoldable pub expire : InterceptLog → ℕ → Interceptor → Interceptor
expire log p it = elim (entry it p).phase [
  | waiting ↦ it
  | ticked ↦ it
  | expiring ↦ timed_out log p it
  | decided _ _ ↦ it
]

-- what any goroutine can do next; a `Resolve` takes, then stops the timer, then sends
pub data Step : Type 0 where
  enqueues : Entry → InterceptLog → Step
  takes : Bytes → InterceptResult → Step
  stops_timer : ℕ → Bytes → Step
  sends : ℕ → Step
  receives : ℕ → Step
  ticks : ℕ → Step
  checks : ℕ → Step
  expires : InterceptLog → ℕ → Step
  sets_mode : Bytes → Step
  sets_rules : List InterceptRule → Step
  saves_log : Step
  stops : Step

-- an entry as `Handle` and `HandleResponse` build it
abbrev pub fresh : Entry → Entry
fresh e = record e { timer_stopped = false; sending = []; result = none; phase = waiting }

abbrev behind_first : List InterceptLog → List InterceptLog
behind_first [] = []
behind_first (log ∷ logs) = logs

-- `SetMode`, `SetRules`, a round of `startLogWriter` and `Stop` are the last four
unfoldable pub run_step : Step → Interceptor → Interceptor
run_step (enqueues e log) it = (enqueue_pending (fresh e) log it).1
run_step (takes id r) it = (resolve_take id r it).1
run_step (stops_timer p action) it = stop_timer p action it
run_step (sends p) it = (resolve_send p it).1
run_step (receives p) it = await_result p it
run_step (ticks p) it = tick p it
run_step (checks p) it = check_result p it
run_step (expires log p) it = expire log p it
run_step (sets_mode m) it = record it { mode = m }
run_step (sets_rules rs) it = record it { rules = rs }
run_step saves_log it = record it { log_ch = behind_first it.log_ch }
run_step stops it = record it { closed = true }

unfoldable pub run_steps : List Step → Interceptor → Interceptor
run_steps [] it = it
run_steps (s ∷ ss) it = run_steps ss (run_step s it)
