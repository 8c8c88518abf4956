-- ===== src/Proxy/Batch.antt =====
-- internal/proxy/batch.go: `BatchWriter`, whose two workers collect requests from a channel into
-- batches and store them, with a fallback that stores one request at a time.
mod Kept
mod Stopped
mod Tests
use packet_lab.Prelude.{
  ℕ, zero, suc, ◌+◌, Bool, true, false, Option, none, some, List, [], ◌∷◌, ◌++◌, ltb, leb,
  if◌then◌else◌, length, get_or, set,
}
use packet_lab.Prelude.Int.{ℤ, pos, negsuc}
use packet_lab.Models.{CapturedRequest}
use packet_lab.Storage.{Storage}

abbrev pub channel_capacity : ℕ
channel_capacity = 16384

abbrev pub positive_or : ℕ → ℤ → ℕ
positive_or d (pos zero) = d
positive_or d (pos (suc n)) = suc n
positive_or d (negsuc n) = d

-- the two workers
pub data Worker : Type 0 where
  first : Worker
  second : Worker

-- `BatchWriter` over a store in a state of type `S`; the batches are local to the workers,
-- `notified` has the calls of `onSave` and `failed` the requests that `saveSync` only logs
pub record Writer (S : Type 0) : Type 0 where
  pub store : S
  pub ch : List CapturedRequest
  pub first_batch : List CapturedRequest
  pub second_batch : List CapturedRequest
  pub batch_size : ℕ
  pub stopped : Bool
  pub notified : List CapturedRequest
  pub failed : List CapturedRequest

-- `NewBatchWriter`, but for the interval of the workers' tickers
unfoldable pub new_writer : {S : Type 0} → S → ℤ → Writer S
new_writer store batch_size = record {
  store = store;
  ch = [];
  first_batch = [];
  second_batch = [];
  batch_size = positive_or 500 batch_size;
  stopped = false;
  notified = [];
  failed = [];
}

-- `req.ID = ids[i]` for the ids that there are
abbrev pub with_ids : List CapturedRequest → List ℕ → List CapturedRequest
with_ids [] ids = []
with_ids (r ∷ rs) [] = r ∷ rs
with_ids (r ∷ rs) (id ∷ ids) = record r { id = id } ∷ with_ids rs ids

abbrev pub batch_of : {S : Type 0} → Worker → Writer S → List CapturedRequest
batch_of first w = w.first_batch
batch_of second w = w.second_batch

abbrev pub put_batch : {S : Type 0} → Worker → List CapturedRequest → Writer S → Writer S
put_batch first b w = record w { first_batch = b }
put_batch second b w = record w { second_batch = b }

-- what a worker does in one turn: a case of its outer select, the request or the ticker, or, behind the
-- signal to stop, a request without the flush of a full batch
pub data Turn : Type 0 where
  collects fires takes_last : Turn

abbrev pub other : Worker → Worker
other first = second
other second = first

module _ {S : Type 0} (db : Storage S) where
  -- `saveSync`
  unfoldable pub save_sync : CapturedRequest → Writer S → Writer S
  save_sync req w =
      let (id, s) = db.save req w.store in
      elim id [
        | none ↦ record w { store = s; failed = w.failed ++ (req ∷ []) }
        | some n ↦ record w { store = s; notified = w.notified ++ (record req { id = n } ∷ []) }
      ]

  -- `Enqueue`
  unfoldable pub enqueue : CapturedRequest → Writer S → Writer S
  enqueue req w =
      if w.stopped
      then save_sync req w
      else if ltb (length w.ch) channel_capacity
      then record w { ch = w.ch ++ (req ∷ []) }
      else save_sync req w

  -- `saveSync` of each request in turn
  unfoldable pub save_each : List CapturedRequest → Writer S → Writer S
  save_each [] w = w
  save_each (r ∷ rs) w = save_each rs (save_sync r w)

  -- the attempts of `flush`, and the fallback behind them
  unfoldable pub attempt : ℕ → List CapturedRequest → Writer S → Writer S
  attempt zero batch w = save_each batch w
  attempt (suc n) batch w =
      let (ids, s) = db.save_batch batch w.store in
      let tried = record w { store = s } in
      let again = attempt n batch tried in
      elim ids [
        | none ↦ again
        | some is ↦ record tried { notified = w.notified ++ with_ids batch is }
      ]

  -- `flush` of the worker `i`: `batch[:0]` follows
  unfoldable pub flush : Worker → Writer S → Writer S
  flush i w = elim (batch_of i w) [ [] ↦ w | r ∷ rs ↦ attempt 3 (r ∷ rs) (put_batch i [] w) ]

  -- `case req := <-bw.ch` of the worker `i`, with the flush of a full batch or, behind the signal to
  -- stop, without
  abbrev pub take_one : Worker → CapturedRequest → List CapturedRequest → Writer S → Writer S
  take_one i req rest w = put_batch i (batch_of i w ++ (req ∷ [])) (record w { ch = rest })

  unfoldable pub receive : Worker → Writer S → Writer S
  receive i w = elim w.ch [
    | [] ↦ w
    | req ∷ rest ↦
        let next = take_one i req rest w in
        if leb w.batch_size (length (batch_of i next)) then flush i next else next
  ]

  unfoldable pub receive_last : Worker → Writer S → Writer S
  receive_last i w = elim w.ch [ [] ↦ w | req ∷ rest ↦ take_one i req rest w ]

  -- what any goroutine can do next; a worker does the last two when the signal to stop has come
  pub data Step : Type 0 where
    enqueues : CapturedRequest → Step
    receives : Worker → Step
    ticks : Worker → Step
    stops : Step
    drains : Worker → Step
    exits : Worker → Step

  unfoldable pub run_step : Step → Writer S → Writer S
  run_step (enqueues r) w = enqueue r w
  run_step (receives i) w = receive i w
  run_step (ticks i) w = flush i w
  run_step stops w = record w { stopped = true }
  run_step (drains i) w = receive_last i w
  run_step (exits i) w = flush i w

  unfoldable pub run_steps : List Step → Writer S → Writer S
  run_steps [] w = w
  run_steps (s ∷ ss) w = run_steps ss (run_step s w)

  unfoldable pub turn : Turn → Worker → Writer S → Writer S
  turn collects i w = receive i w
  turn fires i w = flush i w
  turn takes_last i w = receive_last i w

  -- turns of both workers, and turns of one
  unfoldable pub turns : List (Worker × Turn) → Writer S → Writer S
  turns [] w = w
  turns ((i, t) ∷ ts) w = turns ts (turn t i w)

  unfoldable pub turns_of : Worker → List Turn → Writer S → Writer S
  turns_of i [] w = w
  turns_of i (t ∷ ts) w = turns_of i ts (turn t i w)

  -- `Stop`: behind the signal the workers take turns, `both` of them until `i` has its last flush and
  -- returns, then the other one `alone`; `Enqueue` waits for the lock all the while. The first call
  -- then goes on until the channel is empty, the second call returns at once.
  unfoldable pub stop : List (Worker × Turn) → Worker → List Turn → Writer S → Writer S
  stop both i alone w =
      let one = flush i (turns both (record w { stopped = true })) in
      let two = flush (other i) (turns_of (other i) alone one) in
      if w.stopped then w else save_each two.ch (record two { ch = [] })
