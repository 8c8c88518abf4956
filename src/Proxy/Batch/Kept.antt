-- ===== src/Proxy/Batch/Kept.antt =====
-- No request is lost or stored twice by the batch writer.
use packet_lab.Prelude.{
  ℕ, zero, suc, ◌+◌, ◌≡◌, inl, inr, ap, ◌∙◌, Bool, true, false, none, some, List, [], ◌∷◌, ◌++◌,
  arith, ltb, leb, if◌then◌else◌, length, Option-cases, List-cases, map,
}
use packet_lab.Models.{CapturedRequest}
use packet_lab.Storage.{Storage, IsTable, count, count-append, count-map}
use packet_lab.Proxy.Batch.{
  Worker, first, second, batch_of, put_batch, Writer, channel_capacity, save_sync, save_each,
  enqueue, attempt, flush, take_one, receive, receive_last, Step, enqueues, receives, ticks, stops,
  drains, exits, run_step, run_steps, with_ids,
}

module _ {S Row : Type 0} (db : Storage S) (t : IsTable db Row) (q : Row → Bool) where
  abbrev pub asks : CapturedRequest → Bool
  asks r = q (t.row_of r)

  abbrev pub one : CapturedRequest → ℕ
  one r = if asks r then 1 else 0

  -- the requests that pass the test, in the table, in the error log, in the channel and in the batches
  abbrev pub accounted : Writer S → ℕ
  accounted w =
      count q (t.rows w.store)
      + count asks w.failed
      + count asks w.ch
      + (count asks w.first_batch + count asks w.second_batch)

  pub sync_failed :
      (r : CapturedRequest) (w : Writer S)
      → (db.save r w.store).0 ≡ none
      → save_sync db r w ≡ record w { store = (db.save r w.store).1; failed = w.failed ++ (r ∷ []) }
  unfolding save_sync
  sync_failed r w e = rw (save_sync, e)

  pub sync_saved :
      (r : CapturedRequest) (w : Writer S) (n : ℕ)
      → (db.save r w.store).0 ≡ some n
      → save_sync db r w ≡ record w {
        store = (db.save r w.store).1;
        notified = w.notified ++ (record r { id = n } ∷ []);
      }
  unfolding save_sync
  sync_saved r w n e = rw (save_sync, e)

  save_sync_lem :
      (r : CapturedRequest) (w : Writer S) → accounted (save_sync db r w) ≡ accounted w + one r
  save_sync_lem r w = elim (Option-cases (db.save r w.store).0) [
    | inl e ↦
        ap accounted (sync_failed r w e)
        ∙ omega (arith, ap (count q) (t.not_saved r w.store e), count-append asks w.failed (r ∷ []))
    | inr (n, e) ↦
        ap accounted (sync_saved r w n e)
        ∙ omega (
          arith,
          ap (count q) (t.saved r w.store n e),
          count-append q (t.rows w.store) (t.row_of r ∷ []),
        )
  ]

  pub save_each_lem :
      (rs : List CapturedRequest) (w : Writer S)
      → accounted (save_each db rs w) ≡ accounted w + count asks rs
  unfolding save_each
  save_each_lem [] w = omega arith
  save_each_lem (r ∷ rs) w = omega (arith, save_each_lem rs (save_sync db r w), save_sync_lem r w)

  pub attempt_saved :
      (n : ℕ) (b : List CapturedRequest) (w : Writer S) (ids : List ℕ)
      → (db.save_batch b w.store).0 ≡ some ids
      → attempt db (suc n) b w
        ≡ record w { store = (db.save_batch b w.store).1; notified = w.notified ++ with_ids b ids }
  unfolding attempt
  attempt_saved n b w ids e = rw (attempt, e)

  pub attempt_again :
      (n : ℕ) (b : List CapturedRequest) (w : Writer S)
      → (db.save_batch b w.store).0 ≡ none
      → attempt db (suc n) b w ≡ attempt db n b (record w { store = (db.save_batch b w.store).1 })
  unfolding attempt
  attempt_again n b w e = rw (attempt, e)

  -- the attempts and the fallback store a batch once
  attempt_lem :
      (n : ℕ) (b : List CapturedRequest) (w : Writer S)
      → accounted (attempt db n b w) ≡ accounted w + count asks b
  attempt_lem zero b w = unfold attempt in save_each_lem b w
  attempt_lem (suc n) b w = elim (Option-cases (db.save_batch b w.store).0) [
    | inl e ↦
        ap accounted (attempt_again n b w e)
        ∙ omega (
          arith,
          attempt_lem n b (record w { store = (db.save_batch b w.store).1 }),
          ap (count q) (t.batch_not_saved b w.store e),
        )
    | inr (ids, e) ↦
        ap accounted (attempt_saved n b w ids e)
        ∙ omega (
          arith,
          ap (count q) (t.batch_saved b w.store ids e).0,
          count-append q (t.rows w.store) (map t.row_of b),
          count-map q t.row_of b,
        )
  ]

  put_batch_lem :
      (i : Worker) (b : List CapturedRequest) (w : Writer S)
      → accounted (put_batch i b w) + count asks (batch_of i w) ≡ accounted w + count asks b
  put_batch_lem first b w = omega arith
  put_batch_lem second b w = omega arith

  pub flush_empty : (i : Worker) (w : Writer S) → batch_of i w ≡ [] → flush db i w ≡ w
  unfolding flush
  flush_empty i w e = rw (flush, e)

  pub flush_some :
      (i : Worker) (w : Writer S) (r : CapturedRequest) (rs : List CapturedRequest)
      → batch_of i w ≡ r ∷ rs
      → flush db i w ≡ attempt db 3 (r ∷ rs) (put_batch i [] w)
  unfolding flush
  flush_some i w r rs e = rw (flush, e)

  pub flush_lem : (i : Worker) (w : Writer S) → accounted (flush db i w) ≡ accounted w
  flush_lem i w = elim (List-cases (batch_of i w)) [
    | inl e ↦ ap accounted (flush_empty i w e)
    | inr (r, rs, e) ↦
        ap accounted (flush_some i w r rs e)
        ∙ omega (
          arith,
          attempt_lem 3 (r ∷ rs) (put_batch i [] w),
          put_batch_lem i [] w,
          ap (count asks) e,
        )
  ]

  take_one_lem :
      (i : Worker) (r : CapturedRequest) (rest : List CapturedRequest) (w : Writer S)
      → w.ch ≡ r ∷ rest
      → accounted (take_one db i r rest w) ≡ accounted w
  take_one_lem first r rest w e =
      omega (arith, ap (count asks) e, count-append asks w.first_batch (r ∷ []))
  take_one_lem second r rest w e =
      omega (arith, ap (count asks) e, count-append asks w.second_batch (r ∷ []))

  pub receive_cons :
      (i : Worker) (w : Writer S) (r : CapturedRequest) (rest : List CapturedRequest)
      → w.ch ≡ r ∷ rest
      → receive db i w ≡ (
          if leb w.batch_size (length (batch_of i (take_one db i r rest w)))
          then flush db i (take_one db i r rest w)
          else take_one db i r rest w)
  unfolding receive
  receive_cons i w r rest e = simp (receive, e)

  pub receive_none : (i : Worker) (w : Writer S) → w.ch ≡ [] → receive db i w ≡ w
  unfolding receive
  receive_none i w e = simp (receive, e)

  if_lem :
      (b : Bool) (x y : Writer S) (n : ℕ)
      → accounted x ≡ n
      → accounted y ≡ n
      → accounted (if b then x else y) ≡ n
  if_lem true x y n p q = p
  if_lem false x y n p q = q

  pub receive_lem : (i : Worker) (w : Writer S) → accounted (receive db i w) ≡ accounted w
  receive_lem i w = elim (List-cases w.ch) [
    | inl e ↦ ap accounted (receive_none i w e)
    | inr (r, rest, e) ↦
        let next = take_one db i r rest w in
        ap accounted (receive_cons i w r rest e)
        ∙ if_lem (leb w.batch_size (length (batch_of i next))) (flush db i next) next (accounted w)
            (flush_lem i next ∙ take_one_lem i r rest w e) (take_one_lem i r rest w e)
  ]

  pub last_cons :
      (i : Worker) (w : Writer S) (r : CapturedRequest) (rest : List CapturedRequest)
      → w.ch ≡ r ∷ rest
      → receive_last db i w ≡ take_one db i r rest w
  unfolding receive_last
  last_cons i w r rest e = simp (receive_last, e)

  pub last_none : (i : Worker) (w : Writer S) → w.ch ≡ [] → receive_last db i w ≡ w
  unfolding receive_last
  last_none i w e = simp (receive_last, e)

  pub receive_last_lem : (i : Worker) (w : Writer S) → accounted (receive_last db i w) ≡ accounted w
  receive_last_lem i w = elim (List-cases w.ch) [
    | inl e ↦ ap accounted (last_none i w e)
    | inr (r, rest, e) ↦ ap accounted (last_cons i w r rest e) ∙ take_one_lem i r rest w e
  ]

  enqueue_lem :
      (r : CapturedRequest) (w : Writer S) → accounted (enqueue db r w) ≡ accounted w + one r
  unfolding enqueue
  enqueue_lem r w =
      if_lem w.stopped (save_sync db r w)
        (if ltb (length w.ch) channel_capacity
          then record w { ch = w.ch ++ (r ∷ []) }
          else save_sync db r w)
        (accounted w + one r) (save_sync_lem r w)
        (if_lem (ltb (length w.ch) channel_capacity) (record w { ch = w.ch ++ (r ∷ []) })
          (save_sync db r w) (accounted w + one r) (omega (arith, count-append asks w.ch (r ∷ [])))
          (save_sync_lem r w))

  -- how many requests that pass the test a step brings
  abbrev pub brought : Step db → ℕ
  brought (enqueues r) = one r
  brought (receives i) = 0
  brought (ticks i) = 0
  brought stops = 0
  brought (drains i) = 0
  brought (exits i) = 0

  step_lem : (s : Step db) (w : Writer S) → accounted (run_step db s w) ≡ accounted w + brought s
  unfolding run_step
  step_lem (enqueues r) w = enqueue_lem r w
  step_lem (receives i) w = omega (arith, receive_lem i w)
  step_lem (ticks i) w = omega (arith, flush_lem i w)
  step_lem stops w = omega arith
  step_lem (drains i) w = omega (arith, receive_last_lem i w)
  step_lem (exits i) w = omega (arith, flush_lem i w)

  abbrev pub brought_by : List (Step db) → ℕ
  brought_by [] = 0
  brought_by (s ∷ ss) = brought s + brought_by ss

  -- Whatever the goroutines do, in whatever order, and whatever the store answers: of the requests
  -- that pass a test, as many as were enqueued are in the table, in the channel, in the batches of
  -- the workers, and in the error log of saves that failed.
  pub run_keeps :
      (ss : List (Step db)) (w : Writer S)
      → accounted (run_steps db ss w) ≡ accounted w + brought_by ss
  unfolding run_steps
  run_keeps [] w = omega arith
  run_keeps (s ∷ ss) w = omega (arith, run_keeps ss (run_step db s w), step_lem s w)
