-- ===== src/Proxy/Batch/Stopped.antt =====
-- What `Stop` of the batch writer leaves: nothing in the channel and in the batches.
use packet_lab.Prelude.{
  leb, length, if◌then◌else◌, ℕ, zero, suc, ◌+◌, ◌≡◌, inl, inr, refl, ap, ◌∙◌, Bool, true, false,
  List, [], ◌∷◌, arith, Option-cases, List-cases,
}
use packet_lab.Models.{CapturedRequest}
use packet_lab.Storage.{Storage, IsTable, count}
use packet_lab.Proxy.Batch.{
  Worker, first, second, batch_of, put_batch, Writer, save_sync, save_each, attempt, flush,
  take_one, Turn, collects, fires, takes_last, other, turn, turns, turns_of, stop,
}
use packet_lab.Proxy.Batch.Kept.{
  accounted, asks, sync_failed, sync_saved, save_each_lem, attempt_saved, attempt_again,
  flush_empty, flush_some, flush_lem, receive_lem, receive_cons, receive_none, receive_last_lem,
  last_cons, last_none,
}

module _ {S Row : Type 0} (db : Storage S) (t : IsTable db Row) (q : Row → Bool) where
  abbrev batches : Writer S → List CapturedRequest × List CapturedRequest
  batches w = (w.first_batch, w.second_batch)

  -- the batches that a flush leaves
  batches-save_each :
      (rs : List CapturedRequest) (w : Writer S) → batches (save_each db rs w) ≡ batches w
  unfolding save_each
  batches-save_each [] w = refl
  batches-save_each (r ∷ rs) w = batches-save_each rs (save_sync db r w) ∙ sync r w
    where
      sync : (r : CapturedRequest) (w : Writer S) → batches (save_sync db r w) ≡ batches w
      sync r w = elim (Option-cases (db.save r w.store).0) [
        | inl e ↦ ap batches (sync_failed db t q r w e)
        | inr (n, e) ↦ ap batches (sync_saved db t q r w n e)
      ]

  batches-attempt :
      (n : ℕ) (b : List CapturedRequest) (w : Writer S) → batches (attempt db n b w) ≡ batches w
  batches-attempt zero b w = unfold attempt in batches-save_each b w
  batches-attempt (suc n) b w = elim (Option-cases (db.save_batch b w.store).0) [
    | inl e ↦
        ap batches (attempt_again db t q n b w e)
        ∙ batches-attempt n b (record w { store = (db.save_batch b w.store).1 })
    | inr (ids, e) ↦ ap batches (attempt_saved db t q n b w ids e)
  ]

  -- a flush empties the worker's batch and leaves the other's
  batches-flush : (i : Worker) (w : Writer S) → batches (flush db i w) ≡ batches (put_batch i [] w)
  batches-flush i w = elim (List-cases (batch_of i w)) [
    | inl e ↦ ap batches (flush_empty db t q i w e) ∙ same i e
    | inr (r, rs, e) ↦
        ap batches (flush_some db t q i w r rs e) ∙ batches-attempt 3 (r ∷ rs) (put_batch i [] w)
  ]
    where
      same : (i : Worker) → batch_of i w ≡ [] → batches w ≡ batches (put_batch i [] w)
      same first e = ap (λ b. (b, w.second_batch)) e
      same second e = ap (λ b. (w.first_batch, b)) e

  turn_lem :
      (u : Turn) (i : Worker) (w : Writer S) → accounted db t q (turn db u i w) ≡ accounted db t q w
  unfolding turn
  turn_lem collects i w = receive_lem db t q i w
  turn_lem fires i w = flush_lem db t q i w
  turn_lem takes_last i w = receive_last_lem db t q i w

  turns_lem :
      (us : List (Worker × Turn)) (w : Writer S)
      → accounted db t q (turns db us w) ≡ accounted db t q w
  unfolding turns
  turns_lem [] w = refl
  turns_lem ((i, u) ∷ us) w = turns_lem us (turn db u i w) ∙ turn_lem u i w

  turns_of_lem :
      (i : Worker) (us : List Turn) (w : Writer S)
      → accounted db t q (turns_of db i us w) ≡ accounted db t q w
  unfolding turns_of
  turns_of_lem i [] w = refl
  turns_of_lem i (u ∷ us) w = turns_of_lem i us (turn db u i w) ∙ turn_lem u i w

  flush_empties : (i : Worker) (w : Writer S) → batch_of i (flush db i w) ≡ []
  flush_empties first w = ap (λ b. b.0) (batches-flush first w)
  flush_empties second w = ap (λ b. b.1) (batches-flush second w)

  -- a worker does not touch the batch of the other
  flush_apart : (i : Worker) (w : Writer S) → batch_of i (flush db (other i) w) ≡ batch_of i w
  flush_apart first w = ap (λ b. b.0) (batches-flush second w)
  flush_apart second w = ap (λ b. b.1) (batches-flush first w)

  take_apart :
      (i : Worker) (r : CapturedRequest) (rest : List CapturedRequest) (w : Writer S)
      → batch_of i (take_one db (other i) r rest w) ≡ batch_of i w
  take_apart first r rest w = refl
  take_apart second r rest w = refl

  if_apart :
      (i : Worker) (b : Bool) (x y : Writer S) (rs : List CapturedRequest)
      → batch_of i x ≡ rs
      → batch_of i y ≡ rs
      → batch_of i (if b then x else y) ≡ rs
  if_apart i true x y rs h k = h
  if_apart i false x y rs h k = k

  turn_apart :
      (u : Turn) (i : Worker) (w : Writer S) → batch_of i (turn db u (other i) w) ≡ batch_of i w
  unfolding turn
  turn_apart fires i w = flush_apart i w
  turn_apart takes_last i w = elim (List-cases w.ch) [
    | inl e ↦ ap (batch_of i) (last_none db t q (other i) w e)
    | inr (r, rest, e) ↦
        ap (batch_of i) (last_cons db t q (other i) w r rest e) ∙ take_apart i r rest w
  ]
  turn_apart collects i w = elim (List-cases w.ch) [
    | inl e ↦ ap (batch_of i) (receive_none db t q (other i) w e)
    | inr (r, rest, e) ↦
        let next = take_one db (other i) r rest w in
        ap (batch_of i) (receive_cons db t q (other i) w r rest e)
        ∙ if_apart i (leb w.batch_size (length (batch_of (other i) next))) (flush db (other i) next)
            next (batch_of i w) (flush_apart i next ∙ take_apart i r rest w) (take_apart i r rest w)
  ]

  turns_apart :
      (us : List Turn) (i : Worker) (w : Writer S)
      → batch_of i (turns_of db (other i) us w) ≡ batch_of i w
  unfolding turns_of
  turns_apart [] i w = refl
  turns_apart (u ∷ us) i w = turns_apart us i (turn db u (other i) w) ∙ turn_apart u i w

  ch-save_each : (rs : List CapturedRequest) (w : Writer S) → (save_each db rs w).ch ≡ w.ch
  unfolding save_each
  ch-save_each [] w = refl
  ch-save_each (r ∷ rs) w = ch-save_each rs (save_sync db r w) ∙ ch-save_sync
    where
      ch-save_sync : (save_sync db r w).ch ≡ w.ch
      ch-save_sync = elim (Option-cases (db.save r w.store).0) [
        | inl e ↦ ap (λ x. x.ch) (sync_failed db t q r w e)
        | inr (n, e) ↦ ap (λ x. x.ch) (sync_saved db t q r w n e)
      ]

  batches_empty :
      (i : Worker) (w : Writer S)
      → batch_of i w ≡ []
      → batch_of (other i) w ≡ []
      → batches w ≡ ([], [])
  batches_empty first w h k = ap (λ b. (b, w.second_batch)) h ∙ ap (λ b. ([], b)) k
  batches_empty second w h k = ap (λ b. (w.first_batch, b)) h ∙ ap (λ b. (b, [])) k

  module _ (both : List (Worker × Turn)) (i : Worker) (alone : List Turn) (w : Writer S) where
    abbrev one : Writer S
    one = flush db i (turns db both (record w { stopped = true }))

    abbrev two : Writer S
    two = flush db (other i) (turns_of db (other i) alone one)

    stop_at :
        w.stopped ≡ false → stop db both i alone w ≡ save_each db two.ch (record two { ch = [] })
    unfolding stop
    stop_at e = simp (stop, e)

    two_empty : batches two ≡ ([], [])
    two_empty =
        batches_empty i two
          (flush_apart i (turns_of db (other i) alone one)
            ∙ turns_apart alone i one
            ∙ flush_empties i (turns db both (record w { stopped = true })))
          (flush_empties (other i) (turns_of db (other i) alone one))

    two_lem : accounted db t q two ≡ accounted db t q w
    two_lem =
        flush_lem db t q (other i) (turns_of db (other i) alone one)
        ∙ turns_of_lem (other i) alone one
        ∙ flush_lem db t q i (turns db both (record w { stopped = true }))
        ∙ turns_lem both (record w { stopped = true })

    -- `Stop` of a writer that runs, in whatever turns its workers take and flush requests until each
    -- returns, leaves nothing in the channel and in the batches: every request, told apart by any
    -- test, is in the table or in the error log of saves that failed.
    pub stop_stores :
        w.stopped ≡ false
        → ((stop db both i alone w).ch ≡ [])
          × ((stop db both i alone w).first_batch ≡ [])
          × ((stop db both i alone w).second_batch ≡ [])
          × (count q (t.rows (stop db both i alone w).store)
                + count (asks db t q) (stop db both i alone w).failed
              ≡ accounted db t q w)
    stop_stores e =
        let at_end = stop_at e in
        let empty = batches-save_each two.ch (record two { ch = [] }) ∙ two_empty in
        let no_ch = ap (λ x. x.ch) at_end ∙ ch-save_each two.ch (record two { ch = [] }) in
        let no_first = ap (λ x. x.first_batch) at_end ∙ ap (λ b. b.0) empty in
        let no_second = ap (λ x. x.second_batch) at_end ∙ ap (λ b. b.1) empty in
        (
          no_ch,
          no_first,
          no_second,
          omega (
            arith,
            ap (accounted db t q) at_end,
            save_each_lem db t q two.ch (record two { ch = [] }),
            two_lem,
            ap (count (asks db t q)) no_ch,
            ap (count (asks db t q)) no_first,
            ap (count (asks db t q)) no_second,
          ),
        )
