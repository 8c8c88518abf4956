-- ===== src/Capture/Writer/Kept.antt =====
-- A flush loses no request but those whose last save fails, and counts what it stores.
use packet_lab.Prelude.{
  ℕ, zero, suc, ◌+◌, ◌≤◌, ◌≡◌, inl, inr, refl, sym, ap, subst, Bool, none, some, List, [], ◌∷◌,
  ◌++◌, arith, length, take, drop, Bool-cases, Option-cases, map, u64, add_u64, length-append,
  length-map, length-drop, take-append-drop,
}
use packet_lab.Models.{CapturedRequest}
use packet_lab.Storage.{Storage, IsTable, count, count-append, count-map}
use packet_lab.Ring.{Slot, MemRingBuffer, pop_batch}
use packet_lab.Capture.Writer.{
  Pool, chunk_size, with_ids, broadcast, attempts, save_each, store_chunk, store_chunks, flush_all,
}
use packet_lab.Capture.Writer.Attempts.{attempts_lem}

module _ {S Row : Type 0} (db : Storage S) (t : IsTable db Row) (stop_seen : ℕ → ℕ → Bool)
    (q : Row → Bool) where
  abbrev pub asks : CapturedRequest → Bool
  asks r = q (t.row_of r)

  -- the requests that pass the test, in the table and among the lost
  abbrev pub accounted : Pool S → ℕ
  accounted p = count q (t.rows p.store) + count asks p.lost

  -- What a part of the flush does with some requests: each is stored or lost, and the counter grows
  -- by the number of new rows.
  pub record Stores (reqs : List CapturedRequest) (p p2 : Pool S) : Type 0 where
    pub all_kept : accounted p2 ≡ accounted p + count asks reqs
    pub new_rows : ℕ
    pub rows_grow : length (t.rows p2.store) ≡ length (t.rows p.store) + new_rows
    pub counted : u64 p2.written ≡ add_u64 p.written new_rows

  each_saved :
      (r : CapturedRequest) (rs : List CapturedRequest) (p : Pool S) (n : ℕ)
      → (db.save r p.store).0 ≡ some n
      → (save_each db stop_seen (r ∷ rs) p).1
        ≡ (save_each db stop_seen rs
            (record p { store = (db.save r p.store).1; written = add_u64 p.written 1 })).1
  unfolding save_each
  each_saved r rs p n e = rw (save_each, e)

  each_lost :
      (r : CapturedRequest) (rs : List CapturedRequest) (p : Pool S)
      → (db.save r p.store).0 ≡ none
      → (save_each db stop_seen (r ∷ rs) p).1
        ≡ (save_each db stop_seen rs
            (record p { store = (db.save r p.store).1; lost = p.lost ++ (r ∷ []) })).1
  unfolding save_each
  each_lost r rs p e = rw (save_each, e)

  -- one part behind another
  both :
      {xs ys zs : List CapturedRequest} {a b c : Pool S}
      → zs ≡ xs ++ ys
      → Stores xs a b
      → Stores ys b c
      → Stores zs a c
  both {xs} {ys} {zs} {a} {b} {c} e f g = record {
    all_kept = omega (arith, f.all_kept, g.all_kept, ap (count asks) e, count-append asks xs ys);
    new_rows = f.new_rows + g.new_rows;
    rows_grow = omega (arith, f.rows_grow, g.rows_grow);
    counted = omega (arith, f.counted, g.counted);
  }

  nothing : (p : Pool S) → Stores [] p p
  nothing p = record {
    all_kept = omega arith;
    new_rows = 0;
    rows_grow = omega arith;
    counted = omega arith;
  }

  one_saved :
      (r : CapturedRequest) (p : Pool S) (n : ℕ)
      → (db.save r p.store).0 ≡ some n
      → Stores
          (r ∷ [])
          p
          (record p { store = (db.save r p.store).1; written = add_u64 p.written 1 })
  one_saved r p n e =
      let rows = t.saved r p.store n e in
      record {
        all_kept =
            omega (arith, ap (count q) rows, count-append q (t.rows p.store) (t.row_of r ∷ []));
        new_rows = 1;
        rows_grow = omega (arith, ap length rows, length-append (t.rows p.store) (t.row_of r ∷ []));
        counted = omega arith;
      }

  one_lost :
      (r : CapturedRequest) (p : Pool S)
      → (db.save r p.store).0 ≡ none
      → Stores (r ∷ []) p (record p { store = (db.save r p.store).1; lost = p.lost ++ (r ∷ []) })
  one_lost r p e =
      let rows = t.not_saved r p.store e in
      record {
        all_kept = omega (arith, ap (count q) rows, count-append asks p.lost (r ∷ []));
        new_rows = 0;
        rows_grow = omega (arith, ap length rows);
        counted = omega arith;
      }

  each_lem : (rs : List CapturedRequest) (p : Pool S) → Stores rs p (save_each db stop_seen rs p).1
  each_lem [] p = unfold save_each in nothing p
  each_lem (r ∷ rs) p = elim (Option-cases (db.save r p.store).0) [
    | inr (n, e) ↦
        let next = record p { store = (db.save r p.store).1; written = add_u64 p.written 1 } in
        subst (Stores (r ∷ rs) p) (sym (each_saved r rs p n e))
          (both refl (one_saved r p n e) (each_lem rs next))
    | inl e ↦
        let next = record p { store = (db.save r p.store).1; lost = p.lost ++ (r ∷ []) } in
        subst (Stores (r ∷ rs) p) (sym (each_lost r rs p e))
          (both refl (one_lost r p e) (each_lem rs next))
  ]

  -- a broadcast does not store
  broadcast_lem :
      (chunk rs : List CapturedRequest) (p p2 : Pool S)
      → Stores rs p p2
      → Stores rs p (broadcast chunk p2)
  unfolding broadcast
  broadcast_lem chunk rs p p2 s = elim (Bool-cases p2.has_hub) [
    | inl h ↦ simp (h) (record {
      all_kept = s.all_kept;
      new_rows = s.new_rows;
      rows_grow = s.rows_grow;
      counted = s.counted;
    })
    | inr h ↦ simp (h) s
  ]

  chunk_saved :
      (index : ℕ) (chunk : List CapturedRequest) (p : Pool S) (ids : List ℕ)
      → (attempts db stop_seen 3 index chunk p.store).0 ≡ some ids
      → store_chunk db stop_seen index chunk p
        ≡ broadcast (with_ids chunk ids) (record p {
          store = (attempts db stop_seen 3 index chunk p.store).1;
          written = add_u64 p.written (length ids);
        })
  unfolding store_chunk
  chunk_saved index chunk p ids e = rw (store_chunk, e)

  chunk_each :
      (index : ℕ) (chunk : List CapturedRequest) (p : Pool S)
      → (attempts db stop_seen 3 index chunk p.store).0 ≡ none
      → store_chunk db stop_seen index chunk p ≡ (
          let (c, p2) =
            save_each db stop_seen chunk
              (record p { store = (attempts db stop_seen 3 index chunk p.store).1 }) in
          broadcast c p2)
  unfolding store_chunk
  chunk_each index chunk p e = rw (store_chunk, e)

  chunk_lem :
      (index : ℕ) (chunk : List CapturedRequest) (p : Pool S)
      → Stores chunk p (store_chunk db stop_seen index chunk p)
  chunk_lem index chunk p = elim (attempts_lem db t stop_seen 3 index chunk p.store) [
    | inr (ids, e, tried) ↦ subst (Stores chunk p) (sym (chunk_saved index chunk p ids e)) (
        broadcast_lem (with_ids chunk ids) chunk p
          (record p {
            store = (attempts db stop_seen 3 index chunk p.store).1;
            written = add_u64 p.written (length ids);
          })
          (record {
            all_kept = omega (
              arith,
              ap (count q) tried.all_rows,
              count-append q (t.rows p.store) (map t.row_of chunk),
              count-map q t.row_of chunk,
            );
            new_rows = length chunk;
            rows_grow = omega (
              arith,
              ap length tried.all_rows,
              length-append (t.rows p.store) (map t.row_of chunk),
              length-map chunk t.row_of,
            );
            counted = omega (arith, tried.as_many);
          }))
    | inl (e, same) ↦
        let p1 = record p { store = (attempts db stop_seen 3 index chunk p.store).1 } in
        subst (Stores chunk p) (sym (chunk_each index chunk p e)) (
          broadcast_lem (save_each db stop_seen chunk p1).0 chunk p
            (save_each db stop_seen chunk p1).1
            (let rest = each_lem chunk p1 in
              record {
                all_kept = omega (arith, rest.all_kept, ap (count q) same);
                new_rows = rest.new_rows;
                rows_grow = omega (arith, rest.rows_grow, ap length same);
                counted = rest.counted;
              }))
  ]

  chunks_round :
      (fuel index : ℕ) (r : CapturedRequest) (rs : List CapturedRequest) (p : Pool S)
      → store_chunks db stop_seen (suc fuel) index (r ∷ rs) p
        ≡ store_chunks db stop_seen fuel
            (suc index)
            (drop chunk_size (r ∷ rs))
            (store_chunk db stop_seen index (take chunk_size (r ∷ rs)) p)
  unfolding store_chunks
  chunks_round fuel index r rs p = refl

  -- The loop over the chunks, with fuel for every request, stores or loses each request once.
  pub chunks_lem :
      (fuel index : ℕ) (reqs : List CapturedRequest) (p : Pool S)
      → length reqs ≤ fuel
      → Stores reqs p (store_chunks db stop_seen fuel index reqs p)
  chunks_lem zero index [] p enough = unfold store_chunks in nothing p
  chunks_lem zero index (r ∷ rs) p enough = absurd (omega arith)
  chunks_lem (suc fuel) index [] p enough = unfold store_chunks in nothing p
  chunks_lem (suc fuel) index (r ∷ rs) p enough =
      let chunk = take chunk_size (r ∷ rs) in
      let later = drop chunk_size (r ∷ rs) in
      subst (Stores (r ∷ rs) p) (sym (chunks_round fuel index r rs p)) (
        both (sym (take-append-drop chunk_size (r ∷ rs))) (chunk_lem index chunk p) (
          chunks_lem fuel (suc index) later (store_chunk db stop_seen index chunk p)
            (omega (arith, enough, length-drop chunk_size (r ∷ rs)))))

  flush_lem :
      (ring after : MemRingBuffer) (batch : List Slot) (p : Pool S)
      → pop_batch ring ≡ some (batch, after)
      → flush_all db stop_seen ring p
        ≡ some (
          after,
          store_chunks db stop_seen
              (length (map (λ (s : Slot). s.req) batch))
              0
              (map (λ s. s.req) batch)
              p,
        )
  unfolding flush_all
  flush_lem ring after batch p e = rw (flush_all, e)

  -- A flush that gets a batch from the ring buffer ends, and each of its requests is stored or lost,
  -- whatever the store answers and whenever the stop signal comes; `written` grows by the number of
  -- the new rows, modulo 2^64.
  pub flush_all-Stores :
      (ring after : MemRingBuffer) (batch : List Slot) (p : Pool S)
      → pop_batch ring ≡ some (batch, after)
      → (p2 : Pool S) × (flush_all db stop_seen ring p ≡ some (after, p2))
        × Stores (map (λ s. s.req) batch) p p2
  flush_all-Stores ring after batch p e =
      let reqs = map (λ (s : Slot). s.req) batch in
      (
        store_chunks db stop_seen (length reqs) 0 reqs p,
        flush_lem ring after batch p e,
        chunks_lem (length reqs) 0 reqs p (omega arith),
      )
