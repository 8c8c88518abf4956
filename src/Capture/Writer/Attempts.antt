-- ===== src/Capture/Writer/Attempts.antt =====
-- What the attempts with `SaveBatch` do to the table.
use packet_lab.Prelude.{
  ℕ, zero, suc, ◌≡◌, ◌⊎◌, inl, inr, refl, sym, ap, subst, ◌∙◌, Bool, true, false, Option, none,
  some, List, ◌++◌, length, Bool-cases, Option-cases, map,
}
use packet_lab.Models.{CapturedRequest}
use packet_lab.Storage.{Storage, IsTable}
use packet_lab.Capture.Writer.{attempts}

module _ {S Row : Type 0} (db : Storage S) (t : IsTable db Row) (stop_seen : ℕ → ℕ → Bool) where
  -- the chunk is stored, with an id for each request
  pub record Tried (chunk : List CapturedRequest) (s s2 : S) (ids : List ℕ) : Type 0 where
    pub all_rows : t.rows s2 ≡ t.rows s ++ map t.row_of chunk
    pub as_many : length ids ≡ length chunk

  attempt_ok :
      (n index : ℕ) (chunk : List CapturedRequest) (s : S) (ids : List ℕ)
      → (db.save_batch chunk s).0 ≡ some ids
      → attempts db stop_seen (suc n) index chunk s ≡ (some ids, (db.save_batch chunk s).1)
  unfolding attempts
  attempt_ok n index chunk s ids e = rw (attempts, e)

  attempt_stops :
      (n index : ℕ) (chunk : List CapturedRequest) (s : S)
      → (db.save_batch chunk s).0 ≡ none
      → stop_seen index n ≡ true
      → attempts db stop_seen (suc n) index chunk s ≡ (none, (db.save_batch chunk s).1)
  unfolding attempts
  attempt_stops n index chunk s e f = rw (attempts, e, f)

  attempt_again :
      (n index : ℕ) (chunk : List CapturedRequest) (s : S)
      → (db.save_batch chunk s).0 ≡ none
      → stop_seen index n ≡ false
      → attempts db stop_seen (suc n) index chunk s
        ≡ attempts db stop_seen n index chunk (db.save_batch chunk s).1
  unfolding attempts
  attempt_again n index chunk s e f = rw (attempts, e, f)

  abbrev pub Attempted : List CapturedRequest → S → Option (List ℕ) × S → Type 0
  Attempted chunk s (ids, s2) =
      ((ids ≡ none) × (t.rows s2 ≡ t.rows s))
      ⊎ ((is : List ℕ) × (ids ≡ some is) × Tried chunk s s2 is)

  -- the attempts store the chunk once or not at all
  pub attempts_lem :
      (n index : ℕ) (chunk : List CapturedRequest) (s : S)
      → Attempted chunk s (attempts db stop_seen n index chunk s)
  attempts_lem zero index chunk s = unfold attempts in inl (refl, refl)
  attempts_lem (suc n) index chunk s = elim (Option-cases (db.save_batch chunk s).0) [
    | inr (ids, e) ↦
        let (rows, many) = t.batch_saved chunk s ids e in
        subst (Attempted chunk s) (sym (attempt_ok n index chunk s ids e))
          (inr (ids, refl, record { all_rows = rows; as_many = many }))
    | inl e ↦ elim (Bool-cases (stop_seen index n)) [
      | inl f ↦
          subst (Attempted chunk s) (sym (attempt_stops n index chunk s e f))
            (inl (refl, t.batch_not_saved chunk s e))
      | inr f ↦
          subst (Attempted chunk s) (sym (attempt_again n index chunk s e f))
            (elim (attempts_lem n index chunk (db.save_batch chunk s).1) [
              | inl (failed, same) ↦ inl (failed, same ∙ t.batch_not_saved chunk s e)
              | inr (ids, ok, tried) ↦ inr (
                ids,
                ok,
                record {
                  all_rows =
                      tried.all_rows
                      ∙ ap (λ x. x ++ map t.row_of chunk) (t.batch_not_saved chunk s e);
                  as_many = tried.as_many;
                },
              )
            ])
    ]
  ]
