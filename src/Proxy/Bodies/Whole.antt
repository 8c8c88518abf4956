-- ===== src/Proxy/Bodies/Whole.antt =====
-- `readBodyBounded` at every limit.
use packet_lab.Prelude.{
  ◌-◌, ◌^◌, ℕ, zero, suc, ◌≤◌, ◌<◌, ◌≡◌, ◌↔◌, refl, sym, ap, ◌∙◌, true, false, Option, none, some,
  [], ◌∷◌, ◌++◌, ltb, leb, length, take, drop, Bytes, arith, Bool-cases, inl, inr, append_assoc,
  take-append-drop, length-take,
}
use packet_lab.Prelude.Int.{ℤ, pos, negsuc}
use packet_lab.Proxy.Bodies.{
  Ending, at_eof, error_behind, error_with_last, Reader, Bounded, meets_error, read_limited,
  plus_one, cut_head, read_body_bounded,
}

abbrev left : Option Reader → Bytes
left none = []
left (some r) = r.content

abbrev ending_of : Option Reader → Reader → Ending
ending_of none r = r.ending
ending_of (some q) r = q.ending

-- a read up to `n` bytes sees the error of the reader
pub data Meets (n : ℕ) (r : Reader) : Type 0 where
  behind : r.ending ≡ error_behind → length r.content < n → Meets n r
  with_last : r.ending ≡ error_with_last → length r.content ≤ n → Meets n r

-- the record's part and the rest are the body
pub record Keeps (r : Reader) (limit : ℕ) (b : Bounded) : Type 0 where
  pub whole : b.head ++ left b.rest ≡ r.content
  pub failure : (b.failed ≡ true) ↔ Meets (suc limit) r
  pub cut : (b.truncated ≡ true) ↔ ((b.failed ≡ false) × (limit < length r.content))
  pub short : b.failed ≡ false → length b.head ≤ limit
  pub all_read : b.failed ≡ true → b.head ≡ r.content
  pub sound : b.rest ≡ none → r.ending ≡ at_eof
  pub goes_on : (q : Reader) → b.rest ≡ some q → q.ending ≡ r.ending

-- what comes of a limit: all is kept, or nothing is read, or the code panics
pub data Reads (r : Reader) : ℤ → Option Bounded → Type 0 where
  keeps :
      (limit : ℕ) (b : Bounded)
      → limit < 2 ^ 63 - 1
      → Keeps r limit b
      → Reads r (pos limit) (some b)
  loses :
      (limit : ℕ)
      → 2 ^ 63 - 1 ≤ limit
      → Reads r
          (pos limit)
          (some (record { head = []; rest = none; truncated = false; failed = false }))
  panics : (n : ℕ) → Reads r (negsuc n) none

drop_long : (n : ℕ) (xs : Bytes) → length xs ≤ n → drop n xs ≡ []
drop_long zero [] le = refl
drop_long (suc n) [] le = refl
drop_long zero (x ∷ xs) le = absurd (omega arith)
drop_long (suc n) (x ∷ xs) le = drop_long n xs (omega arith)

take_long : (n : ℕ) (xs : Bytes) → length xs ≤ n → take n xs ≡ xs
take_long zero [] le = refl
take_long (suc n) [] le = refl
take_long zero (x ∷ xs) le = absurd (omega arith)
take_long (suc n) (x ∷ xs) le = ap (λ ys. x ∷ ys) (take_long n xs (omega arith))

meets_error_iff : (n : ℕ) (r : Reader) → (meets_error n r ≡ true) ↔ Meets n r
unfolding meets_error
meets_error_iff n r = go r.ending refl
  where
    go :
        (e : Ending)
        → r.ending ≡ e
        → (elim e [
          | at_eof ↦ false
          | error_behind ↦ ltb (length r.content) n
          | error_with_last ↦ leb (length r.content) n
        ]
            ≡ true)
          ↔ Meets n r
    go at_eof same = (λ h. cc, λ m. elim m [ behind e lt ↦ cc | with_last e le ↦ cc ])
    go error_behind same = (
      λ h. behind same (ground arith),
      λ m. elim m [ behind e lt ↦ ground arith | with_last e le ↦ cc ],
    )
    go error_with_last same = (
      λ h. with_last same (ground arith),
      λ m. elim m [ behind e lt ↦ cc | with_last e le ↦ ground arith ],
    )

-- a body that is read without meeting an error has none
fine_lem :
    (n : ℕ) (r : Reader) → meets_error (suc n) r ≡ false → length r.content ≤ n → r.ending ≡ at_eof
fine_lem n r h le = go r.ending refl
  where
    no_meets : Meets (suc n) r → r.ending ≡ at_eof
    no_meets m = let yes = (meets_error_iff (suc n) r).1 m in cc

    go : (e : Ending) → r.ending ≡ e → r.ending ≡ at_eof
    go at_eof same = same
    go error_behind same = no_meets (behind same (omega arith))
    go error_with_last same = no_meets (with_last same (omega arith))

Meets-length : (n : ℕ) (r : Reader) → Meets n r → length r.content ≤ n
Meets-length n r (behind e lt) = omega arith
Meets-length n r (with_last e le) = le

module _ (r : Reader) (limit : ℕ) where
  abbrev front : Bytes
  front = take (suc limit) r.content

  abbrev rest : Bytes
  rest = drop (suc limit) r.content

  all : front ++ rest ≡ r.content
  all = take-append-drop (suc limit) r.content

  -- a read that meets the error
  failed_Keeps :
      meets_error (suc limit) r ≡ true
      → Keeps r limit (record {
        head = front;
        rest = some (record r { content = rest });
        truncated = false;
        failed = true;
      })
  failed_Keeps h =
      let met = (meets_error_iff (suc limit) r).0 h in
      record {
        whole = all;
        failure = (λ _. met, λ _. refl);
        cut = (λ e. cc, λ e. cc (e.0));
        short = λ e. cc;
        all_read = λ _. take_long (suc limit) r.content (Meets-length (suc limit) r met);
        sound = λ e. cc;
        goes_on = λ q e. sym (ap (λ o. ending_of o r) e);
      }

  -- a read that does not, of a body that is longer
  cut_Keeps :
      meets_error (suc limit) r ≡ false
      → limit < length r.content
      → Keeps r limit (record {
        head = take limit front;
        rest = some (record r { content = drop limit front ++ rest });
        truncated = true;
        failed = false;
      })
  cut_Keeps h long = record {
    whole =
        sym (append_assoc (take limit front) (drop limit front) rest)
        ∙ ap (λ u. u ++ rest) (take-append-drop limit front)
        ∙ all;
    failure = (λ e. cc, λ met. let yes = (meets_error_iff (suc limit) r).1 met in cc);
    cut = (λ _. (refl, long), λ _. refl);
    short = λ _. omega (arith, length-take limit front);
    all_read = λ e. cc;
    sound = λ e. cc;
    goes_on = λ q e. sym (ap (λ o. ending_of o r) e);
  }

  -- a read of all
  full_Keeps :
      meets_error (suc limit) r ≡ false
      → length r.content ≤ limit
      → Keeps r limit (record { head = front; rest = none; truncated = false; failed = false })
  full_Keeps h fits = record {
    whole = ap (◌++◌ front) (sym (drop_long (suc limit) r.content (omega arith))) ∙ all;
    failure = (λ e. cc, λ met. let yes = (meets_error_iff (suc limit) r).1 met in cc);
    cut = (λ e. cc, λ (_, long). absurd (omega arith));
    short = λ _. omega (arith, length-take (suc limit) r.content);
    all_read = λ e. cc;
    sound = λ _. fine_lem limit r h fits;
    goes_on = λ q e. cc;
  }

  small_Reads : limit < 2 ^ 63 - 1 → Reads r (pos limit) (read_body_bounded (some r) (pos limit))
  unfolding read_body_bounded read_limited plus_one cut_head
  small_Reads lt =
      let small : ltb limit (2 ^ 63 - 1) ≡ true = ground arith in
      elim (Bool-cases (meets_error (suc limit) r)) [
        | inl met ↦ rw (small, met) (keeps limit _ lt (failed_Keeps met))
        | inr fine ↦ elim (Bool-cases (ltb limit (length front))) [
          | inl long ↦
              rw (small, fine, long)
                (keeps limit _ lt
                  (cut_Keeps fine (ground (arith, length-take (suc limit) r.content))))
          | inr fits ↦
              rw (small, fine, fits)
                (keeps limit _ lt
                  (full_Keeps fine (ground (arith, length-take (suc limit) r.content))))
        ]
      ]

  large_Reads : 2 ^ 63 - 1 ≤ limit → Reads r (pos limit) (read_body_bounded (some r) (pos limit))
  unfolding read_body_bounded read_limited plus_one cut_head
  large_Reads le =
      let large : ltb limit (2 ^ 63 - 1) ≡ false = ground arith in
      let short : ltb limit 0 ≡ false = ground arith in rw (large, short) (loses limit le)

negative_Reads : (r : Reader) (n : ℕ) → Reads r (negsuc n) (read_body_bounded (some r) (negsuc n))
unfolding read_body_bounded read_limited plus_one cut_head
negative_Reads r zero = panics zero
negative_Reads r (suc n) = panics (suc n)

-- At a limit from 0 up to below the largest int64, `readBodyBounded` loses nothing of a body that is
-- not nil: what it takes and the rest are the body. It fails exactly if a read of one byte more than
-- the limit meets the reader's error, and has all of the body then, which may be one byte more than
-- the limit; else it takes at most the limit, says that the body is truncated exactly if it is longer,
-- and leaves no rest only if the reader ends without an error. At the largest int64 the limit wraps and
-- nothing is read, though the body counts as read whole; at a negative limit it panics.
pub read_body_bounded-Reads :
    (r : Reader) (limit : ℤ) → Reads r limit (read_body_bounded (some r) limit)
read_body_bounded-Reads r (pos limit) = elim (Bool-cases (ltb limit (2 ^ 63 - 1))) [
  | inl small ↦ small_Reads r limit (ground arith)
  | inr large ↦ large_Reads r limit (ground arith)
]
read_body_bounded-Reads r (negsuc n) = negative_Reads r n
