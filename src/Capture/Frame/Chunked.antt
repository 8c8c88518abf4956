-- ===== src/Capture/Frame/Chunked.antt =====
-- The scan for the end of a chunked body: its bounds, its fuel, and what more data does to it.
use packet_lab.Prelude.{
  ℕ, zero, suc, ◌+◌, ◌≤◌, ◌<◌, ◌≡◌, ◌≢◌, sym, ap, ◌∙◌, inl, inr, Option, some, ◌++◌, arith, ltb,
  ◌==◌, if◌then◌else◌, Bool-cases, Option-cases, length, length-append, take, drop, Bytes, index_of,
  trim_space, scan_hex, take-append, drop-append, get_or-append, index_of-append, index_of-le,
  lt→ltb, ltb→lt,
}
use packet_lab.Capture.Scan.{crlf}
use packet_lab.Capture.Frame.{
  ChunkEnd, found, missing, out_of_fuel, max_chunk, trailer_end, chunked_from,
}

-- what one round of the loop does with a size line, the recursive call left open
abbrev pub after_size : Bytes → ℕ → ℕ → ChunkEnd → ChunkEnd
after_size buf nl size later =
    if ltb max_chunk size
    then missing
    else if size == 0
    then trailer_end buf (nl + 2)
    else if ltb (length buf) (nl + 2 + size + 2)
    then missing
    else later

-- one round that reads a size line
module _ (fuel : ℕ) (buf : Bytes) (p : ℕ) where
  abbrev line_end : Option ℕ
  line_end = index_of crlf (drop p buf)

  abbrev size_at : ℕ → Option ℕ
  size_at nl = scan_hex (trim_space (take nl (drop p buf)))

  abbrev next_pos : ℕ → ℕ → ℕ
  next_pos nl size = p + nl + 2 + size + 2

  pub round :
      (nl size : ℕ)
      → p < length buf
      → line_end ≡ some nl
      → size_at nl ≡ some size
      → chunked_from (suc fuel) buf p
        ≡ after_size buf (p + nl) size (chunked_from fuel buf (next_pos nl size))
  unfolding chunked_from
  round nl size h e s = rw (lt→ltb p (length buf) h, e, s)

  -- A round that does not give up has read a size line.
  record Sized : Type 0 where
    nl : ℕ
    size : ℕ
    inside : p < length buf
    line : line_end ≡ some nl
    scanned : size_at nl ≡ some size

  round_sized : chunked_from (suc fuel) buf p ≢ missing → Sized
  unfolding chunked_from
  round_sized h = elim (Bool-cases (ltb p (length buf))) [
    | inl i ↦ elim (Option-cases line_end) [
      | inl e ↦ absurd (h (rw (i, e)))
      | inr (nl, e) ↦ elim (Option-cases (size_at nl)) [
        | inl s ↦ absurd (h (rw (i, e, s)))
        | inr (size, s) ↦ record {
          nl = nl;
          size = size;
          inside = ltb→lt p (length buf) i;
          line = e;
          scanned = s;
        }
      ]
    ]
    | inr i ↦ absurd (h (rw i))
  ]

trailer_bound : (buf : Bytes) (t e : ℕ) → trailer_end buf t ≡ found e → (t < e) × (e ≤ length buf)
unfolding trailer_end
trailer_bound buf t e h = ground arith

trailer_fuel : (buf : Bytes) (t : ℕ) → trailer_end buf t ≢ out_of_fuel
unfolding trailer_end
trailer_fuel buf t h = ground arith

trailer-append :
    (buf more : Bytes) (t e : ℕ)
    → trailer_end buf t ≡ found e
    → trailer_end (buf ++ more) t ≡ found e
unfolding trailer_end
trailer-append buf more t e h =
    ground
      (arith, length-append buf more, get_or-append buf more t 0, get_or-append buf more (t + 1) 0)

-- An end that is found lies behind the start of the scan and within the data.
pub chunked_bound :
    (f : ℕ) (buf : Bytes) (p e : ℕ) → chunked_from f buf p ≡ found e → (p < e) × (e ≤ length buf)
chunked_bound zero buf p e h = unfold chunked_from in cc
chunked_bound (suc f) buf p e h =
    let z = round_sized f buf p (λ m. cc) in
    let step = sym (round f buf p z.nl z.size z.inside z.line z.scanned) ∙ h in
    ground (
      arith,
      step,
      trailer_bound buf (p + z.nl + 2) e,
      chunked_bound f buf (p + z.nl + 2 + z.size + 2) e,
    )

-- With more fuel than there are bytes left the scan never runs out of it.
pub chunked_fuel :
    (f : ℕ) (buf : Bytes) (p : ℕ) → length buf ≤ p + f → chunked_from (suc f) buf p ≢ out_of_fuel
chunked_fuel zero buf p enough h =
    let z = round_sized 0 buf p (λ m. cc) in absurd (omega (arith, z.inside))
chunked_fuel (suc f) buf p enough h =
    let z = round_sized (suc f) buf p (λ m. cc) in
    let step = sym (round (suc f) buf p z.nl z.size z.inside z.line z.scanned) ∙ h in
    ground
      (arith, step, trailer_fuel buf (p + z.nl + 2), chunked_fuel f buf (p + z.nl + 2 + z.size + 2))

-- The size line that a round reads is the same when more data follows.
module _ (g f : ℕ) (buf more : Bytes) (p : ℕ) (z : Sized f buf p) where
  line-append : index_of crlf (drop p (buf ++ more)) ≡ some z.nl
  line-append =
      ap (index_of crlf) (drop-append p buf more (omega (arith, z.inside)))
      ∙ index_of-append crlf (drop p buf) more z.nl z.line

  size-append : size_at g (buf ++ more) p z.nl ≡ some z.size
  size-append =
      ap (λ s. scan_hex (trim_space (take z.nl s)))
        (drop-append p buf more (omega (arith, z.inside)))
      ∙ ap (λ s. scan_hex (trim_space s))
          (take-append z.nl (drop p buf) more
            (omega (arith, index_of-le crlf (drop p buf) z.nl z.line)))
      ∙ z.scanned

  round-append :
      chunked_from (suc g) (buf ++ more) p
      ≡ after_size
          (buf ++ more)
          (p + z.nl)
          z.size
          (chunked_from g (buf ++ more) (p + z.nl + 2 + z.size + 2))
  round-append =
      round g (buf ++ more) p z.nl z.size (omega (arith, z.inside, length-append buf more))
        line-append size-append

-- More data, and more fuel, do not move an end that was found.
pub chunked-append :
    (f g : ℕ) (buf more : Bytes) (p e : ℕ)
    → chunked_from f buf p ≡ found e
    → f ≤ g
    → chunked_from g (buf ++ more) p ≡ found e
chunked-append zero g buf more p e h le = unfold chunked_from in cc
chunked-append (suc f) zero buf more p e h le = absurd (omega arith)
chunked-append (suc f) (suc g) buf more p e h le =
    let z = round_sized f buf p (λ m. cc) in
    let step = sym (round f buf p z.nl z.size z.inside z.line z.scanned) ∙ h in
    round-append g f buf more p z
    ∙ ground (
      arith,
      step,
      length-append buf more,
      trailer-append buf more (p + z.nl + 2) e,
      chunked-append f g buf more (p + z.nl + 2 + z.size + 2) e,
    )
