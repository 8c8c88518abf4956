-- ===== src/Capture/Frame/Roundtrip.antt =====
-- A body that a sender wrote in chunks is cut exactly where the sender ended it.
use packet_lab.Prelude.{
  ℕ, zero, suc, ◌+◌, ◌≤◌, ◌<◌, ◌≡◌, ◌≢◌, refl, sym, ap, ◌∙◌, some, List, [], ◌∷◌, ◌++◌,
  append_assoc, arith, length, length-append, get_or, take, drop, Bytes, All, index_of, trim_space,
  scan_hex, drop-add, drop-length-append, take-length-append, get_or-drop, index_of_skip,
}
use packet_lab.Capture.Scan.{cr, lf, crlf}
use packet_lab.Capture.Frame.{found, max_chunk, trailer_end, chunked_from, find_chunked_end}
use packet_lab.Capture.Frame.Chunked.{after_size, round}

-- a chunk as it is sent: its size line, extensions included, and its body
pub record Piece : Type 0 where
  pub line : Bytes
  pub body : Bytes

-- a line that has no CR and scans as the size `n`
pub record SaysSize (line : Bytes) (n : ℕ) : Type 0 where
  pub one_line : All (λ b. b ≢ cr) line
  pub scans : scan_hex (trim_space line) ≡ some n

pub record IsChunk (c : Piece) : Type 0 where
  pub sized : SaysSize c.line (length c.body)
  pub some_bytes : 0 < length c.body
  pub not_large : length c.body ≤ max_chunk

abbrev pub sent : Piece → Bytes
sent c = c.line ++ (crlf ++ (c.body ++ crlf))

abbrev pub encode : List Piece → Bytes → Bytes
encode [] last = last ++ (crlf ++ crlf)
encode (c ∷ cs) last = sent c ++ encode cs last

module _ (buf : Bytes) (p : ℕ) (line after : Bytes) (n : ℕ) where
  -- where the scan stands at a size line
  record At : Type 0 where
    here : drop p buf ≡ line ++ (crlf ++ after)
    fits : p + length (line ++ (crlf ++ after)) ≡ length buf
    says : SaysSize line n

  at_line :
      (f : ℕ)
      → At
      → chunked_from (suc f) buf p
        ≡ after_size buf (p + length line) n (chunked_from f buf (p + length line + 2 + n + 2))
  at_line f a =
      round f buf p (length line) n (omega (arith, a.fits, length-append line (crlf ++ after)))
        (ap (index_of crlf) a.here ∙ index_of_skip cr (lf ∷ []) line after a.says.one_line)
        (ap (λ s. scan_hex (trim_space (take (length line) s))) a.here
          ∙ ap (λ s. scan_hex (trim_space s)) (take-length-append line (crlf ++ after))
          ∙ a.says.scans)

  -- the byte at `i` behind the size line
  byte_after : At → (i : ℕ) → get_or buf (p + (length line + i)) 0 ≡ get_or (crlf ++ after) i 0
  byte_after a i =
      get_or-drop p (length line + i) buf 0
      ∙ ap (λ s. get_or s (length line + i) 0) a.here
      ∙ get_or-drop (length line) i (line ++ (crlf ++ after)) 0
      ∙ ap (λ s. get_or s i 0) (drop-length-append line (crlf ++ after))

-- The last size line, with the empty trailer behind it, ends the body.
last_lem :
    (f : ℕ) (buf : Bytes) (p : ℕ) (last rest : Bytes)
    → At buf p last (crlf ++ rest) 0
    → chunked_from (suc f) buf p ≡ found (p + (length last + 4))
last_lem f buf p last rest a =
    at_line buf p last (crlf ++ rest) 0 f a
    ∙ unfold trailer_end in
      ground (
        arith,
        a.fits,
        length-append last (crlf ++ (crlf ++ rest)),
        byte_after buf p last (crlf ++ rest) 0 a 2,
        byte_after buf p last (crlf ++ rest) 0 a 3,
      )

-- The bytes of one chunk, with what follows it, in the order in which they are read.
sent-append :
    (c : Piece) (after : Bytes) → sent c ++ after ≡ c.line ++ (crlf ++ (c.body ++ (crlf ++ after)))
sent-append c after =
    append_assoc c.line (crlf ++ (c.body ++ crlf)) after
    ∙ ap (λ s. c.line ++ (crlf ++ s)) (append_assoc c.body crlf after)

length-sent : (c : Piece) → length (sent c) ≡ length c.line + 2 + length c.body + 2
length-sent c =
    omega (arith, length-append c.line (crlf ++ (c.body ++ crlf)), length-append c.body crlf)

-- The scan that stands at encoded chunks ends where they end.
chunked_from-encode :
    (f : ℕ) (buf : Bytes) (p : ℕ) (cs : List Piece) (last rest : Bytes)
    → All IsChunk cs
    → SaysSize last 0
    → drop p buf ≡ encode cs last ++ rest
    → p + length (encode cs last ++ rest) ≡ length buf
    → length cs < f
    → chunked_from f buf p ≡ found (p + length (encode cs last))
chunked_from-encode zero buf p cs last rest all says here fits lt = absurd (omega arith)
chunked_from-encode (suc f) buf p [] last rest all says here fits lt =
    let eq = append_assoc last (crlf ++ crlf) rest in
    let stands : At buf p last (crlf ++ rest) 0 = record {
      here = here ∙ eq;
      fits = ap (λ s. p + length s) (sym eq) ∙ fits;
      says = says;
    } in
    last_lem f buf p last rest stands ∙ ap found (omega (arith, length-append last (crlf ++ crlf)))
chunked_from-encode (suc f) buf p (c ∷ cs) last rest all says here fits lt =
    let tail = encode cs last ++ rest in
    let n = length c.body in
    let next = p + length c.line + 2 + n + 2 in
    let whole = append_assoc (sent c) (encode cs last) rest in
    let eq = whole ∙ sent-append c tail in
    let stands : At buf p c.line (c.body ++ (crlf ++ tail)) n = record {
      here = here ∙ eq;
      fits = ap (λ s. p + length s) (sym eq) ∙ fits;
      says = all.0.sized;
    } in
    let width : next ≡ p + length (sent c) = omega (arith, length-sent c) in
    let there : drop next buf ≡ tail =
      ap (λ k. drop k buf) width
      ∙ drop-add p (length (sent c)) buf
      ∙ ap (drop (length (sent c))) (here ∙ whole)
      ∙ drop-length-append (sent c) tail in
    let fits_tail : next + length tail ≡ length buf =
      omega (arith, fits, ap length whole, length-append (sent c) tail, length-sent c) in
    let later =
      chunked_from-encode f buf next cs last rest all.1 says there fits_tail (omega arith) in
    at_line buf p c.line (c.body ++ (crlf ++ tail)) n f stands
    ∙ ground (
      arith,
      later,
      fits_tail,
      all.0.some_bytes,
      all.0.not_large,
      length-append (sent c) (encode cs last),
      length-sent c,
    )

length-encode : (cs : List Piece) (last : Bytes) → length cs ≤ length (encode cs last)
length-encode [] last = omega arith
length-encode (c ∷ cs) last =
    omega (arith, length-append (sent c) (encode cs last), length-sent c, length-encode cs last)

-- A body that is sent in chunks, each with a size line that scans as the length of its bytes and none
-- empty or above 100 MB, and ended by a last size line of 0 and an empty trailer, is cut where
-- the sender ended it, whatever bytes follow.
pub find_chunked_end-encode :
    (cs : List Piece) (last rest : Bytes)
    → All IsChunk cs
    → SaysSize last 0
    → find_chunked_end (encode cs last ++ rest) ≡ found (length (encode cs last))
unfolding find_chunked_end
find_chunked_end-encode cs last rest all says =
    let e : 0 + length (encode cs last) ≡ length (encode cs last) = omega arith in
    chunked_from-encode (suc (length (encode cs last ++ rest))) (encode cs last ++ rest) 0 cs last
      rest all says refl (omega arith)
      (omega (arith, length-append (encode cs last) rest, length-encode cs last))
    ∙ ap found e
