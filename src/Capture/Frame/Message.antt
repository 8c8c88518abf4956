-- ===== src/Capture/Frame/Message.antt =====
-- Where a message ends: the bounds of the end, and that more data does not move it.
use packet_lab.Prelude.{
  ◌⊎◌, ◌-◌, ℕ, suc, ◌+◌, ◌≤◌, ◌<◌, ◌≡◌, ◌≢◌, refl, sym, ap, ◌∙◌, inl, inr, Bool, true, false, none,
  some, arith, Option-cases, Bool-cases, length, take, drop, Bytes, index_of, length-drop,
  index_of-le, contains, bytes,
}
use packet_lab.Prelude.Int.{ℤ, pos, negsuc}
use packet_lab.Capture.Scan.{crlf_crlf, lf_lf, index_double_crlf}
use packet_lab.Capture.Frame.{
  ChunkEnd, found, missing, out_of_fuel, find_chunked_end, shift, header_end, body_end,
  parse_content_length, parse_transfer_encoding, find_http_message_end, truncate_buffer,
}
use packet_lab.Capture.Frame.Chunked.{chunked_bound, chunked_fuel}

-- The scan of a chunked body always comes to an end.
pub find_chunked_end_lem : (buf : Bytes) → find_chunked_end buf ≢ out_of_fuel
unfolding find_chunked_end
find_chunked_end_lem buf = chunked_fuel (length buf) buf 0 (omega arith)

pub chunk_end_cases : (c : ChunkEnd) → c ≢ out_of_fuel → (c ≡ missing) ⊎ ((e : ℕ) × (c ≡ found e))
chunk_end_cases (found e) h = inr (e, refl)
chunk_end_cases missing h = inl refl
chunk_end_cases out_of_fuel h = absurd (h refl)

-- the header end by either scan
pub header_end_crlf :
    (buf : Bytes) (i : ℕ) → index_of crlf_crlf buf ≡ some i → header_end buf ≡ some (i + 4)
unfolding header_end index_double_crlf
header_end_crlf buf i e = rw e

header_end_lf :
    (buf : Bytes) → index_of crlf_crlf buf ≡ none → header_end buf ≡ shift 2 (index_of lf_lf buf)
unfolding header_end index_double_crlf
header_end_lf buf e = rw e

pub header_end-le :
    (buf : Bytes) (idx : ℕ) → header_end buf ≡ some idx → (0 < idx) × (idx ≤ length buf)
header_end-le buf idx h = elim (Option-cases (index_of crlf_crlf buf)) [
  | inl e ↦ elim (Option-cases (index_of lf_lf buf)) [
    | inl e2 ↦
        let none_found : none ≡ some idx = sym (ap (shift 2) e2) ∙ sym (header_end_lf buf e) ∙ h in
        cc
    | inr (i, e2) ↦
        let at_i : some (i + 2) ≡ some idx =
          sym (ap (shift 2) e2) ∙ sym (header_end_lf buf e) ∙ h in
        grind (arith, at_i, index_of-le lf_lf buf i e2)
  ]
  | inr (i, e) ↦
      let at_i : some (i + 4) ≡ some idx = sym (header_end_crlf buf i e) ∙ h in
      grind (arith, at_i, index_of-le crlf_crlf buf i e)
]

-- an end that the scan of a chunked body finds lies in the data
chunks_end-le : (buf : Bytes) (e : ℕ) → find_chunked_end buf ≡ found e → (0 < e) × (e ≤ length buf)
unfolding find_chunked_end
chunks_end-le buf e h = chunked_bound (suc (length buf)) buf 0 e h

-- the branches of the end of the body, without a length
unfoldable pub says_chunked : Bytes → ℕ → Bool
says_chunked buf idx = contains (parse_transfer_encoding (take idx buf)) (bytes "chunked")

pub body_end_chunked :
    (buf : Bytes) (idx n : ℕ) (c : ChunkEnd)
    → says_chunked buf idx ≡ true
    → find_chunked_end (drop idx buf) ≡ c
    → body_end buf idx (negsuc n) ≡ elim c [ found k ↦ some (idx + k) | _ ↦ none ]
unfolding body_end says_chunked
body_end_chunked buf idx n c s e = rw (s, e)

pub body_end_plain :
    (buf : Bytes) (idx n : ℕ)
    → says_chunked buf idx ≡ false
    → body_end buf idx (negsuc n) ≡ some idx
unfolding body_end says_chunked
body_end_plain buf idx n s = rw s

body_end-le :
    (buf : Bytes) (idx e : ℕ) (z : ℤ)
    → idx ≤ length buf
    → body_end buf idx z ≡ some e
    → (idx ≤ e) × (e ≤ length buf)
body_end-le buf idx e (pos n) le h = unfold body_end in ground arith
body_end-le buf idx e (negsuc n) le h = elim (Bool-cases (says_chunked buf idx)) [
  | inl c ↦
      elim (chunk_end_cases (find_chunked_end (drop idx buf))
        (find_chunked_end_lem (drop idx buf))) [
          | inl m ↦
              let contra : none ≡ some e = sym (body_end_chunked buf idx n missing c m) ∙ h in cc
          | inr (k, m) ↦
              let ends : some (idx + k) ≡ some e =
                sym (body_end_chunked buf idx n (found k) c m) ∙ h in
              grind (arith, ends, chunks_end-le (drop idx buf) k m, length-drop idx buf)
        ]
  | inr c ↦
      let ends : some idx ≡ some e = sym (body_end_plain buf idx n c) ∙ h in grind (arith, ends)
]

-- the message by where its headers end
pub message_at :
    (buf : Bytes) (idx : ℕ)
    → header_end buf ≡ some idx
    → find_http_message_end buf ≡ body_end buf idx (parse_content_length (take idx buf))
unfolding find_http_message_end
message_at buf idx i = rw (find_http_message_end, i)

message_none : (buf : Bytes) → header_end buf ≡ none → find_http_message_end buf ≡ none
unfolding find_http_message_end
message_none buf i = rw (find_http_message_end, i)

-- The end of a message that `findHTTPMessageEnd` returns is neither 0 nor behind the data, so that
-- the buffer can be cut there and a loop that cuts there makes progress.
pub message_end_bounds :
    (buf : Bytes) (e : ℕ) → find_http_message_end buf ≡ some e → (0 < e) × (e ≤ length buf)
message_end_bounds buf e h = elim (Option-cases (header_end buf)) [
  | inl n ↦ let contra : none ≡ some e = sym (message_none buf n) ∙ h in cc
  | inr (idx, i) ↦
      let (positive, inside) = header_end-le buf idx i in
      let (behind, within) =
        body_end-le buf idx e (parse_content_length (take idx buf)) inside
          (sym (message_at buf idx i) ∙ h) in
      (omega (arith, positive, behind), within)
]

-- Cutting a buffer to `keep` bytes leaves at most that many.
pub length-truncate_buffer : (buf : Bytes) (keep : ℕ) → length (truncate_buffer buf keep) ≤ keep
unfolding truncate_buffer
length-truncate_buffer buf keep =
    let trimmed = drop (length buf - keep) buf in
    elim (Option-cases (index_double_crlf trimmed)) [
      | inl e ↦ rw (e) (grind (arith, length-drop (length buf - keep) buf))
      | inr (nl, e) ↦
          rw (e) (grind (arith, length-drop (length buf - keep) buf, length-drop (nl + 4) trimmed))
    ]
