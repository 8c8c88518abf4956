-- ===== src/Capture/Frame/Delimit.antt =====
-- A message whose headers end in an empty CRLF line: its end is where the sender put it, and the data
-- that follows does not move it.
use packet_lab.Prelude.{
  ℕ, suc, ◌+◌, ◌≤◌, ◌<◌, ◌≡◌, sym, ap, ◌∙◌, inl, inr, true, none, some, List, ◌++◌, arith,
  Bool-cases, length, length-append, take, drop, Bytes, index_of, take-append, drop-append,
  take-length-append, drop-length-append, index_of-append, contains, bytes, All,
}
use packet_lab.Prelude.Int.{ℤ, pos, negsuc}
use packet_lab.Capture.Scan.{crlf_crlf}
use packet_lab.Capture.Frame.{
  found, missing, find_chunked_end, body_end, parse_content_length, parse_transfer_encoding,
  find_http_message_end,
}
use packet_lab.Capture.Frame.Chunked.{chunked-append}
use packet_lab.Capture.Frame.Roundtrip.{Piece, IsChunk, SaysSize, encode, find_chunked_end-encode}
use packet_lab.Capture.Frame.Message.{
  chunk_end_cases, find_chunked_end_lem, header_end-le, header_end_crlf, says_chunked,
  body_end_chunked, body_end_plain, message_at,
}

chunks_end-append :
    (buf more : Bytes) (e : ℕ)
    → find_chunked_end buf ≡ found e
    → find_chunked_end (buf ++ more) ≡ found e
unfolding find_chunked_end
chunks_end-append buf more e h =
    chunked-append (suc (length buf)) (suc (length (buf ++ more))) buf more 0 e h
      (omega (arith, length-append buf more))

says_chunked-append :
    (buf more : Bytes) (idx : ℕ)
    → idx ≤ length buf
    → says_chunked (buf ++ more) idx ≡ says_chunked buf idx
unfolding says_chunked
says_chunked-append buf more idx le =
    ap (λ s. contains (parse_transfer_encoding s) (bytes "chunked")) (take-append idx buf more le)

body_end-append :
    (buf more : Bytes) (idx e : ℕ) (z : ℤ)
    → idx ≤ length buf
    → body_end buf idx z ≡ some e
    → body_end (buf ++ more) idx z ≡ some e
body_end-append buf more idx e (pos n) le h =
    unfold body_end in ground (arith, length-append buf more)
body_end-append buf more idx e (negsuc n) le h = elim (Bool-cases (says_chunked buf idx)) [
  | inl c ↦
      elim (chunk_end_cases (find_chunked_end (drop idx buf))
        (find_chunked_end_lem (drop idx buf))) [
          | inl m ↦
              let contra : none ≡ some e = sym (body_end_chunked buf idx n missing c m) ∙ h in cc
          | inr (k, m) ↦
              body_end_chunked (buf ++ more) idx n (found k)
                (says_chunked-append buf more idx le ∙ c)
                (ap find_chunked_end (drop-append idx buf more le)
                  ∙ chunks_end-append (drop idx buf) more k m)
              ∙ sym (body_end_chunked buf idx n (found k) c m)
              ∙ h
        ]
  | inr c ↦
      body_end_plain (buf ++ more) idx n (says_chunked-append buf more idx le ∙ c)
      ∙ sym (body_end_plain buf idx n c)
      ∙ h
]

-- When the headers end in an empty CRLF line, the end of the message that was found stays the same
-- whatever data arrives later.
pub message_end_stable :
    (buf more : Bytes) (i e : ℕ)
    → index_of crlf_crlf buf ≡ some i
    → find_http_message_end buf ≡ some e
    → find_http_message_end (buf ++ more) ≡ some e
message_end_stable buf more i e h m =
    let idx = i + 4 in
    let ends = header_end_crlf buf i h in
    let (_, inside) = header_end-le buf idx ends in
    let cl = parse_content_length (take idx buf) in
    message_at (buf ++ more) idx
      (header_end_crlf (buf ++ more) i (index_of-append crlf_crlf buf more i h))
    ∙ ap (λ s. body_end (buf ++ more) idx (parse_content_length s))
        (take-append idx buf more inside)
    ∙ body_end-append buf more idx e cl inside (sym (message_at buf idx ends) ∙ m)

-- a header block with its empty line, in which no empty line comes earlier
pub record IsHeader (header : Bytes) : Type 0 where
  pub text_length : ℕ
  pub whole : length header ≡ text_length + 4
  pub first_empty_line : index_of crlf_crlf header ≡ some text_length

-- the message by its header and what follows
at_header :
    (header after : Bytes)
    → IsHeader header
    → find_http_message_end (header ++ after)
      ≡ body_end (header ++ after) (length header) (parse_content_length header)
at_header header after w =
    let found_here =
      header_end_crlf (header ++ after) w.text_length
        (index_of-append crlf_crlf header after w.text_length w.first_empty_line) in
    message_at (header ++ after) (length header) (found_here ∙ ap some (sym w.whole))
    ∙ ap (λ s. body_end (header ++ after) (length header) (parse_content_length s))
        (take-length-append header after)

-- A header that says how long the body is, with a body of that length, ends behind the body,
-- whatever follows.
pub sized_message :
    (header body rest : Bytes)
    → IsHeader header
    → parse_content_length header ≡ pos (length body)
    → find_http_message_end (header ++ (body ++ rest)) ≡ some (length header + length body)
unfolding body_end
sized_message header body rest w cl =
    at_header header (body ++ rest) w
    ∙ ap (body_end (header ++ (body ++ rest)) (length header)) cl
    ∙ ground (arith, length-append header (body ++ rest), length-append body rest)

-- With fewer bytes than the header says the message has no end yet.
pub short_message :
    (header part : Bytes) (n : ℕ)
    → IsHeader header
    → parse_content_length header ≡ pos n
    → length part < n
    → find_http_message_end (header ++ part) ≡ none
unfolding body_end
short_message header part n w cl lt =
    at_header header part w
    ∙ ap (body_end (header ++ part) (length header)) cl
    ∙ ground (arith, length-append header part)

-- A header that says the body comes in chunks, with a body in chunks as `find_chunked_end-encode`
-- has it, ends behind the last trailer, whatever follows.
pub chunked_message :
    (header : Bytes) (cs : List Piece) (last rest : Bytes) (n : ℕ)
    → IsHeader header
    → parse_content_length header ≡ negsuc n
    → contains (parse_transfer_encoding header) (bytes "chunked") ≡ true
    → All IsChunk cs
    → SaysSize last 0
    → find_http_message_end (header ++ (encode cs last ++ rest))
      ≡ some (length header + length (encode cs last))
unfolding says_chunked
chunked_message header cs last rest n w cl te all says =
    let after = encode cs last ++ rest in
    at_header header after w
    ∙ ap (body_end (header ++ after) (length header)) cl
    ∙ body_end_chunked (header ++ after) (length header) n (found (length (encode cs last)))
        (ap (λ s. contains (parse_transfer_encoding s) (bytes "chunked"))
            (take-length-append header after)
          ∙ te)
        (ap find_chunked_end (drop-length-append header after)
          ∙ find_chunked_end-encode cs last rest all says)
