-- ===== src/Capture/Frame.antt =====
-- Where an HTTP message ends in a buffer: `findHTTPMessageEnd`, `findChunkedEnd` and the header
-- scans that they use, of internal/capture/engine.go.
mod Chunked
mod Roundtrip
pub mod Message
pub mod Delimit
mod Tests
use packet_lab.Prelude.{
  ℕ, zero, suc, ◌+◌, ◌-◌, ◌*◌, ◌&&◌, Option, none, some, List, [], ◌∷◌, ltb, leb, ◌==◌,
  if◌then◌else◌, length, get_or, take, drop, Bytes, bytes, to_lower, index_of, contains, trim_space,
  split_on, cut_prefix, scan_hex, scan_int,
}
use packet_lab.Prelude.Int.{ℤ, pos, negsuc}
use packet_lab.Capture.Scan.{
  lf, cr, crlf, lf_lf, index_byte, index_double_crlf, bytes_trim_space, trim_cr, has_prefix_fold,
}

-- the value after `content-length:`; a value that does not scan gives -1
abbrev pub scanned : Option ℤ → ℤ
scanned none = negsuc 0
scanned (some n) = n

-- the loop of `parseContentLength` over the lines
unfoldable pub content_length_in : List Bytes → ℤ
content_length_in [] = negsuc 0
content_length_in (line ∷ lines) =
    let rest = content_length_in lines in
    elim (cut_prefix (trim_space (trim_cr line)) (bytes "content-length:")) [
      | some after ↦ scanned (scan_int (trim_space after))
      | none ↦ rest
    ]

-- `parseContentLength`
unfoldable pub parse_content_length : Bytes → ℤ
parse_content_length header = content_length_in (split_on lf (to_lower header))

-- the loop of `parseTransferEncoding`; each round consumes a line, so the bytes are enough fuel
unfoldable pub transfer_encoding_from : ℕ → Bytes → Bytes
transfer_encoding_from zero rest = []
transfer_encoding_from (suc fuel) rest = elim (index_byte rest lf) [
  | none ↦ []
  | some nl ↦
      let later = transfer_encoding_from fuel (drop (nl + 1) rest) in
      let line = trim_cr (bytes_trim_space (take nl rest)) in
      if has_prefix_fold line (bytes "transfer-encoding:")
      then bytes_trim_space (drop 17 line)
      else later
]

-- `parseTransferEncoding`. `line[17:]` keeps the colon, which is the eighteenth byte.
unfoldable pub parse_transfer_encoding : Bytes → Bytes
parse_transfer_encoding header = transfer_encoding_from (suc (length header)) header

-- what a scan for the end of a chunked body says
pub data ChunkEnd : Type 0 where
  found : ℕ → ChunkEnd
  missing : ChunkEnd
  out_of_fuel : ChunkEnd

abbrev pub max_chunk : ℕ
max_chunk = 100 * 1024 * 1024

-- the last chunk, whose size is 0: an empty trailer must follow
unfoldable pub trailer_end : Bytes → ℕ → ChunkEnd
trailer_end buf t =
    if ltb (t + 1) (length buf) && ((get_or buf t 0 == cr) && (get_or buf (t + 1) 0 == lf))
    then found (t + 2)
    else if ltb t (length buf) && (get_or buf t 0 == lf)
    then found (t + 1)
    else missing

-- the loop of `findChunkedEnd` over `pos`, here `p`; `nl` counts from it
unfoldable pub chunked_from : ℕ → Bytes → ℕ → ChunkEnd
chunked_from zero buf p = out_of_fuel
chunked_from (suc fuel) buf p =
    if ltb p (length buf)
    then elim (index_of crlf (drop p buf)) [
      | none ↦ missing
      | some nl ↦ elim (scan_hex (trim_space (take nl (drop p buf)))) [
        | none ↦ missing
        | some size ↦
            let next = p + nl + 2 + size + 2 in
            let later = chunked_from fuel buf next in
            if ltb max_chunk size
            then missing
            else if size == 0
            then trailer_end buf (p + nl + 2)
            else if ltb (length buf) next
            then missing
            else later
      ]
    ]
    else missing

-- `findChunkedEnd`
unfoldable pub find_chunked_end : Bytes → ChunkEnd
find_chunked_end buf = chunked_from (suc (length buf)) buf 0

abbrev pub shift : ℕ → Option ℕ → Option ℕ
shift k none = none
shift k (some i) = some (i + k)

abbrev pub or_else {ℓ} : {A : Type ℓ} → Option A → Option A → Option A
or_else none o = o
or_else (some a) o = some a

-- the two scans for the end of the headers: an empty line by CRLF, or else by LF
unfoldable pub header_end : Bytes → Option ℕ
header_end buf = or_else (shift 4 (index_double_crlf buf)) (shift 2 (index_of lf_lf buf))

-- the end of a message whose headers end at `idx`. In Go `idx + cl` can pass 2^63; the wrapped sum is
-- then negative, which the callers take as they take -1.
unfoldable pub body_end : Bytes → ℕ → ℤ → Option ℕ
body_end buf idx (pos n) = if leb (idx + n) (length buf) then some (idx + n) else none
body_end buf idx (negsuc _) =
    if contains (parse_transfer_encoding (take idx buf)) (bytes "chunked")
    then elim (find_chunked_end (drop idx buf)) [ found e ↦ some (idx + e) | _ ↦ none ]
    else some idx

-- `findHTTPMessageEnd`
unfoldable pub find_http_message_end : Bytes → Option ℕ
find_http_message_end buf = elim (header_end buf) [
  | none ↦ none
  | some idx ↦ body_end buf idx (parse_content_length (take idx buf))
]

-- `truncateBuffer`
unfoldable pub truncate_buffer : Bytes → ℕ → Bytes
truncate_buffer buf keep =
    if leb (length buf) keep
    then buf
    else let trimmed = drop (length buf - keep) buf in
      elim (index_double_crlf trimmed) [
        | none ↦ trimmed
        | some nl ↦ if ltb nl 4096 then drop (nl + 4) trimmed else trimmed
      ]
