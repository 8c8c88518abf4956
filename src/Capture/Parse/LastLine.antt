-- ===== src/Capture/Parse/LastLine.antt =====
-- Which lines of a request are read.
use mathlib.Core.Option
use packet_lab.Prelude.{
  ℕ, zero, suc, ◌+◌, ◌≤◌, ◌<◌, ◌≡◌, ◌≢◌, ap, ◌∙◌, Option, none, some, List, [], ◌∷◌, ◌++◌, length,
  take, drop, Bytes, Map, All, arith, refl, ◌==◌, if◌then◌else◌, length-append, take-length-append,
  drop-length-append, drop-add,
}
use packet_lab.Capture.Scan.{
  lf, crlf_crlf, index_byte, index_double_crlf, bytes_trim_space, trim_cr,
}
use packet_lab.Capture.Parse.{
  Flow, read_line, read_headers, request_line, request_of, parse_head, parse_http_request,
}

-- the text has no line feed
abbrev pub IsLine : Bytes → Type 0
IsLine line = All (λ b. b ≢ lf) line

-- lines, with a line feed behind each but the last
abbrev pub joined : List Bytes → Bytes → Bytes
joined [] last = last
joined (line ∷ lines) last = line ++ (lf ∷ joined lines last)

-- header lines read in turn, until an empty one
abbrev pub read_lines : List Bytes → Map Bytes × Bytes → Map Bytes × Bytes
read_lines [] read = read
read_lines (line ∷ lines) read =
    let text = trim_cr (bytes_trim_space line) in
    let later = read_lines lines (read_line text read) in if length text == 0 then read else later

index_byte_line :
    (line rest : Bytes) → IsLine line → index_byte (line ++ (lf ∷ rest)) lf ≡ some (length line)
unfolding index_byte
index_byte_line [] rest h = refl
index_byte_line (b ∷ line) rest (ne, h) = ground (arith, index_byte_line line rest h)

index_byte-IsLine : (line : Bytes) → IsLine line → index_byte line lf ≡ none
unfolding index_byte
index_byte-IsLine [] h = refl
index_byte-IsLine (b ∷ line) (ne, h) = ground (arith, index_byte-IsLine line h)

drop_line : (line rest : Bytes) → drop (length line + 1) (line ++ (lf ∷ rest)) ≡ rest
drop_line line rest =
    drop-add (length line) 1 (line ++ (lf ∷ rest))
    ∙ ap (drop 1) (drop-length-append line (lf ∷ rest))

length-joined : (lines : List Bytes) (last : Bytes) → length lines ≤ length (joined lines last)
length-joined [] last = omega arith
length-joined (line ∷ lines) last =
    omega (arith, length-joined lines last, length-append line (lf ∷ joined lines last))

headers_done :
    (fuel : ℕ) (rem : Bytes) (read : Map Bytes × Bytes)
    → index_byte rem lf ≡ none
    → read_headers (suc fuel) rem read ≡ read
unfolding read_headers
headers_done fuel rem read e = rw (read_headers, e)

headers_round :
    (fuel : ℕ) (rem : Bytes) (read : Map Bytes × Bytes) (nl : ℕ)
    → index_byte rem lf ≡ some nl
    → read_headers (suc fuel) rem read ≡ (
        if length (trim_cr (bytes_trim_space (take nl rem))) == 0
        then read
        else read_headers fuel
            (drop (nl + 1) rem)
            (read_line (trim_cr (bytes_trim_space (take nl rem))) read))
unfolding read_headers
headers_round fuel rem read nl e = rw (read_headers, e)

read_joined :
    (fuel : ℕ) (lines : List Bytes) (last : Bytes) (read : Map Bytes × Bytes)
    → All IsLine lines
    → IsLine last
    → length lines < fuel
    → read_headers fuel (joined lines last) read ≡ read_lines lines read
read_joined zero lines last read all h lt = absurd (omega arith)
read_joined (suc fuel) [] last read all h lt =
    headers_done fuel last read (index_byte-IsLine last h)
read_joined (suc fuel) (line ∷ lines) last read (one, all) h lt =
    let rem = joined (line ∷ lines) last in
    let text = trim_cr (bytes_trim_space line) in
    headers_round fuel rem read (length line) (index_byte_line line (joined lines last) one)
    ∙ ap
        (λ t.
          if length (trim_cr (bytes_trim_space t)) == 0
          then read
          else read_headers fuel (drop (length line + 1) rem)
              (read_line (trim_cr (bytes_trim_space t)) read))
        (take-length-append line (lf ∷ joined lines last))
    ∙ ap (λ t. if length text == 0 then read else read_headers fuel t (read_line text read))
        (drop_line line (joined lines last))
    ∙ ap (λ t. if length text == 0 then read else t)
        (read_joined fuel lines last (read_line text read) all h (omega arith))

head_at :
    (rem : Bytes) (nl : ℕ)
    → index_byte rem lf ≡ some nl
    → parse_head rem
      ≡ Option.map
          (λ line.
            (line, read_headers (suc (length (drop (nl + 1) rem))) (drop (nl + 1) rem) ([], [])))
          (request_line (bytes_trim_space (take nl rem)))
unfolding parse_head
head_at rem nl e = rw (parse_head, e)

parse_head-joined :
    (first : Bytes) (lines : List Bytes) (last : Bytes)
    → All IsLine (first ∷ lines)
    → IsLine last
    → parse_head (joined (first ∷ lines) last)
      ≡ Option.map
          (λ line. (line, read_lines lines ([], [])))
          (request_line (bytes_trim_space first))
parse_head-joined first lines last (one, all) h =
    let rem = joined (first ∷ lines) last in
    head_at rem (length first) (index_byte_line first (joined lines last) one)
    ∙ ap
        (λ t.
          Option.map
            (λ line. (
              line,
              read_headers (suc (length (drop (length first + 1) rem)))
                  (drop (length first + 1) rem) ([], []),
            ))
            (request_line (bytes_trim_space t)))
        (take-length-append first (lf ∷ joined lines last))
    ∙ ap
        (λ t.
          Option.map (λ line. (line, read_headers (suc (length t)) t ([], [])))
            (request_line (bytes_trim_space first)))
        (drop_line first (joined lines last))
    ∙ ap (λ r. Option.map (λ line. (line, r)) (request_line (bytes_trim_space first)))
        (read_joined (suc (length (joined lines last))) lines last ([], []) all h
          (omega (arith, length-joined lines last)))

request_found :
    (flow : Flow) (now : ℕ) (buf : Bytes) (i : ℕ)
    → index_double_crlf buf ≡ some i
    → parse_http_request flow now buf
      ≡ Option.map
          (λ (line, read). request_of flow now line read (drop (i + 4) buf))
          (parse_head (take i buf))
unfolding parse_http_request
request_found flow now buf i e = rw (parse_http_request, e)

request_at :
    (flow : Flow) (now : ℕ) (text body : Bytes)
    → index_double_crlf (text ++ (crlf_crlf ++ body)) ≡ some (length text)
    → parse_http_request flow now (text ++ (crlf_crlf ++ body))
      ≡ Option.map (λ (line, read). request_of flow now line read body) (parse_head text)
request_at flow now text body e =
    let buf = text ++ (crlf_crlf ++ body) in
    request_found flow now buf (length text) e
    ∙ ap
        (λ t.
          Option.map (λ (line, read). request_of flow now line read (drop (length text + 4) buf))
            (parse_head t))
        (take-length-append text (crlf_crlf ++ body))
    ∙ ap (λ t. Option.map (λ (line, read). request_of flow now line read t) (parse_head text))
        (drop-add (length text) 4 buf ∙ ap (drop 4) (drop-length-append text (crlf_crlf ++ body)))

-- A request whose first empty line stands behind the lines `first`, `lines` and `last` gives the record
-- of its request line `first`, its body and the header lines `lines`: the header line `last` is not
-- read, whatever it says.
pub last_header_lost :
    (flow : Flow) (now : ℕ) (first : Bytes) (lines : List Bytes) (last body : Bytes)
    → All IsLine (first ∷ lines)
    → IsLine last
    → index_double_crlf (joined (first ∷ lines) last ++ (crlf_crlf ++ body))
      ≡ some (length (joined (first ∷ lines) last))
    → parse_http_request flow now (joined (first ∷ lines) last ++ (crlf_crlf ++ body))
      ≡ Option.map
          (λ line. request_of flow now line (read_lines lines ([], [])) body)
          (request_line (bytes_trim_space first))
last_header_lost flow now first lines last body all h e =
    request_at flow now (joined (first ∷ lines) last) body e
    ∙ ap (Option.map (λ (line, read). request_of flow now line read body))
        (parse_head-joined first lines last all h)
    ∙ map_map (request_line (bytes_trim_space first))
  where
    map_map :
        (o : Option (Bytes × Bytes))
        → Option.map
            (λ (line, read). request_of flow now line read body)
            (Option.map (λ line. (line, read_lines lines ([], []))) o)
          ≡ Option.map (λ line. request_of flow now line (read_lines lines ([], [])) body) o
    map_map none = refl
    map_map (some line) = refl
