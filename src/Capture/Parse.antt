-- ===== src/Capture/Parse.antt =====
-- internal/capture/engine.go: `parseHTTPRequest`, `parseHTTPResponse` and the functions that they
-- use. What the package net says of an address is a data type, and `resolve` stands for the look-up
-- of the process that owns a port.
mod LastLine
mod Hosts
pub mod Responses
mod Tests
use packet_lab.Prelude.{
  ℕ, zero, suc, ◌+◌, Bool, true, false, not, ◌&&◌, ◌||◌, Option, none, some, List, [], ◌∷◌, ◌++◌,
  ltb, leb, ◌==◌, if◌then◌else◌, length, get_or, take, drop, Bytes, bytes, eqb, to_lower,
  has_prefix, index_of, contains, trim_space, drop_while, is_space, split_on, scan_int, Map, insert,
}
use packet_lab.Prelude.Int.{ℤ, pos, negsuc}
use packet_lab.Models.{CapturedRequest, empty_request, ProcessInfo}
use packet_lab.Capture.Scan.{
  lf, index_byte, index_double_crlf, bytes_trim_space, trim_cr, is_all_digits,
}

-- net.IP by its text: nil, an address for which `To4` succeeds, any other
pub data Ip : Type 0 where
  no_ip : Ip
  ipv4 : Bytes → Ip
  ipv6 : Bytes → Ip

-- net.IP.String
abbrev pub ip_string : Ip → Bytes
ip_string no_ip = bytes "<nil>"
ip_string (ipv4 text) = text
ip_string (ipv6 text) = text

-- `formatIPForURL`
unfoldable pub format_ip_for_url : Ip → Bytes
format_ip_for_url no_ip = []
format_ip_for_url (ipv4 text) = text
format_ip_for_url (ipv6 text) = bytes "[" ++ (text ++ bytes "]")

-- strings.Count(s, c) for one byte
unfoldable pub count_byte : ℕ → Bytes → ℕ
count_byte c [] = 0
count_byte c (b ∷ bs) = (if b == c then 1 else 0) + count_byte c bs

-- strings.LastIndex(s, c) for one byte
unfoldable pub last_index : ℕ → Bytes → Option ℕ
last_index c [] = none
last_index c (b ∷ bs) = elim (last_index c bs) [
  | some i ↦ some (suc i)
  | none ↦ if b == c then some 0 else none
]

abbrev is_digit : ℕ → Bool
is_digit c = leb b'0' c && leb c b'9'

-- whether the text behind the colon at `i` is taken for a port
abbrev pub is_port_at : Bytes → ℕ → Bool
is_port_at host zero = false
is_port_at host (suc i) = is_all_digits (drop (suc i + 1) host) && is_digit (get_or host i 0)

abbrev pub bracketed : Bytes → Bytes
bracketed host = bytes "[" ++ (host ++ bytes "]")

-- `formatHostForURL`
unfoldable pub format_host_for_url : Bytes → Bytes
format_host_for_url host =
    if eqb host [] || (has_prefix host (bytes "[") || ltb (count_byte b':' host) 2)
    then host
    else elim (last_index b':' host) [
      | none ↦ bracketed host
      | some i ↦
          if is_port_at host i
          then bytes "[" ++ (take i host ++ (bytes "]:" ++ drop (i + 1) host))
          else bracketed host
    ]

-- the method and the target of a request line
unfoldable pub request_line : Bytes → Option (Bytes × Bytes)
request_line first = elim (index_byte first b' ') [
  | none ↦ none
  | some sp1 ↦
      let after = drop (sp1 + 1) first in
      some
        (take sp1 first, elim (index_byte after b' ') [ none ↦ after | some sp2 ↦ take sp2 after ])
]

-- one header line, put into the headers and the host
unfoldable pub read_line : Bytes → Map Bytes × Bytes → Map Bytes × Bytes
read_line line (headers, host) = elim (index_byte line b':') [
  | none ↦ (headers, host)
  | some zero ↦ (headers, host)
  | some (suc i) ↦
      let key = take (suc i) line in
      let val = bytes_trim_space (drop (suc i + 1) line) in
      (insert key val headers, if eqb (to_lower key) (bytes "host") then val else host)
]

-- the loop over the header lines; each round consumes a byte at least
unfoldable pub read_headers : ℕ → Bytes → Map Bytes × Bytes → Map Bytes × Bytes
read_headers zero rem read = read
read_headers (suc fuel) rem read = elim (index_byte rem lf) [
  | none ↦ read
  | some nl ↦
      let line = trim_cr (bytes_trim_space (take nl rem)) in
      let later = read_headers fuel (drop (nl + 1) rem) (read_line line read) in
      if length line == 0 then read else later
]

-- the addresses of a flow, and the look-up of its process
pub record Flow : Type 0 where
  pub src_ip : Ip
  pub src_port : ℕ
  pub dst_port : ℕ
  pub resolve : Bytes → ℕ → Option ProcessInfo

abbrev pub with_process : Option ProcessInfo → CapturedRequest → CapturedRequest
with_process none req = req
with_process (some p) req = record req { process_pid = p.pid; process_name = p.name }

abbrev pub rooted : Bytes → Bytes
rooted path = if has_prefix path (bytes "/") then path else bytes "/" ++ path

-- the record of a request, from what is read of it
unfoldable pub request_of : Flow → ℕ → Bytes × Bytes → Map Bytes × Bytes → Bytes → CapturedRequest
request_of flow now (method, target) (headers, named) body =
    let host = if eqb named [] then format_ip_for_url flow.src_ip else format_host_for_url named in
    let is_https = flow.dst_port == 443 in
    let scheme = if is_https then bytes "https" else bytes "http" in
    with_process (flow.resolve (ip_string flow.src_ip) flow.src_port) (record empty_request {
      method = method;
      url = scheme ++ (bytes "://" ++ (host ++ rooted target));
      host = host;
      path = rooted target;
      protocol = bytes "HTTP/1.1";
      is_https = is_https;
      req_headers = headers;
      req_body = body;
      captured_at = now;
      capture_mode = bytes "nic";
    })

-- what is in front of the empty line, the request line first
unfoldable pub parse_head : Bytes → Option ((Bytes × Bytes) × (Map Bytes × Bytes))
parse_head rem = elim (index_byte rem lf) [
  | none ↦ none
  | some nl ↦ elim (request_line (bytes_trim_space (take nl rem))) [
    | none ↦ none
    | some line ↦
        let rest = drop (nl + 1) rem in some (line, read_headers (suc (length rest)) rest ([], []))
  ]
]

-- `parseHTTPRequest`
unfoldable pub parse_http_request : Flow → ℕ → Bytes → Option CapturedRequest
parse_http_request flow now buf = elim (index_double_crlf buf) [
  | none ↦ none
  | some i ↦ elim (parse_head (take i buf)) [
    | none ↦ none
    | some (line, read) ↦ some (request_of flow now line read (drop (i + 4) buf))
  ]
]

-- the struct that `parseHTTPResponse` returns
pub record Response : Type 0 where
  pub status : ℕ
  pub headers : Map Bytes
  pub body : Bytes

abbrev pub first_line : List Bytes → Bytes
first_line [] = []
first_line (line ∷ lines) = trim_cr line

abbrev pub later_lines : List Bytes → List Bytes
later_lines [] = []
later_lines (line ∷ lines) = lines

-- `parts[1]` of strings.SplitN(line, " ", 3)
unfoldable pub second_part : Bytes → Option Bytes
second_part line = elim (index_byte line b' ') [
  | none ↦ none
  | some sp1 ↦
      let after = drop (sp1 + 1) line in
      some (elim (index_byte after b' ') [ none ↦ after | some sp2 ↦ take sp2 after ])
]

-- one header line of a response, put into the headers
unfoldable pub response_line : Bytes → Map Bytes → Map Bytes
response_line line headers = elim (index_byte line b':') [
  | none ↦ headers
  | some zero ↦ headers
  | some (suc i) ↦
      insert (trim_space (take (suc i) line)) (trim_space (drop (suc i + 1) line)) headers
]

-- the loop over the lines of a response
unfoldable pub response_headers : List Bytes → Map Bytes → Map Bytes
response_headers [] headers = headers
response_headers (raw ∷ lines) headers =
    let later = response_headers lines (response_line (trim_cr raw) headers) in
    if length (trim_cr raw) == 0 then headers else later

-- fmt.Sscanf(s, "%d", &n)
abbrev pub sscanf_int : Bytes → Option ℤ
sscanf_int s = scan_int (drop_while is_space s)

-- the status code, if it is one
abbrev pub valid_status : Option ℤ → Option ℕ
valid_status none = none
valid_status (some (negsuc n)) = none
valid_status (some (pos n)) = if ltb n 100 || ltb 599 n then none else some n

-- `parseHTTPResponseFromHeader`
unfoldable pub parse_http_response_from_header : Bytes → Bytes → Option Response
parse_http_response_from_header header body =
    let lines = split_on lf header in
    elim (second_part (first_line lines)) [
      | none ↦ none
      | some part ↦ elim (valid_status (sscanf_int part)) [
        | none ↦ none
        | some n ↦
            some (record {
              status = n;
              headers = response_headers (later_lines lines) [];
              body = body;
            })
      ]
    ]

-- `parseHTTPResponse`
unfoldable pub parse_http_response : Bytes → Option Response
parse_http_response buf = elim (index_double_crlf buf) [
  | none ↦ none
  | some i ↦ parse_http_response_from_header (take i buf) (drop (i + 4) buf)
]

-- `parseStatusCodeFromHeader`; what does not scan is 0
unfoldable pub parse_status_code_from_header : Bytes → ℤ
parse_status_code_from_header header = elim (index_byte header lf) [
  | none ↦ pos 0
  | some nl ↦ elim (second_part (bytes_trim_space (take nl header))) [
    | none ↦ pos 0
    | some part ↦ elim (sscanf_int part) [ none ↦ pos 0 | some n ↦ n ]
  ]
]

-- `responseCanHaveNoBody`
unfoldable pub response_can_have_no_body : ℤ → Bool
response_can_have_no_body (negsuc n) = false
response_can_have_no_body (pos n) = (leb 100 n && ltb n 200) || ((n == 204) || (n == 304))
