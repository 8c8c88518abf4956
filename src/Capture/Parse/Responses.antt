-- ===== src/Capture/Parse/Responses.antt =====
-- The status codes that `parseHTTPResponse` and `parseHTTPRequest` give.
use packet_lab.Prelude.{
  Map, ℕ, ◌+◌, ◌≤◌, ◌≡◌, Option, take, drop, none, some, Bytes, Option-cases, arith, split_on, inl,
  inr,
}
use packet_lab.Prelude.Int.{ℤ, pos, negsuc}
use packet_lab.Capture.Scan.{lf, index_double_crlf}
use packet_lab.Models.{CapturedRequest}
use packet_lab.Capture.Parse.{
  Flow, ip_string, request_of, parse_head, parse_http_request, Response, first_line, second_part,
  sscanf_int, valid_status, parse_http_response_from_header, parse_http_response,
}

-- a status code of HTTP
abbrev pub IsStatus : ℕ → Type 0
IsStatus n = (100 ≤ n) × (n ≤ 599)

valid_status-IsStatus : (o : Option ℤ) (n : ℕ) → valid_status o ≡ some n → IsStatus n
valid_status-IsStatus none n h = cc
valid_status-IsStatus (some (negsuc k)) n h = cc
valid_status-IsStatus (some (pos k)) n h = ground arith

pub from_header-IsStatus :
    (header body : Bytes) (r : Response)
    → parse_http_response_from_header header body ≡ some r
    → IsStatus r.status × (r.body ≡ body)
unfolding parse_http_response_from_header
from_header-IsStatus header body r h =
    elim (Option-cases (second_part (first_line (split_on lf header)))) [
      | inl e ↦ ground (arith, e)
      | inr (part, e) ↦ elim (Option-cases (valid_status (sscanf_int part))) [
        | inl e2 ↦ ground (arith, e, e2)
        | inr (n, e2) ↦ ground (arith, e, e2, valid_status-IsStatus (sscanf_int part) n e2)
      ]
    ]

-- A response that is parsed has a status code from 100 to 599.
pub parse_http_response-IsStatus :
    (buf : Bytes) (r : Response) → parse_http_response buf ≡ some r → IsStatus r.status
unfolding parse_http_response
parse_http_response-IsStatus buf r h = elim (Option-cases (index_double_crlf buf)) [
  | inl e ↦ ground (arith, e)
  | inr (i, e) ↦ ground (arith, e, from_header-IsStatus (take i buf) (drop (i + 4) buf) r)
]

-- a request that has no answer yet
abbrev pub Fresh : Option CapturedRequest → Type 0
Fresh none = Unit
Fresh (some req) = req.status_code ≡ 0

request_of_fresh :
    (flow : Flow) (now : ℕ) (line : Bytes × Bytes) (read : Map Bytes × Bytes) (body : Bytes)
    → (request_of flow now line read body).status_code ≡ 0
unfolding request_of
request_of_fresh flow now (method, target) (headers, named) body =
    elim (Option-cases (flow.resolve (ip_string flow.src_ip) flow.src_port)) [
      | inl e ↦ rw e
      | inr (p, e) ↦ rw e
    ]

-- A request that is parsed has no status code.
pub parse_http_request-Fresh :
    (flow : Flow) (now : ℕ) (buf : Bytes) → Fresh (parse_http_request flow now buf)
unfolding parse_http_request
parse_http_request-Fresh flow now buf = elim (Option-cases (index_double_crlf buf)) [
  | inl e ↦ rw (parse_http_request, e) tt
  | inr (i, e) ↦ elim (Option-cases (parse_head (take i buf))) [
    | inl e2 ↦ rw (parse_http_request, e, e2) tt
    | inr ((line, read), e2) ↦
        rw (parse_http_request, e, e2) (request_of_fresh flow now line read (drop (i + 4) buf))
  ]
]
