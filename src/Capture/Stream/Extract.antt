-- ===== src/Capture/Stream/Extract.antt =====
-- internal/capture/engine.go: `tryExtractHTTP` and `tryExtractHTTPOnClose`, which pair requests with
-- responses.
use packet_lab.Prelude.{
  ℕ, zero, suc, ◌+◌, ◌-◌, ◌/◌, Bool, true, not, ◌&&◌, Option, none, some, [], ltb, leb,
  if◌then◌else◌, length, take, drop, Bytes, bytes, eqb, to_lower, contains,
}
use packet_lab.Prelude.Int.{pos, ltb_ℤ}
use packet_lab.Models.{CapturedRequest}
use packet_lab.Capture.Scan.{index_double_crlf, is_http_response}
use packet_lab.Capture.Frame.{find_http_message_end, parse_content_length, parse_transfer_encoding}
use packet_lab.Capture.Parse.{
  Response, parse_http_request, parse_http_response, parse_http_response_from_header,
  parse_status_code_from_header, response_can_have_no_body,
}
use packet_lab.Capture.Stream.{
  saved, update_told, Engine, Surroundings, TcpStream, flow_of, log, count_found, emit, emptied,
}

-- `isSSEHeader`
unfoldable pub is_sse_header : Bytes → Bool
is_sse_header header = contains (to_lower header) (bytes "text/event-stream")

abbrev pub says_length : Bytes → Bool
says_length header = not (ltb_ℤ (parse_content_length header) (pos 0))

abbrev pub says_chunked : Bytes → Bool
says_chunked header = contains (parse_transfer_encoding header) (bytes "chunked")

-- a response that ends when the connection does
abbrev pub ends_on_close : Bytes → Bool
ends_on_close header =
    let code = parse_status_code_from_header header in
    ltb_ℤ (pos 0) code && not (response_can_have_no_body code)

-- what a round of a loop says
pub data Next : Type 0 where
  stop : TcpStream → Engine → Next
  again : TcpStream → Engine → Next

-- the request with the response that came for it
abbrev pub answered : ℕ → ℕ → Response → CapturedRequest → CapturedRequest
answered now size resp req = record req {
  status_code = resp.status;
  res_headers = resp.headers;
  res_body = resp.body;
  duration_ms = (now - req.captured_at) / 1000000;
  size_bytes = size;
}

-- the same for the response of an event stream
abbrev pub started : ℕ → ℕ → Response → CapturedRequest → CapturedRequest
started now size resp req = record (answered now size resp req) {
  is_sse = true;
  sse_events = resp.body;
}

abbrev pub final_only : Option Response → Option Response
final_only none = none
final_only (some resp) = if leb 200 resp.status then some resp else none

-- what the server's data says when the connection closes
unfoldable pub closing_response : Bytes → Option Response
closing_response buf = elim (index_double_crlf buf) [
  | some i ↦ parse_http_response_from_header (take i buf) (drop (i + 4) buf)
  | none ↦ if is_http_response buf then final_only (parse_http_response buf) else none
]

module _ (env : Surroundings) (now : ℕ) where
  -- the next message of the client becomes the pending request, if it is one
  unfoldable pub take_request : TcpStream → TcpStream
  take_request s = elim (find_http_message_end s.client_buf) [
    | none ↦ s
    | some idx ↦
        let msg = take idx s.client_buf in
        record s {
          client_buf = drop idx s.client_buf;
          pending_req =
              if is_http_response msg then none else parse_http_request (flow_of env s) now msg;
        }
  ]

  -- the response of an event stream: its record is saved at once
  unfoldable pub begin_sse : TcpStream → CapturedRequest → Bytes → Engine → Next
  begin_sse s req msg e = elim (parse_http_response msg) [
    | none ↦ again s e
    | some resp ↦
        let full = started now (length msg) resp req in
        if ltb resp.status 200 then again s e else elim (env.save e.outputs full) [
          | none ↦
              again (record (emptied s) { pending_req = none; non_http = true })
                (log (saved full none) e)
          | some id ↦
              let counted = count_found (log (saved full (some id)) e) in
              again (record s { pending_req = none; sse_pending = true; sse_req_id = id })
                (if env.has_hub
                  then log (update_told (record full { id = id })) counted
                  else counted)
        ]
  ]

  -- any other response
  unfoldable pub finish_response : TcpStream → CapturedRequest → Bytes → Engine → Next
  finish_response s req msg e = elim (parse_http_response msg) [
    | none ↦ again s e
    | some resp ↦
        if ltb resp.status 200
        then again s e
        else again (record s { pending_req = none }) (emit (answered now (length msg) resp req) e)
  ]

  -- a message of the server, `s` with it and `consumed` without it
  unfoldable pub respond_with : TcpStream → TcpStream → CapturedRequest → Bytes → Engine → Next
  respond_with s consumed req msg e =
      let open_ended = not (says_length msg) && not (says_chunked msg) in
      if is_sse_header msg && open_ended
      then begin_sse consumed req msg e
      else if open_ended && ends_on_close msg
      then stop s e
      else finish_response consumed req msg e

  -- the message at the front of the server's data
  unfoldable pub respond_at : TcpStream → CapturedRequest → ℕ → Engine → Next
  respond_at s req idx e =
      respond_with s (record s { server_buf = drop idx s.server_buf }) req (take idx s.server_buf) e

  unfoldable pub respond : TcpStream → CapturedRequest → Engine → Next
  respond s req e =
      if is_http_response s.server_buf
      then elim (find_http_message_end s.server_buf) [
        | none ↦ stop s e
        | some idx ↦ respond_at s req idx e
      ]
      else stop s e

  -- a round from the point where a request may have been taken
  unfoldable pub resume : Option CapturedRequest → TcpStream → Engine → Next
  resume none s e = stop s e
  resume (some req) s e = respond s req e

  -- one round of `tryExtractHTTP`
  unfoldable pub extract_with : Option CapturedRequest → TcpStream → Engine → Next
  extract_with (some req) s e = respond s req e
  extract_with none s e = let s' = take_request s in resume s'.pending_req s' e

  abbrev pub extract_round : TcpStream → Engine → Next
  extract_round s e = extract_with s.pending_req s e

  unfoldable pub extract_rounds : ℕ → TcpStream → Engine → Option (TcpStream × Engine)
  extract_rounds zero s e = none
  extract_rounds (suc fuel) s e = elim (extract_round s e) [
    | stop s' e' ↦ some (s', e')
    | again s' e' ↦ extract_rounds fuel s' e'
  ]

  -- `tryExtractHTTP`; a round that goes on has consumed a byte of the server's data
  unfoldable pub try_extract_http : TcpStream → Engine → Option (TcpStream × Engine)
  try_extract_http s e = extract_rounds (suc (length s.server_buf)) s e

  -- the pending request goes out, with the response if there is one
  unfoldable pub close_request : TcpStream → CapturedRequest → Engine → Next
  close_request s req e = elim (closing_response s.server_buf) [
    | none ↦ again (record (emptied s) { pending_req = none }) (emit req e)
    | some resp ↦
        if ltb resp.status 200
        then again (record s { server_buf = [] }) e
        else again (record (emptied s) { pending_req = none })
            (emit (answered now (length s.server_buf) resp req) e)
  ]

  unfoldable pub close_resume : Option CapturedRequest → TcpStream → Engine → Next
  close_resume none s e = stop (emptied s) e
  close_resume (some req) s e = close_request s req e

  -- one round of `tryExtractHTTPOnClose`, behind its call of `tryExtractHTTP`
  unfoldable pub close_with : Option CapturedRequest → TcpStream → Engine → Next
  close_with (some req) s e = close_request s req e
  close_with none s e =
      let s' = take_request s in
      if eqb s.client_buf [] then stop s e else close_resume s'.pending_req s' e

  abbrev pub close_round : TcpStream → Engine → Next
  close_round s e = close_with s.pending_req s e

  unfoldable pub close_rounds : ℕ → TcpStream → Engine → Option (TcpStream × Engine)
  close_rounds zero s e = none
  close_rounds (suc fuel) s e = elim (try_extract_http s e) [
    | none ↦ none
    | some (s1, e1) ↦ elim (close_round s1 e1) [
      | stop s2 e2 ↦ some (s2, e2)
      | again s2 e2 ↦ close_rounds fuel s2 e2
    ]
  ]

  -- `tryExtractHTTPOnClose`; three rounds are enough
  unfoldable pub try_extract_http_on_close : TcpStream → Engine → Option (TcpStream × Engine)
  try_extract_http_on_close s e = close_rounds 3 s e
