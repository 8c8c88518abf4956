-- ===== src/Capture/Stream/Tests.antt =====
-- An exchange, a connection that closes and a stream of events, and a witness for each property.
use mathlib.Core.Option
use packet_lab.Prelude.{
  ◌-◌, ◌/◌, ◌≡◌, refl, Bool, true, false, none, some, [], ◌∷◌, ◌++◌, Bytes, bytes, eqb, to_lower,
  has_prefix, index_of, arith, trim_space, trim_by, drop_while, insert, length, split_on, scan_int,
  scan_digits, contains, cut_prefix,
}
use packet_lab.Models.{CapturedRequest, empty_request}
use packet_lab.Capture.Scan.{
  cr, lf, crlf_crlf, index_byte, index_double_crlf, bytes_trim_space, trim_cr, is_http_response,
  has_prefix_fold, looks_like_http, is_tls_client_hello,
}
use packet_lab.Capture.Frame.{
  find_http_message_end, header_end, body_end, parse_content_length, content_length_in,
  parse_transfer_encoding, transfer_encoding_from, truncate_buffer,
}
use packet_lab.Capture.Parse.{
  ipv4, Response, format_ip_for_url, format_host_for_url, request_line, read_line, read_headers,
  request_of, parse_head, parse_http_request, second_part, response_line, response_headers,
  parse_http_response, parse_http_response_from_header,
}
use packet_lab.Capture.Stream.{Engine, Surroundings, TcpStream, new_stream, emit, emitted, emptied}
use packet_lab.Capture.Stream.Extract.{
  take_request, extract_rounds, extract_with, respond, respond_at, respond_with, begin_sse,
  is_sse_header, resume, try_extract_http, close_rounds, try_extract_http_on_close,
}
use packet_lab.Capture.Stream.Ends.{Ends}
use packet_lab.Capture.Stream.Feed.{feed, trimmed, stream_buf_limit}
use packet_lab.Capture.Stream.Closes.{close_waiting, on_close_end}
use packet_lab.Capture.Stream.Exchange.{IsRequest, IsResponse, exchange_emitted}

abbrev line_end : Bytes
line_end = cr ∷ lf ∷ []

abbrev env : Surroundings
env = record {
  max_res_bytes = 4096;
  has_hub = false;
  save = λ calls req. some 7;
  resolve = λ ip port. none;
}

abbrev idle : Engine
idle = record { http_found = 0; outputs = [] }

abbrev get : Bytes
get = bytes "GET /a HTTP/1.1" ++ (line_end ++ (bytes "A: b" ++ crlf_crlf))

abbrev answer : Bytes
answer =
    bytes "HTTP/1.1 200 OK"
    ++ (line_end ++ (bytes "Content-Length: 2" ++ (crlf_crlf ++ bytes "hi")))

abbrev both : TcpStream
both = record (new_stream (ipv4 (bytes "10.0.0.1")) 5000 80 3) {
  client_buf = get;
  server_buf = answer;
}

abbrev asked : CapturedRequest
asked = record empty_request {
  method = bytes "GET";
  url = bytes "http://10.0.0.1/a";
  host = bytes "10.0.0.1";
  path = bytes "/a";
  protocol = bytes "HTTP/1.1";
  captured_at = 9;
  capture_mode = bytes "nic";
}

abbrev told : Response
told = record {
  status = 200;
  headers = (bytes "Content-Length", bytes "2") ∷ [];
  body = bytes "hi";
}

whole-IsRequest : IsRequest env 9 both asked
unfolding find_http_message_end header_end body_end parse_content_length content_length_in
    parse_transfer_encoding transfer_encoding_from parse_http_request parse_head request_line
    read_headers read_line request_of index_double_crlf index_of is_http_response has_prefix
    index_byte bytes_trim_space trim_by drop_while trim_cr insert eqb to_lower format_ip_for_url
    format_host_for_url has_prefix_fold split_on contains scan_int scan_digits trim_space cut_prefix
whole-IsRequest = record { whole = refl; no_response = refl; parsed = refl }

whole-IsResponse : IsResponse answer told
unfolding find_http_message_end header_end body_end parse_content_length content_length_in
    parse_transfer_encoding transfer_encoding_from parse_http_response
    parse_http_response_from_header index_double_crlf index_of is_http_response has_prefix
    index_byte bytes_trim_space trim_by drop_while trim_cr insert eqb to_lower has_prefix_fold
    split_on contains scan_int scan_digits trim_space cut_prefix second_part response_line
    response_headers
whole-IsResponse = record {
  whole = refl;
  named = refl;
  sized = refl;
  parsed = refl;
  final = omega arith;
}

exchange_emitted_example :
    try_extract_http env 9 both idle
    ≡ some (
      record both { client_buf = []; server_buf = []; pending_req = none },
      record {
        http_found = 1;
        outputs =
            emitted (record asked {
              status_code = 200;
              res_headers = told.headers;
              res_body = bytes "hi";
              duration_ms = (9 - asked.captured_at) / 1000000;
              size_bytes = length answer;
              capture_mode = bytes "nic";
            })
            ∷ [];
      },
    )
exchange_emitted_example =
    exchange_emitted env 9 both asked told idle refl whole-IsRequest whole-IsResponse

-- a second request behind the one that waits
abbrev pipelined : TcpStream
pipelined = record both { client_buf = get; server_buf = []; pending_req = some asked }

close_waiting_example :
    close_rounds env 9 3 pipelined idle
    ≡ some (record (emptied pipelined) { pending_req = none }, emit asked idle)
close_waiting_example = close_waiting env 9 pipelined asked idle 1 refl refl

on_close_end_example : Ends (try_extract_http_on_close env 9 both idle)
on_close_end_example = on_close_end env 9 both idle

abbrev event_header : Bytes
event_header =
    bytes "HTTP/1.1 200 OK" ++ (line_end ++ (bytes "Content-Type: text/event-stream" ++ crlf_crlf))

-- Events that come with the header of their stream stay behind it and do not reach the buffer of events.
early_events :
    Option.map {B = Bool × (Bytes × Bytes)}
      (λ r. (r.0.sse_pending, (r.0.sse_buf, r.0.server_buf)))
      (feed env 9
        (event_header ++ bytes "data: 1")
        false
        (record both { server_buf = []; pending_req = some asked })
        idle)
    ≡ some (true, ([], bytes "data: 1"))
unfolding take_request parse_http_request parse_head request_line feed try_extract_http
    extract_rounds extract_with respond respond_at respond_with begin_sse is_sse_header resume
    find_http_message_end header_end body_end parse_content_length content_length_in
    parse_transfer_encoding transfer_encoding_from parse_http_response
    parse_http_response_from_header index_double_crlf index_of is_http_response has_prefix
    index_byte bytes_trim_space trim_by drop_while trim_cr insert eqb to_lower has_prefix_fold
    split_on contains scan_int scan_digits trim_space cut_prefix second_part response_line
    response_headers trimmed truncate_buffer stream_buf_limit looks_like_http is_tls_client_hello
early_events = refl
