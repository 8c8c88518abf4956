-- ===== src/Capture/Parse/Tests.antt =====
-- Requests and responses that are parsed, and a witness for each property.
use mathlib.Core.Option
use packet_lab.Prelude.{
  ◌≡◌, refl, none, some, [], ◌∷◌, ◌++◌, Bytes, bytes, eqb, to_lower, has_prefix, index_of, arith,
  trim_by, drop_while, insert, length,
}
use packet_lab.Capture.Scan.{
  cr, crlf_crlf, index_byte, index_double_crlf, bytes_trim_space, trim_cr, is_all_digits,
  all_digits,
}
use packet_lab.Capture.Parse.{
  ipv4, Flow, format_ip_for_url, format_host_for_url, count_byte, last_index, request_line,
  read_line, read_headers, request_of, parse_head, parse_http_request,
}
use packet_lab.Capture.Parse.LastLine.{joined, read_lines, last_header_lost}

abbrev flow : Flow
flow = record {
  src_ip = ipv4 (bytes "10.0.0.1");
  src_port = 5000;
  dst_port = 80;
  resolve = λ ip port. none;
}

abbrev first : Bytes
first = bytes "GET /a HTTP/1.1" ++ (cr ∷ [])

abbrev agent : Bytes
agent = bytes "User-Agent: x" ++ (cr ∷ [])

abbrev host : Bytes
host = bytes "Host: a.io"

-- The Host line stands last: the address takes its place.
host_lost :
    Option.map
      (λ r. r.url)
      (parse_http_request flow 7 (joined (first ∷ agent ∷ []) host ++ (crlf_crlf ++ [])))
    ≡ some (bytes "http://10.0.0.1/a")
unfolding parse_http_request parse_head request_line read_headers read_line request_of
    index_double_crlf index_of has_prefix index_byte bytes_trim_space trim_by drop_while trim_cr
    insert eqb to_lower format_ip_for_url format_host_for_url
host_lost = refl

ported : format_host_for_url (bytes "fe80::1:8080") ≡ bytes "[fe80::1]:8080"
unfolding format_host_for_url count_byte last_index is_all_digits all_digits eqb has_prefix
ported = refl

found_end :
    index_double_crlf (joined (first ∷ agent ∷ []) host ++ (crlf_crlf ++ bytes "hi"))
    ≡ some (length (joined (first ∷ agent ∷ []) host))
unfolding index_double_crlf index_of has_prefix
found_end = refl

last_header_lost_example :
    parse_http_request flow 7 (joined (first ∷ agent ∷ []) host ++ (crlf_crlf ++ bytes "hi"))
    ≡ Option.map
        (λ line. request_of flow 7 line (read_lines (agent ∷ []) ([], [])) (bytes "hi"))
        (request_line (bytes_trim_space first))
last_header_lost_example =
    last_header_lost flow 7 first (agent ∷ []) host (bytes "hi") (omega arith) (omega arith)
      found_end
