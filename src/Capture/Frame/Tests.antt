-- ===== src/Capture/Frame/Tests.antt =====
-- Runs of the framing, and a witness for each of its properties.
use packet_lab.Prelude.{
  ◌≡◌, refl, true, some, [], ◌∷◌, ◌++◌, arith, Bytes, bytes, index_of, has_prefix, contains,
  trim_space, trim_by, drop_while, split_on, cut_prefix, to_lower, scan_hex, scan_int, scan_digits,
}
use packet_lab.Prelude.Int.{pos, negsuc}
use packet_lab.Capture.Scan.{
  crlf, crlf_crlf, index_byte, bytes_trim_space, trim_cr, has_prefix_fold,
}
use packet_lab.Capture.Frame.{
  content_length_in, parse_content_length, transfer_encoding_from, parse_transfer_encoding,
  find_http_message_end,
}
use packet_lab.Capture.Frame.Roundtrip.{Piece, SaysSize, IsChunk, encode}
use packet_lab.Capture.Frame.Delimit.{IsHeader, message_end_stable, sized_message, chunked_message}

abbrev hello : Piece
hello = record { line = bytes "5;ext"; body = bytes "hello" }

abbrev last : Bytes
last = bytes "0"

hello-IsChunk : IsChunk hello
unfolding scan_hex scan_digits trim_space trim_by drop_while
hello-IsChunk = record {
  sized = record { one_line = ground arith; scans = refl };
  some_bytes = omega arith;
  not_large = omega arith;
}

last-SaysSize : SaysSize last 0
unfolding scan_hex scan_digits trim_space trim_by drop_while
last-SaysSize = record { one_line = ground arith; scans = refl }

abbrev sized_header : Bytes
sized_header = bytes "POST / HTTP/1.1" ++ (crlf ++ (bytes "Content-Length: 5" ++ crlf_crlf))

abbrev chunked_header : Bytes
chunked_header =
    bytes "HTTP/1.1 200 OK" ++ (crlf ++ (bytes "Transfer-Encoding: chunked" ++ crlf_crlf))

sized_header-IsHeader : IsHeader sized_header
unfolding index_of has_prefix
sized_header-IsHeader = record { text_length = 34; whole = refl; first_empty_line = refl }

chunked_header-IsHeader : IsHeader chunked_header
unfolding index_of has_prefix
chunked_header-IsHeader = record { text_length = 43; whole = refl; first_empty_line = refl }

sized_header_length : parse_content_length sized_header ≡ pos 5
unfolding parse_content_length content_length_in split_on to_lower cut_prefix has_prefix trim_space
    trim_by drop_while trim_cr scan_int scan_digits
sized_header_length = refl

chunked_header_length : parse_content_length chunked_header ≡ negsuc 0
unfolding parse_content_length content_length_in split_on to_lower cut_prefix has_prefix trim_space
    trim_by drop_while trim_cr scan_int scan_digits
chunked_header_length = refl

chunked_header_encoding : contains (parse_transfer_encoding chunked_header) (bytes "chunked") ≡ true
unfolding parse_transfer_encoding transfer_encoding_from index_byte bytes_trim_space trim_by
    drop_while trim_cr has_prefix_fold contains index_of has_prefix
chunked_header_encoding = refl

chunked_message_example :
    find_http_message_end (chunked_header ++ (encode (hello ∷ []) last ++ bytes "HTTP")) ≡ some 66
chunked_message_example =
    chunked_message chunked_header (hello ∷ []) last (bytes "HTTP") 0 chunked_header-IsHeader
      chunked_header_length chunked_header_encoding (hello-IsChunk, record {}) last-SaysSize

sized_first_line : index_of crlf_crlf (sized_header ++ bytes "hello") ≡ some 34
unfolding index_of has_prefix
sized_first_line = refl

message_end_stable_example :
    find_http_message_end ((sized_header ++ bytes "hello") ++ bytes "GET /") ≡ some 43
message_end_stable_example =
    message_end_stable (sized_header ++ bytes "hello") (bytes "GET /") 34 43 sized_first_line
      (sized_message sized_header (bytes "hello") [] sized_header-IsHeader sized_header_length)
