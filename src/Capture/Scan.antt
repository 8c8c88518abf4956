-- ===== src/Capture/Scan.antt =====
-- The byte helpers at the end of internal/capture/engine.go. A position is an option: `none` stands
-- for the -1 that Go returns, which the code only tests for being negative.
use mathlib.Core.Option
use packet_lab.Prelude.{
  ℕ, suc, ◌+◌, Bool, true, false, ◌&&◌, ◌||◌, Option, none, some, List, [], ◌∷◌, ltb, leb, ◌==◌,
  if◌then◌else◌, length, get_or, Bytes, bytes, has_prefix, index_of, trim_by,
}
use mathlib.Core.List.{reverse}

abbrev pub cr : ℕ
cr = 13

abbrev pub lf : ℕ
lf = 10

abbrev pub crlf : Bytes
crlf = cr ∷ lf ∷ []

abbrev pub crlf_crlf : Bytes
crlf_crlf = cr ∷ lf ∷ cr ∷ lf ∷ []

abbrev pub lf_lf : Bytes
lf_lf = lf ∷ lf ∷ []

-- `indexByte`
unfoldable pub index_byte : Bytes → ℕ → Option ℕ
index_byte [] c = none
index_byte (b ∷ bs) c =
    let later = Option.map (λ i. suc i) (index_byte bs c) in if b == c then some 0 else later

-- `indexDoubleCRLF`: the scan stops four bytes before the end
unfoldable pub index_double_crlf : Bytes → Option ℕ
unfolding index_of
index_double_crlf = index_of crlf_crlf

-- `bytesTrimSpace`: spaces only
unfoldable pub bytes_trim_space : Bytes → Bytes
unfolding trim_by
bytes_trim_space = trim_by (λ c. c == 32)

abbrev drop_cr : Bytes → Bytes
drop_cr [] = []
drop_cr (b ∷ bs) = if b == cr then bs else b ∷ bs

-- `trimCR`, and strings.TrimSuffix(line, "\r")
unfoldable pub trim_cr : Bytes → Bytes
trim_cr s = reverse (drop_cr (reverse s))

abbrev fold_byte : ℕ → ℕ
fold_byte c = if leb b'A' c && leb c b'Z' then c + 32 else c

-- `hasPrefixFold`
unfoldable pub has_prefix_fold : Bytes → Bytes → Bool
has_prefix_fold b [] = true
has_prefix_fold [] (y ∷ ys) = false
has_prefix_fold (x ∷ xs) (y ∷ ys) = (fold_byte x == fold_byte y) && has_prefix_fold xs ys

-- `isAllDigits`
unfoldable pub all_digits : Bytes → Bool
all_digits [] = true
all_digits (b ∷ bs) = leb b'0' b && leb b b'9' && all_digits bs

unfoldable pub is_all_digits : Bytes → Bool
unfolding all_digits
is_all_digits [] = false
is_all_digits (b ∷ bs) = all_digits (b ∷ bs)

-- `isHTTPResponse`
unfoldable pub is_http_response : Bytes → Bool
is_http_response s = has_prefix s (bytes "HTTP")

-- `httpMethodPrefixes`
abbrev pub http_method_prefixes : List Bytes
http_method_prefixes =
    bytes "GET "
    ∷ bytes "POST"
    ∷ bytes "PUT "
    ∷ bytes "DELE"
    ∷ bytes "PATC"
    ∷ bytes "HEAD"
    ∷ bytes "OPTI"
    ∷ bytes "CONN"
    ∷ bytes "TRAC"
    ∷ []

abbrev any_prefix : List Bytes → Bytes → Bool
any_prefix [] s = false
any_prefix (p ∷ ps) s = has_prefix s p || any_prefix ps s

-- `looksLikeHTTP`
unfoldable pub looks_like_http : Bytes → Bool
looks_like_http s =
    if length s == 0
    then true
    else if any_prefix http_method_prefixes s
    then true
    else has_prefix s (bytes "HTTP")

-- `isTLSClientHello`
unfoldable pub is_tls_client_hello : Bytes → Bool
is_tls_client_hello s =
    if ltb (length s) 6
    then false
    else (get_or s 0 0 == 0x16)
      && (get_or s 1 0 == 0x03)
      && (leb 0x01 (get_or s 2 0) && leb (get_or s 2 0) 0x03)
