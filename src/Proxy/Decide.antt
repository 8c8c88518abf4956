-- ===== src/Proxy/Decide.antt =====
-- `Handle` in the manual mode and `HandleResponse` of internal/proxy/interceptor.go: what becomes of a
-- request or a response once `enqueuePending` and `awaitDecision` have returned.
mod Kept
mod Given
mod Manual
mod Tests
use packet_lab.Prelude.{
  ℕ, zero, suc, ◌+◌, ◌/◌, ◌%◌, Bool, true, false, not, ◌&&◌, ◌||◌, Option, none, some, List, [],
  ◌∷◌, ◌++◌, ltb, ◌==◌, if◌then◌else◌, length, Bytes, bytes, eqb, Map, lookup, insert,
}
use packet_lab.Models.{InterceptResult}

-- what the handlers change of an *http.Request; the header's names are canonical, and a length that is
-- not known is none
pub record HttpRequest : Type 0 where
  pub method : Bytes
  pub url : Bytes
  pub host : Bytes
  pub headers : Map Bytes
  pub body : Bytes
  pub content_length : Option ℕ

-- what they change of an *http.Response
pub record HttpResponse : Type 0 where
  pub status_code : ℕ
  pub status : Bytes
  pub headers : Map Bytes
  pub body : Bytes
  pub content_length : ℕ

-- what the code uses of net/http: whether `NewRequest` takes a method and an address, the host
-- that it takes from the address, the canonical form of a header's name, and `StatusText`
pub record Http : Type 0 where
  pub is_request : Bytes → Bytes → Bool
  pub host_of : Bytes → Bytes
  pub canonical : Bytes → Bytes
  pub status_text : ℕ → Bytes

-- what `Handle` returns: a request to forward, with the request that `storeFunc` gets if it is called,
-- or an answer of the proxy's own
pub data Answer : Type 0 where
  forward : HttpRequest → Option HttpRequest → Answer
  refuse : ℕ → Bytes → Answer

-- what the goroutine has from the queue: no place, no decision in time, or a decision
pub data Waited : Type 0 where
  queue_full : Waited
  timed_out : Waited
  decided : InterceptResult → Waited

abbrev pub is_empty : Bytes → Bool
is_empty s = eqb s []

abbrev pub given_or : Bytes → Bytes → Bytes
given_or [] old = old
given_or (b ∷ bs) old = b ∷ bs

-- the loop `Header.Set(k, v)` over the headers of a decision
unfoldable pub set_headers : Http → Map Bytes → Map Bytes → Map Bytes
set_headers http [] headers = headers
set_headers http ((k, v) ∷ more) headers =
    set_headers http more (insert (http.canonical k) v headers)

abbrev pub no_headers : Map Bytes → Bool
no_headers [] = true
no_headers (h ∷ hs) = false

abbrev pub user_agent : Bytes
user_agent = bytes "User-Agent"

abbrev pub or_nothing : Option Bytes → Bytes
or_nothing none = []
or_nothing (some v) = v

unfoldable pub with_agent : Map Bytes → Map Bytes
with_agent headers =
    if is_empty (or_nothing (lookup user_agent headers))
    then insert user_agent (bytes "PacketLab/1.0") headers
    else headers

unfoldable pub is_modified : InterceptResult → Bool
is_modified r =
    not (is_empty r.method)
    || (not (is_empty r.url) || (not (is_empty r.new_body) || not (no_headers r.new_headers)))

-- `NewRequest` knows the length of a text, and of no other reader
abbrev pub length_known : Bytes → Option ℕ
length_known [] = none
length_known (b ∷ bs) = some (length (b ∷ bs))

-- the request that is built from a decision
unfoldable pub modified : Http → InterceptResult → HttpRequest → HttpRequest
modified http r req = record {
  method = given_or r.method req.method;
  url = given_or r.url req.url;
  host = http.host_of (given_or r.url req.url);
  headers = with_agent (set_headers http r.new_headers req.headers);
  body = given_or r.new_body req.body;
  content_length = length_known r.new_body;
}

-- `handleResult` of `Handle`
unfoldable pub handle_result : Http → InterceptResult → HttpRequest → Answer
handle_result http r req =
    if eqb r.action (bytes "allow") || eqb r.action (bytes "modify")
    then (if is_modified r
        then (if http.is_request (given_or r.method req.method) (given_or r.url req.url)
            then forward (modified http r req) (some (modified http r req))
            else refuse 400 (bytes "Invalid modified request"))
        else forward req (some req))
    else if eqb r.action (bytes "drop")
    then refuse 403 (bytes "Blocked by PacketLab")
    else forward req none

-- `Handle` in the manual mode, behind the queue
unfoldable pub handle_manual : Http → Waited → HttpRequest → Answer
handle_manual http queue_full req =
    refuse 429 (bytes "PacketLab: pending queue full, request dropped")
handle_manual http timed_out req = forward req (some req)
handle_manual http (decided r) req = handle_result http r req

-- strconv.Itoa, which needs no more digits than the number has units
unfoldable pub digits : ℕ → ℕ → Bytes → Bytes
digits zero n acc = acc
digits (suc fuel) n acc =
    let more = digits fuel (n / 10) ((b'0' + n % 10) ∷ acc) in
    if n / 10 == 0 then (b'0' + n % 10) ∷ acc else more

unfoldable pub itoa : ℕ → Bytes
itoa n = digits (suc n) n []

-- what `HandleResponse` returns: a response to pass on, with whether `storeFunc` is called and whether
-- it is told that the body is new, or an answer of the proxy's own
pub data ResponseAnswer : Type 0 where
  pass_on : HttpResponse → Option Bool → ResponseAnswer
  replace : ℕ → Bytes → ResponseAnswer

unfoldable pub with_status : Http → ℕ → HttpResponse → HttpResponse
with_status http zero resp = resp
with_status http (suc n) resp =
    let text = http.status_text (suc n) in
    record resp {
      status_code = suc n;
      status = if is_empty text then itoa (suc n) else itoa (suc n) ++ (bytes " " ++ text);
    }

abbrev pub length_name : Bytes
length_name = bytes "Content-Length"

unfoldable pub with_body : Bytes → HttpResponse → HttpResponse
with_body [] resp = resp
with_body (b ∷ bs) resp = record resp {
  body = b ∷ bs;
  content_length = length (b ∷ bs);
  headers = insert length_name (itoa (length (b ∷ bs))) resp.headers;
}

abbrev pub with_new_headers : Http → Map Bytes → HttpResponse → HttpResponse
with_new_headers http hs resp = record resp { headers = set_headers http hs resp.headers }

-- the response that a decision changes
unfoldable pub changed : Http → InterceptResult → HttpResponse → HttpResponse
changed http r resp =
    with_body r.new_body (with_new_headers http r.new_headers (with_status http r.status_code resp))

-- whether the record is brought up to date, and whether its body is
unfoldable pub to_store : InterceptResult → Option Bool
to_store r =
    if ltb 0 r.status_code || (not (no_headers r.new_headers) || not (is_empty r.new_body))
    then some (not (is_empty r.new_body))
    else none

-- `handleResult` of `HandleResponse`
unfoldable pub handle_response_result : Http → InterceptResult → HttpResponse → ResponseAnswer
handle_response_result http r resp =
    if eqb r.action (bytes "allow") || eqb r.action (bytes "modify")
    then pass_on (changed http r resp) (to_store r)
    else if eqb r.action (bytes "drop")
    then replace 403 (bytes "Blocked by PacketLab")
    else pass_on resp none

-- `HandleResponse` in the manual mode, behind the queue
unfoldable pub handle_response : Http → Waited → HttpResponse → ResponseAnswer
handle_response http queue_full resp =
    replace 429 (bytes "PacketLab: pending queue full, response dropped")
handle_response http timed_out resp = pass_on resp none
handle_response http (decided r) resp = handle_response_result http r resp
