-- ===== src/Api/Gate/Headers.antt =====
-- What every answer of the chain carries.
use packet_lab.Prelude.{
  ◌≢◌, Option, ◌≡◌, ◌⊎◌, inl, inr, refl, ap, ◌∙◌, false, none, some, [], if◌then◌else◌, Bool-cases,
  Bytes, bytes, eqb, Map, lookup, insert, lookup-insert,
}
use packet_lab.Api.Gate.{
  Request, Reply, AppError, Body, handled, app_error, cut_off, no_content, Net, Mux, panicked,
  Settings, header, request_id, is_allowed_origin, origin_headers, preflight_headers,
  security_headers, secured,
}
use packet_lab.Api.Gate.Served.{
  Served, preflight, foreign, refused, answered, broken, id_name, base_headers, id_headers,
  secured-Served,
}

abbrev pub frame : Bytes
frame = bytes "X-Frame-Options"

abbrev pub credentials : Bytes
credentials = bytes "Access-Control-Allow-Credentials"

-- the request id does not change the other headers
id_other :
    (j v : Bytes) (m : Map Bytes)
    → eqb id_name j ≡ false
    → lookup j (insert id_name v m) ≡ lookup j m
id_other j v m ne = lookup-insert id_name j v m ∙ ap (λ b. if b then some v else lookup j m) ne

base_frame :
    (net : Net) (s : Settings) (r : Request)
    → lookup frame (base_headers net s r) ≡ some (bytes "DENY")
unfolding base_headers preflight_headers origin_headers security_headers insert lookup eqb
base_frame net s r =
    elim (Bool-cases (is_allowed_origin net (header (bytes "Origin") r) s.allow_origins)) [
      | inl e ↦ simp (e) refl
      | inr e ↦ simp (e) refl
    ]

base_credentials :
    (net : Net) (s : Settings) (r : Request)
    → lookup credentials (base_headers net s r) ≡ (
        if is_allowed_origin net (header (bytes "Origin") r) s.allow_origins
        then some (bytes "true")
        else none)
unfolding base_headers preflight_headers origin_headers security_headers insert lookup eqb
base_credentials net s r =
    elim (Bool-cases (is_allowed_origin net (header (bytes "Origin") r) s.allow_origins)) [
      | inl e ↦ simp (e) refl
      | inr e ↦ simp (e) refl
    ]

other_names : (eqb id_name frame ≡ false) × (eqb id_name credentials ≡ false)
unfolding eqb
other_names = (refl, refl)

headers_lem :
    (net : Net) (s : Settings) (mux : Mux) (r : Request) (reply : Reply)
    → Served net s mux r reply
    → (reply.headers ≡ base_headers net s r) ⊎ (reply.headers ≡ id_headers net s r)
headers_lem net s mux r _ (preflight _) = inl refl
headers_lem net s mux r _ (foreign _ _) = inl refl
headers_lem net s mux r _ (refused _ _) = inr refl
headers_lem net s mux r _ (answered _ _ _ _) = inr refl
headers_lem net s mux r _ (broken _ _ _ _) = inr refl

-- Every answer behind the rate limit forbids framing, and allows credentials exactly to an allowed
-- origin.
pub secured_headers :
    (net : Net) (s : Settings) (mux : Mux) (r : Request)
    → (lookup frame (secured net s mux r).headers ≡ some (bytes "DENY"))
      × (lookup credentials (secured net s mux r).headers ≡ (
          if is_allowed_origin net (header (bytes "Origin") r) s.allow_origins
          then some (bytes "true")
          else none))
unfolding id_headers
secured_headers net s mux r =
    elim (headers_lem net s mux r (secured net s mux r) (secured-Served net s mux r)) [
      | inl e ↦ (
        ap (lookup frame) e ∙ base_frame net s r,
        ap (lookup credentials) e ∙ base_credentials net s r,
      )
      | inr e ↦ (
        ap (lookup frame) e
            ∙ id_other frame (request_id net r) (base_headers net s r) other_names.0
            ∙ base_frame net s r,
        ap (lookup credentials) e
            ∙ id_other credentials (request_id net r) (base_headers net s r) other_names.1
            ∙ base_credentials net s r,
      )
    ]

-- the error in a body
abbrev pub error_in : Body → Option AppError
error_in (handled out) = none
error_in (app_error e) = some e
error_in (cut_off out e) = some e
error_in no_content = none

-- why an answer has an error, which error it is, and which id the answer's header has
pub data ErrorOf (net : Net) (mux : Mux) (r : Request) (reply : Reply) : AppError → Type 0 where
  no_token :
      lookup id_name reply.headers ≡ some (request_id net r)
      → ErrorOf net mux r reply (record {
        message = bytes "Missing or invalid API token";
        code = bytes "UNAUTHORIZED";
        status_code = 401;
        request_id = request_id net r;
      })
  other_page :
      r.method ≢ bytes "GET"
      → r.method ≢ bytes "HEAD"
      → r.method ≢ bytes "OPTIONS"
      → header (bytes "X-Requested-With") r ≢ bytes "XMLHttpRequest"
      → ErrorOf net mux r reply (record {
        message = bytes "Forbidden";
        code = bytes "FORBIDDEN";
        status_code = 403;
        request_id = [];
      })
  panic :
      (written : Option Bytes)
      → mux r (request_id net r) ≡ panicked written
      → lookup id_name reply.headers ≡ some (request_id net r)
      → ErrorOf net mux r reply (record {
        message = bytes "Internal server error";
        code = bytes "INTERNAL_ERROR";
        status_code = 500;
        request_id = [];
      })

-- what is refused for the sake of a foreign page
record Foreign (r : Request) : Type 0 where
  no_get : r.method ≢ bytes "GET"
  no_head : r.method ≢ bytes "HEAD"
  no_header : header (bytes "X-Requested-With") r ≢ bytes "XMLHttpRequest"
