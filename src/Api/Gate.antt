-- ===== src/Api/Gate.antt =====
-- The chain of internal/api/middleware.go around the handlers, in the order in which `ServeHTTP`'s
-- handler is built in internal/api/server.go: rate limit, security headers, CORS, CSRF, recovery,
-- request id, authentication.
mod Served
mod Guards
mod Headers
mod Tests
use packet_lab.Prelude.{
  ℕ, Bool, true, false, not, ◌&&◌, ◌||◌, Option, none, some, List, [], ◌∷◌, ◌++◌, if◌then◌else◌,
  length, take, drop, Bytes, bytes, eqb, has_prefix, Map, lookup, insert,
}
use packet_lab.Api.Limiter.{RateLimiter, allow}

-- what the chain reads of an *http.Request; `headers` has canonical names, `token_param` is the query
-- parameter `token`, empty when it is missing
pub record Request : Type 0 where
  pub method : Bytes
  pub path : Bytes
  pub remote_addr : Bytes
  pub headers : Map Bytes
  pub token_param : Bytes

-- `AppError`
pub record AppError : Type 0 where
  pub message : Bytes
  pub code : Bytes
  pub status_code : ℕ
  pub request_id : Bytes

-- what is written: what a handler has written, an error, the error that follows on what a handler wrote
-- before it panicked, or the answer to a preflight
pub data Body : Type 0 where
  handled : Bytes → Body
  app_error : AppError → Body
  cut_off : Bytes → AppError → Body
  no_content : Body

pub record Reply : Type 0 where
  pub headers : Map Bytes
  pub body : Body

-- `r.Header.Get`
abbrev pub header : Bytes → Request → Bytes
header name r = elim (lookup name r.headers) [ none ↦ [] | some v ↦ v ]

abbrev pub err_rate_limited : AppError
err_rate_limited = record {
  message = bytes "Too many requests, please try again later";
  code = bytes "RATE_LIMITED";
  status_code = 429;
  request_id = [];
}

abbrev pub err_unauthorized : AppError
err_unauthorized = record {
  message = bytes "Missing or invalid API token";
  code = bytes "UNAUTHORIZED";
  status_code = 401;
  request_id = [];
}

abbrev pub err_forbidden : AppError
err_forbidden = record {
  message = bytes "Forbidden";
  code = bytes "FORBIDDEN";
  status_code = 403;
  request_id = [];
}

-- ErrInternal("Internal server error")
abbrev pub err_internal : AppError
err_internal = record {
  message = bytes "Internal server error";
  code = bytes "INTERNAL_ERROR";
  status_code = 500;
  request_id = [];
}

-- what the code uses of `net`, `net/url` and `uuid`: `url.Parse` with `Hostname`, `net.SplitHostPort`,
-- and the text of a new id
pub record Net : Type 0 where
  pub hostname : Bytes → Option Bytes
  pub split_host_port : Bytes → Option (Bytes × Bytes)
  pub new_uuid : Bytes

-- what comes of a handler: its output, or a panic with the output before it if the answer had begun
pub data Ran : Type 0 where
  finished : Bytes → Ran
  panicked : Option Bytes → Ran

-- the handlers, by the request id in the context
abbrev pub Mux : Type 0
Mux = Request → Bytes → Ran

-- what comes of a middleware inside the recovery: an answer, or a panic that goes on up, with the
-- headers and the output so far
pub data Inner : Type 0 where
  done : Reply → Inner
  panics : Map Bytes → Option Bytes → Inner

-- an http.Handler: it gets the request, the request id in the request's context, empty if there is
-- none, and the headers that are set so far
abbrev pub Handler : Type 0 → Type 0
Handler A = Request → Bytes → Map Bytes → A

-- `isStaticPath`
unfoldable pub is_static_path : Bytes → Bool
is_static_path path =
    if has_prefix path (bytes "/api") || eqb path (bytes "/ws") then false else true

-- strings.TrimPrefix of `Bearer `, which is there
unfoldable pub bearer : Bytes → Bytes
bearer token = if has_prefix token (bytes "Bearer ") then drop 7 token else token

-- the token that a request carries
unfoldable pub token_of : Request → Bytes
token_of r =
    let token = bearer (header (bytes "Authorization") r) in
    if eqb token [] then r.token_param else token

-- `authMiddleware`: whether the request goes on
unfoldable pub authorized : Bytes → Request → Bool
authorized api_token r =
    eqb api_token []
    || ((eqb r.path (bytes "/health") || eqb r.path (bytes "/ready"))
        || (is_static_path r.path || eqb (token_of r) api_token))

-- an error that is written by a `requestIDWriter`
abbrev pub with_id : Bytes → AppError → AppError
with_id id e = if not (eqb id []) && eqb e.request_id [] then record e { request_id = id } else e

-- `authMiddleware` around the handlers
unfoldable pub auth_middleware : Bytes → Mux → Handler Inner
auth_middleware api_token mux r id headers =
    if authorized api_token r
    then elim (mux r id) [
      | finished out ↦ done (record { headers = headers; body = handled out })
      | panicked written ↦ panics headers written
    ]
    else done (record { headers = headers; body = app_error (with_id id err_unauthorized) })

-- `requestIDMiddleware`, the id that it takes
unfoldable pub request_id : Net → Request → Bytes
request_id net r =
    let id = header (bytes "X-Request-Id") r in if eqb id [] then take 12 net.new_uuid else id

-- `requestIDMiddleware`: the context of what is inside has the id; `requestIDInjectorMiddleware` gives
-- the same id to the writer of the errors inside
unfoldable pub request_id_middleware {ℓ} :
    {A : Type ℓ} → Net → (Request → Bytes → Map Bytes → A) → Request → Bytes → Map Bytes → A
request_id_middleware net next r id headers =
    let new_id = request_id net r in next r new_id (insert (bytes "X-Request-Id") new_id headers)

-- the error of the recovery behind what is already written
abbrev pub behind_output : Option Bytes → AppError → Body
behind_output none e = app_error e
behind_output (some out) e = cut_off out e

-- the deferred function of `recoveryMiddleware`, by the id in its context
unfoldable pub recovered : Bytes → Inner → Reply
recovered id (done reply) = reply
recovered id (panics headers written) = record {
  headers = headers;
  body = behind_output written (record err_internal { request_id = id });
}

-- `recoveryMiddleware`
unfoldable pub recovery_middleware : Handler Inner → Handler Reply
recovery_middleware next r id headers = recovered id (next r id headers)

abbrev pub is_safe : Bytes → Bool
is_safe m = eqb m (bytes "GET") || (eqb m (bytes "HEAD") || eqb m (bytes "OPTIONS"))

-- `csrfMiddleware`: whether the request goes on
unfoldable pub csrf_ok : Request → Bool
csrf_ok r = is_safe r.method || eqb (header (bytes "X-Requested-With") r) (bytes "XMLHttpRequest")

unfoldable pub csrf_middleware : Handler Reply → Handler Reply
csrf_middleware next r id headers =
    if csrf_ok r
    then next r id headers
    else record { headers = headers; body = app_error err_forbidden }

unfoldable pub listed : Bytes → List Bytes → Bool
listed origin [] = false
listed origin (a ∷ rest) = eqb a origin || listed origin rest

abbrev is_local : Option Bytes → Bool
is_local none = false
is_local (some host) =
    eqb host (bytes "localhost") || (eqb host (bytes "127.0.0.1") || eqb host (bytes "::1"))

-- `isAllowedOrigin`
unfoldable pub is_allowed_origin : Net → Bytes → List Bytes → Bool
is_allowed_origin net origin allow_list =
    if eqb origin []
    then false
    else if listed origin allow_list
    then true
    else is_local (net.hostname origin)

-- the headers that `corsMiddleware` sets
unfoldable pub origin_headers : Net → List Bytes → Request → Map Bytes → Map Bytes
origin_headers net allow_list r headers =
    let origin = header (bytes "Origin") r in
    if is_allowed_origin net origin allow_list
    then insert (bytes "Access-Control-Allow-Credentials") (bytes "true") (
        insert (bytes "Vary") (bytes "Origin")
          (insert (bytes "Access-Control-Allow-Origin") origin headers))
    else headers

unfoldable pub preflight_headers : Map Bytes → Map Bytes
preflight_headers headers = insert (bytes "Access-Control-Max-Age") (bytes "86400") (
    insert (bytes "Access-Control-Allow-Headers")
      (bytes "Content-Type, X-Request-ID, Authorization")
      (insert (bytes "Access-Control-Allow-Methods") (bytes "GET, POST, PUT, DELETE, OPTIONS")
        headers))

-- `corsMiddleware`
unfoldable pub cors_middleware : Net → List Bytes → Handler Reply → Handler Reply
cors_middleware net allow_list next r id headers =
    let out = preflight_headers (origin_headers net allow_list r headers) in
    if eqb r.method (bytes "OPTIONS")
    then record { headers = out; body = no_content }
    else next r id out

-- `securityHeadersMiddleware`
unfoldable pub security_headers : Map Bytes → Map Bytes
security_headers headers =
    insert (bytes "Referrer-Policy") (bytes "strict-origin-when-cross-origin") (
      insert (bytes "X-Xss-Protection") (bytes "1; mode=block") (
        insert (bytes "X-Frame-Options") (bytes "DENY")
          (insert (bytes "X-Content-Type-Options") (bytes "nosniff") headers)))

-- the settings of the server that the chain uses
pub record Settings : Type 0 where
  pub api_token : Bytes
  pub allow_origins : List Bytes

-- the middleware inside `csrfMiddleware`
unfoldable pub inner_chain : Net → Bytes → Mux → Handler Reply
inner_chain net api_token mux =
    recovery_middleware (request_id_middleware net (auth_middleware api_token mux))

-- the chain inside the rate limit, for a request whose context has no id yet
unfoldable pub secured : Net → Settings → Mux → Request → Reply
secured net s mux r =
    cors_middleware net s.allow_origins (csrf_middleware (inner_chain net s.api_token mux)) r []
      (security_headers [])

-- the key under which a client is counted
unfoldable pub client_key : Net → Bytes → Bytes
client_key net addr = elim (net.split_host_port addr) [
  | none ↦ addr
  | some (host, port) ↦ if eqb host [] then addr else host
]

abbrev limited : Bool × RateLimiter → Reply → Reply × RateLimiter
limited (true, rl) reply = (reply, rl)
limited (false, rl) reply = (record { headers = []; body = app_error err_rate_limited }, rl)

-- `rateLimitMiddleware` around the chain, at the time `now`
unfoldable pub serve : Net → Settings → Mux → ℕ → RateLimiter → Request → Reply × RateLimiter
serve net s mux now rl r =
    if eqb r.method (bytes "OPTIONS") || eqb r.path (bytes "/ws")
    then (secured net s mux r, rl)
    else limited (allow (client_key net r.remote_addr) now rl) (secured net s mux r)
