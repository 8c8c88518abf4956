-- ===== src/Api/Gate/Served.antt =====
-- The five ways that the chain of Api/Gate answers a request behind the rate limit.
use packet_lab.Prelude.{
  ◌≡◌, ◌≢◌, ◌⊎◌, inl, inr, refl, true, false, Option, [], Bool-cases, Bytes, bytes, eqb, eqb_iff,
  Map, insert,
}
use packet_lab.Api.Gate.{
  Request, Reply, handled, app_error, no_content, behind_output, Net, Mux, Ran, finished, panicked,
  Inner, done, panics, Settings, authorized, auth_middleware, request_id, request_id_middleware,
  recovered, recovery_middleware, inner_chain, csrf_ok, csrf_middleware, origin_headers,
  preflight_headers, cors_middleware, security_headers, secured, err_internal, err_unauthorized,
  err_forbidden, with_id,
}

abbrev pub id_name : Bytes
id_name = bytes "X-Request-Id"

-- the headers that an answer has before there is a request id
unfoldable pub base_headers : Net → Settings → Request → Map Bytes
base_headers net s r =
    preflight_headers (origin_headers net s.allow_origins r (security_headers []))

-- the headers with the request id
unfoldable pub id_headers : Net → Settings → Request → Map Bytes
id_headers net s r = insert id_name (request_id net r) (base_headers net s r)

-- what the middleware of the token does
pub data Admits (token : Bytes) (mux : Mux) (r : Request) (id : Bytes) (hs : Map Bytes)
    : Inner → Type 0 where
  refuses :
      authorized token r ≡ false
      → Admits token mux r id hs
          (done (record { headers = hs; body = app_error (with_id id err_unauthorized) }))
  answers :
      authorized token r ≡ true
      → (out : Bytes) → mux r id ≡ finished out
      → Admits token mux r id hs (done (record { headers = hs; body = handled out }))
  breaks :
      authorized token r ≡ true
      → (written : Option Bytes) → mux r id ≡ panicked written
      → Admits token mux r id hs (panics hs written)

Ran-cases :
    (x : Ran)
    → ((out : Bytes) × (x ≡ finished out)) ⊎ ((written : Option Bytes) × (x ≡ panicked written))
Ran-cases (finished out) = inl (out, refl)
Ran-cases (panicked written) = inr (written, refl)

auth_middleware-Admits :
    (token : Bytes) (mux : Mux) (r : Request) (id : Bytes) (hs : Map Bytes)
    → Admits token mux r id hs (auth_middleware token mux r id hs)
unfolding auth_middleware
auth_middleware-Admits token mux r id hs = elim (Bool-cases (authorized token r)) [
  | inr no_right ↦ rw (auth_middleware, no_right) (refuses no_right)
  | inl right ↦ elim (Ran-cases (mux r id)) [
    | inl (out, e) ↦ rw (auth_middleware, right, e) (answers right out e)
    | inr (written, e) ↦ rw (auth_middleware, right, e) (breaks right written e)
  ]
]

-- the answer of the chain
pub data Served (net : Net) (s : Settings) (mux : Mux) (r : Request) : Reply → Type 0 where
  preflight :
      r.method ≡ bytes "OPTIONS"
      → Served net s mux r (record { headers = base_headers net s r; body = no_content })
  foreign :
      r.method ≢ bytes "OPTIONS"
      → csrf_ok r ≡ false
      → Served net s mux r
          (record { headers = base_headers net s r; body = app_error err_forbidden })
  refused :
      csrf_ok r ≡ true
      → authorized s.api_token r ≡ false
      → Served net s mux r (record {
        headers = id_headers net s r;
        body = app_error (with_id (request_id net r) err_unauthorized);
      })
  answered :
      csrf_ok r ≡ true
      → authorized s.api_token r ≡ true
      → (out : Bytes) → mux r (request_id net r) ≡ finished out
      → Served net s mux r (record { headers = id_headers net s r; body = handled out })
  broken :
      csrf_ok r ≡ true
      → authorized s.api_token r ≡ true
      → (written : Option Bytes) → mux r (request_id net r) ≡ panicked written
      → Served net s mux r (record {
        headers = id_headers net s r;
        body = behind_output written (record err_internal { request_id = [] });
      })

inner-Served :
    (net : Net) (s : Settings) (mux : Mux) (r : Request) (x : Inner)
    → csrf_ok r ≡ true
    → Admits s.api_token mux r (request_id net r) (id_headers net s r) x
    → Served net s mux r (recovered [] x)
unfolding recovered
inner-Served net s mux r _ ok (refuses no_right) = refused ok no_right
inner-Served net s mux r _ ok (answers right out e) = answered ok right out e
inner-Served net s mux r _ ok (breaks right written e) = broken ok right written e

pub secured-Served :
    (net : Net) (s : Settings) (mux : Mux) (r : Request) → Served net s mux r (secured net s mux r)
unfolding secured cors_middleware csrf_middleware inner_chain recovery_middleware
    request_id_middleware base_headers id_headers
secured-Served net s mux r = elim (Bool-cases (eqb r.method (bytes "OPTIONS"))) [
  | inl e ↦ rw (e) (preflight ((eqb_iff r.method (bytes "OPTIONS")).0 e))
  | inr e ↦ elim (Bool-cases (csrf_ok r)) [
    | inl f ↦
        rw (e, f)
          (inner-Served net s mux r _ f
            (auth_middleware-Admits s.api_token mux r (request_id net r) (id_headers net s r)))
    | inr f ↦
        rw (e, f) (foreign (λ same. let yes = (eqb_iff r.method (bytes "OPTIONS")).1 same in cc) f)
  ]
]
