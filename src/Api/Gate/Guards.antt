-- ===== src/Api/Gate/Guards.antt =====
-- What a request must carry to reach a handler.
use packet_lab.Prelude.{
  drop, ◌++◌, get_or, has_prefix_iff, ◌≡◌, ◌≢◌, ◌⊎◌, inl, inr, refl, sym, ap, subst, ◌∙◌, true,
  false, ◌||◌, or_iff, none, some, [], if◌then◌else◌, Bool-cases, Bytes, bytes, eqb, eqb_iff,
  has_prefix, arith,
}
use packet_lab.Api.Gate.{
  Request, Reply, handled, finished, Net, Mux, Settings, header, is_static_path, bearer, token_of,
  authorized, request_id, is_safe, csrf_ok, secured,
}
use packet_lab.Api.Gate.Served.{
  Served, preflight, foreign, refused, answered, broken, secured-Served,
}

-- where the token is asked for
pub data Protected (path : Bytes) : Type 0 where
  api_path : (rest : Bytes) → path ≡ bytes "/api" ++ rest → Protected path
  socket : path ≡ bytes "/ws" → Protected path

static_ws : is_static_path (bytes "/ws") ≡ false
unfolding is_static_path has_prefix eqb
static_ws = refl

protected_lem :
    (path : Bytes)
    → Protected path
    → (is_static_path path ≡ false) × ((path ≢ bytes "/health") × (path ≢ bytes "/ready"))
unfolding is_static_path
protected_lem path (api_path rest e) =
    let starts = (has_prefix_iff path (bytes "/api")).1 (rest, e) in
    (
      simp (starts) refl,
      (
        λ h. let c : 97 ≡ 104 = ap (λ s. get_or s 1 0) (sym e ∙ h) in absurd (omega (arith, c)),
        λ h. let c : 97 ≡ 114 = ap (λ s. get_or s 1 0) (sym e ∙ h) in absurd (omega (arith, c)),
      ),
    )
protected_lem path (socket e) = (
  subst (λ q. is_static_path q ≡ false) (sym e) static_ws,
  (
    λ h. let c : 119 ≡ 104 = ap (λ s. get_or s 1 0) (sym e ∙ h) in absurd (omega (arith, c)),
    λ h. let c : 119 ≡ 114 = ap (λ s. get_or s 1 0) (sym e ∙ h) in absurd (omega (arith, c)),
  ),
)

-- the request has the token in its `Authorization` header, behind `Bearer ` or alone, or has nothing
-- there and the token as its parameter `token`
pub data Carries (r : Request) (token : Bytes) : Type 0 where
  by_bearer : header (bytes "Authorization") r ≡ bytes "Bearer " ++ token → Carries r token
  by_header :
      header (bytes "Authorization") r ≡ token
      → ¬ ((rest : Bytes) × (token ≡ bytes "Bearer " ++ rest))
      → Carries r token
  by_parameter :
      (header (bytes "Authorization") r ≡ []) ⊎ (header (bytes "Authorization") r ≡ bytes "Bearer ")
      → r.token_param ≡ token
      → Carries r token

-- what the stripped header is
bearer_lem :
    (given : Bytes)
    → (given ≡ bytes "Bearer " ++ bearer given)
      ⊎ ((bearer given ≡ given) × (¬ ((rest : Bytes) × (given ≡ bytes "Bearer " ++ rest))))
unfolding bearer
bearer_lem given = elim (Bool-cases (has_prefix given (bytes "Bearer "))) [
  | inl starts ↦
      let (rest, e) = (has_prefix_iff given (bytes "Bearer ")).0 starts in
      rw (starts) (inl (e ∙ ap (λ u. bytes "Bearer " ++ u) (sym (ap (drop 7) e))))
  | inr other ↦
      rw (other) (inr (refl, λ h. let yes = (has_prefix_iff given (bytes "Bearer ")).1 h in cc))
]

token_of-Carries : (r : Request) (token : Bytes) → token_of r ≡ token → Carries r token
unfolding token_of
token_of-Carries r token h = elim (Bool-cases (eqb (bearer given) [])) [
  | inl e ↦
      let nothing : bearer given ≡ [] = (eqb_iff (bearer given) []).0 e in
      let param : r.token_param ≡ token =
        sym (ap (λ b. if b then r.token_param else bearer given) e) ∙ h in
      elim (bearer_lem given) [
        | inl f ↦ by_parameter (inr (f ∙ ap (λ u. bytes "Bearer " ++ u) nothing)) param
        | inr (f, _) ↦ by_parameter (inl (sym f ∙ nothing)) param
      ]
  | inr e ↦
      let same : bearer given ≡ token =
        sym (ap (λ b. if b then r.token_param else bearer given) e) ∙ h in
      elim (bearer_lem given) [
        | inl f ↦ by_bearer (f ∙ ap (λ u. bytes "Bearer " ++ u) same)
        | inr (f, other) ↦ by_header (sym f ∙ same) λ (rest, g). other (rest, sym f ∙ same ∙ g)
      ]
]
  where
    given : Bytes
    given = header (bytes "Authorization") r

-- an authorized request for a protected path carries the token
token_needed :
    (token : Bytes) (r : Request)
    → token ≢ []
    → Protected r.path
    → authorized token r ≡ true
    → token_of r ≡ token
unfolding authorized
token_needed token r set p h =
    let (not_static, (not_health, not_ready)) = protected_lem r.path p in
    elim ((or_iff (eqb token []) (
        (eqb r.path (bytes "/health") || eqb r.path (bytes "/ready"))
        || (is_static_path r.path || eqb (token_of r) token))).0
      h) [
        | inl e ↦ absurd (set ((eqb_iff token []).0 e))
        | inr h1 ↦
            elim ((or_iff (eqb r.path (bytes "/health") || eqb r.path (bytes "/ready"))
                (is_static_path r.path || eqb (token_of r) token)).0
              h1) [
                | inl free ↦
                    elim ((or_iff (eqb r.path (bytes "/health")) (eqb r.path (bytes "/ready"))).0
                      free) [
                        | inl e ↦ absurd (not_health ((eqb_iff r.path (bytes "/health")).0 e))
                        | inr e ↦ absurd (not_ready ((eqb_iff r.path (bytes "/ready")).0 e))
                      ]
                | inr h2 ↦ elim ((or_iff (is_static_path r.path) (eqb (token_of r) token)).0 h2) [
                  | inl e ↦ let contra : false ≡ true = sym not_static ∙ e in cc
                  | inr e ↦ (eqb_iff (token_of r) token).0 e
                ]
              ]
      ]

csrf_needed :
    (r : Request)
    → r.method ≢ bytes "GET"
    → r.method ≢ bytes "HEAD"
    → r.method ≢ bytes "OPTIONS"
    → csrf_ok r ≡ true
    → header (bytes "X-Requested-With") r ≡ bytes "XMLHttpRequest"
unfolding csrf_ok
csrf_needed r no_get no_head no_options ok =
    elim ((or_iff (is_safe r.method) (eqb given (bytes "XMLHttpRequest"))).0 ok) [
      | inr e ↦ (eqb_iff given (bytes "XMLHttpRequest")).0 e
      | inl safe ↦ elim ((or_iff (eqb r.method (bytes "GET")) _).0 safe) [
        | inl e ↦ absurd (no_get ((eqb_iff r.method (bytes "GET")).0 e))
        | inr more ↦ elim ((or_iff (eqb r.method (bytes "HEAD")) _).0 more) [
          | inl e ↦ absurd (no_head ((eqb_iff r.method (bytes "HEAD")).0 e))
          | inr e ↦ absurd (no_options ((eqb_iff r.method (bytes "OPTIONS")).0 e))
        ]
      ]
    ]
  where
    given : Bytes
    given = header (bytes "X-Requested-With") r

handled_inj : {a b : Bytes} → handled a ≡ handled b → a ≡ b
handled_inj e = cc

-- the handler's output comes out of the chain only for an authorized request that passes the guard
passed_lem :
    (net : Net) (s : Settings) (mux : Mux) (r : Request) (out : Bytes) (reply : Reply)
    → Served net s mux r reply
    → reply.body ≡ handled out
    → (authorized s.api_token r ≡ true)
      × (csrf_ok r ≡ true)
      × (mux r (request_id net r) ≡ finished out)
passed_lem net s mux r out _ (preflight _) h = cc
passed_lem net s mux r out _ (foreign _ _) h = cc
passed_lem net s mux r out _ (refused _ _) h = cc
passed_lem net s mux r out _ (answered ok right a e) h =
    (right, ok, e ∙ ap finished (handled_inj h))
passed_lem net s mux r out _ (broken _ _ none _) h = cc
passed_lem net s mux r out _ (broken _ _ (some w) _) h = cc

-- When a token is set, a request under `/api` or for `/ws` gets a handler's answer only with that token
-- in its `Authorization` header, behind `Bearer ` or alone, or, when that header has nothing, as its
-- `token` parameter; and a request whose method is not GET, HEAD or OPTIONS only with the header that
-- a foreign page cannot set. The answer is that of the handler, for the id of the request.
pub handled_guarded :
    (net : Net) (s : Settings) (mux : Mux) (r : Request) (out : Bytes)
    → (secured net s mux r).body ≡ handled out
    → (s.api_token ≢ [] → Protected r.path → Carries r s.api_token)
      × (r.method ≢ bytes "GET"
          → r.method ≢ bytes "HEAD"
          → r.method ≢ bytes "OPTIONS"
          → header (bytes "X-Requested-With") r ≡ bytes "XMLHttpRequest")
      × (mux r (request_id net r) ≡ finished out)
handled_guarded net s mux r out h =
    let (right, ok, answer) =
      passed_lem net s mux r out (secured net s mux r) (secured-Served net s mux r) h in
    (
      λ set path. token_of-Carries r s.api_token (token_needed s.api_token r set path right),
      λ no_get no_head no_options. csrf_needed r no_get no_head no_options ok,
      answer,
    )
