-- ===== src/Api/Resend/Came.antt =====
-- The answer that `Resend` goes by is one that the client gave, and what becomes of its headers.
use packet_lab.Prelude.{zero, suc, List, Map, ℕ, ◌≡◌, refl, some, [], ◌∷◌, ◌++◌, Bytes, bytes}
use packet_lab.Proxy.Decide.{HttpRequest}
use packet_lab.Api.Resend.{
  ResendRequest, Answer, Sent, answered, stopped, failed, Client, Service, new_request, joined,
  flatten_headers, is_server_error, attempts, retry,
}
use packet_lab.Api.Resend.Sends.{if-all}

-- the values of one name, put together
pub data Joins : List Bytes → Bytes → Type 0 where
  single : (v : Bytes) → Joins (v ∷ []) v
  behind :
      (v : Bytes) (vs : List Bytes) (text : Bytes)
      → Joins vs text
      → Joins (v ∷ vs) (v ++ (bytes ", " ++ text))

-- each name that has values, with these put together
pub data Flat : Map (List Bytes) → Map Bytes → Type 0 where
  ended : Flat [] []
  unvalued :
      (k : Bytes) (hs : Map (List Bytes)) (out : Map Bytes) → Flat hs out → Flat ((k, []) ∷ hs) out
  valued :
      (k : Bytes) (vs : List Bytes) (text : Bytes) (hs : Map (List Bytes)) (out : Map Bytes)
      → Joins vs text
      → Flat hs out
      → Flat ((k, vs) ∷ hs) ((k, text) ∷ out)

joined-Joins : (v : Bytes) (vs : List Bytes) → Joins (v ∷ vs) (joined (v ∷ vs))
unfolding joined
joined-Joins v [] = single v
joined-Joins v (w ∷ vs) = behind v (w ∷ vs) (joined (w ∷ vs)) (joined-Joins w vs)

pub flatten_headers-Flat : (hs : Map (List Bytes)) → Flat hs (flatten_headers hs)
unfolding flatten_headers
flatten_headers-Flat [] = ended
flatten_headers-Flat ((k, []) ∷ hs) = unvalued k hs (flatten_headers hs) (flatten_headers-Flat hs)
flatten_headers-Flat ((k, v ∷ vs) ∷ hs) =
    valued k (v ∷ vs) (joined (v ∷ vs)) hs (flatten_headers hs) (joined-Joins v vs)
      (flatten_headers-Flat hs)

module _ {W : Type 0} (svc : Service) (client : Client W) where
  -- the client got this answer to the request that `newRequest` builds
  pub record Came (req : ResendRequest) (resp : Answer) : Type 0 where
    pub built : HttpRequest
    pub before : W
    pub is_built : new_request svc.http req ≡ some built
    pub given : (client.send built before).0 ≡ answered resp

  -- an answer in a result of the client is one that the client gave
  abbrev pub Told : ResendRequest → Sent → Type 0
  Told req got = (resp : Answer) → got ≡ answered resp → Came req resp

  came :
      (req : ResendRequest) (built : HttpRequest) (w : W)
      → new_request svc.http req ≡ some built
      → Told req (client.send built w).0
  came req built w e resp h = record { built = built; before = w; is_built = e; given = h }

  sent_ways :
      (req : ResendRequest) (got : Sent) (w' : W) (later : Sent × W)
      → Told req got
      → Told req later.0
      → Told req
          (elim got as (λ _. Sent × W) [
            | answered resp ↦ (answered resp, w')
            | stopped ↦ (stopped, w')
            | failed message ↦ later
          ]).0
  sent_ways req (answered r) w' later t l = t
  sent_ways req stopped w' later t l = t
  sent_ways req (failed m) w' later t l = l

  again_ways :
      (req : ResendRequest) (first : Answer) (got : Sent) (w' : W)
      → Told req got
      → Came req first
      → Came req
          (elim got as (λ _. Answer × W) [
            | answered again ↦ (again, w')
            | stopped ↦ (first, w')
            | failed message ↦ (first, w')
          ]).0
  again_ways req first (answered r) w' t c = t r refl
  again_ways req first stopped w' t c = c
  again_ways req first (failed m) w' t c = c

  pub attempts-Told :
      (req : ResendRequest) (built : HttpRequest) (more : ℕ) (w : W)
      → new_request svc.http req ≡ some built
      → Told req (attempts client more built w).0
  unfolding attempts
  attempts-Told req built zero w e = came req built w e
  attempts-Told req built (suc more) w e =
      let (got, w') = client.send built w in
      sent_ways req got w' (attempts client more built w') (came req built w e)
        (attempts-Told req built more w' e)

  pub retry-Came :
      (req : ResendRequest) (built : HttpRequest) (first : Answer) (w : W)
      → new_request svc.http req ≡ some built
      → Came req first
      → Came req (retry client built first w).0
  unfolding retry
  retry-Came req built first w e c =
      let (got, w') = client.send built w in
      if-all {R = Answer × W} (λ r. Came req r.0) (is_server_error first.status_code) _ _
        (again_ways req first got w' (came req built w e) c) c
