-- ===== src/Proxy/Decide/Kept.antt =====
-- What a decision leaves as it was.
use packet_lab.Prelude.{
  ◌≡◌, ◌≢◌, refl, ap, ◌∙◌, Bool, true, false, some, [], ◌∷◌, if◌then◌else◌, Bool-cases, inl, inr,
  All, length, Bytes, bytes, eqb, eqb_iff, Map, lookup, insert, lookup-insert,
}
use packet_lab.Models.{InterceptResult}
use packet_lab.Proxy.Decide.{
  HttpRequest, HttpResponse, Http, set_headers, with_agent, or_nothing, user_agent, is_empty,
  modified, given_or, itoa, with_body, with_new_headers, with_status, changed, length_name,
}

differs : (k j : Bytes) → k ≢ j → eqb k j ≡ false
differs k j ne = elim (Bool-cases (eqb k j)) [ inl e ↦ absurd (ne ((eqb_iff k j).0 e)) | inr e ↦ e ]

insert_other : (k j v : Bytes) (m : Map Bytes) → k ≢ j → lookup j (insert k v m) ≡ lookup j m
insert_other k j v m ne =
    lookup-insert k j v m ∙ ap (λ b. if b then some v else lookup j m) (differs k j ne)

pub set_headers_other :
    (http : Http) (j : Bytes) (hs m : Map Bytes)
    → All (λ h. http.canonical h.0 ≢ j) hs
    → lookup j (set_headers http hs m) ≡ lookup j m
unfolding set_headers
set_headers_other http j [] m all = refl
set_headers_other http j ((k, v) ∷ hs) m all =
    set_headers_other http j hs (insert (http.canonical k) v m) all.1
    ∙ insert_other (http.canonical k) j v m all.0

pub agent_other :
    (j : Bytes) (m : Map Bytes) → user_agent ≢ j → lookup j (with_agent m) ≡ lookup j m
unfolding with_agent
agent_other j m ne = go (is_empty (or_nothing (lookup user_agent m)))
  where
    go :
        (b : Bool)
        → lookup j (if b then insert user_agent (bytes "PacketLab/1.0") m else m) ≡ lookup j m
    go true = insert_other user_agent j (bytes "PacketLab/1.0") m ne
    go false = refl

-- A request that a decision modifies keeps each header that the decision does not set, `User-Agent`
-- apart, and the method, the address and the body for which the decision has nothing.
pub modified_keeps :
    (http : Http) (r : InterceptResult) (req : HttpRequest) (name : Bytes)
    → All (λ h. http.canonical h.0 ≢ name) r.new_headers
    → user_agent ≢ name
    → (lookup name (modified http r req).headers ≡ lookup name req.headers)
      × (r.method ≡ [] → (modified http r req).method ≡ req.method)
      × (r.url ≡ [] → (modified http r req).url ≡ req.url)
      × (r.new_body ≡ [] → (modified http r req).body ≡ req.body)
unfolding modified
modified_keeps http r req name others agent = (
  agent_other name (set_headers http r.new_headers req.headers) agent
      ∙ set_headers_other http name r.new_headers req.headers others,
  λ e. ap (λ s. given_or s req.method) e,
  λ e. ap (λ s. given_or s req.url) e,
  λ e. ap (λ s. given_or s req.body) e,
)

-- A response that gets a new body says the body's length, in the field and in the header, whatever
-- headers the decision sets.
pub changed-length :
    (http : Http) (r : InterceptResult) (resp : HttpResponse)
    → r.new_body ≢ []
    → ((changed http r resp).body ≡ r.new_body)
      × ((changed http r resp).content_length ≡ length (changed http r resp).body)
      × (lookup length_name (changed http r resp).headers
          ≡ some (itoa (length (changed http r resp).body)))
unfolding changed with_body
changed-length http r resp given =
    go r.new_body given (with_new_headers http r.new_headers (with_status http r.status_code resp))
  where
    here : (v : Bytes) (m : Map Bytes) → lookup length_name (insert length_name v m) ≡ some v
    here v m =
        lookup-insert length_name length_name v m
        ∙ ap (λ b. if b then some v else lookup length_name m)
            ((eqb_iff length_name length_name).1 refl)

    go :
        (body : Bytes)
        → body ≢ []
        → (x : HttpResponse)
        → ((with_body body x).body ≡ body)
          × ((with_body body x).content_length ≡ length (with_body body x).body)
          × (lookup length_name (with_body body x).headers
              ≡ some (itoa (length (with_body body x).body)))
    go [] ne x = absurd (ne refl)
    go (b ∷ bs) ne x = (refl, refl, here (itoa (length (b ∷ bs))) x.headers)
