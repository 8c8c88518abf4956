-- ===== src/Proxy/Decide/Manual.antt =====
-- What `Handle` in the manual mode sends out, by the decision.
use packet_lab.Prelude.{
  none, ◌++◌, subst, ◌≡◌, ◌≢◌, refl, sym, ap, ◌∙◌, Bool, true, false, ◌||◌, Option, some, [], ◌∷◌,
  if◌then◌else◌, ◌⊎◌, inl, inr, All, length, Bytes, bytes, eqb, eqb_iff, Map, lookup, insert,
  lookup-insert,
}
use packet_lab.Models.{InterceptResult}
use packet_lab.Proxy.Decide.Given.{
  LetsPass, Gives, is_modified-Gives, Gives-is_modified, LetsPass-or, or-LetsPass,
}
use packet_lab.Proxy.Decide.Kept.{set_headers_other, agent_other, modified_keeps}
use packet_lab.Proxy.Decide.{
  with_agent, or_nothing, is_empty, HttpRequest, Http, Answer, forward, refuse, Waited, queue_full,
  timed_out, decided, set_headers, user_agent, is_modified, modified, handle_result, handle_manual,
  given_or, length_known,
}

if_inv :
    (b : Bool) (x y z : Answer)
    → (if b then x else y) ≡ z
    → ((b ≡ true) × (x ≡ z)) ⊎ ((b ≡ false) × (y ≡ z))
if_inv true x y z e = inl (refl, e)
if_inv false x y z e = inr (refl, e)

forward_inj : {a b : HttpRequest} {s t : Option HttpRequest} → forward a s ≡ forward b t → a ≡ b
forward_inj e = cc

dropped_lem :
    (http : Http) (r : InterceptResult) (req : HttpRequest)
    → r.action ≡ bytes "drop"
    → handle_result http r req ≡ refuse 403 (bytes "Blocked by PacketLab")
unfolding handle_result eqb
dropped_lem http r req e = simp (e) refl

-- what is given takes the place of what was there, and what is not given leaves it
pub data Replaces (given old : Bytes) : Bytes → Type 0 where
  by_new : given ≢ [] → Replaces given old given
  by_old : given ≡ [] → Replaces given old old

-- the request that goes out in the place of `req`
pub record Rebuilt (http : Http) (r : InterceptResult) (req out : HttpRequest) : Type 0 where
  pub method : Replaces r.method req.method out.method
  pub url : Replaces r.url req.url out.url
  pub body : Replaces r.new_body req.body out.body
  pub sized : r.new_body ≢ [] → out.content_length ≡ some (length r.new_body)
  pub host : out.host ≡ http.host_of out.url
  pub kept :
      (name : Bytes)
      → All (λ h. http.canonical h.0 ≢ name) r.new_headers
      → user_agent ≢ name
      → lookup name out.headers ≡ lookup name req.headers
  pub set :
      (before after : Map Bytes) (k v : Bytes)
      → r.new_headers ≡ before ++ ((k, v) ∷ after)
      → All (λ h. http.canonical h.0 ≢ http.canonical k) after
      → user_agent ≢ http.canonical k
      → lookup (http.canonical k) out.headers ≡ some v
  pub agent :
      All (λ h. http.canonical h.0 ≢ user_agent) r.new_headers
      → lookup user_agent req.headers ≡ none
      → lookup user_agent out.headers ≡ some (bytes "PacketLab/1.0")

agent_default :
    (m : Map Bytes)
    → lookup user_agent m ≡ none
    → lookup user_agent (with_agent m) ≡ some (bytes "PacketLab/1.0")
unfolding with_agent
agent_default m e =
    let missing : is_empty (or_nothing (lookup user_agent m)) ≡ true =
      ap (λ o. is_empty (or_nothing o)) e ∙ (eqb_iff [] []).1 refl in
    ap (λ b. lookup user_agent (if b then insert user_agent (bytes "PacketLab/1.0") m else m))
      missing
    ∙ lookup-insert user_agent user_agent (bytes "PacketLab/1.0") m
    ∙ ap (λ b. if b then some (bytes "PacketLab/1.0") else lookup user_agent m)
        ((eqb_iff user_agent user_agent).1 refl)

given_or-Replaces : (given old : Bytes) → Replaces given old (given_or given old)
given_or-Replaces [] old = by_old refl
given_or-Replaces (b ∷ bs) old = by_new λ e. cc

sized_lem : (given : Bytes) → given ≢ [] → length_known given ≡ some (length given)
sized_lem [] ne = absurd (ne refl)
sized_lem (b ∷ bs) ne = refl

set_headers-set :
    (http : Http) (before after : Map Bytes) (k v : Bytes) (m : Map Bytes)
    → All (λ h. http.canonical h.0 ≢ http.canonical k) after
    → lookup (http.canonical k) (set_headers http (before ++ ((k, v) ∷ after)) m) ≡ some v
unfolding set_headers
set_headers-set http [] after k v m all =
    set_headers_other http (http.canonical k) after (insert (http.canonical k) v m) all
    ∙ lookup-insert (http.canonical k) (http.canonical k) v m
    ∙ ap (λ b. if b then some v else lookup (http.canonical k) m)
        ((eqb_iff (http.canonical k) (http.canonical k)).1 refl)
set_headers-set http ((j, u) ∷ before) after k v m all =
    set_headers-set http before after k v (insert (http.canonical j) u m) all

modified-Rebuilt :
    (http : Http) (r : InterceptResult) (req : HttpRequest)
    → Rebuilt http r req (modified http r req)
unfolding modified
modified-Rebuilt http r req = record {
  method = given_or-Replaces r.method req.method;
  url = given_or-Replaces r.url req.url;
  body = given_or-Replaces r.new_body req.body;
  sized = sized_lem r.new_body;
  host = refl;
  kept = λ name others agent. (modified_keeps http r req name others agent).0;
  set = λ before after k v e others agent.
      agent_other (http.canonical k) (set_headers http r.new_headers req.headers) agent
      ∙ ap (λ hs. lookup (http.canonical k) (set_headers http hs req.headers)) e
      ∙ set_headers-set http before after k v req.headers others;
  agent = λ others e.
      agent_default (set_headers http r.new_headers req.headers)
        (set_headers_other http user_agent r.new_headers req.headers others ∙ e);
}

result_inv :
    (http : Http) (r : InterceptResult) (req out : HttpRequest) (stored : Option HttpRequest)
    → handle_result http r req ≡ forward out stored
    → (out ≡ req) ⊎ (LetsPass r × Gives r)
unfolding handle_result
result_inv http r req out stored h =
    elim (if_inv (eqb r.action (bytes "allow") || eqb r.action (bytes "modify")) _ _
      (forward out stored) h) [
        | inl (pass, h1) ↦ elim (if_inv (is_modified r) _ _ (forward out stored) h1) [
          | inl (m, _) ↦ inr (or-LetsPass r pass, is_modified-Gives r m)
          | inr (_, h2) ↦ inl (sym (forward_inj h2))
        ]
        | inr (_, h1) ↦ elim (if_inv (eqb r.action (bytes "drop")) _ _ (forward out stored) h1) [
          | inl (_, h2) ↦ cc
          | inr (_, h2) ↦ inl (sym (forward_inj h2))
        ]
      ]

rebuilt_lem :
    (http : Http) (r : InterceptResult) (req out : HttpRequest) (stored : Option HttpRequest)
    → handle_result http r req ≡ forward out stored
    → LetsPass r
    → Gives r
    → Rebuilt http r req out × (stored ≡ some out)
unfolding handle_result
rebuilt_lem http r req out stored h pass gives =
    let new = modified http r req in
    let accepted = http.is_request (given_or r.method req.method) (given_or r.url req.url) in
    let yes = LetsPass-or r pass in
    let m = Gives-is_modified r gives in
    elim (if_inv accepted (forward new (some new)) (refuse 400 (bytes "Invalid modified request"))
      (forward out stored) (sym (rw (handle_result, yes, m) refl) ∙ h)) [
        | inl (_, e) ↦
            let same : new ≡ out = forward_inj e in
            let kept : some new ≡ stored = cc e in
            (subst (Rebuilt http r req) same (modified-Rebuilt http r req), sym kept ∙ ap some same)
        | inr (_, e) ↦ cc
      ]

-- For a request that goes out in the manual mode: there was no full queue and no decision to drop it.
-- It goes out exactly as it came unless there is a decision, to allow or to modify it, that gives a
-- method, an address, a body or headers. With such a decision what goes out, and is stored, has what
-- is given in its place and else what the request had: each header that the decision does not set,
-- `User-Agent` apart, and for each that it sets, `User-Agent` apart, the value of the last one. If
-- neither has a `User-Agent` it is PacketLab's, a new body brings its length, and the host is that of
-- the address.
pub manual_outcome :
    (http : Http) (w : Waited) (req out : HttpRequest) (stored : Option HttpRequest)
    → handle_manual http w req ≡ forward out stored
    → (w ≢ queue_full)
      × ((r : InterceptResult) → w ≡ decided r → r.action ≢ bytes "drop")
      × (out ≢ req → (r : InterceptResult) × (w ≡ decided r) × LetsPass r × Gives r)
      × ((r : InterceptResult)
          → w ≡ decided r
          → LetsPass r
          → Gives r
          → Rebuilt http r req out × (stored ≡ some out))
unfolding handle_manual
manual_outcome http queue_full req out stored h = cc
manual_outcome http timed_out req out stored h =
    (λ e. cc, λ r e. cc, λ ne. absurd (ne (sym (forward_inj h))), λ r e. cc)
manual_outcome http (decided r) req out stored h = (
  λ e. cc,
  λ d e dropped.
      let same : r ≡ d = cc e in
      let contra : refuse 403 (bytes "Blocked by PacketLab") ≡ forward out stored =
        sym (dropped_lem http r req (ap (λ x. x.action) same ∙ dropped)) ∙ h in
      cc contra,
  λ ne. elim (result_inv http r req out stored h) [
    | inl e ↦ absurd (ne e)
    | inr (pass, gives) ↦ (r, refl, pass, gives)
  ],
  λ d e pass gives.
      let same : r ≡ d = cc e in
      rebuilt_lem http d req out stored (ap (λ x. handle_result http x req) (sym same) ∙ h) pass
        gives,
)
