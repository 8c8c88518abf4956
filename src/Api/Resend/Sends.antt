-- ===== src/Api/Resend/Sends.antt =====
-- How often `Resend` sends, and what.
use packet_lab.Prelude.{
  ℕ, zero, suc, ◌+◌, ◌≤◌, ◌≡◌, refl, sym, subst, Bool, true, false, not, ◌&&◌, Option, none, some,
  List, [], ◌∷◌, if◌then◌else◌, length, Bytes, bytes, eqb, All, arith,
}
use packet_lab.Storage.{Storage}
use packet_lab.Proxy.Decide.{HttpRequest}
use packet_lab.Api.Addresses.{TargetError, check_resend_target}
use packet_lab.Api.Resend.{
  ResendRequest, Url, Answer, Sent, answered, stopped, failed, Client, Service, new_request,
  is_server_error, attempts, retry, Done, result_of, captured_of, saved, attempted, send_built,
  send_checked, resend,
}

-- a client that notes what it sends, the newest first
abbrev pub noting : {W : Type 0} → Client W → Client (W × List HttpRequest)
noting client = record {
  send = λ req (w, notes). let (got, w') = client.send req w in (got, (w', req ∷ notes));
}

-- at most so many sends of the request that `newRequest` builds
pub record Sends (svc : Service) (req : ResendRequest) (n : ℕ) (notes : List HttpRequest)
    : Type 0 where
  pub few : length notes ≤ n
  pub same : All (λ sent. new_request svc.http req ≡ some sent) notes

-- what holds on both sides of a test
pub option-all :
    {A R : Type 0} (P : R → Type 0) (o : Option A) (x : R) (f : A → R)
    → (o ≡ none → P x)
    → ((a : A) → o ≡ some a → P (f a))
    → P (elim o [ none ↦ x | some a ↦ f a ])
option-all P none x f h k = h refl
option-all P (some a) x f h k = k a refl

pub if-all : {R : Type 0} (P : R → Type 0) (b : Bool) (x y : R) → P x → P y → P (if b then x else y)
if-all P true x y h k = h
if-all P false x y h k = k

-- what holds of all three results of a send
pub sent-all :
    {R : Type 0} (P : R → Type 0) (got : Sent) (a : Answer → R) (b : R) (c : Bytes → R)
    → ((resp : Answer) → P (a resp))
    → P b
    → ((message : Bytes) → P (c message))
    → P (elim got [ answered resp ↦ a resp | stopped ↦ b | failed message ↦ c message ])
sent-all P (answered resp) a b c h k l = h resp
sent-all P stopped a b c h k l = k
sent-all P (failed message) a b c h k l = l message

module _ {W S : Type 0} (svc : Service) (client : Client W) (db : Storage S) (elapsed now : ℕ)
    (req : ResendRequest) where
  abbrev Few : ℕ → List HttpRequest → Type 0
  Few n notes = Sends svc req n notes

  noted :
      (n : ℕ) (built : HttpRequest) (notes : List HttpRequest)
      → new_request svc.http req ≡ some built
      → Few n notes
      → Few (suc n) (built ∷ notes)
  noted n built notes e h = record { few = omega (arith, h.few); same = (e, h.same) }

  weaker : (n m : ℕ) (notes : List HttpRequest) → n ≤ m → Few n notes → Few m notes
  weaker n m notes le h = record { few = omega (arith, h.few); same = h.same }

  attempts-Sends :
      (more n : ℕ) (built : HttpRequest) (w : W) (notes : List HttpRequest)
      → new_request svc.http req ≡ some built
      → Few n notes
      → Few (suc more + n) (attempts (noting client) more built (w, notes)).1.1
  unfolding attempts
  attempts-Sends zero n built w notes e h =
      weaker (suc n) (1 + n) (built ∷ notes) (omega arith) (noted n built notes e h)
  attempts-Sends (suc more) n built w notes e h =
      let one = noted n built notes e h in
      let enough = weaker (suc n) (suc (suc more) + n) (built ∷ notes) (omega arith) one in
      let (got, w') = client.send built w in
      sent-all (λ r. Few (suc (suc more) + n) r.1.1) got
        (λ resp. (answered resp, (w', built ∷ notes))) (stopped, (w', built ∷ notes))
        (λ m. attempts (noting client) more built (w', built ∷ notes)) (λ _. enough) enough
        (λ _.
          weaker (suc more + suc n) (suc (suc more) + n)
            (attempts (noting client) more built (w', built ∷ notes)).1.1 (omega arith)
            (attempts-Sends more (suc n) built w' (built ∷ notes) e one))

  retry-Sends :
      (n : ℕ) (built : HttpRequest) (resp : Answer) (w : W) (notes : List HttpRequest)
      → new_request svc.http req ≡ some built
      → Few n notes
      → Few (suc n) (retry (noting client) built resp (w, notes)).1.1
  unfolding retry
  retry-Sends n built resp w notes e h = after (is_server_error resp.status_code)
    where
      w' : W × List HttpRequest
      w' = ((client.send built w).1, built ∷ notes)

      again : Answer × (W × List HttpRequest)
      again = elim (client.send built w).0 [
        | answered r ↦ (r, w')
        | stopped ↦ (resp, w')
        | failed m ↦ (resp, w')
      ]

      after : (b : Bool) → Few (suc n) (if b then again else (resp, (w, notes))).1.1
      after true =
          let one = noted n built notes e h in
          sent-all {R = Answer × (W × List HttpRequest)} (λ r. Few (suc n) r.1.1)
            (client.send built w).0 (λ r. (r, w')) (resp, w') (λ m. (resp, w')) (λ _. one) one
            (λ _. one)
      after false = weaker n (suc n) notes (omega arith) h

  -- the network as `saved` leaves it
  saved-same :
      (url : Url) (resp : Answer) (w : W × List HttpRequest) (s : S)
      → (saved svc (noting client) db elapsed now req url resp w s).network ≡ w
  unfolding saved
  saved-same url resp w s =
      option-all {R = Done (W × List HttpRequest) S} (λ d. d.network ≡ w)
        (db.save (captured_of now req url resp (result_of elapsed resp)) s).0 _ _ (λ _. refl)
        (λ id _. refl)

  attempted-Sends :
      (url : Url) (built : HttpRequest) (got : Sent) (w : W) (notes : List HttpRequest) (s : S)
      → new_request svc.http req ≡ some built
      → Few 3 notes
      → Few 4
          (attempted svc (noting client) db elapsed now req url built got (w, notes) s).network.1
  unfolding attempted
  attempted-Sends url built (answered resp) w notes s e h =
      let (last, w') = retry (noting client) built resp (w, notes) in
      subst (λ n. Few 4 n.1) (sym (saved-same url last w' s)) (retry-Sends 3 built resp w notes e h)
  attempted-Sends url built stopped w notes s e h = weaker 3 4 notes (omega arith) h
  attempted-Sends url built (failed m) w notes s e h = weaker 3 4 notes (omega arith) h

  built-Sends :
      (url : Url) (o : Option HttpRequest) (w : W) (s : S)
      → new_request svc.http req ≡ o
      → Few 4 (send_built svc (noting client) db elapsed now req url o (w, []) s).network.1
  unfolding send_built
  built-Sends url none w s e = record { few = omega arith; same = tt }
  built-Sends url (some built) w s e =
      let (got, (w', notes)) = attempts (noting client) 2 built (w, []) in
      attempted-Sends url built got w' notes s e
        (attempts-Sends 2 0 built w [] e (record { few = omega arith; same = tt }))

  checked-Sends :
      (url : Url) (o : Option TargetError) (w : W) (s : S)
      → Few 4 (send_checked svc (noting client) db elapsed now req url o (w, []) s).network.1
  unfolding send_checked
  checked-Sends url (some e) w s = record { few = omega arith; same = tt }
  checked-Sends url none w s = built-Sends url (new_request svc.http req) w s refl

  -- `Resend` sends at most four times, each time the request that `newRequest` builds.
  pub resend-Sends :
      (w : W) (s : S)
      → Sends svc req 4 (resend svc (noting client) db elapsed now req (w, []) s).network.1
  unfolding resend
  resend-Sends w s =
      option-all {R = Done (W × List HttpRequest) S} (λ d. Few 4 d.network.1)
        (svc.parse_url req.url) _ _ (λ _. nothing)
        (λ url _.
          if-all {R = Done (W × List HttpRequest) S} (λ d. Few 4 d.network.1)
            (not (eqb url.scheme (bytes "http")) && not (eqb url.scheme (bytes "https"))) _ _
            nothing (checked-Sends url (check_resend_target svc.net url.hostname svc.insecure) w s))
    where
      nothing : Few 4 []
      nothing = record { few = omega arith; same = tt }
