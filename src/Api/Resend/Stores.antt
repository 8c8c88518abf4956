-- ===== src/Api/Resend/Stores.antt =====
-- What `Resend` stores and tells, and which redirects it follows.
use packet_lab.Prelude.{
  take, ◌↔◌, ℕ, ◌≤◌, ◌≡◌, refl, true, not, ◌&&◌, Option, none, some, [], ◌∷◌, ◌++◌, if◌then◌else◌,
  length, Bytes, bytes, eqb, eqb_iff, arith,
}
use packet_lab.Models.{CapturedRequest}
use packet_lab.Storage.{Storage, IsTable}
use packet_lab.Proxy.Decide.{HttpRequest}
use packet_lab.Api.Addresses.{TargetError, check_resend_target}
use packet_lab.Api.Resend.{
  ResendRequest, ResendResult, Url, Answer, Sent, answered, stopped, failed, Client, Service,
  Outcome, sent, invalid_url, unsupported_scheme, bad_target, bad_request, not_allowed, bad_gateway,
  save_failed, new_request, attempts, retry, Done, result_of, captured_of, saved, attempted,
  send_built, send_checked, resend, check_redirect,
}
use packet_lab.Api.Resend.Came.{Flat, flatten_headers-Flat, Came, Told, attempts-Told, retry-Came}
use packet_lab.Api.Resend.Sends.{option-all, if-all}

module _ {W S Row : Type 0} (svc : Service) (client : Client W) (db : Storage S) (elapsed now : ℕ)
    (table : IsTable db Row) where
  -- a record was stored and told, for a result
  pub record Recorded (req : ResendRequest) (s : S) (result : ResendResult) (d : Done W S)
      : Type 0 where
    pub stored : CapturedRequest
    pub added : table.rows d.store ≡ table.rows s ++ (table.row_of stored ∷ [])
    pub told : d.told ≡ (if svc.has_hub then some stored else none)
    pub unnamed : stored.id ≡ 0
    pub asked :
        (stored.method ≡ req.method)
        × (stored.url ≡ req.url)
        × (stored.req_body ≡ req.body)
        × (stored.req_headers ≡ req.headers)
    pub resp : Answer
    pub came : Came svc client req resp
    pub body : stored.res_body ≡ take 10485760 resp.body
    pub sized : stored.size_bytes ≡ length stored.res_body
    pub status : stored.status_code ≡ resp.status_code
    pub headers : Flat resp.headers stored.res_headers
    pub named : (db.save stored s).0 ≡ some result.id
    pub result_body : result.res_body ≡ stored.res_body
    pub result_status : result.status_code ≡ stored.status_code
    pub result_headers : result.res_headers ≡ stored.res_headers

  pub record Untouched (s : S) (d : Done W S) : Type 0 where
    pub rows : table.rows d.store ≡ table.rows s
    pub silent : d.told ≡ none

  abbrev pub Stores : ResendRequest → S → Outcome → Done W S → Type 0
  Stores req s (sent result) d = Recorded req s result d
  Stores req s invalid_url d = Untouched s d
  Stores req s (unsupported_scheme scheme) d = Untouched s d
  Stores req s (bad_target e) d = Untouched s d
  Stores req s bad_request d = Untouched s d
  Stores req s not_allowed d = Untouched s d
  Stores req s (bad_gateway message) d = Untouched s d
  Stores req s save_failed d = Untouched s d

  abbrev Ends : ResendRequest → S → Done W S → Type 0
  Ends req s d = Stores req s d.outcome d

  saved-Ends :
      (req : ResendRequest) (url : Url) (resp : Answer) (w : W) (s : S)
      → Came svc client req resp
      → Ends req s (saved svc client db elapsed now req url resp w s)
  unfolding saved
  saved-Ends req url resp w s c =
      let captured = captured_of now req url resp (result_of elapsed resp) in
      option-all {R = Done W S} (Ends req s) (db.save captured s).0 _ _
        (λ e. record { rows = table.not_saved captured s e; silent = refl })
        (λ id e. record {
          stored = captured;
          added = table.saved captured s id e;
          told = refl;
          unnamed = refl;
          asked = (refl, refl, refl, refl);
          resp = resp;
          came = c;
          body = refl;
          sized = refl;
          status = refl;
          headers = flatten_headers-Flat resp.headers;
          named = e;
          result_body = refl;
          result_status = refl;
          result_headers = refl;
        })

  attempted-Ends :
      (req : ResendRequest) (url : Url) (built : HttpRequest) (got : Sent) (w : W) (s : S)
      → new_request svc.http req ≡ some built
      → Told svc client req got
      → Ends req s (attempted svc client db elapsed now req url built got w s)
  unfolding attempted
  attempted-Ends req url built (answered resp) w s e t =
      let (last, w') = retry client built resp w in
      saved-Ends req url last w' s (retry-Came svc client req built resp w e (t resp refl))
  attempted-Ends req url built stopped w s e t = record { rows = refl; silent = refl }
  attempted-Ends req url built (failed m) w s e t = record { rows = refl; silent = refl }

  built-Ends :
      (req : ResendRequest) (url : Url) (o : Option HttpRequest) (w : W) (s : S)
      → new_request svc.http req ≡ o
      → Ends req s (send_built svc client db elapsed now req url o w s)
  unfolding send_built
  built-Ends req url none w s e = record { rows = refl; silent = refl }
  built-Ends req url (some built) w s e =
      let (got, w') = attempts client 2 built w in
      attempted-Ends req url built got w' s e (attempts-Told svc client req built 2 w e)

  checked-Ends :
      (req : ResendRequest) (url : Url) (o : Option TargetError) (w : W) (s : S)
      → Ends req s (send_checked svc client db elapsed now req url o w s)
  unfolding send_checked
  checked-Ends req url (some e) w s = record { rows = refl; silent = refl }
  checked-Ends req url none w s = built-Ends req url (new_request svc.http req) w s refl

  -- Over a store that keeps its promises: `Resend` with a result has stored one record, of the request
  -- that it was given and of an answer that the client gave to the request built from it, with the
  -- answer's status, its headers with the values of a name joined, and the first 10 MB of its body;
  -- it told this record to the hub if there is one, with the id 0, and the result has the id that the
  -- store gave and the same status, headers and body. With an error it has stored and told nothing.
  pub resend-Stores :
      (req : ResendRequest) (w : W) (s : S)
      → Stores req s
          (resend svc client db elapsed now req w s).outcome
          (resend svc client db elapsed now req w s)
  unfolding resend
  resend-Stores req w s =
      option-all {R = Done W S} (Ends req s) (svc.parse_url req.url) _ _
        (λ _. record { rows = refl; silent = refl })
        λ url _.
          if-all {R = Done W S} (Ends req s)
            (not (eqb url.scheme (bytes "http")) && not (eqb url.scheme (bytes "https"))) _ _
            (record { rows = refl; silent = refl })
            (checked-Ends req url (check_resend_target svc.net url.hostname svc.insecure) w s)

-- A redirect is followed exactly if there were at most ten hops, it goes to the host of the request, and
-- this is a target that is allowed.
pub check_redirect_iff :
    (svc : Service) (original_host : Bytes) (hops : ℕ) (to : Url)
    → (check_redirect svc original_host hops to ≡ true) ↔ (
        (hops ≤ 10)
        × ((to.host ≡ original_host)
            × (check_resend_target svc.net to.hostname svc.insecure ≡ none)))
unfolding check_redirect
check_redirect_iff svc original_host hops to = (
  λ h. ground (arith, h, eqb_iff to.host original_host),
  λ (few, (same, free)). ground (arith, few, same, free, (eqb_iff to.host original_host).1 same),
)
