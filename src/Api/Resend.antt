-- ===== src/Api/Resend.antt =====
-- internal/api/service.go: `Resend`. Its client is a parameter: `send` is `client.Do` with the client's
-- dial (Api/Addresses) and redirects (`check_redirect`) inside, on a state of the network of any type.
-- The time that passes and the clock are arguments, and the pauses are left out.
mod Sends
mod Came
mod Stores
mod Tests
use packet_lab.Prelude.{
  ℕ, zero, suc, ◌+◌, Bool, true, false, not, ◌&&◌, ◌||◌, Option, none, some, List, [], ◌∷◌, ◌++◌,
  ltb, leb, if◌then◌else◌, length, take, Bytes, bytes, eqb, Map, insert, lookup,
}
use packet_lab.Models.{CapturedRequest, empty_request}
use packet_lab.Storage.{Storage}
use packet_lab.Proxy.Decide.{Http, HttpRequest, set_headers, or_nothing, user_agent, is_empty}
use packet_lab.Api.Addresses.{Net, TargetError, check_resend_target}

-- `ResendRequest`
pub record ResendRequest : Type 0 where
  pub method : Bytes
  pub url : Bytes
  pub headers : Map Bytes
  pub body : Bytes

-- what the code reads of a url.URL
pub record Url : Type 0 where
  pub scheme : Bytes
  pub host : Bytes
  pub hostname : Bytes
  pub path : Bytes

-- what it reads of an http.Response, with the values of a header's name
pub record Answer : Type 0 where
  pub status_code : ℕ
  pub proto : Bytes
  pub headers : Map (List Bytes)
  pub body : Bytes

-- what `client.Do` returns; `stopped` is an error that is errBlockedTarget
pub data Sent : Type 0 where
  answered : Answer → Sent
  stopped : Sent
  failed : Bytes → Sent

pub record Client (W : Type 0) : Type 0 where
  pub send : HttpRequest → W → Sent × W

-- the service, with what it uses of net/url, net/http and net
pub record Service : Type 0 where
  pub insecure : Bool
  pub has_hub : Bool
  pub http : Http
  pub net : Net
  pub parse_url : Bytes → Option Url

-- `ResendResult`
pub record ResendResult : Type 0 where
  pub id : ℕ
  pub status_code : ℕ
  pub res_headers : Map Bytes
  pub res_body : Bytes
  pub duration_ms : ℕ
  pub size_bytes : ℕ

-- what `Resend` returns: a result, or an error of its three kinds
pub data Outcome : Type 0 where
  sent : ResendResult → Outcome
  invalid_url : Outcome
  unsupported_scheme : Bytes → Outcome
  bad_target : TargetError → Outcome
  bad_request : Outcome
  not_allowed : Outcome
  bad_gateway : Bytes → Outcome
  save_failed : Outcome

-- the function `CheckRedirect`, from the number of hops so far; `false` is an error
unfoldable pub check_redirect : Service → Bytes → ℕ → Url → Bool
check_redirect svc original_host hops to =
    if ltb 10 hops
    then false
    else if not (eqb to.host original_host)
    then false
    else elim (check_resend_target svc.net to.hostname svc.insecure) [
      | none ↦ true
      | some e ↦ false
    ]

unfoldable pub with_agent : Map Bytes → Map Bytes
with_agent headers =
    if is_empty (or_nothing (lookup user_agent headers))
    then insert user_agent (bytes "PacketLab/2.0") headers
    else headers

-- `newRequest`
unfoldable pub new_request : Http → ResendRequest → Option HttpRequest
new_request http req =
    if http.is_request req.method req.url
    then some (record {
      method = req.method;
      url = req.url;
      host = http.host_of req.url;
      headers = with_agent (set_headers http req.headers []);
      body = req.body;
      content_length = some (length req.body);
    })
    else none

-- strings.Join with ", "
unfoldable pub joined : List Bytes → Bytes
joined [] = []
joined (v ∷ []) = v
joined (v ∷ (w ∷ vs)) = v ++ (bytes ", " ++ joined (w ∷ vs))

-- `FlattenHeaders`
unfoldable pub flatten_headers : Map (List Bytes) → Map Bytes
flatten_headers [] = []
flatten_headers ((k, []) ∷ headers) = flatten_headers headers
flatten_headers ((k, v ∷ vs) ∷ headers) = (k, joined (v ∷ vs)) ∷ flatten_headers headers

abbrev pub max_request_body_size : ℕ
max_request_body_size = 10485760

abbrev pub result_of : ℕ → Answer → ResendResult
result_of elapsed resp =
    let body = take max_request_body_size resp.body in
    record {
      id = 0;
      status_code = resp.status_code;
      res_headers = flatten_headers resp.headers;
      res_body = body;
      duration_ms = elapsed;
      size_bytes = length body;
    }

-- the record of a request that was sent again
abbrev pub captured_of : ℕ → ResendRequest → Url → Answer → ResendResult → CapturedRequest
captured_of now req url resp result = record empty_request {
  method = req.method;
  url = req.url;
  host = url.host;
  path = url.path;
  protocol = resp.proto;
  is_https = eqb url.scheme (bytes "https");
  req_headers = req.headers;
  req_body = req.body;
  status_code = resp.status_code;
  res_headers = result.res_headers;
  res_body = result.res_body;
  duration_ms = result.duration_ms;
  size_bytes = result.size_bytes;
  captured_at = now;
  capture_mode = bytes "resend";
}

abbrev pub is_server_error : ℕ → Bool
is_server_error code = leb 500 code && ltb code 600

module _ {W : Type 0} (client : Client W) where
  -- the loop of attempts, `more` of them behind this one
  unfoldable pub attempts : ℕ → HttpRequest → W → Sent × W
  attempts zero req w = client.send req w
  attempts (suc more) req w =
      let (got, w') = client.send req w in
      let later = attempts more req w' in
      elim got [
        | answered resp ↦ (answered resp, w')
        | stopped ↦ (stopped, w')
        | failed message ↦ later
      ]

  -- one more request after an error of the server
  unfoldable pub retry : HttpRequest → Answer → W → Answer × W
  retry req resp w =
      let (got, w') = client.send req w in
      if is_server_error resp.status_code
      then elim got [
        | answered again ↦ (again, w')
        | stopped ↦ (resp, w')
        | failed message ↦ (resp, w')
      ]
      else (resp, w)

-- what `Resend` leaves: its outcome, the record that goes to the hub, the network and the store
pub record Done (W S : Type 0) : Type 0 where
  pub outcome : Outcome
  pub told : Option CapturedRequest
  pub network : W
  pub store : S

module _ {W S : Type 0} (svc : Service) (client : Client W) (db : Storage S) (elapsed now : ℕ) where
  abbrev pub refused : Outcome → W → S → Done W S
  refused o w s = record { outcome = o; told = none; network = w; store = s }

  -- the end of `Resend`, from the answer
  unfoldable pub saved : ResendRequest → Url → Answer → W → S → Done W S
  saved req url resp w s =
      let result = result_of elapsed resp in
      let captured = captured_of now req url resp result in
      let (got, s') = db.save captured s in
      elim got [
        | none ↦ refused save_failed w s'
        | some id ↦ record {
          outcome = sent (record result { id = id });
          told = if svc.has_hub then some captured else none;
          network = w;
          store = s';
        }
      ]

  unfoldable pub attempted : ResendRequest → Url → HttpRequest → Sent → W → S → Done W S
  attempted req url built (answered resp) w s =
      let (last, w') = retry client built resp w in saved req url last w' s
  attempted req url built stopped w s = refused not_allowed w s
  attempted req url built (failed message) w s = refused (bad_gateway message) w s

  unfoldable pub send_built : ResendRequest → Url → Option HttpRequest → W → S → Done W S
  send_built req url none w s = refused bad_request w s
  send_built req url (some built) w s =
      let (got, w') = attempts client 2 built w in attempted req url built got w' s

  unfoldable pub send_checked : ResendRequest → Url → Option TargetError → W → S → Done W S
  send_checked req url (some e) w s = refused (bad_target e) w s
  send_checked req url none w s = send_built req url (new_request svc.http req) w s

  -- `Resend`
  unfoldable pub resend : ResendRequest → W → S → Done W S
  resend req w s = elim (svc.parse_url req.url) [
    | none ↦ refused invalid_url w s
    | some url ↦
        if not (eqb url.scheme (bytes "http")) && not (eqb url.scheme (bytes "https"))
        then refused (unsupported_scheme url.scheme) w s
        else send_checked req url (check_resend_target svc.net url.hostname svc.insecure) w s
  ]
