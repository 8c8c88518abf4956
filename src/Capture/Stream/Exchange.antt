-- ===== src/Capture/Stream/Exchange.antt =====
-- A request and its response, both whole, become one record.
use packet_lab.Prelude.{
  ℕ, zero, suc, ◌≤◌, ◌<◌, ◌≡◌, sym, ap, ◌∙◌, none, some, [], length, take, drop, Bytes, bytes,
  arith, ◌+◌, ◌-◌, ◌/◌, ◌∷◌, refl, Bool, true, false, not, ◌&&◌, if◌then◌else◌, append-nil,
  drop-length-append, take-length-append, ltb,
}
use packet_lab.Models.{CapturedRequest}
use packet_lab.Capture.Scan.{is_http_response}
use packet_lab.Capture.Frame.{find_http_message_end}
use packet_lab.Capture.Frame.Message.{message_end_bounds}
use packet_lab.Capture.Parse.{Response, parse_http_request, parse_http_response}
use packet_lab.Capture.Stream.{Engine, Surroundings, TcpStream, flow_of, emit, emitted, emptied}
use packet_lab.Capture.Stream.Extract.{
  Next, stop, again, answered, take_request, respond, respond_at, respond_with, finish_response,
  resume, extract_with, extract_round, extract_rounds, try_extract_http, says_length, says_chunked,
  is_sse_header, ends_on_close,
}
use packet_lab.Capture.Stream.Ends.{take_with, empty_round}

drop_all : (xs : Bytes) → drop (length xs) xs ≡ []
drop_all xs = ap (drop (length xs)) (sym (append-nil xs)) ∙ drop-length-append xs []

take_all : (xs : Bytes) → take (length xs) xs ≡ xs
take_all xs = ap (take (length xs)) (sym (append-nil xs)) ∙ take-length-append xs []

-- a whole request in the client's data
pub record IsRequest (env : Surroundings) (now : ℕ) (s : TcpStream) (req : CapturedRequest)
    : Type 0 where
  pub whole : find_http_message_end s.client_buf ≡ some (length s.client_buf)
  pub no_response : is_http_response s.client_buf ≡ false
  pub parsed : parse_http_request (flow_of env s) now s.client_buf ≡ some req

-- a whole response with a length
pub record IsResponse (buf : Bytes) (resp : Response) : Type 0 where
  pub whole : find_http_message_end buf ≡ some (length buf)
  pub named : is_http_response buf ≡ true
  pub sized : says_length buf ≡ true
  pub parsed : parse_http_response buf ≡ some resp
  pub final : 200 ≤ resp.status

module _ (env : Surroundings) (now : ℕ) where
  taken_request :
      (s : TcpStream) (req : CapturedRequest)
      → IsRequest env now s req
      → take_request env now s ≡ record s { client_buf = []; pending_req = some req }
  unfolding take_request
  taken_request s req h =
      let n = length s.client_buf in
      let step : take_request env now s ≡ record s {
        client_buf = drop n s.client_buf;
        pending_req =
            if is_http_response (take n s.client_buf)
            then none
            else parse_http_request (flow_of env s) now (take n s.client_buf);
      } =
        rw (take_request, h.whole) in
      step
      ∙ ap
          (λ c. record s {
            client_buf = c;
            pending_req =
                if is_http_response (take n s.client_buf)
                then none
                else parse_http_request (flow_of env s) now (take n s.client_buf);
          })
          (drop_all s.client_buf)
      ∙ ap
          (λ c. record s {
            client_buf = [];
            pending_req =
                if is_http_response c then none else parse_http_request (flow_of env s) now c;
          })
          (take_all s.client_buf)
      ∙ ap
          (λ b. record s {
            client_buf = [];
            pending_req = if b then none else parse_http_request (flow_of env s) now s.client_buf;
          })
          h.no_response
      ∙ ap (λ o. record s { client_buf = []; pending_req = o }) h.parsed

  finished :
      (s : TcpStream) (req : CapturedRequest) (msg : Bytes) (resp : Response) (e : Engine)
      → parse_http_response msg ≡ some resp
      → 200 ≤ resp.status
      → finish_response env now s req msg e
        ≡ again (record s { pending_req = none }) (emit (answered now (length msg) resp req) e)
  unfolding finish_response
  finished s req msg resp e p le =
      let late : ltb resp.status 200 ≡ false = ground arith in rw (finish_response, p, late)

  closed_ended :
      (b : Bool) (x y z : Next)
      → b ≡ true
      → (other : Bool) → (sse late : Bool)
      → (if sse && (not b && other) then x else if (not b && other) && late then y else z) ≡ z
  closed_ended true x y z h other true late = refl
  closed_ended true x y z h other false late = refl
  closed_ended false x y z h other sse late = cc

  responded :
      (s : TcpStream) (req : CapturedRequest) (resp : Response) (e : Engine)
      → IsResponse s.server_buf resp
      → respond env now s req e
        ≡ again
            (record s { server_buf = []; pending_req = none })
            (emit (answered now (length s.server_buf) resp req) e)
  unfolding respond respond_at respond_with
  responded s req resp e h =
      let buf = s.server_buf in
      let n = length buf in
      let step : respond env now s req e ≡ respond_at env now s req n e =
        rw (respond, h.named, h.whole) in
      step
      ∙ ap (λ d. respond_with env now s (record s { server_buf = d }) req (take n buf) e)
          (drop_all buf)
      ∙ ap (λ m. respond_with env now s (record s { server_buf = [] }) req m e) (take_all buf)
      ∙ closed_ended (says_length buf) _ _ _ h.sized (not (says_chunked buf)) (is_sse_header buf)
          (ends_on_close buf)
      ∙ finished (record s { server_buf = [] }) req buf resp e h.parsed h.final

  last_round :
      (fuel : ℕ) (s : TcpStream) (e : Engine)
      → 0 < fuel
      → extract_round env now s e ≡ stop s e
      → extract_rounds env now fuel s e ≡ some (s, e)
  unfolding extract_rounds
  last_round zero s e lt h = absurd (omega arith)
  last_round (suc fuel) s e lt h =
      ap
        (λ n. elim n [
          | stop s1 e1 ↦ some (s1, e1)
          | again s1 e1 ↦ extract_rounds env now fuel s1 e1
        ])
        h

  -- When no request is pending, a request and its response that are both whole, the response final
  -- and with a length, are consumed, and one record goes out: that of the request with the
  -- response's status, headers and body, the length of the response, the milliseconds since the
  -- request and the mode `nic`; the count of exchanges goes up by one.
  pub exchange_emitted :
      (s : TcpStream) (req : CapturedRequest) (resp : Response) (e : Engine)
      → s.pending_req ≡ none
      → IsRequest env now s req
      → IsResponse s.server_buf resp
      → try_extract_http env now s e
        ≡ some (
          record s { client_buf = []; server_buf = []; pending_req = none },
          record {
            http_found = e.http_found + 1;
            outputs =
                emitted (record req {
                  status_code = resp.status;
                  res_headers = resp.headers;
                  res_body = resp.body;
                  duration_ms = (now - req.captured_at) / 1000000;
                  size_bytes = length s.server_buf;
                  capture_mode = bytes "nic";
                })
                ∷ e.outputs;
          },
        )
  unfolding try_extract_http extract_rounds resume emit
  exchange_emitted s req resp e p client server =
      let t = record s { client_buf = []; pending_req = some req } in
      let u = record (emptied s) { pending_req = none } in
      let e' = emit (answered now (length s.server_buf) resp req) e in
      let first : extract_round env now s e ≡ again u e' =
        ap (λ o. extract_with env now o s e) p
        ∙ take_with env now s t e (taken_request s req client)
        ∙ responded t req resp e server in
      ap
        (λ n. elim n [
          | stop s1 e1 ↦ some (s1, e1)
          | again s1 e1 ↦ extract_rounds env now (length s.server_buf) s1 e1
        ])
        first
      ∙ last_round (length s.server_buf) u e'
          (message_end_bounds s.server_buf (length s.server_buf) server.whole).0
          (empty_round env now u e' refl refl)
