-- ===== src/Capture/Stream/Outcomes.antt =====
-- What a round of `tryExtractHTTP` can do, case by case.
use packet_lab.Prelude.{
  ℕ, zero, suc, ◌≤◌, ◌<◌, ◌≡◌, sym, subst, Option, none, some, length, take, drop, Bytes, arith,
  refl, Option-cases, Bool-cases, inl, inr, ltb, Bool, true, false, if◌then◌else◌, not, ◌&&◌,
}
use packet_lab.Models.{CapturedRequest}
use packet_lab.Capture.Frame.{find_http_message_end}
use packet_lab.Capture.Frame.Message.{message_end_bounds}
use packet_lab.Capture.Scan.{is_http_response}
use packet_lab.Capture.Parse.{Flow, Response, parse_http_response, parse_http_request}
use packet_lab.Capture.Parse.Responses.{
  parse_http_response-IsStatus, Fresh, parse_http_request-Fresh,
}
use packet_lab.Capture.Stream.{
  Engine, Surroundings, TcpStream, flow_of, emit, emptied, log, saved, update_told, count_found,
}
use packet_lab.Capture.Stream.Extract.{
  Next, stop, again, answered, started, take_request, begin_sse, finish_response, respond_at,
  respond_with, respond, resume, extract_with, extract_round, extract_rounds, is_sse_header,
  says_length, says_chunked, ends_on_close,
}

-- the status of a final response
abbrev pub IsFinal : ℕ → Type 0
IsFinal n = (200 ≤ n) × (n ≤ 599)

abbrev pub consumed : ℕ → TcpStream → TcpStream
consumed k s = record s { server_buf = drop k s.server_buf }

-- what a round does once there is a request
pub data Outcome (env : Surroundings) (now : ℕ) (s : TcpStream) (req : CapturedRequest) (e : Engine)
    (n : Next) : Type 0 where
  waits : n ≡ stop s e → Outcome env now s req e n
  skips :
      (k : ℕ)
      → 0 < k
      → k ≤ length s.server_buf
      → n ≡ again (consumed k s) e
      → Outcome env now s req e n
  answers :
      (k size : ℕ) (resp : Response)
      → 0 < k
      → k ≤ length s.server_buf
      → IsFinal resp.status
      → n
        ≡ again (record (consumed k s) { pending_req = none }) (emit (answered now size resp req) e)
      → Outcome env now s req e n
  fails :
      (k size : ℕ) (resp : Response)
      → 0 < k
      → k ≤ length s.server_buf
      → IsFinal resp.status
      → n
        ≡ again
            (record (emptied (consumed k s)) { pending_req = none; non_http = true })
            (log (saved (started now size resp req) none) e)
      → Outcome env now s req e n
  begins :
      (k size id : ℕ) (resp : Response)
      → 0 < k
      → k ≤ length s.server_buf
      → IsFinal resp.status
      → n
        ≡ again
            (record (consumed k s) { pending_req = none; sse_pending = true; sse_req_id = id })
            (let counted = count_found (log (saved (started now size resp req) (some id)) e) in
              if env.has_hub
              then log (update_told (record (started now size resp req) { id = id })) counted
              else counted)
      → Outcome env now s req e n

module _ (env : Surroundings) (now : ℕ) (s : TcpStream) (req : CapturedRequest) (e : Engine) where
  either :
      (b : Bool) {x y : Next}
      → Outcome env now s req e x
      → Outcome env now s req e y
      → Outcome env now s req e (if b then x else y)
  either true h k = h
  either false h k = k

  module _ (k : ℕ) (pos_k : 0 < k) (le : k ≤ length s.server_buf) where
    begin_sse-Outcome :
        (msg : Bytes) → Outcome env now s req e (begin_sse env now (consumed k s) req msg e)
    unfolding begin_sse
    begin_sse-Outcome msg = elim (Option-cases (parse_http_response msg)) [
      | inl p ↦ skips k pos_k le (rw (begin_sse, p))
      | inr (resp, p) ↦ elim (Bool-cases (ltb resp.status 200)) [
        | inl early ↦ skips k pos_k le (rw (begin_sse, p, early))
        | inr late ↦
            let final : IsFinal resp.status =
              ground (arith, parse_http_response-IsStatus msg resp p) in
            elim (Option-cases (env.save e.outputs (started now (length msg) resp req))) [
              | inl failed ↦
                  fails k (length msg) resp pos_k le final (rw (begin_sse, p, late, failed))
              | inr (id, done) ↦
                  begins k (length msg) id resp pos_k le final (rw (begin_sse, p, late, done))
            ]
      ]
    ]

    finish_response-Outcome :
        (msg : Bytes) → Outcome env now s req e (finish_response env now (consumed k s) req msg e)
    unfolding finish_response
    finish_response-Outcome msg = elim (Option-cases (parse_http_response msg)) [
      | inl p ↦ skips k pos_k le (rw (finish_response, p))
      | inr (resp, p) ↦ elim (Bool-cases (ltb resp.status 200)) [
        | inl early ↦ skips k pos_k le (rw (finish_response, p, early))
        | inr late ↦
            answers k (length msg) resp pos_k le
              (ground (arith, parse_http_response-IsStatus msg resp p))
              (rw (finish_response, p, late))
      ]
    ]

    respond_at-Outcome : Outcome env now s req e (respond_at env now s req k e)
    unfolding respond_at respond_with
    respond_at-Outcome =
        let msg = take k s.server_buf in
        let open_ended = not (says_length msg) && not (says_chunked msg) in
        either (is_sse_header msg && open_ended) (begin_sse-Outcome msg)
          (either (open_ended && ends_on_close msg) (waits refl) (finish_response-Outcome msg))

  pub respond-Outcome : Outcome env now s req e (respond env now s req e)
  unfolding respond
  respond-Outcome = elim (Bool-cases (is_http_response s.server_buf)) [
    | inl http ↦ elim (Option-cases (find_http_message_end s.server_buf)) [
      | inl p ↦ waits (rw (respond, http, p))
      | inr (k, p) ↦
          let (positive, inside) = message_end_bounds s.server_buf k p in
          subst (Outcome env now s req e) (sym (rw (respond, http, p)))
            (respond_at-Outcome k positive inside)
    ]
    | inr other ↦ waits (rw (respond, other))
  ]

-- what taking the next request can do
pub data Taken (s t : TcpStream) : Type 0 where
  kept : t ≡ s → Taken s t
  taken :
      (k : ℕ) (o : Option CapturedRequest)
      → 0 < k
      → k ≤ length s.client_buf
      → Fresh o
      → t ≡ record s { client_buf = drop k s.client_buf; pending_req = o }
      → Taken s t

module _ (env : Surroundings) (now : ℕ) where
  Fresh-request :
      (flow : Flow) (msg : Bytes) (b : Bool)
      → Fresh (if b then none else parse_http_request flow now msg)
  Fresh-request flow msg true = tt
  Fresh-request flow msg false = parse_http_request-Fresh flow now msg

  pub take_request-Taken : (s : TcpStream) → Taken s (take_request env now s)
  unfolding take_request
  take_request-Taken s = elim (Option-cases (find_http_message_end s.client_buf)) [
    | inl p ↦ kept (rw (take_request, p))
    | inr (k, p) ↦
        let (positive, inside) = message_end_bounds s.client_buf k p in
        let msg = take k s.client_buf in
        taken k (if is_http_response msg then none else parse_http_request (flow_of env s) now msg)
          positive inside (Fresh-request (flow_of env s) msg (is_http_response msg))
          (rw (take_request, p))
  ]

  module _ {ℓ} (P : TcpStream → Engine → Type ℓ) where
    -- the property holds of what a round leaves
    abbrev pub Holds : Next → Type ℓ
    Holds (stop s e) = P s e
    Holds (again s e) = P s e

    -- what is to show of a property that the loop keeps
    pub record IsKept : Type ℓ where
      pub by_taking :
          (s t : TcpStream) (e : Engine) → P s e → s.pending_req ≡ none → Taken s t → P t e
      pub by_round :
          (s : TcpStream) (req : CapturedRequest) (e : Engine) (n : Next)
          → P s e
          → s.pending_req ≡ some req
          → Outcome env now s req e n
          → Holds n

    module _ (keeps : IsKept) where
      resume-Holds :
          (o : Option CapturedRequest) (s : TcpStream) (e : Engine)
          → P s e
          → s.pending_req ≡ o
          → Holds (resume env now o s e)
      unfolding resume
      resume-Holds none s e h p = h
      resume-Holds (some req) s e h p =
          keeps.by_round s req e (respond env now s req e) h p (respond-Outcome env now s req e)

      extract_with-Holds :
          (o : Option CapturedRequest) (s : TcpStream) (e : Engine)
          → P s e
          → s.pending_req ≡ o
          → Holds (extract_with env now o s e)
      unfolding extract_with
      extract_with-Holds (some req) s e h p =
          keeps.by_round s req e (respond env now s req e) h p (respond-Outcome env now s req e)
      extract_with-Holds none s e h p =
          let s' = take_request env now s in
          resume-Holds s'.pending_req s' e (keeps.by_taking s s' e h p (take_request-Taken s)) refl

      next-Holds :
          (fuel : ℕ) (n : Next) (r : TcpStream × Engine)
          → Holds n
          → elim n [ stop s e ↦ some (s, e) | again s e ↦ extract_rounds env now fuel s e ] ≡ some r
          → ((s : TcpStream) (e : Engine)
              → P s e
              → extract_rounds env now fuel s e ≡ some r
              → P r.0 r.1)
          → P r.0 r.1
      next-Holds fuel (stop s e) r h done rec =
          let same : (s, e) ≡ r = cc in subst (λ q. P q.0 q.1) same h
      next-Holds fuel (again s e) r h done rec = rec s e h done

      pub extract_rounds-Holds :
          (fuel : ℕ) (s : TcpStream) (e : Engine) (r : TcpStream × Engine)
          → P s e
          → extract_rounds env now fuel s e ≡ some r
          → P r.0 r.1
      unfolding extract_rounds
      extract_rounds-Holds zero s e r h done = cc
      extract_rounds-Holds (suc fuel) s e r h done =
          next-Holds fuel (extract_round env now s e) r
            (extract_with-Holds s.pending_req s e h refl) done
            (λ s' e' h' done'. extract_rounds-Holds fuel s' e' r h' done')
