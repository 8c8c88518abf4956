-- ===== src/Capture/Stream/Closes.antt =====
-- What `tryExtractHTTPOnClose` does: its three rounds are enough, and one request goes out at most.
use packet_lab.Prelude.{
  ℕ, suc, ◌+◌, ◌≡◌, sym, ap, subst, ◌∙◌, Option, none, some, length, take, drop, Bytes, arith, refl,
  Option-cases, Bool-cases, inl, inr, ltb, [], true, eqb, eqb_iff, index_of, has_prefix,
  if◌then◌else◌,
}
use packet_lab.Models.{CapturedRequest}
use packet_lab.Capture.Scan.{is_http_response, index_double_crlf}
use packet_lab.Capture.Parse.{Response, parse_http_response}
use packet_lab.Capture.Parse.Responses.{
  IsStatus, from_header-IsStatus, parse_http_response-IsStatus,
}
use packet_lab.Capture.Stream.{Engine, Surroundings, TcpStream, emit, emptied}
use packet_lab.Capture.Stream.Extract.{
  Next, stop, again, answered, take_request, final_only, try_extract_http, closing_response,
  close_request, close_resume, close_with, close_round, close_rounds, try_extract_http_on_close,
}
use packet_lab.Capture.Stream.Outcomes.{IsFinal}
use packet_lab.Capture.Stream.Ends.{Ends, try_extract_end, extract_idle, extract_empty}

final_only-IsFinal :
    (o : Option Response) (r : Response)
    → ((q : Response) → o ≡ some q → IsStatus q.status)
    → final_only o ≡ some r
    → IsStatus r.status
final_only-IsFinal none r h e = cc
final_only-IsFinal (some q) r h e = ground (arith, h q refl)

closing_response-IsStatus :
    (buf : Bytes) (r : Response) → closing_response buf ≡ some r → IsStatus r.status
unfolding closing_response
closing_response-IsStatus buf r h = elim (Option-cases (index_double_crlf buf)) [
  | inr (i, p) ↦ ground (arith, p, from_header-IsStatus (take i buf) (drop (i + 4) buf) r)
  | inl p ↦ elim (Bool-cases (is_http_response buf)) [
    | inl http ↦
        let e : final_only (parse_http_response buf) ≡ some r =
          rw (closing_response, p, http) at h in
        final_only-IsFinal (parse_http_response buf) r (parse_http_response-IsStatus buf) e
    | inr other ↦ ground (arith, p, other)
  ]
]

-- what the end of a connection does to the pending request
pub data Closing (now : ℕ) (s : TcpStream) (req : CapturedRequest) (e : Engine) (n : Next)
    : Type 0 where
  skips : n ≡ again (record s { server_buf = [] }) e → Closing now s req e n
  unanswered :
      closing_response s.server_buf ≡ none
      → n ≡ again (record (emptied s) { pending_req = none }) (emit req e)
      → Closing now s req e n
  answers :
      (size : ℕ) (resp : Response)
      → IsFinal resp.status
      → n ≡ again (record (emptied s) { pending_req = none }) (emit (answered now size resp req) e)
      → Closing now s req e n

module _ (env : Surroundings) (now : ℕ) where
  pub close_request-Closing :
      (s : TcpStream) (req : CapturedRequest) (e : Engine)
      → Closing now s req e (close_request env now s req e)
  unfolding close_request
  close_request-Closing s req e = elim (Option-cases (closing_response s.server_buf)) [
    | inl p ↦ unanswered p (rw (close_request, p))
    | inr (resp, p) ↦ elim (Bool-cases (ltb resp.status 200)) [
      | inl early ↦ skips (rw (close_request, p, early))
      | inr late ↦
          answers (length s.server_buf) resp
            (ground (arith, closing_response-IsStatus s.server_buf resp p))
            (rw (close_request, p, late))
    ]
  ]

  pub round_at :
      (fuel : ℕ) (s t : TcpStream) (e e' : Engine)
      → try_extract_http env now s e ≡ some (t, e')
      → close_rounds env now (suc fuel) s e ≡ elim (close_round env now t e') [
        | stop s2 e2 ↦ some (s2, e2)
        | again s2 e2 ↦ close_rounds env now fuel s2 e2
      ]
  unfolding close_rounds
  round_at fuel s t e e' h = rw (close_rounds, h)

  -- the last round: nothing is left
  third :
      (fuel : ℕ) (s : TcpStream) (e : Engine)
      → s.pending_req ≡ none
      → s.client_buf ≡ []
      → close_rounds env now (suc fuel) s e ≡ some (s, e)
  third fuel s e p q =
      round_at fuel s s e e (extract_empty env now s e p q)
      ∙ ap
          (λ n. elim n [
            | stop s2 e2 ↦ some (s2, e2)
            | again s2 e2 ↦ close_rounds env now fuel s2 e2
          ])
          (ap (λ o. close_with env now o s e) p ∙ none_left)
    where
      none_left : close_with env now none s e ≡ stop s e
      none_left =
          let empty : eqb s.client_buf [] ≡ true = (eqb_iff s.client_buf []).1 q in
          unfold close_with in rw (empty)

  after_round : ℕ → Next → Option (TcpStream × Engine)
  after_round fuel n = elim n [ stop s e ↦ some (s, e) | again s e ↦ close_rounds env now fuel s e ]

  -- the round for a request whose response has not begun
  close_silent :
      (s : TcpStream) (req : CapturedRequest) (e : Engine)
      → s.server_buf ≡ []
      → close_request env now s req e
        ≡ again (record (emptied s) { pending_req = none }) (emit req e)
  unfolding close_request
  close_silent s req e q =
      let silent : closing_response s.server_buf ≡ none = ap closing_response q ∙ nothing in
      rw (close_request, silent)
    where
      nothing : closing_response [] ≡ none
      nothing =
          unfold closing_response index_double_crlf index_of is_http_response has_prefix in refl

  -- A connection that closes while a request waits and no byte of a response is there gives this request
  -- as it is, and drops the data of the client that is not yet taken, whole requests included.
  pub close_waiting :
      (s : TcpStream) (req : CapturedRequest) (e : Engine) (fuel : ℕ)
      → s.pending_req ≡ some req
      → s.server_buf ≡ []
      → close_rounds env now (suc (suc fuel)) s e
        ≡ some (record (emptied s) { pending_req = none }, emit req e)
  unfolding after_round close_with
  close_waiting s req e fuel p q =
      let t = record (emptied s) { pending_req = none } in
      round_at (suc fuel) s s e e (extract_idle env now s req e p q)
      ∙ ap (after_round (suc fuel)) (ap (λ o. close_with env now o s e) p ∙ close_silent s req e q)
      ∙ third fuel t (emit req e) refl refl

  Closing-end :
      (s : TcpStream) (req : CapturedRequest) (e : Engine) (n : Next) (fuel : ℕ)
      → s.pending_req ≡ some req
      → Closing now s req e n
      → Ends (after_round (suc (suc fuel)) n)
  unfolding after_round
  Closing-end s req e n fuel p (skips eq) =
      let t = record s { server_buf = [] } in
      (
        (record (emptied t) { pending_req = none }, emit req e),
        ap (after_round (suc (suc fuel))) eq ∙ close_waiting t req e fuel p refl,
      )
  Closing-end s req e n fuel p (unanswered h eq) =
      let t = record (emptied s) { pending_req = none } in
      (
        (t, emit req e),
        ap (after_round (suc (suc fuel))) eq ∙ third (suc fuel) t (emit req e) refl refl,
      )
  Closing-end s req e n fuel p (answers size resp final eq) =
      let t = record (emptied s) { pending_req = none } in
      let e' = emit (answered now size resp req) e in
      ((t, e'), ap (after_round (suc (suc fuel))) eq ∙ third (suc fuel) t e' refl refl)

  resumed_end :
      (o : Option CapturedRequest) (s : TcpStream) (e : Engine) (fuel : ℕ)
      → s.pending_req ≡ o
      → Ends (after_round (suc (suc fuel)) (close_resume env now o s e))
  unfolding after_round close_resume
  resumed_end none s e fuel p = ((emptied s, e), refl)
  resumed_end (some req) s e fuel p =
      Closing-end s req e (close_request env now s req e) fuel p (close_request-Closing s req e)

  round_end :
      (o : Option CapturedRequest) (s : TcpStream) (e : Engine) (fuel : ℕ)
      → s.pending_req ≡ o
      → Ends (after_round (suc (suc fuel)) (close_with env now o s e))
  unfolding close_with after_round
  round_end (some req) s e fuel p =
      Closing-end s req e (close_request env now s req e) fuel p (close_request-Closing s req e)
  round_end none s e fuel p =
      let s' = take_request env now s in
      elim (Bool-cases (eqb s.client_buf [])) [
        | inl empty ↦ ((s, e), rw (close_with, after_round, empty))
        | inr more ↦
            subst
              (λ b. Ends (
                after_round (suc (suc fuel))
                  (if b then stop s e else close_resume env now s'.pending_req s' e)))
              (sym more) (resumed_end s'.pending_req s' e fuel refl)
      ]

  -- `tryExtractHTTPOnClose` ends within three rounds.
  pub on_close_end : (s : TcpStream) (e : Engine) → Ends (try_extract_http_on_close env now s e)
  unfolding try_extract_http_on_close after_round
  on_close_end s e =
      let ((t, e'), found) = try_extract_end env now s e in
      let (r, done) = round_end t.pending_req t e' 0 refl in (r, round_at 2 s t e e' found ∙ done)
