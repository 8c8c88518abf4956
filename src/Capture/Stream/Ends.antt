-- ===== src/Capture/Stream/Ends.antt =====
-- The two loops over a stream end.
use packet_lab.Prelude.{
  Bool, true, false, if◌then◌else◌, ℕ, zero, suc, ◌≤◌, ◌<◌, ◌≡◌, sym, ap, subst, ◌∙◌, Option, none,
  some, length, drop, length-drop, Bytes, arith, refl, [], false, has_prefix, index_of,
}
use packet_lab.Models.{CapturedRequest}
use packet_lab.Capture.Frame.{find_http_message_end, header_end}
use packet_lab.Capture.Scan.{is_http_response, index_double_crlf}
use packet_lab.Capture.Stream.{Engine, Surroundings, TcpStream}
use packet_lab.Capture.Stream.Extract.{
  Next, stop, again, take_request, respond, resume, extract_with, extract_round, extract_rounds,
  try_extract_http,
}
use packet_lab.Capture.Stream.Outcomes.{
  Outcome, waits, skips, answers, fails, begins, Taken, kept, taken, respond-Outcome,
  take_request-Taken,
}

-- a round that goes on leaves less of the server's data than `n`
abbrev pub Shrinks : ℕ → Next → Type 0
Shrinks n (stop s e) = Unit
Shrinks n (again s e) = length s.server_buf < n

-- the fuel was enough
abbrev pub Ends : Option (TcpStream × Engine) → Type 0
Ends o = (r : TcpStream × Engine) × (o ≡ some r)

-- the call returns what has the property
abbrev pub Returns : (TcpStream → Engine → Type 0) → Option (TcpStream × Engine) → Type 0
Returns P none = ⊥
Returns P (some (s, e)) = P s e

pub Ends-Returns :
    (P : TcpStream → Engine → Type 0) (o : Option (TcpStream × Engine))
    → Ends o
    → ((r : TcpStream × Engine) → o ≡ some r → P r.0 r.1)
    → Returns P o
Ends-Returns P none (r, e) h = cc
Ends-Returns P (some r) ends h = h r refl

pub if-Returns :
    (P : TcpStream → Engine → Type 0) (b : Bool) (x y : Option (TcpStream × Engine))
    → Returns P x
    → Returns P y
    → Returns P (if b then x else y)
if-Returns P true x y h k = h
if-Returns P false x y h k = k

drop_less : (k : ℕ) (buf : Bytes) → 0 < k → k ≤ length buf → length (drop k buf) < length buf
drop_less k buf positive inside = omega (arith, length-drop k buf)

module _ (env : Surroundings) (now : ℕ) where
  Outcome-Shrinks :
      (s : TcpStream) (req : CapturedRequest) (e : Engine) (n : Next)
      → Outcome env now s req e n
      → Shrinks (length s.server_buf) n
  Outcome-Shrinks s req e n (waits eq) = subst (Shrinks (length s.server_buf)) (sym eq) tt
  Outcome-Shrinks s req e n (skips k pos le eq) =
      subst (Shrinks (length s.server_buf)) (sym eq) (drop_less k s.server_buf pos le)
  Outcome-Shrinks s req e n (answers k size resp pos le final eq) =
      subst (Shrinks (length s.server_buf)) (sym eq) (drop_less k s.server_buf pos le)
  Outcome-Shrinks s req e n (fails k size resp pos le final eq) =
      subst (Shrinks (length s.server_buf)) (sym eq) (omega arith)
  Outcome-Shrinks s req e n (begins k size id resp pos le final eq) =
      subst (Shrinks (length s.server_buf)) (sym eq) (drop_less k s.server_buf pos le)

  same_server : (s t : TcpStream) → Taken s t → t.server_buf ≡ s.server_buf
  same_server s t (kept eq) = ap (λ u. u.server_buf) eq
  same_server s t (taken k o pos le fresh eq) = ap (λ u. u.server_buf) eq

  resume-Shrinks :
      (o : Option CapturedRequest) (s : TcpStream) (e : Engine)
      → Shrinks (length s.server_buf) (resume env now o s e)
  unfolding resume
  resume-Shrinks none s e = tt
  resume-Shrinks (some req) s e = Outcome-Shrinks s req e _ (respond-Outcome env now s req e)

  extract_with-Shrinks :
      (o : Option CapturedRequest) (s : TcpStream) (e : Engine)
      → Shrinks (length s.server_buf) (extract_with env now o s e)
  unfolding extract_with
  extract_with-Shrinks (some req) s e = Outcome-Shrinks s req e _ (respond-Outcome env now s req e)
  extract_with-Shrinks none s e =
      let s' = take_request env now s in
      subst (λ b. Shrinks (length b) (resume env now s'.pending_req s' e))
        (same_server s s' (take_request-Taken env now s)) (resume-Shrinks s'.pending_req s' e)

  next_end :
      (fuel n : ℕ) (x : Next)
      → Shrinks n x
      → ((s : TcpStream) (e : Engine)
          → length s.server_buf < n
          → Ends (extract_rounds env now fuel s e))
      → Ends (elim x [ stop s e ↦ some (s, e) | again s e ↦ extract_rounds env now fuel s e ])
  next_end fuel n (stop s e) h rec = ((s, e), refl)
  next_end fuel n (again s e) h rec = rec s e h

  extract_rounds_end :
      (fuel : ℕ) (s : TcpStream) (e : Engine)
      → length s.server_buf < fuel
      → Ends (extract_rounds env now fuel s e)
  unfolding extract_rounds
  extract_rounds_end zero s e lt = absurd (omega arith)
  extract_rounds_end (suc fuel) s e lt =
      next_end fuel (length s.server_buf) (extract_round env now s e)
        (extract_with-Shrinks s.pending_req s e)
        (λ s' e' less. extract_rounds_end fuel s' e' (omega arith))

  pub try_extract_end : (s : TcpStream) (e : Engine) → Ends (try_extract_http env now s e)
  unfolding try_extract_http
  try_extract_end s e = extract_rounds_end (suc (length s.server_buf)) s e (omega arith)

  pub stops :
      (s t : TcpStream) (e e' : Engine)
      → extract_round env now s e ≡ stop t e'
      → try_extract_http env now s e ≡ some (t, e')
  unfolding try_extract_http extract_rounds
  stops s t e e' h =
      ap
        (λ n. elim n [
          | stop s1 e1 ↦ some (s1, e1)
          | again s1 e1 ↦ extract_rounds env now (length s.server_buf) s1 e1
        ])
        h

  respond_idle :
      (s : TcpStream) (req : CapturedRequest) (e : Engine)
      → s.server_buf ≡ []
      → respond env now s req e ≡ stop s e
  unfolding respond
  respond_idle s req e q =
      let silent : is_http_response s.server_buf ≡ false = ap is_http_response q ∙ not_http in
      rw (respond, silent)
    where
      not_http : is_http_response [] ≡ false
      not_http = unfold is_http_response has_prefix in refl

  -- the loop has nothing to do where it waits for the server
  pub extract_idle :
      (s : TcpStream) (req : CapturedRequest) (e : Engine)
      → s.pending_req ≡ some req
      → s.server_buf ≡ []
      → try_extract_http env now s e ≡ some (s, e)
  extract_idle s req e p q =
      stops s s e e
        (ap (λ o. extract_with env now o s e) p ∙ unfold extract_with in respond_idle s req e q)

  -- no data, no request
  take_nothing : (s : TcpStream) → s.client_buf ≡ [] → take_request env now s ≡ s
  unfolding take_request
  take_nothing s q =
      let e : find_http_message_end s.client_buf ≡ none = ap find_http_message_end q ∙ no_message in
      rw (take_request, e)
    where
      no_message : find_http_message_end [] ≡ none
      no_message = unfold find_http_message_end header_end index_double_crlf index_of in refl

  pub take_with :
      (s t : TcpStream) (e : Engine)
      → take_request env now s ≡ t
      → extract_with env now none s e ≡ resume env now t.pending_req t e
  unfolding extract_with
  take_with s t e q = ap (λ u. resume env now u.pending_req u e) q

  -- or where there is no data
  pub empty_round :
      (s : TcpStream) (e : Engine)
      → s.pending_req ≡ none
      → s.client_buf ≡ []
      → extract_round env now s e ≡ stop s e
  unfolding resume
  empty_round s e p q =
      ap (λ o. extract_with env now o s e) p
      ∙ take_with s s e (take_nothing s q)
      ∙ ap (λ o. resume env now o s e) p

  pub extract_empty :
      (s : TcpStream) (e : Engine)
      → s.pending_req ≡ none
      → s.client_buf ≡ []
      → try_extract_http env now s e ≡ some (s, e)
  extract_empty s e p q = stops s s e e (empty_round s e p q)
