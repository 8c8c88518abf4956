-- ===== src/Capture/Stream/Sound.antt =====
-- What a stream gives to the engine is sound: final status codes only, and each record counted once.
use packet_lab.Prelude.{
  ℕ, zero, suc, ◌+◌, ◌≡◌, sym, subst, ◌∙◌, Option, none, some, List, [], ◌∷◌, All, length, arith,
  refl, inl, inr, Bool, true, false, if◌then◌else◌, ◌⊎◌, eqb,
}
use packet_lab.Models.{CapturedRequest}
use packet_lab.Capture.Parse.Responses.{Fresh}
use packet_lab.Capture.Stream.{
  Output, saved, res_body_updated, update_told, emitted, Engine, Surroundings, TcpStream, log,
  count_found, emit,
}
use packet_lab.Capture.Stream.Extract.{
  Next, stop, again, answered, started, take_request, try_extract_http, close_request, close_resume,
  close_with, close_round, close_rounds, try_extract_http_on_close,
}
use packet_lab.Capture.Stream.Outcomes.{
  IsFinal, Outcome, waits, skips, answers, fails, begins, Taken, kept, taken, Holds, IsKept,
  extract_rounds-Holds, take_request-Taken,
}
use packet_lab.Capture.Stream.Ends.{try_extract_end}
use packet_lab.Capture.Stream.Closes.{Closing, close_request-Closing, round_at}

-- the status of a record that leaves the engine: a final one, or none where no response was seen
abbrev pub HasFinal : Output → Type 0
HasFinal (emitted req) = (req.status_code ≡ 0) ⊎ IsFinal req.status_code
HasFinal (saved req answer) = IsFinal req.status_code
HasFinal (res_body_updated id text) = Unit
HasFinal (update_told req) = Unit

-- how many records were captured: those emitted, and those saved
abbrev pub captured : List Output → ℕ
captured [] = 0
captured (emitted req ∷ os) = captured os + 1
captured (saved req (some id) ∷ os) = captured os + 1
captured (saved req none ∷ os) = captured os
captured (res_body_updated id text ∷ os) = captured os
captured (update_told req ∷ os) = captured os

-- what left the engine has final statuses, and the counter counts it
pub record IsSoundEngine (e : Engine) : Type 0 where
  pub finals : All HasFinal e.outputs
  pub counted : e.http_found ≡ captured e.outputs

abbrev pub IsSound : TcpStream → Engine → Type 0
IsSound s e = Fresh s.pending_req × IsSoundEngine e

pub emit-IsSoundEngine :
    (req : CapturedRequest) (e : Engine)
    → (req.status_code ≡ 0) ⊎ IsFinal req.status_code
    → IsSoundEngine e
    → IsSoundEngine (emit req e)
unfolding emit
emit-IsSoundEngine req e h v = record { finals = (h, v.finals); counted = omega (arith, v.counted) }

save_failed :
    (req : CapturedRequest) (e : Engine)
    → IsFinal req.status_code
    → IsSoundEngine e
    → IsSoundEngine (log (saved req none) e)
save_failed req e h v = record { finals = (h, v.finals); counted = v.counted }

save_done :
    (req : CapturedRequest) (id : ℕ) (e : Engine)
    → IsFinal req.status_code
    → IsSoundEngine e
    → IsSoundEngine (count_found (log (saved req (some id)) e))
save_done req id e h v = record { finals = (h, v.finals); counted = omega (arith, v.counted) }

pub told :
    (b : Bool) (req : CapturedRequest) (e : Engine)
    → IsSoundEngine e
    → IsSoundEngine (if b then log (update_told req) e else e)
told true req e v = record { finals = (tt, v.finals); counted = v.counted }
told false req e v = v

Fresh-status :
    (o : Option CapturedRequest) (req : CapturedRequest)
    → o ≡ some req
    → Fresh o
    → req.status_code ≡ 0
Fresh-status none req p h = cc
Fresh-status (some r) req p h = let same : r ≡ req = cc in subst (λ q. q.status_code ≡ 0) same h

module _ (env : Surroundings) (now : ℕ) where
  keeps_IsSound : IsKept env now IsSound
  keeps_IsSound = record { by_taking = taking; by_round = round }
    where
      taking :
          (s t : TcpStream) (e : Engine)
          → IsSound s e
          → s.pending_req ≡ none
          → Taken s t
          → IsSound t e
      taking s t e h p (kept eq) = subst (λ u. IsSound u e) (sym eq) h
      taking s t e h p (taken k o pos le fresh eq) = subst (λ u. IsSound u e) (sym eq) (fresh, h.1)

      round :
          (s : TcpStream) (req : CapturedRequest) (e : Engine) (n : Next)
          → IsSound s e
          → s.pending_req ≡ some req
          → Outcome env now s req e n
          → Holds env now IsSound n
      round s req e n h p (waits eq) = subst (Holds env now IsSound) (sym eq) h
      round s req e n h p (skips k pos le eq) = subst (Holds env now IsSound) (sym eq) h
      round s req e n h p (answers k size resp pos le final eq) =
          subst (Holds env now IsSound) (sym eq)
            (tt, emit-IsSoundEngine (answered now size resp req) e (inr final) h.1)
      round s req e n h p (fails k size resp pos le final eq) =
          subst (Holds env now IsSound) (sym eq)
            (tt, save_failed (started now size resp req) e final h.1)
      round s req e n h p (begins k size id resp pos le final eq) =
          let full = started now size resp req in
          subst (Holds env now IsSound) (sym eq) (
            tt,
            told env.has_hub (record full { id = id }) (count_found (log (saved full (some id)) e))
                (save_done full id e final h.1),
          )

  pub extract-IsSound :
      (s : TcpStream) (e : Engine) (r : TcpStream × Engine)
      → IsSound s e
      → try_extract_http env now s e ≡ some r
      → IsSound r.0 r.1
  unfolding try_extract_http
  extract-IsSound s e r h done =
      extract_rounds-Holds env now IsSound keeps_IsSound (suc (length s.server_buf)) s e r h done

  Closing-IsSound :
      (s : TcpStream) (req : CapturedRequest) (e : Engine) (n : Next)
      → IsSound s e
      → s.pending_req ≡ some req
      → Closing now s req e n
      → Holds env now IsSound n
  Closing-IsSound s req e n h p (Closing.skips eq) = subst (Holds env now IsSound) (sym eq) h
  Closing-IsSound s req e n h p (Closing.unanswered silent eq) =
      subst (Holds env now IsSound) (sym eq)
        (tt, emit-IsSoundEngine req e (inl (Fresh-status s.pending_req req p h.0)) h.1)
  Closing-IsSound s req e n h p (Closing.answers size resp final eq) =
      subst (Holds env now IsSound) (sym eq)
        (tt, emit-IsSoundEngine (answered now size resp req) e (inr final) h.1)

  resumed-IsSound :
      (o : Option CapturedRequest) (s : TcpStream) (e : Engine)
      → IsSound s e
      → s.pending_req ≡ o
      → Holds env now IsSound (close_resume env now o s e)
  unfolding close_resume
  resumed-IsSound none s e h p = h
  resumed-IsSound (some req) s e h p =
      Closing-IsSound s req e (close_request env now s req e) h p
        (close_request-Closing env now s req e)

  either :
      (b : Bool) (x y : Next)
      → Holds env now IsSound x
      → Holds env now IsSound y
      → Holds env now IsSound (if b then x else y)
  either true x y h k = h
  either false x y h k = k

  close_with-IsSound :
      (o : Option CapturedRequest) (s : TcpStream) (e : Engine)
      → IsSound s e
      → s.pending_req ≡ o
      → Holds env now IsSound (close_with env now o s e)
  unfolding close_with
  close_with-IsSound (some req) s e h p =
      Closing-IsSound s req e (close_request env now s req e) h p
        (close_request-Closing env now s req e)
  close_with-IsSound none s e h p =
      let s' = take_request env now s in
      either (eqb s.client_buf []) (stop s e) (close_resume env now s'.pending_req s' e) h (
        resumed-IsSound s'.pending_req s' e
          (keeps_IsSound.by_taking s s' e h p (take_request-Taken env now s)) refl)

  next_round :
      (fuel : ℕ) (n : Next) (r : TcpStream × Engine)
      → Holds env now IsSound n
      → ((s : TcpStream) (e : Engine)
          → IsSound s e
          → close_rounds env now fuel s e ≡ some r
          → IsSound r.0 r.1)
      → elim n [ stop s e ↦ some (s, e) | again s e ↦ close_rounds env now fuel s e ] ≡ some r
      → IsSound r.0 r.1
  next_round fuel (stop s e) r h rec done =
      let same : (s, e) ≡ r = cc in subst (λ q. IsSound q.0 q.1) same h
  next_round fuel (again s e) r h rec done = rec s e h done

  rounds-IsSound :
      (fuel : ℕ) (s : TcpStream) (e : Engine) (r : TcpStream × Engine)
      → IsSound s e
      → close_rounds env now fuel s e ≡ some r
      → IsSound r.0 r.1
  unfolding close_rounds
  rounds-IsSound zero s e r h done = cc
  rounds-IsSound (suc fuel) s e r h done =
      let ((t, e'), found) = try_extract_end env now s e in
      next_round fuel (close_round env now t e') r
        (close_with-IsSound t.pending_req t e' (extract-IsSound s e (t, e') h found) refl)
        (λ s2 e2 h2 done2. rounds-IsSound fuel s2 e2 r h2 done2)
        (sym (round_at env now fuel s t e e' found) ∙ done)

  pub close-IsSound :
      (s : TcpStream) (e : Engine) (r : TcpStream × Engine)
      → IsSound s e
      → try_extract_http_on_close env now s e ≡ some r
      → IsSound r.0 r.1
  unfolding try_extract_http_on_close
  close-IsSound s e r h done = rounds-IsSound 3 s e r h done
