-- ===== src/Api/Hub/Safe.antt =====
-- The hub never sends to a closed channel and never closes one twice.
use packet_lab.Prelude.{
  ◌||◌, ℕ, ◌<◌, ◌≡◌, inl, inr, refl, sym, ap, ◌∙◌, subst, true, false, List, [], ◌∷◌, ◌++◌, arith,
  ◌==◌, ==_iff, if◌then◌else◌, Bool-cases, length, get_or, All, length-append, get_or-append,
}
use packet_lab.Api.Hub.{
  Client, Hub, new_hub, no_client, client, write_client, close_send, without, is_in, drop_client,
  close_and_drop, only_warn, close_all, register, unregister, run_round, run_step, run_steps, Step,
  read_one, behind,
}
use packet_lab.Api.Hub.{
  broadcasts, broadcasts_intercept, broadcasts_update, stops, sees_stop, registers, unregisters,
  sends_request, sends_intercept, sends_update, client_reads,
}
use packet_lab.Api.Hub.Loops.{
  Apart, IsOpen, Running, IsValid, map-All, zip-All, without-All, without_other, without-Apart,
  other-IsOpen, kept-IsOpen, close_lem, reopen, dropped_lem, warn_lem, event_lem,
}

-- closing every client once
close_all_lem :
    (cs : List ℕ) (h : Hub)
    → h.panicked ≡ false
    → All (IsOpen h) cs
    → Apart cs
    → (close_all cs h).panicked ≡ false
unfolding close_all
close_all_lem [] h calm all apart = calm
close_all_lem (c ∷ cs) h calm all apart =
    let x = record (client h c) { is_closed = true } in
    let closed = close_lem c h all.0.open_channel in
    close_all_lem cs (close_send c h) (ap (λ k. k.panicked) closed ∙ calm)
      (subst (λ k. All (IsOpen k) cs) (sym closed)
        (zip-All cs (λ d. other-IsOpen h c d x) apart.0 all.1))
      apart.1

is_in-All : (P : ℕ → Type 0) (c : ℕ) (cs : List ℕ) → is_in c cs ≡ true → All P cs → P c
unfolding is_in
is_in-All P c [] h all = cc
is_in-All P c (d ∷ cs) h all = elim (Bool-cases (d == c)) [
  | inl e ↦ subst P ((==_iff d c).0 e) all.0
  | inr e ↦ is_in-All P c cs (ap (λ b. b || is_in c cs) (sym e) ∙ h) all.1
]

module _ (h : Hub) (calm : h.panicked ≡ false) (r : Running h) where
  -- a new client
  grown-IsOpen : (d : ℕ) → IsOpen h d → IsOpen (register h) d
  unfolding register
  grown-IsOpen d o = record {
    allocated = omega (arith, o.allocated, length-append h.heap (no_client ∷ []));
    open_channel =
        ap (λ y. y.is_closed) (get_or-append h.heap (no_client ∷ []) d no_client o.allocated)
        ∙ o.open_channel;
  }

  new-IsOpen : IsOpen (register h) (length h.heap)
  unfolding register
  new-IsOpen = record {
    allocated = omega (arith, length-append h.heap (no_client ∷ []));
    open_channel = ap (λ y. y.is_closed) (at_end h.heap);
  }
    where
      at_end : (l : List Client) → get_or (l ++ (no_client ∷ [])) (length l) no_client ≡ no_client
      at_end [] = refl
      at_end (x ∷ l) = at_end l

  register_lem : IsValid (register h)
  register_lem = record {
    calm = unfold register in calm;
    running = λ e. record {
      apart =
          unfold register in
          (
            map-All h.clients (λ d o same. absurd (omega (arith, o.allocated, same))) r.all_open,
            r.apart,
          );
      all_open = unfold register in (new-IsOpen, map-All h.clients grown-IsOpen r.all_open);
    };
  }

  unregister_out : (c : ℕ) → is_in c h.clients ≡ false → unregister c h ≡ h
  unfolding unregister
  unregister_out c e = simp (e) refl

  unregister_in :
      (c : ℕ) → is_in c h.clients ≡ true → unregister c h ≡ close_send c (drop_client c h)
  unfolding unregister
  unregister_in c e = simp (e) refl

  unregister_lem : (c : ℕ) → IsValid (unregister c h)
  unregister_lem c = elim (Bool-cases (is_in c h.clients)) [
    | inr e ↦ subst IsValid (sym (unregister_out c e)) (record { calm = calm; running = λ _. r })
    | inl e ↦
        let x = record (client h c) { is_closed = true } in
        let o = is_in-All (IsOpen h) c h.clients e r.all_open in
        subst IsValid (sym (unregister_in c e ∙ close_lem c (drop_client c h) o.open_channel))
          (record {
            calm = calm;
            running = λ _. record {
              apart = without-Apart c h.clients r.apart;
              all_open =
                  zip-All (without c h.clients)
                    (λ d ne o. reopen h c d x (other-IsOpen h c d x ne o))
                    (without_other c h.clients) (without-All (IsOpen h) c h.clients r.all_open);
            };
          })
  ]

read_lem : (h : Hub) (c d : ℕ) → IsOpen h d → IsOpen (write_client c (read_one (client h c)) h) d
read_lem h c d o = elim (Bool-cases (client h c).is_closed) [
  | inr e ↦ kept-IsOpen h c d (read_one (client h c)) e o
  | inl e ↦
      other-IsOpen h c d (read_one (client h c))
        (λ same.
          let contra : true ≡ false =
            sym e ∙ ap (λ k. (client h k).is_closed) same ∙ o.open_channel in
          cc)
        o
]

same_open : (h k : Hub) → k.clients ≡ h.clients → k.heap ≡ h.heap → Running h → Running k
same_open h k cs hs r = record {
  apart = subst Apart (sym cs) r.apart;
  all_open = subst (All (IsOpen k)) (sym cs) (
      map-All h.clients
        (λ c o. record {
          allocated = subst (λ l. c < length l) (sym hs) o.allocated;
          open_channel = ap (λ l. (get_or l c no_client).is_closed) hs ∙ o.open_channel;
        })
        r.all_open);
}

round_lem :
    (s : Step) (h : Hub)
    → h.panicked ≡ false
    → h.returned ≡ false
    → Running h
    → IsValid (run_round s h)
unfolding run_round
round_lem sees_stop h calm back r = elim (Bool-cases h.stopped) [
  | inl e ↦
      simp (e)
        (record { calm = close_all_lem h.clients h calm r.all_open r.apart; running = λ e. cc })
  | inr e ↦ simp (e) (record { calm = calm; running = λ _. r })
]
round_lem registers h calm back r = register_lem h calm r
round_lem (unregisters c) h calm back r = unregister_lem h calm r c
round_lem sends_request h calm back r =
    event_lem close_and_drop dropped_lem h.broadcast_ch
      (record h { broadcast_ch = behind h.broadcast_ch }) calm back (same_open h _ refl refl r)
round_lem sends_intercept h calm back r =
    event_lem only_warn warn_lem h.intercept_ch (record h { intercept_ch = behind h.intercept_ch })
      calm back (same_open h _ refl refl r)
round_lem sends_update h calm back r =
    event_lem only_warn warn_lem h.update_ch (record h { update_ch = behind h.update_ch }) calm back
      (same_open h _ refl refl r)
round_lem (broadcasts m) h calm back r = record { calm = calm; running = λ _. r }
round_lem (broadcasts_intercept m) h calm back r = record { calm = calm; running = λ _. r }
round_lem (broadcasts_update m) h calm back r = record { calm = calm; running = λ _. r }
round_lem stops h calm back r = record { calm = calm; running = λ _. r }
round_lem (client_reads c) h calm back r = record { calm = calm; running = λ _. r }

guarded_lem : (s : Step) (h : Hub) → IsValid h → IsValid (if h.returned then h else run_round s h)
guarded_lem s h v = elim (Bool-cases h.returned) [
  | inl e ↦ simp (e) v
  | inr e ↦ simp (e) (round_lem s h v.calm e (v.running e))
]

-- Every step of the hub, of its clients and of those who call it keeps what holds of the hub.
pub step-IsValid : (s : Step) (h : Hub) → IsValid h → IsValid (run_step s h)
unfolding run_step
step-IsValid (broadcasts m) h v = record {
  calm = v.calm;
  running = λ e. same_open h _ refl refl (v.running e);
}
step-IsValid (broadcasts_intercept m) h v = record {
  calm = v.calm;
  running = λ e. same_open h _ refl refl (v.running e);
}
step-IsValid (broadcasts_update m) h v = record {
  calm = v.calm;
  running = λ e. same_open h _ refl refl (v.running e);
}
step-IsValid stops h v = record {
  calm = v.calm;
  running = λ e. same_open h _ refl refl (v.running e);
}
step-IsValid (client_reads c) h v = record {
  calm = v.calm;
  running = λ e. record {
    apart = (v.running e).apart;
    all_open = map-All h.clients (λ d. read_lem h c d) (v.running e).all_open;
  };
}
step-IsValid sees_stop h v = guarded_lem sees_stop h v
step-IsValid registers h v = guarded_lem registers h v
step-IsValid (unregisters c) h v = guarded_lem (unregisters c) h v
step-IsValid sends_request h v = guarded_lem sends_request h v
step-IsValid sends_intercept h v = guarded_lem sends_intercept h v
step-IsValid sends_update h v = guarded_lem sends_update h v

-- Whatever the clients, the hub and its callers do, in whatever order, no channel of a client is
-- closed twice and no message is sent to a closed one, so that the hub does not panic.
pub never_panics : (ss : List Step) (h : Hub) → IsValid h → (run_steps ss h).panicked ≡ false
unfolding run_steps
never_panics [] h v = v.calm
never_panics (s ∷ ss) h v = never_panics ss (run_step s h) (step-IsValid s h v)

pub new_hub-IsValid : IsValid new_hub
unfolding new_hub
new_hub-IsValid = record { calm = refl; running = λ e. record { apart = tt; all_open = tt } }
