-- ===== src/Api/Hub/Loops.antt =====
-- The loops of the hub over its clients: what is registered stays open.
use packet_lab.Prelude.{
  ℕ, ◌<◌, ◌≡◌, ◌≢◌, ◌⊎◌, inl, inr, refl, sym, ap, ◌∙◌, subst, true, false, List, [], ◌∷◌, ◌++◌,
  arith, ltb, ◌==◌, Bool-cases, length, All, length-set, get_or-set_self, get_or-set_ne,
}
use packet_lab.Api.Hub.{
  Client, Hub, no_client, client, write_client, close_send, without, drop_client, send_or,
  close_and_drop, only_warn, send_all, first_event, send_capacity,
}

abbrev pub Apart : List ℕ → Type 0
Apart [] = Unit
Apart (c ∷ cs) = All (λ d. c ≢ d) cs × Apart cs

-- the client has a channel, which is open
pub record IsOpen (h : Hub) (c : ℕ) : Type 0 where
  pub allocated : c < length h.heap
  pub open_channel : (client h c).is_closed ≡ false

pub record Running (h : Hub) : Type 0 where
  pub apart : Apart h.clients
  pub all_open : All (IsOpen h) h.clients

-- what holds of the hub at every time
pub record IsValid (h : Hub) : Type 0 where
  pub calm : h.panicked ≡ false
  pub running : h.returned ≡ false → Running h

pub map-All : {P Q : ℕ → Type 0} (cs : List ℕ) → ((c : ℕ) → P c → Q c) → All P cs → All Q cs
map-All [] f all = tt
map-All (c ∷ cs) f all = (f c all.0, map-All cs f all.1)

pub zip-All :
    {P Q R : ℕ → Type 0} (cs : List ℕ)
    → ((c : ℕ) → P c → Q c → R c)
    → All P cs
    → All Q cs
    → All R cs
zip-All [] f p q = tt
zip-All (c ∷ cs) f p q = (f c p.0 q.0, zip-All cs f p.1 q.1)

pub without-All : (P : ℕ → Type 0) (c : ℕ) (cs : List ℕ) → All P cs → All P (without c cs)
unfolding without
without-All P c [] all = tt
without-All P c (d ∷ cs) all = elim (Bool-cases (d == c)) [
  | inl e ↦ simp (e) (without-All P c cs all.1)
  | inr e ↦ simp (e) (all.0, without-All P c cs all.1)
]

pub without_other : (c : ℕ) (cs : List ℕ) → All (λ d. c ≢ d) (without c cs)
unfolding without
without_other c [] = tt
without_other c (d ∷ cs) = elim (Bool-cases (d == c)) [
  | inl e ↦ simp (e) (without_other c cs)
  | inr e ↦ simp (e) (ground (arith, e), without_other c cs)
]

pub without-Apart : (c : ℕ) (cs : List ℕ) → Apart cs → Apart (without c cs)
unfolding without
without-Apart c [] a = tt
without-Apart c (d ∷ cs) a = elim (Bool-cases (d == c)) [
  | inl e ↦ simp (e) (without-Apart c cs a.1)
  | inr e ↦ simp (e) (without-All (λ e. d ≢ e) c cs a.0, without-Apart c cs a.1)
]

-- another client's channel is as before
pub other-IsOpen :
    (h : Hub) (c d : ℕ) (x : Client) → c ≢ d → IsOpen h d → IsOpen (write_client c x h) d
other-IsOpen h c d x ne o = record {
  allocated = omega (arith, o.allocated, length-set h.heap c x);
  open_channel = ap (λ y. y.is_closed) (get_or-set_ne h.heap x no_client ne) ∙ o.open_channel;
}

-- a write of an open channel keeps what is open
pub kept-IsOpen :
    (h : Hub) (c d : ℕ) (x : Client)
    → x.is_closed ≡ false
    → IsOpen h d
    → IsOpen (write_client c x h) d
kept-IsOpen h c d x e o = elim (Bool-cases (c == d)) [
  | inl same ↦
      let s : c ≡ d = ground (arith, same) in
      subst (IsOpen (write_client c x h)) s (record {
        allocated = omega (arith, o.allocated, length-set h.heap c x, s);
        open_channel =
            ap (λ y. y.is_closed)
              (get_or-set_self h.heap c x no_client (omega (arith, o.allocated, s)))
            ∙ e;
      })
  | inr other ↦ other-IsOpen h c d x (ground (arith, other)) o
]

-- the loop has still to visit `cs`
pub record Looping (cs : List ℕ) (h : Hub) : Type 0 where
  pub calm : h.panicked ≡ false
  pub returned : h.returned ≡ false
  pub run : Running h
  pub to_visit : All (IsOpen h) cs
  pub visit_once : Apart cs

pub close_lem :
    (c : ℕ) (h : Hub)
    → (client h c).is_closed ≡ false
    → close_send c h ≡ write_client c (record (client h c) { is_closed = true }) h
unfolding close_send
close_lem c h e = simp (e) refl

send_room :
    (full : ℕ → Hub → Hub) (msg c : ℕ) (h : Hub)
    → (client h c).is_closed ≡ false
    → (send_or full msg c h
        ≡ write_client c (record (client h c) { queue = (client h c).queue ++ (msg ∷ []) }) h)
      ⊎ (send_or full msg c h ≡ full c h)
unfolding send_or
send_room full msg c h e = elim (Bool-cases (ltb (length (client h c).queue) send_capacity)) [
  | inl room ↦ inl (simp (e, room) refl)
  | inr no_room ↦ inr (simp (e, no_room) refl)
]

-- dropping a client does not touch the channels
pub reopen :
    (h : Hub) (c d : ℕ) (x : Client)
    → IsOpen (write_client c x h) d
    → IsOpen (drop_client c (write_client c x h)) d
reopen h c d x o = record { allocated = o.allocated; open_channel = o.open_channel }

-- closing and dropping a client
pub dropped_lem :
    (c : ℕ) (cs : List ℕ) (h : Hub) → Looping (c ∷ cs) h → Looping cs (close_and_drop c h)
dropped_lem c cs h l =
    let x = record (client h c) { is_closed = true } in
    let closed = close_lem c h l.to_visit.0.open_channel in
    subst (λ k. Looping cs (drop_client c k)) (sym closed)
      (record {
        calm = l.calm;
        returned = l.returned;
        run = record {
          apart = without-Apart c h.clients l.run.apart;
          all_open =
              zip-All (without c h.clients) (λ d ne o. reopen h c d x (other-IsOpen h c d x ne o))
                (without_other c h.clients) (without-All (IsOpen h) c h.clients l.run.all_open);
        };
        to_visit =
            zip-All cs (λ d ne o. reopen h c d x (other-IsOpen h c d x ne o)) l.visit_once.0
              l.to_visit.1;
        visit_once = l.visit_once.1;
      })

pub warn_lem : (c : ℕ) (cs : List ℕ) (h : Hub) → Looping (c ∷ cs) h → Looping cs (only_warn c h)
warn_lem c cs h l = record {
  calm = l.calm;
  returned = l.returned;
  run = l.run;
  to_visit = l.to_visit.1;
  visit_once = l.visit_once.1;
}

module _ (full : ℕ → Hub → Hub)
    (full_lem : (c : ℕ) (cs : List ℕ) (h : Hub) → Looping (c ∷ cs) h → Looping cs (full c h)) where
  send_lem :
      (msg c : ℕ) (cs : List ℕ) (h : Hub) → Looping (c ∷ cs) h → Looping cs (send_or full msg c h)
  send_lem msg c cs h l =
      let o = l.to_visit.0.open_channel in
      let x = record (client h c) { queue = (client h c).queue ++ (msg ∷ []) } in
      elim (send_room full msg c h o) [
        | inl e ↦ subst (Looping cs) (sym e) (record {
          calm = l.calm;
          returned = l.returned;
          run = record {
            apart = l.run.apart;
            all_open = map-All h.clients (λ d. kept-IsOpen h c d x o) l.run.all_open;
          };
          to_visit = map-All cs (λ d. kept-IsOpen h c d x o) l.to_visit.1;
          visit_once = l.visit_once.1;
        })
        | inr e ↦ subst (Looping cs) (sym e) (full_lem c cs h l)
      ]

  send_all_lem :
      (msg : ℕ) (cs : List ℕ) (h : Hub) → Looping cs h → Looping [] (send_all full msg cs h)
  unfolding send_all
  send_all_lem msg [] h l = l
  send_all_lem msg (c ∷ cs) h l = send_all_lem msg cs (send_or full msg c h) (send_lem msg c cs h l)

  pub event_lem :
      (ms : List ℕ) (h : Hub)
      → h.panicked ≡ false
      → h.returned ≡ false
      → Running h
      → IsValid (first_event full ms h)
  event_lem [] h calm back r = record { calm = calm; running = λ e. r }
  event_lem (m ∷ ms) h calm back r =
      let l = send_all_lem m h.clients h (record {
        calm = calm;
        returned = back;
        run = r;
        to_visit = r.all_open;
        visit_once = r.apart;
      }) in
      record { calm = l.calm; running = λ e. l.run }
