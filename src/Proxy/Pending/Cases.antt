-- ===== src/Proxy/Pending/Cases.antt =====
-- The operations on the queue by the branches that change something, as equations.
use packet_lab.Prelude.{
  List-cases, ℕ, ◌≤◌, ◌<◌, ◌≡◌, ◌⊎◌, inl, inr, refl, ap, Bool, true, false, none, some, List, [],
  ◌∷◌, ◌++◌, arith, leb, length, Bytes, lookup, erase, insert, Bool-cases, Option-cases, leb→le,
}
use packet_lab.Models.{InterceptResult, InterceptLog}
use packet_lab.Proxy.Pending.{
  Phase, waiting, ticked, expiring, decided, Entry, Interceptor, max_pending, entry, write_entry,
  write_log, enqueue_pending, taken_by, resolve_take, resolve_send, take_result, await_result, tick,
  check_result, expire, fill, returned, timed_out,
}

-- Each operation changes nothing, or does the one thing that its guards lead to.
pub resolve_take_cases :
    (id : Bytes) (r : InterceptResult) (it : Interceptor)
    → ((lookup id it.pending ≡ none) × (resolve_take id r it ≡ (none, it)))
      ⊎ ((p : ℕ) × (lookup id it.pending ≡ some p)
          × (resolve_take id r it ≡ (
            some p,
            write_entry
                (record it { pending = erase id it.pending })
                p
                (taken_by id r (entry it p)),
          )))
unfolding resolve_take
resolve_take_cases id r it = elim (Option-cases (lookup id it.pending)) [
  | inl e ↦ inl (e, rw (resolve_take, e))
  | inr (p, e) ↦ inr (p, e, rw (resolve_take, e))
]

-- the send when there is a result to send and room in the channel
pub send_at :
    (p : ℕ) (it : Interceptor) (r : InterceptResult) (rest : List InterceptResult)
    → (entry it p).sending ≡ r ∷ rest
    → (entry it p).result ≡ none
    → resolve_send p it ≡ (true, write_entry it p (fill (entry it p) r rest))
unfolding resolve_send
send_at p it r rest e f = rw (resolve_send, e, f)

pub send_cases :
    (p : ℕ) (it : Interceptor)
    → (resolve_send p it ≡ (false, it))
      ⊎ ((r : InterceptResult) × (rest : List InterceptResult) × ((entry it p).sending ≡ r ∷ rest)
          × ((entry it p).result ≡ none)
          × (resolve_send p it ≡ (true, write_entry it p (fill (entry it p) r rest))))
unfolding resolve_send
send_cases p it = elim (List-cases (entry it p).sending) [
  | inl e ↦ inl (rw (resolve_send, e))
  | inr (r, rest, e) ↦ elim (Option-cases (entry it p).result) [
    | inl f ↦ inr (r, rest, e, f, rw (resolve_send, e, f))
    | inr (x, f) ↦ inl (rw (resolve_send, e, f))
  ]
]

pub enqueue_cases :
    (e : Entry) (log : InterceptLog) (it : Interceptor)
    → ((max_pending ≤ length it.pending) × (enqueue_pending e log it ≡ (none, write_log log it)))
      ⊎ ((length it.pending < max_pending)
          × (enqueue_pending e log it ≡ (
            some (length it.heap),
            record it {
              heap = it.heap ++ (e ∷ []);
              pending = insert e.id (length it.heap) it.pending;
            },
          )))
unfolding enqueue_pending
enqueue_cases e log it = elim (Bool-cases (leb max_pending (length it.pending))) [
  | inl full ↦ inl (leb→le max_pending (length it.pending) full, rw (full) refl)
  | inr room ↦ inr (leb_no max_pending (length it.pending) room, rw (room) refl)
]
  where
    leb_no : (a b : ℕ) → leb a b ≡ false → b < a
    leb_no a b h = ground arith

pub take_at :
    (p : ℕ) (it : Interceptor) (r : InterceptResult)
    → (entry it p).phase ≡ waiting
    → (entry it p).result ≡ some r
    → await_result p it ≡ write_entry it p (returned (entry it p) r)
unfolding take_result await_result
take_at p it r w e = rw (await_result, w) (rw (take_result, e))

pub expire_at :
    (log : InterceptLog) (p : ℕ) (it : Interceptor)
    → (entry it p).phase ≡ expiring
    → expire log p it ≡ timed_out log p it
unfolding expire
expire_at log p it e = rw (expire, e)

pub take_cases :
    (p : ℕ) (it : Interceptor)
    → (take_result p it ≡ it)
      ⊎ ((r : InterceptResult) × ((entry it p).result ≡ some r)
          × (take_result p it ≡ write_entry it p (returned (entry it p) r)))
unfolding take_result
take_cases p it = elim (Option-cases (entry it p).result) [
  | inl e ↦ inl (rw (take_result, e))
  | inr (r, e) ↦ inr (r, e, rw (take_result, e))
]

pub Phase-cases :
    (h : Phase)
    → (h ≡ waiting)
      ⊎ ((h ≡ ticked) ⊎ ((h ≡ expiring) ⊎ ((r : InterceptResult) × (t : Bool) × (h ≡ decided r t))))
Phase-cases waiting = inl refl
Phase-cases ticked = inr (inl refl)
Phase-cases expiring = inr (inr (inl refl))
Phase-cases (decided r t) = inr (inr (inr (r, t, refl)))

pub await_cases :
    (p : ℕ) (it : Interceptor)
    → (await_result p it ≡ it)
      ⊎ (((entry it p).phase ≡ waiting) × (await_result p it ≡ take_result p it))
unfolding await_result
await_cases p it = elim (Phase-cases (entry it p).phase) [
  | inl e ↦ inr (e, rw (await_result, e))
  | inr (inl e) ↦ inl (rw (await_result, e))
  | inr (inr (inl e)) ↦ inl (rw (await_result, e))
  | inr (inr (inr (r, t, e))) ↦ inl (rw (await_result, e))
]

pub tick_cases :
    (p : ℕ) (it : Interceptor)
    → (tick p it ≡ it)
      ⊎ (((entry it p).phase ≡ waiting)
          × (tick p it ≡ write_entry it p (record (entry it p) { phase = ticked })))
unfolding tick
tick_cases p it = elim (Phase-cases (entry it p).phase) [
  | inl e ↦ elim (Bool-cases (entry it p).timer_stopped) [
    | inl f ↦ inl (rw (tick, e, f))
    | inr f ↦ inr (e, rw (tick, e, f))
  ]
  | inr (inl e) ↦ inl (rw (tick, e))
  | inr (inr (inl e)) ↦ inl (rw (tick, e))
  | inr (inr (inr (r, t, e))) ↦ inl (rw (tick, e))
]

pub check_cases :
    (p : ℕ) (it : Interceptor)
    → (check_result p it ≡ it)
      ⊎ (((entry it p).phase ≡ ticked)
          × ((((entry it p).result ≡ none)
                × (check_result p it
                    ≡ write_entry it p (record (entry it p) { result = none; phase = expiring })))
              ⊎ ((r : InterceptResult) × ((entry it p).result ≡ some r)
                  × (check_result p it ≡ write_entry it p (returned (entry it p) r)))))
unfolding check_result
check_cases p it = elim (Phase-cases (entry it p).phase) [
  | inl e ↦ inl (rw (check_result, e))
  | inr (inl e) ↦ elim (Option-cases (entry it p).result) [
    | inl f ↦ inr (
      e,
      inl (
        f,
        rw (check_result, e, f)
            (ap (λ o. write_entry it p (record (entry it p) { result = o; phase = expiring })) f),
      ),
    )
    | inr (r, f) ↦ inr (e, inr (r, f, rw (check_result, e, f)))
  ]
  | inr (inr (inl e)) ↦ inl (rw (check_result, e))
  | inr (inr (inr (r, t, e))) ↦ inl (rw (check_result, e))
]

pub expire_cases :
    (log : InterceptLog) (p : ℕ) (it : Interceptor)
    → (expire log p it ≡ it)
      ⊎ (((entry it p).phase ≡ expiring) × (expire log p it ≡ timed_out log p it))
unfolding expire
expire_cases log p it = elim (Phase-cases (entry it p).phase) [
  | inl e ↦ inl (rw (expire, e))
  | inr (inl e) ↦ inl (rw (expire, e))
  | inr (inr (inl e)) ↦ inr (e, rw (expire, e))
  | inr (inr (inr (r, t, e))) ↦ inl (rw (expire, e))
]
