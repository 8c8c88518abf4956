-- ===== src/Ring/History.antt =====
-- Histories of calls on a ring, with what each call returns.
use packet_lab.Prelude.{
  ℕ, ◌≡◌, refl, ap, ◌∙◌, inl, inr, Bool, true, Option, none, some, List, [], ◌∷◌, arith,
  Option-cases,
}
use packet_lab.Models.{CapturedRequest}
use packet_lab.Ring.{Slot, MemRingBuffer, push, pop_batch, stop, store_slot, evict}
use packet_lab.Ring.Spec.{Queue}
use packet_lab.Ring.Spec
use packet_lab.Ring.Inv.{IsValid}
use packet_lab.Ring.Refine.{view, push-IsValid, push_refines}
use packet_lab.Ring.Drain.{drain_outcome, pop_batch_refines, pop_batch-IsValid, stop-IsValid}

pub data Call : Type 0 where
  pushes : Option CapturedRequest → ℕ → Call
  pops : Call
  stops : Call

pub data Reply : Type 0 where
  pushed : Bool → Reply
  popped : List Slot → Reply
  waits : Reply
  done : Reply

abbrev pub reply_of {ℓ} : {A : Type ℓ} → A → Option (List Slot × A) → Reply × A
reply_of a none = (waits, a)
reply_of a (some (batch, b)) = (popped batch, b)

-- one call; a `PopBatch` that waits changes nothing
unfoldable pub step : MemRingBuffer → Call → Reply × MemRingBuffer
step r (pushes req now) = let (b, r') = push r req now in (pushed b, r')
step r pops = reply_of r (pop_batch r)
step r stops = (done, stop r)

unfoldable pub run : MemRingBuffer → List Call → List Reply
run r [] = []
run r (c ∷ cs) = let (a, r') = step r c in a ∷ run r' cs

module _ (limit max_bytes : ℕ) where
  unfoldable pub queue_step : Queue → Call → Reply × Queue
  queue_step q (pushes req now) =
      let (b, q') = Spec.push limit max_bytes q req now in (pushed b, q')
  queue_step q pops = reply_of q (Spec.pop_batch q)
  queue_step q stops = (done, record q { stopped = true })

  unfoldable pub queue_run : Queue → List Call → List Reply
  queue_run q [] = []
  queue_run q (c ∷ cs) = let (a, q') = queue_step q c in a ∷ queue_run q' cs

-- Neither the capacity nor the byte limit ever changes.
abbrev limits : MemRingBuffer → ℕ × ℕ
limits r = (r.mask, r.max_bytes)

limits-push :
    (r : MemRingBuffer) (req : Option CapturedRequest) (now : ℕ)
    → ((push r req now).1.mask ≡ r.mask) × ((push r req now).1.max_bytes ≡ r.max_bytes)
unfolding push store_slot evict
limits-push r req now = ground arith

limits-pop :
    (r s : MemRingBuffer) (batch : List Slot)
    → pop_batch r ≡ some (batch, s)
    → (s.mask ≡ r.mask) × (s.max_bytes ≡ r.max_bytes)
unfolding pop_batch
limits-pop r s batch e = ground arith

module _ {k : ℕ} {r : MemRingBuffer} (v : IsValid k r) where
  step-IsValid : (c : Call) → IsValid k (step r c).1
  unfolding step
  step-IsValid (pushes req now) = push-IsValid v req now
  step-IsValid pops = elim (Option-cases (pop_batch r)) [
    | inl e ↦ rw e v
    | inr ((batch, s), e) ↦ rw e (pop_batch-IsValid v batch s e)
  ]
  step-IsValid stops = stop-IsValid v

  limits-step : (c : Call) → ((step r c).1.mask ≡ r.mask) × ((step r c).1.max_bytes ≡ r.max_bytes)
  unfolding step
  limits-step (pushes req now) = limits-push r req now
  limits-step pops = elim (Option-cases (pop_batch r)) [
    | inl e ↦ rw e (refl, refl)
    | inr ((batch, s), e) ↦ rw e (limits-pop r s batch e)
  ]
  limits-step stops = unfold stop in (refl, refl)

  abbrev step_outcome : Reply × MemRingBuffer → Reply × Queue
  step_outcome (a, s) = (a, view s)

  step_refines : (c : Call) → step_outcome (step r c) ≡ queue_step r.mask r.max_bytes (view r) c
  unfolding step queue_step
  step_refines (pushes req now) =
      ap (λ (p : Bool × Queue). (pushed p.0, p.1)) (push_refines v req now)
  step_refines pops = reply_view (pop_batch r) ∙ ap (reply_of (view r)) (pop_batch_refines v)
    where
      reply_view :
          (o : Option (List Slot × MemRingBuffer))
          → step_outcome (reply_of r o) ≡ reply_of (view r) (drain_outcome o)
      reply_view none = refl
      reply_view (some (batch, s)) = refl
  step_refines stops = unfold stop in refl

-- Whatever calls a client makes, a valid ring answers as the bounded queue of its contents, which
-- holds one record fewer than the ring has slots.
pub run_refines :
    {k : ℕ} (r : MemRingBuffer) (cs : List Call)
    → IsValid k r
    → run r cs ≡ queue_run r.mask r.max_bytes (view r) cs
unfolding run queue_run
run_refines r [] v = refl
run_refines r (c ∷ cs) v =
    ap (◌∷◌ (step r c).0) (run_refines (step r c).1 cs (step-IsValid v c))
    ∙ ap (λ (l : ℕ × ℕ). (step r c).0 ∷ queue_run l.0 l.1 (view (step r c).1) cs)
        (λ i. ((limits-step v c).0 i, (limits-step v c).1 i))
    ∙ ap (λ (p : Reply × Queue). p.0 ∷ queue_run r.mask r.max_bytes p.1 cs) (step_refines v c)

-- The invariant holds after any calls.
pub after : MemRingBuffer → List Call → MemRingBuffer
after r [] = r
after r (c ∷ cs) = after (step r c).1 cs

pub after-IsValid :
    {k : ℕ} (r : MemRingBuffer) (cs : List Call) → IsValid k r → IsValid k (after r cs)
unfolding after
after-IsValid r [] v = v
after-IsValid r (c ∷ cs) v = after-IsValid (step r c).1 cs (step-IsValid v c)
