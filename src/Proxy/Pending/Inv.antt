-- ===== src/Proxy/Pending/Inv.antt =====
-- What holds of the queue and of its entries at every time, and that a change of one entry keeps it.
use packet_lab.Prelude.{
  ℕ, ◌+◌, ◌≤◌, ◌<◌, ◌≡◌, ◌⊎◌, inl, inr, refl, sym, ap, subst, ◌∙◌, Bool, true, false, Option, none,
  some, List, [], ◌∷◌, ◌++◌, arith, ltb, ltb→lt, Bool-cases, length, get_or, set, All, Bytes, Map,
  lookup, length-set, length-append,
}
use packet_lab.Models.{InterceptRule, InterceptResult, InterceptLog}
use packet_lab.Proxy.Pending.{
  Phase, waiting, ticked, expiring, decided, Entry, Interceptor, max_pending, log_capacity,
  no_entry, entry, write_entry, write_log,
}

abbrev pub in_channel : Option InterceptResult → ℕ
in_channel none = 0
in_channel (some r) = 1

abbrev pub used : Phase → ℕ
used waiting = 0
used ticked = 0
used expiring = 0
used (decided r false) = 1
used (decided r true) = 0

abbrev pub is_over : Phase → Bool
is_over waiting = false
is_over ticked = false
is_over expiring = false
is_over (decided r t) = true

-- the results that were ever made for the entry
abbrev pub spent : Entry → ℕ
spent e = length e.sending + in_channel e.result + used e.phase

abbrev pub ResultIsFor : Bytes → Option InterceptResult → Type 0
ResultIsFor id none = Unit
ResultIsFor id (some r) = r.request_id ≡ id

abbrev pub DecisionIsFor : Bytes → Phase → Type 0
DecisionIsFor id waiting = Unit
DecisionIsFor id ticked = Unit
DecisionIsFor id expiring = Unit
DecisionIsFor id (decided r false) = r.request_id ≡ id
DecisionIsFor id (decided r true) = Unit

-- An entry has at most one result, which was made for it.
pub record IsGood (e : Entry) : Type 0 where
  pub one_result : spent e ≤ 1
  pub sending_for : All (λ r. r.request_id ≡ e.id) e.sending
  pub result_for : ResultIsFor e.id e.result
  pub decision_for : DecisionIsFor e.id e.phase

-- An entry in the queue has no result yet, and its goroutine still waits.
pub record IsIdle (e : Entry) : Type 0 where
  pub no_result : spent e ≡ 0
  pub waits : is_over e.phase ≡ false

pub record Queued (it : Interceptor) (id : Bytes) (p : ℕ) : Type 0 where
  pub allocated : p < length it.heap
  pub same_id : (entry it p).id ≡ id
  pub idle : IsIdle (entry it p)

-- what holds of the interceptor between any two steps
pub record IsValid (it : Interceptor) : Type 0 where
  pub few : length it.pending ≤ max_pending
  pub few_logs : length it.log_ch ≤ log_capacity
  pub good : (p : ℕ) → IsGood (entry it p)
  pub queued : (id : Bytes) (p : ℕ) → lookup id it.pending ≡ some p → Queued it id p

-- what an entry is after a write
pub write_cases :
    (it : Interceptor) (p q : ℕ) (e : Entry)
    → ((q ≡ p) × (entry (write_entry it p e) q ≡ e)) ⊎ (entry (write_entry it p e) q ≡ entry it q)
write_cases it p q e = go it.heap p q
  where
    go :
        (h : List Entry) (p q : ℕ)
        → ((q ≡ p) × (get_or (set h p e) q no_entry ≡ e))
          ⊎ (get_or (set h p e) q no_entry ≡ get_or h q no_entry)
    go [] p q = inr refl
    go (x ∷ h) ℕ.zero ℕ.zero = inl (refl, refl)
    go (x ∷ h) ℕ.zero (ℕ.suc q) = inr refl
    go (x ∷ h) (ℕ.suc p) ℕ.zero = inr refl
    go (x ∷ h) (ℕ.suc p) (ℕ.suc q) = elim (go h p q) [
      | inl (same, there) ↦ inl (ap ℕ.suc same, there)
      | inr other ↦ inr other
    ]

module _ {it : Interceptor} (v : IsValid it) (p : ℕ) (e : Entry) (pending : Map ℕ) where
  -- An entry is replaced and the queue shrinks; what stays in the queue is idle.
  pub write-IsValid :
      IsGood e
      → e.id ≡ (entry it p).id
      → length pending ≤ length it.pending
      → ((id : Bytes) (q : ℕ)
          → lookup id pending ≡ some q
          → (lookup id it.pending ≡ some q) × (q ≡ p → IsIdle e))
      → IsValid (write_entry (record it { pending = pending }) p e)
  write-IsValid good same_id shrinks stays = record {
    few = omega (arith, shrinks, v.few);
    few_logs = v.few_logs;
    good = λ q. elim (write_cases it p q e) [
      | inl (_, here) ↦ subst IsGood (sym here) good
      | inr other ↦ subst IsGood (sym other) (v.good q)
    ];
    queued = λ id q found.
        let (before, idle) = stays id q found in
        let old = v.queued id q before in
        record {
          allocated = omega (arith, old.allocated, length-set it.heap p e);
          same_id = elim (write_cases it p q e) [
            | inl (same, here) ↦
                ap (λ x. x.id) here ∙ same_id ∙ ap (λ k. (entry it k).id) (sym same) ∙ old.same_id
            | inr other ↦ ap (λ x. x.id) other ∙ old.same_id
          ];
          idle = elim (write_cases it p q e) [
            | inl (same, here) ↦ subst IsIdle (sym here) (idle same)
            | inr other ↦ subst IsIdle (sym other) old.idle
          ];
        };
  }

-- The other fields do not matter, but for the number of logs.
pub with_fields :
    {it : Interceptor} (mode : Bytes) (rules : List InterceptRule) (logs : List InterceptLog)
    (closed : Bool)
    → length logs ≤ log_capacity
    → IsValid it
    → IsValid (record it { mode = mode; rules = rules; log_ch = logs; closed = closed })
with_fields mode rules logs closed le v = record {
  few = v.few;
  few_logs = le;
  good = v.good;
  queued = λ id p found.
      let q = v.queued id p found in
      record { allocated = q.allocated; same_id = q.same_id; idle = q.idle };
}

-- A log goes to the channel, or nowhere.
pub write_log_cases :
    (log : InterceptLog) (it : Interceptor)
    → (write_log log it ≡ it)
      ⊎ ((length it.log_ch < log_capacity)
          × (write_log log it ≡ record it { log_ch = it.log_ch ++ (log ∷ []) }))
unfolding write_log
write_log_cases log it = elim (Bool-cases it.closed) [
  | inl c ↦ inl (simp (c))
  | inr c ↦ elim (Bool-cases (ltb (length it.log_ch) log_capacity)) [
    | inl l ↦ inr (ltb→lt (length it.log_ch) log_capacity l, simp (c, l))
    | inr l ↦ inl (simp (c, l))
  ]
]

pub write_log-IsValid :
    {it : Interceptor} → (log : InterceptLog) → IsValid it → IsValid (write_log log it)
write_log-IsValid {it} log v = elim (write_log_cases log it) [
  | inl e ↦ subst IsValid (sym e) v
  | inr (room, e) ↦ subst IsValid (sym e) (
      with_fields it.mode it.rules (it.log_ch ++ (log ∷ [])) it.closed
        (omega (arith, room, length-append it.log_ch (log ∷ []))) v)
]
