-- ===== src/Api/Limiter/Window.antt =====
-- Within a window a visitor gets no more calls through than the limit.
use packet_lab.Prelude.{
  ℕ, suc, ◌+◌, ◌-◌, ◌≤◌, ◌≡◌, inl, inr, refl, ap, ◌∙◌, Bool, true, false, ◌&&◌, none, some, List,
  [], ◌∷◌, arith, ltb, leb, if◌then◌else◌, Bool-cases, Option-cases, All, Bytes, lookup, insert,
  lookup-insert, eqb, eqb_iff,
}
use packet_lab.Api.Limiter.{Visitor, RateLimiter, first_call, allow, allow_all}

pub allow_new :
    (key : Bytes) (now : ℕ) (rl : RateLimiter)
    → lookup key rl.visitors ≡ none
    → allow key now rl ≡ (true, record rl { visitors = insert key (first_call now rl) rl.visitors })
unfolding allow
allow_new key now rl e = rw (allow, e)

pub allow_expired :
    (key : Bytes) (now : ℕ) (rl : RateLimiter) (v : Visitor)
    → lookup key rl.visitors ≡ some v
    → ltb v.reset_at now ≡ true
    → allow key now rl ≡ (true, record rl { visitors = insert key (first_call now rl) rl.visitors })
unfolding allow
allow_expired key now rl v e f = rw (allow, e, f)

pub allow_counted :
    (key : Bytes) (now : ℕ) (rl : RateLimiter) (v : Visitor)
    → lookup key rl.visitors ≡ some v
    → ltb v.reset_at now ≡ false
    → allow key now rl ≡ (
      leb (suc v.count) rl.max_calls,
      record rl { visitors = insert key (record v { count = suc v.count }) rl.visitors },
    )
unfolding allow
allow_counted key now rl v e f = rw (allow, e, f)

-- how many calls of the key are let through
abbrev pub let_through : Bytes → List (Bytes × ℕ) → List Bool → ℕ
let_through key [] bs = 0
let_through key ((k, t) ∷ calls) [] = 0
let_through key ((k, t) ∷ calls) (b ∷ bs) =
    (if eqb k key && b then 1 else 0) + let_through key calls bs

-- a call of another visitor does not touch the key
other_key :
    (key k : Bytes) (now : ℕ) (rl : RateLimiter)
    → eqb k key ≡ false
    → (lookup key (allow k now rl).1.visitors ≡ lookup key rl.visitors)
      × ((allow k now rl).1.max_calls ≡ rl.max_calls)
other_key key k now rl ne = elim (Option-cases (lookup k rl.visitors)) [
  | inl e ↦ kept (first_call now rl) (allow_new k now rl e)
  | inr (v, e) ↦ elim (Bool-cases (ltb v.reset_at now)) [
    | inl f ↦ kept (first_call now rl) (allow_expired k now rl v e f)
    | inr f ↦ kept (record v { count = suc v.count }) (allow_counted k now rl v e f)
  ]
]
  where
    kept :
        {b : Bool} (v : Visitor)
        → allow k now rl ≡ (b, record rl { visitors = insert k v rl.visitors })
        → (lookup key (allow k now rl).1.visitors ≡ lookup key rl.visitors)
          × ((allow k now rl).1.max_calls ≡ rl.max_calls)
    kept v e = (
      ap (λ x. lookup key x.1.visitors) e
          ∙ lookup-insert k key v rl.visitors
          ∙ ap (λ b. if b then some v else lookup key rl.visitors) ne,
      ap (λ x. x.1.max_calls) e,
    )

-- a call of the key in its window is counted
same_key :
    (key k : Bytes) (now : ℕ) (rl : RateLimiter) (v : Visitor)
    → eqb k key ≡ true
    → lookup key rl.visitors ≡ some v
    → now ≤ v.reset_at
    → ((allow k now rl).0 ≡ leb (suc v.count) rl.max_calls)
      × (lookup key (allow k now rl).1.visitors ≡ some (record v { count = suc v.count }))
      × ((allow k now rl).1.max_calls ≡ rl.max_calls)
same_key key k now rl v same e le =
    let here : lookup k rl.visitors ≡ some v =
      ap (λ x. lookup x rl.visitors) ((eqb_iff k key).0 same) ∙ e in
    let counted = allow_counted k now rl v here (not_over v.reset_at now le) in
    (
      ap (λ x. x.0) counted,
      ap (λ x. lookup key x.1.visitors) counted
          ∙ lookup-insert k key (record v { count = suc v.count }) rl.visitors
          ∙ ap (λ b. if b then some (record v { count = suc v.count }) else lookup key rl.visitors)
              same,
      ap (λ x. x.1.max_calls) counted,
    )
  where
    not_over : (a b : ℕ) → b ≤ a → ltb a b ≡ false
    not_over a b h = ground arith

first_bound :
    (same b : Bool) (n max later : ℕ)
    → b ≡ leb (suc n) max
    → later ≤ max - suc n
    → (if same && b then 1 else 0) + later ≤ max - n
first_bound same b n max later e h = ground arith

-- The calls of a visitor that are let through before its window ends, whatever other visitors do
-- meanwhile, are no more than the limit leaves: the limit less the calls counted before.
pub window_bound :
    (key : Bytes) (calls : List (Bytes × ℕ)) (rl : RateLimiter) (v : Visitor)
    → lookup key rl.visitors ≡ some v
    → All (λ c. c.1 ≤ v.reset_at) calls
    → let_through key calls (allow_all calls rl).0 ≤ rl.max_calls - v.count
unfolding allow_all
window_bound key [] rl v e all = omega arith
window_bound key ((k, now) ∷ calls) rl v e all = elim (Bool-cases (eqb k key)) [
  | inl same ↦
      let (answer, counted, max) = same_key key k now rl v same e all.0 in
      let rest =
        window_bound key calls (allow k now rl).1 (record v { count = suc v.count }) counted
          all.1 in
      first_bound (eqb k key) (allow k now rl).0 v.count rl.max_calls
        (let_through key calls (allow_all calls (allow k now rl).1).0) answer
        (omega (arith, rest, max))
  | inr ne ↦
      let (kept, max) = other_key key k now rl ne in
      let rest = window_bound key calls (allow k now rl).1 v (kept ∙ e) all.1 in
      omega (arith, rest, max, ap {B = ℕ} (λ b. if b && (allow k now rl).0 then 1 else 0) ne)
]

-- Any calls after a first one of a visitor, made before its window ends: with the first, no more than
-- the limit get through, or one if the limit is 0.
pub first_window :
    (key : Bytes) (now : ℕ) (calls : List (Bytes × ℕ)) (rl : RateLimiter)
    → lookup key rl.visitors ≡ none
    → All (λ c. c.1 ≤ now + rl.window) calls
    → let_through key ((key, now) ∷ calls) (allow_all ((key, now) ∷ calls) rl).0
      ≤ 1 + (rl.max_calls - 1)
unfolding allow_all
first_window key now calls rl e all =
    let opened = allow_new key now rl e in
    let hit : lookup key (allow key now rl).1.visitors ≡ some (first_call now rl) =
      ap (λ x. lookup key x.1.visitors) opened
      ∙ lookup-insert key key (first_call now rl) rl.visitors
      ∙ ap (λ b. if b then some (first_call now rl) else lookup key rl.visitors)
          ((eqb_iff key key).1 refl) in
    let rest = window_bound key calls (allow key now rl).1 (first_call now rl) hit all in
    ground (arith, rest, ap (λ x. x.1.max_calls) opened)
