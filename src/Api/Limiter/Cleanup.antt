-- ===== src/Api/Limiter/Cleanup.antt =====
-- Cleaning up the visitors changes no answer.
use packet_lab.Prelude.{
  ℕ, suc, ◌≤◌, ◌≡◌, inl, inr, refl, sym, ap, ◌∙◌, Bool, true, Option, none, some, [], ◌∷◌, arith,
  ltb, leb, if◌then◌else◌, Bool-cases, Option-cases, Bytes, Map, lookup, eqb, eqb_iff,
}
use packet_lab.Api.Limiter.{Visitor, RateLimiter, allow, still_counted, cleanup}
use packet_lab.Api.Limiter.Window.{allow_new, allow_expired, allow_counted}

-- every key stands once, as in a Go map
abbrev pub Unique : Map Visitor → Type 0
Unique [] = Unit
Unique ((k, v) ∷ m) = (lookup k m ≡ none) × Unique m

abbrev kept : ℕ → Option Visitor → Option Visitor
kept now none = none
kept now (some v) = if ltb v.reset_at now then none else some v

-- what cleaning up leaves of a visitor
lookup-still_counted :
    (key : Bytes) (now : ℕ) (m : Map Visitor)
    → Unique m
    → lookup key (still_counted now m) ≡ kept now (lookup key m)
unfolding lookup still_counted
lookup-still_counted key now [] u = refl
lookup-still_counted key now ((k, v) ∷ m) u =
    let rest = lookup-still_counted key now m u.1 in
    elim (Bool-cases (eqb k key)) [
      | inl same ↦
          let gone : lookup key m ≡ none =
            ap (λ x. lookup x m) (sym ((eqb_iff k key).0 same)) ∙ u.0 in
          elim (Bool-cases (ltb v.reset_at now)) [
            | inl over ↦ simp (over, same) (rest ∙ ap (kept now) gone)
            | inr on ↦ simp (on, same) refl
          ]
      | inr ne ↦ elim (Bool-cases (ltb v.reset_at now)) [
        | inl over ↦ simp (over, ne) rest
        | inr on ↦ simp (on, ne) rest
      ]
    ]

-- the answer of a call
abbrev answer : ℕ → ℕ → Option Visitor → Bool
answer now max none = true
answer now max (some v) = if ltb v.reset_at now then true else leb (suc v.count) max

answer_lem :
    (key : Bytes) (now : ℕ) (rl : RateLimiter)
    → (allow key now rl).0 ≡ answer now rl.max_calls (lookup key rl.visitors)
answer_lem key now rl = elim (Option-cases (lookup key rl.visitors)) [
  | inl e ↦ ap (λ x. x.0) (allow_new key now rl e) ∙ sym (ap (answer now rl.max_calls) e)
  | inr (v, e) ↦ elim (Bool-cases (ltb v.reset_at now)) [
    | inl f ↦
        ap (λ x. x.0) (allow_expired key now rl v e f)
        ∙ sym (
            ap (answer now rl.max_calls) e
            ∙ ap (λ b. if b then true else leb (suc v.count) rl.max_calls) f)
    | inr f ↦
        ap (λ x. x.0) (allow_counted key now rl v e f)
        ∙ sym (
            ap (answer now rl.max_calls) e
            ∙ ap (λ b. if b then true else leb (suc v.count) rl.max_calls) f)
  ]
]

answer_kept :
    (now later max : ℕ) (o : Option Visitor)
    → now ≤ later
    → answer later max (kept now o) ≡ answer later max o
answer_kept now later max none le = refl
answer_kept now later max (some v) le = ground arith

-- When every visitor has one entry, a call gets the same answer whether or not `cleanup` has run
-- before it, at that time or earlier.
pub allow-cleanup :
    (key : Bytes) (now later : ℕ) (rl : RateLimiter)
    → Unique rl.visitors
    → now ≤ later
    → (allow key later (cleanup now rl)).0 ≡ (allow key later rl).0
unfolding cleanup
allow-cleanup key now later rl u le =
    answer_lem key later (cleanup now rl)
    ∙ ap (answer later rl.max_calls) (lookup-still_counted key now rl.visitors u)
    ∙ answer_kept now later rl.max_calls (lookup key rl.visitors) le
    ∙ sym (answer_lem key later rl)
