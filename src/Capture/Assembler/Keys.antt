-- ===== src/Capture/Assembler/Keys.antt =====
-- Both directions of a connection have one key.
use packet_lab.Prelude.{
  ℕ, ◌≡◌, sym, ap, ◌∙◌, Bool, true, false, ◌&&◌, ◌||◌, [], ◌∷◌, ◌++◌, ltb, if◌then◌else◌, Bytes,
  bytes, eqb, eqb_iff, and_iff, arith, refl, Bool-cases, inl, inr,
}
use packet_lab.Capture.Assembler.{lt_bytes, end_text, stream_key}

lt_bytes_asymm : (xs ys : Bytes) → lt_bytes xs ys ≡ true → lt_bytes ys xs ≡ false
unfolding lt_bytes
lt_bytes_asymm xs [] h = cc
lt_bytes_asymm [] (y ∷ ys) h = refl
lt_bytes_asymm (x ∷ xs) (y ∷ ys) h = ground (arith, lt_bytes_asymm xs ys)

lt_bytes_total : (xs ys : Bytes) → lt_bytes xs ys ≡ false → lt_bytes ys xs ≡ false → xs ≡ ys
unfolding lt_bytes
lt_bytes_total [] [] h k = refl
lt_bytes_total [] (y ∷ ys) h k = cc
lt_bytes_total (x ∷ xs) [] h k = cc
lt_bytes_total (x ∷ xs) (y ∷ ys) h k = ground (arith, lt_bytes_total xs ys)

lt_bytes_irrefl : (xs : Bytes) → lt_bytes xs xs ≡ false
unfolding lt_bytes
lt_bytes_irrefl [] = refl
lt_bytes_irrefl (x ∷ xs) = ground (arith, lt_bytes_irrefl xs)

-- whether the one end comes before the other
abbrev before : Bytes → ℕ → Bytes → ℕ → Bool
before a p b q = lt_bytes a b || (eqb a b && ltb p q)

before_asymm :
    (a : Bytes) (p : ℕ) (b : Bytes) (q : ℕ) → before a p b q ≡ true → before b q a p ≡ false
before_asymm a p b q h = elim (Bool-cases (lt_bytes a b)) [
  | inl lt ↦
      let ne : eqb b a ≡ false = different b a lt in
      let no_lt : lt_bytes b a ≡ false = lt_bytes_asymm a b lt in
      ap (λ x. x || (eqb b a && ltb q p)) no_lt ∙ ap (λ x. x && ltb q p) ne
  | inr other ↦
      let (same, less) =
        (and_iff (eqb a b) (ltb p q)).0 (sym (ap (λ x. x || (eqb a b && ltb p q)) other) ∙ h) in
      let e : a ≡ b = (eqb_iff a b).0 same in
      let no_lt : lt_bytes b a ≡ false = ap (λ x. lt_bytes x a) (sym e) ∙ lt_bytes_irrefl a in
      let no_less : ltb q p ≡ false = ground arith in
      ap (λ x. x || (eqb b a && ltb q p)) no_lt
      ∙ ap (λ x. eqb b a && x) no_less
      ∙ and_false (eqb b a)
]
  where
    and_false : (x : Bool) → (x && false) ≡ false
    and_false true = refl
    and_false false = refl

    different : (b a : Bytes) → lt_bytes a b ≡ true → eqb b a ≡ false
    different b a lt = elim (Bool-cases (eqb b a)) [
      | inl same ↦
          let e : b ≡ a = (eqb_iff b a).0 same in
          let contra : true ≡ false = sym lt ∙ ap (λ x. lt_bytes a x) e ∙ lt_bytes_irrefl a in cc
      | inr other ↦ other
    ]

before_total :
    (a : Bytes) (p : ℕ) (b : Bytes) (q : ℕ)
    → before a p b q ≡ false
    → before b q a p ≡ false
    → (a ≡ b) × (p ≡ q)
before_total a p b q h k =
    let ab = or_false (lt_bytes a b) (eqb a b && ltb p q) h in
    let ba = or_false (lt_bytes b a) (eqb b a && ltb q p) k in
    let e : a ≡ b = lt_bytes_total a b ab.0 ba.0 in
    (e, ground (arith, ab.1, ba.1, eqb_iff a b, eqb_iff b a, sym e))
  where
    or_false : (x y : Bool) → (x || y) ≡ false → (x ≡ false) × (y ≡ false)
    or_false true y h = cc
    or_false false y h = (refl, h)

abbrev text : Bytes → ℕ → Bytes → ℕ → Bytes
text a p b q = end_text a p ++ (bytes "#" ++ end_text b q)

-- A packet and one in the other direction belong to the same stream.
pub stream_key_swap :
    (a : Bytes) (p : ℕ) (b : Bytes) (q : ℕ) → stream_key a p b q ≡ stream_key b q a p
unfolding stream_key
stream_key_swap a p b q = elim (Bool-cases (before a p b q)) [
  | inl first ↦
      let second : before b q a p ≡ false = before_asymm a p b q first in
      ap (λ x. if x then text a p b q else text b q a p) first
      ∙ sym (ap (λ x. if x then text b q a p else text a p b q) second)
  | inr other ↦ elim (Bool-cases (before b q a p)) [
    | inl second ↦
        ap (λ x. if x then text a p b q else text b q a p) other
        ∙ sym (ap (λ x. if x then text b q a p else text a p b q) second)
    | inr neither ↦ let (e, f) = before_total a p b q other neither in cc
  ]
]
