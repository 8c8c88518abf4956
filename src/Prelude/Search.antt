-- ===== src/Prelude/Search.antt =====
-- Laws of prefixes, of the search for a text, and of cutting lists.
use Prim.Native.Nat.add
use Prim.Native.Nat.{ℕ, zero, suc, ◌+◌, ◌≤◌, ◌<◌}
use mathlib.Core.Path.{◌≡◌, refl, sym, ap, ◌∙◌}
use mathlib.Core.Logic.{◌≢◌, inl, inr}
use mathlib.Core.Bool.{true, false, ◌&&◌}
use mathlib.Core.List.{List, [], ◌∷◌, ◌++◌}
use mathlib.Core.Option
use mathlib.Core.Option.{Option, none, some}
use native.Mathlib.Omega.{arith}
use packet_lab.Prelude.Tests.{◌==◌, Bool-cases}
use packet_lab.Prelude.Lists.{length, take, drop, get_or, All}
use packet_lab.Prelude.Text.{Bytes, has_prefix}
use packet_lab.Prelude.Strings.{index_of}

module _ {ℓ} {A : Type ℓ} where
  pub take-append : (n : ℕ) (xs ys : List A) → n ≤ length xs → take n (xs ++ ys) ≡ take n xs
  take-append zero xs ys h = refl
  take-append (suc n) [] ys h = absurd (omega arith)
  take-append (suc n) (x ∷ xs) ys h = ap (◌∷◌ x) (take-append n xs ys (omega arith))

  pub drop-append : (n : ℕ) (xs ys : List A) → n ≤ length xs → drop n (xs ++ ys) ≡ drop n xs ++ ys
  drop-append zero xs ys h = refl
  drop-append (suc n) [] ys h = absurd (omega arith)
  drop-append (suc n) (x ∷ xs) ys h = drop-append n xs ys (omega arith)

  pub get_or-append :
      (xs ys : List A) (i : ℕ) (d : A) → i < length xs → get_or (xs ++ ys) i d ≡ get_or xs i d
  get_or-append [] ys i d h = absurd (omega arith)
  get_or-append (x ∷ xs) ys zero d h = refl
  get_or-append (x ∷ xs) ys (suc i) d h = get_or-append xs ys i d (omega arith)

  pub take-length-append : (xs ys : List A) → take (length xs) (xs ++ ys) ≡ xs
  take-length-append [] ys = refl
  take-length-append (x ∷ xs) ys = ap (◌∷◌ x) (take-length-append xs ys)

  pub drop-length-append : (xs ys : List A) → drop (length xs) (xs ++ ys) ≡ ys
  drop-length-append [] ys = refl
  drop-length-append (x ∷ xs) ys = drop-length-append xs ys

  pub drop-nil : (n : ℕ) → drop {A = A} n [] ≡ []
  drop-nil zero = refl
  drop-nil (suc n) = refl

  pub drop-add : (m n : ℕ) (xs : List A) → drop (m + n) xs ≡ drop n (drop m xs)
  drop-add zero n xs = ap (λ k. drop k xs) (omega arith)
  drop-add (suc m) n [] = drop-nil (suc m + n) ∙ sym (drop-nil n)
  drop-add (suc m) n (x ∷ xs) =
      let e : suc m + n ≡ suc (m + n) = omega arith in ap (λ k. drop k (x ∷ xs)) e ∙ drop-add m n xs

pub length-has_prefix : (s p : Bytes) → has_prefix s p ≡ true → length p ≤ length s
unfolding has_prefix
length-has_prefix s [] h = omega arith
length-has_prefix [] (y ∷ ys) h = ground arith
length-has_prefix (x ∷ xs) (y ∷ ys) h = ground (arith, length-has_prefix xs ys)

-- A prefix that fits into the text does not depend on what follows.
pub has_prefix-append :
    (s t p : Bytes) → length p ≤ length s → has_prefix (s ++ t) p ≡ has_prefix s p
unfolding has_prefix
has_prefix-append [] t [] h = has_prefix-nil t
  where
    has_prefix-nil : (u : Bytes) → has_prefix u [] ≡ true
    has_prefix-nil [] = refl
    has_prefix-nil (x ∷ u) = refl
has_prefix-append [] t (y ∷ ys) h = absurd (omega arith)
has_prefix-append (x ∷ xs) t [] h = refl
has_prefix-append (x ∷ xs) t (y ∷ ys) h =
    ap (λ b. (x == y) && b) (has_prefix-append xs t ys (omega arith))

pub has_prefix_self : (p t : Bytes) → has_prefix (p ++ t) p ≡ true
unfolding has_prefix
has_prefix_self [] [] = refl
has_prefix_self [] (x ∷ t) = refl
has_prefix_self (x ∷ p) t = ground (arith, has_prefix_self p t)

-- one step of the search
pub index_of_here :
    (p : Bytes) (b : ℕ) (bs : Bytes) → has_prefix (b ∷ bs) p ≡ true → index_of p (b ∷ bs) ≡ some 0
unfolding index_of
index_of_here p b bs h = rw h

pub index_of_later :
    (p : Bytes) (b : ℕ) (bs : Bytes)
    → has_prefix (b ∷ bs) p ≡ false
    → index_of p (b ∷ bs) ≡ Option.map (λ i. suc i) (index_of p bs)
unfolding index_of
index_of_later p b bs h = rw h

pub map-suc-inv :
    (o : Option ℕ) (i : ℕ)
    → Option.map (λ i. suc i) o ≡ some i
    → (j : ℕ) × (o ≡ some j) × (i ≡ suc j)
map-suc-inv none i h = cc
map-suc-inv (some j) i h = (j, refl, cc)

-- What is found lies in the text.
pub index_of-le : (p s : Bytes) (i : ℕ) → index_of p s ≡ some i → i + length p ≤ length s
index_of-le p [] i h = unfold index_of in cc
index_of-le p (b ∷ bs) i h = elim (Bool-cases (has_prefix (b ∷ bs) p)) [
  | inl e ↦
      let z : i ≡ 0 = cc (index_of_here p b bs e) in omega (arith, length-has_prefix (b ∷ bs) p e)
  | inr e ↦
      let (j, found, shift) = map-suc-inv (index_of p bs) i (sym (index_of_later p b bs e) ∙ h) in
      omega (arith, index_of-le p bs j found)
]

-- More text does not move what was found.
pub index_of-append : (p s t : Bytes) (i : ℕ) → index_of p s ≡ some i → index_of p (s ++ t) ≡ some i
index_of-append p [] t i h = unfold index_of in cc
index_of-append p (b ∷ bs) t i h = elim (Bool-cases (has_prefix (b ∷ bs) p)) [
  | inl e ↦
      index_of_here p b (bs ++ t)
        (has_prefix-append (b ∷ bs) t p (length-has_prefix (b ∷ bs) p e) ∙ e)
      ∙ sym (index_of_here p b bs e)
      ∙ h
  | inr e ↦
      let (j, found, shift) = map-suc-inv (index_of p bs) i (sym (index_of_later p b bs e) ∙ h) in
      index_of_later p b (bs ++ t)
        (has_prefix-append (b ∷ bs) t p (omega (arith, index_of-le p bs j found)) ∙ e)
      ∙ ap (Option.map (λ i. suc i)) (index_of-append p bs t j found)
      ∙ ap some (sym shift)
]

-- A text is found behind bytes that are not its first.
pub index_of_skip :
    (c : ℕ) (p s t : Bytes)
    → All (λ b. b ≢ c) s
    → index_of (c ∷ p) (s ++ ((c ∷ p) ++ t)) ≡ some (length s)
index_of_skip c p [] t h = index_of_here (c ∷ p) c (p ++ t) (has_prefix_self (c ∷ p) t)
index_of_skip c p (b ∷ s) t h =
    index_of_later (c ∷ p) b (s ++ ((c ∷ p) ++ t)) (unfold has_prefix in ground (arith, h.0))
    ∙ ap (Option.map (λ i. suc i)) (index_of_skip c p s t h.1)

module _ {ℓ} {A : Type ℓ} where
  pub get_or-drop : (n i : ℕ) (xs : List A) (d : A) → get_or xs (n + i) d ≡ get_or (drop n xs) i d
  get_or-drop zero i xs d = ap (λ k. get_or xs k d) (add.zero i)
  get_or-drop (suc n) i [] d = refl
  get_or-drop (suc n) i (x ∷ xs) d =
      ap (λ k. get_or (x ∷ xs) k d) (add.suc n i) ∙ get_or-drop n i xs d
