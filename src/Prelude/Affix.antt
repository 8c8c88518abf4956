-- ===== src/Prelude/Affix.antt =====
-- What the tests of prefixes, of suffixes and of a byte say of a text.
use Prim.Native.Nat.{ℕ}
use mathlib.Core.Path.{◌≡◌, refl, sym, ap, subst, ◌∙◌}
use mathlib.Core.Logic.{◌≢◌, ◌↔◌, inl, inr}
use mathlib.Core.Bool.{true, false, ◌&&◌}
use mathlib.Core.List.{[], ◌∷◌, ◌++◌, reverse, reverse-append, reverse-reverse}
use mathlib.Core.Option.{some}
use packet_lab.Prelude.Tests.{◌==◌, ==_iff, Bool-cases}
use packet_lab.Prelude.Lists.{take, drop, All}
use packet_lab.Prelude.Text.{Bytes, has_prefix, has_suffix}
use packet_lab.Prelude.Strings.{index_of}
use packet_lab.Prelude.Search.{map-suc-inv, has_prefix_self, index_of_here, index_of_later}

has_prefix_split : (s p : Bytes) → has_prefix s p ≡ true → (t : Bytes) × (s ≡ p ++ t)
unfolding has_prefix
has_prefix_split s [] h = (s, refl)
has_prefix_split [] (y ∷ ys) h = cc
has_prefix_split (x ∷ xs) (y ∷ ys) h = elim (Bool-cases (x == y)) [
  | inl e ↦
      let (t, rest) = has_prefix_split xs ys (sym (ap (λ b. b && has_prefix xs ys) e) ∙ h) in
      (t, cc ((==_iff x y).0 e, rest))
  | inr e ↦ let contra : false ≡ true = sym (ap (λ b. b && has_prefix xs ys) e) ∙ h in cc
]

-- `strings.HasPrefix` tells whether the text starts with the prefix.
pub has_prefix_iff : (s p : Bytes) → (has_prefix s p ≡ true) ↔ ((t : Bytes) × (s ≡ p ++ t))
has_prefix_iff s p = (
  has_prefix_split s p,
  λ (t, e). subst (λ u. has_prefix u p ≡ true) (sym e) (has_prefix_self p t),
)

-- `strings.HasSuffix` tells whether the text ends with the suffix.
pub has_suffix_iff : (s p : Bytes) → (has_suffix s p ≡ true) ↔ ((t : Bytes) × (s ≡ t ++ p))
unfolding has_suffix
has_suffix_iff s p = (
  λ h. let (t, e) = has_prefix_split (reverse s) (reverse p) h in (reverse t, flip t e),
  λ (t, e).
      subst (λ u. has_prefix (reverse u) (reverse p) ≡ true) (sym e)
        (subst (λ u. has_prefix u (reverse p) ≡ true) (sym (reverse-append t p))
          (has_prefix_self (reverse p) (reverse t))),
)
  where
    flip : (t : Bytes) → reverse s ≡ reverse p ++ t → s ≡ reverse t ++ p
    flip t e =
        sym (reverse-reverse s)
        ∙ ap reverse e
        ∙ reverse-append (reverse p) t
        ∙ ap (λ u. reverse t ++ u) (reverse-reverse p)

-- The first place of a byte splits the text there.
pub index_of_byte :
    (c : ℕ) (s : Bytes) (i : ℕ)
    → index_of (c ∷ []) s ≡ some i
    → All (λ b. b ≢ c) (take i s) × ((t : Bytes) × (drop i s ≡ c ∷ t))
index_of_byte c [] i h = unfold index_of in cc
index_of_byte c (b ∷ s) i h = elim (Bool-cases (has_prefix (b ∷ s) (c ∷ []))) [
  | inl e ↦
      let z : i ≡ 0 = cc (index_of_here (c ∷ []) b s e) in
      let (t, split) = has_prefix_split (b ∷ s) (c ∷ []) e in
      subst (λ k. All (λ b. b ≢ c) (take k (b ∷ s)) × ((t : Bytes) × (drop k (b ∷ s) ≡ c ∷ t)))
        (sym z) (tt, (t, split))
  | inr e ↦
      let (j, found, shift) =
        map-suc-inv (index_of (c ∷ []) s) i (sym (index_of_later (c ∷ []) b s e) ∙ h) in
      let (none_before, rest) = index_of_byte c s j found in
      subst (λ k. All (λ b. b ≢ c) (take k (b ∷ s)) × ((t : Bytes) × (drop k (b ∷ s) ≡ c ∷ t)))
        (sym shift) ((other e, none_before), rest)
]
  where
    other : has_prefix (b ∷ s) (c ∷ []) ≡ false → b ≢ c
    other e same =
        let contra : false ≡ true =
          sym e ∙ (has_prefix_iff (b ∷ s) (c ∷ [])).1 (s, ap (λ x. x ∷ s) same) in
        cc
