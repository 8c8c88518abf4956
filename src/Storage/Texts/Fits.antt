-- ===== src/Storage/Texts/Fits.antt =====
-- `truncateStr` keeps whole runes, as many as fit.
use packet_lab.Prelude.{
  ℕ, zero, suc, ◌+◌, ◌-◌, ◌<◌, ◌≡◌, refl, sym, ap, ◌∙◌, List, [], ◌∷◌, ◌++◌, leb, if◌then◌else◌,
  length, Bytes, arith, Bool-cases, inl, inr, append_assoc, append-nil, length-append,
}
use packet_lab.Storage.Texts.{back, truncate_str}
use packet_lab.Storage.Texts.Runes.{
  Rune, rune_bytes, flat, fit, fit-takes, fit-drops, rest_longer, fit_all,
}
use packet_lab.Storage.Texts.Cuts.{cut, cut_whole, cut_part}

-- behind `p` and a rune
cut_fit :
    (p : Bytes) (last : Rune) (rs : List Rune) (m : ℕ)
    → m < length (flat rs)
    → cut (p ++ (rune_bytes last ++ flat rs)) (length p + length (rune_bytes last) + m)
      ≡ p ++ (rune_bytes last ++ flat (fit m rs))
cut_fit p last [] m lt = absurd (omega arith)
cut_fit p last (r ∷ rs) m lt = elim (Bool-cases (leb (length (rune_bytes r)) m)) [
  | inl fits ↦
      let k = m - length (rune_bytes r) in
      let at : length p + length (rune_bytes last) + m ≡ length q + length (rune_bytes r) + k =
        ground (arith, length-append p (rune_bytes last)) in
      moved (length p + length (rune_bytes last) + m)
      ∙ ap (cut (q ++ flat (r ∷ rs))) at
      ∙ cut_fit q r rs k (rest_longer r rs m lt fits)
      ∙ append_assoc p (rune_bytes last) (rune_bytes r ++ flat (fit k rs))
      ∙ ap (λ u. p ++ (rune_bytes last ++ u)) (sym (fit-takes r rs m fits))
  | inr long ↦
      let none_of : p ++ (rune_bytes last ++ []) ≡ p ++ (rune_bytes last ++ flat (fit m (r ∷ rs))) =
        ap (λ u. p ++ (rune_bytes last ++ u)) (sym (fit-drops r rs m long)) in
      ended m (ground arith) ∙ ap (◌++◌ p) (sym (append-nil (rune_bytes last))) ∙ none_of
]
  where
    q : Bytes
    q = p ++ rune_bytes last

    moved : (i : ℕ) → cut (p ++ (rune_bytes last ++ flat (r ∷ rs))) i ≡ cut (q ++ flat (r ∷ rs)) i
    moved i = ap (λ u. cut u i) (sym (append_assoc p (rune_bytes last) (flat (r ∷ rs))))

    ended :
        (i : ℕ)
        → i < length (rune_bytes r)
        → cut (p ++ (rune_bytes last ++ flat (r ∷ rs))) (length p + length (rune_bytes last) + i)
          ≡ q
    ended zero lt =
        let at : length p + length (rune_bytes last) + 0 ≡ length p + length (rune_bytes last) =
          omega arith in
        ap (cut (p ++ (rune_bytes last ++ flat (r ∷ rs)))) at ∙ cut_whole p (flat (r ∷ rs)) last
    ended (suc i) lt =
        let at : length p + length (rune_bytes last) + suc i ≡ length q + suc i =
          omega (arith, length-append p (rune_bytes last)) in
        moved (length p + length (rune_bytes last) + suc i)
        ∙ ap (cut (q ++ flat (r ∷ rs))) at
        ∙ cut_part q (flat rs) r i (omega arith)

cut_first : (rs : List Rune) (m : ℕ) → m < length (flat rs) → cut (flat rs) m ≡ flat (fit m rs)
unfolding back
cut_first [] m lt = absurd (omega arith)
cut_first (r ∷ rs) m lt = elim (Bool-cases (leb (length (rune_bytes r)) m)) [
  | inl fits ↦
      let k = m - length (rune_bytes r) in
      let at : m ≡ 0 + length (rune_bytes r) + k = ground arith in
      ap (cut (flat (r ∷ rs))) at
      ∙ cut_fit [] r rs k (rest_longer r rs m lt fits)
      ∙ sym (fit-takes r rs m fits)
  | inr long ↦ nothing m (ground arith) ∙ sym (fit-drops r rs m long)
]
  where
    nothing : (i : ℕ) → i < length (rune_bytes r) → cut (flat (r ∷ rs)) i ≡ []
    nothing zero lt = refl
    nothing (suc i) lt =
        let at : suc i ≡ 0 + suc i = omega arith in
        ap (cut (flat (r ∷ rs))) at ∙ cut_part [] (flat rs) r i (omega arith)

-- `truncateStr` on a text of whole runes keeps the first ones, as many as fit.
pub truncate_str-fit : (rs : List Rune) (max : ℕ) → truncate_str (flat rs) max ≡ flat (fit max rs)
unfolding truncate_str
truncate_str-fit rs max = elim (Bool-cases (leb (length (flat rs)) max)) [
  | inl short ↦
      ap (λ b. if b then flat rs else cut (flat rs) max) short ∙ sym (fit_all rs max (ground arith))
  | inr long ↦
      ap (λ b. if b then flat rs else cut (flat rs) max) long ∙ cut_first rs max (ground arith)
]
