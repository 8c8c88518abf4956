-- ===== src/Storage/Texts/Cuts.antt =====
-- `truncateStr` at a cut behind a rune, and at one inside.
use packet_lab.Prelude.{
  ℕ, zero, suc, ◌+◌, ◌-◌, ◌≤◌, ◌<◌, ◌≡◌, refl, sym, ap, ◌∙◌, true, false, some, [], ◌∷◌, ◌++◌, ltb,
  leb, if◌then◌else◌, length, take, drop, get_or, Bytes, All, arith, Bool-cases, inl, inr,
  append_assoc, length-append, length-take, take-append-drop, take-length-append,
  drop-length-append, get_or-drop, get_or-append,
}
use packet_lab.Storage.Texts.{is_continuation, back, rune_len, cut_rune, cut_at}
use packet_lab.Storage.Texts.Runes.{Continues, Rune, rune_bytes}

back_over :
    (k n q j : ℕ) (s : Bytes)
    → n ≡ q + k
    → ((i : ℕ) → i < k → is_continuation (get_or s (j + i) 0) ≡ true)
    → back n s (j + k) ≡ back q s j
unfolding back
back_over zero n q j s e h =
    let same : n ≡ q = omega arith in
    let here : j + 0 ≡ j = omega arith in ap (λ x. back x s (j + 0)) same ∙ ap (back q s) here
back_over (suc k) zero q j s e h = absurd (omega arith)
back_over (suc k) (suc n) q j s e h =
    let step : j + suc k ≡ suc (j + k) = omega arith in
    ap (back (suc n) s) step
    ∙ ap (λ b. if b then back n s (j + k) else suc (j + k)) (h k (omega arith))
    ∙ back_over k n q j s (omega arith) (λ i lt. h i (omega arith))

back_stops :
    (n i : ℕ) (s : Bytes) → is_continuation (get_or s i 0) ≡ false → back n s (suc i) ≡ suc i
unfolding back
back_stops zero i s h = refl
back_stops (suc n) i s h = ap (λ b. if b then back n s i else suc i) h

get_or-behind : (p t : Bytes) (k : ℕ) → get_or (p ++ t) (length p + k) 0 ≡ get_or t k 0
get_or-behind p t k =
    get_or-drop (length p) k (p ++ t) 0 ∙ ap (λ u. get_or u k 0) (drop-length-append p t)

All-get_or : (es : Bytes) (i : ℕ) → All Continues es → i < length es → Continues (get_or es i 0)
All-get_or [] i all lt = absurd (omega arith)
All-get_or (e ∷ es) zero (one, all) lt = one
All-get_or (e ∷ es) (suc i) (one, all) lt = All-get_or es i all (omega arith)

leads : (b n : ℕ) → rune_len b ≡ some n → (is_continuation b ≡ false) × (n ≤ 4)
leads b n h = (ground arith, ground arith)

module _ (p es t : Bytes) (b n : ℕ) (sized : rune_len b ≡ some n) (all : All Continues es)
    (short : length es < n) where
  abbrev text : Bytes
  text = p ++ (b ∷ (es ++ t))

  abbrev size : ℕ
  size = length p + suc (length es)

  lead_there : get_or text (length p) 0 ≡ b
  lead_there =
      let e : length p ≡ length p + 0 = omega arith in
      ap (λ i. get_or text i 0) e ∙ get_or-behind p (b ∷ (es ++ t)) 0

  more_there : (i : ℕ) → i < length es → is_continuation (get_or text (suc (length p) + i) 0) ≡ true
  more_there i lt =
      let e : suc (length p) + i ≡ length p + suc i = omega arith in
      ap (λ k. is_continuation (get_or text k 0)) e
      ∙ ap is_continuation (get_or-behind p (b ∷ (es ++ t)) (suc i))
      ∙ ap is_continuation (get_or-append es t i 0 lt)
      ∙ All-get_or es i all lt

  back_lead : back 3 text size ≡ suc (length p)
  back_lead =
      let (no_more, few) = leads b n sized in
      let e : size ≡ suc (length p) + length es = omega arith in
      let three : 3 ≡ (3 - length es) + length es = omega arith in
      ap (back 3 text) e
      ∙ back_over (length es) 3 (3 - length es) (suc (length p)) text three more_there
      ∙ back_stops (3 - length es) (length p) text (ap is_continuation lead_there ∙ no_more)

  take_whole : take size text ≡ p ++ (b ∷ es)
  take_whole =
      let e : size ≡ length (p ++ (b ∷ es)) = omega (arith, length-append p (b ∷ es)) in
      ap (take size) (sym (append_assoc p (b ∷ es) t))
      ∙ ap (λ k. take k ((p ++ (b ∷ es)) ++ t)) e
      ∙ take-length-append (p ++ (b ∷ es)) t

  -- a cut behind `es` keeps the rune if it ends there
  cut_lead :
      cut_at text size (back 3 text size) ≡ (if ltb size (length p + n) then p else p ++ (b ∷ es))
  unfolding cut_rune
  cut_lead =
      let (no_more, few) = leads b n sized in
      ap (cut_at text size) back_lead ∙ elim (Bool-cases (leb (suc (length p) + 3) size)) [
        | inl long ↦
            let whole : ltb size (length p + n) ≡ false = ground arith in
            ap
              (λ x.
                if x
                then take size text
                else cut_rune text size (length p) (rune_len (get_or text (length p) 0)))
              long
            ∙ take_whole
            ∙ sym (ap (λ x. if x then p else p ++ (b ∷ es)) whole)
        | inr near ↦
            ap
              (λ x.
                if x
                then take size text
                else cut_rune text size (length p) (rune_len (get_or text (length p) 0)))
              near
            ∙ ap (cut_rune text size (length p)) (ap rune_len lead_there ∙ sized)
            ∙ ap (λ u. if ltb size (length p + n) then u else take size text)
                (take-length-append p (b ∷ (es ++ t)))
            ∙ ap (λ u. if ltb size (length p + n) then p else u) take_whole
      ]

abbrev pub cut : Bytes → ℕ → Bytes
cut s max = cut_at s max (back 3 s max)

pub cut_whole :
    (p t : Bytes) (r : Rune)
    → cut (p ++ (rune_bytes r ++ t)) (length p + length (rune_bytes r)) ≡ p ++ rune_bytes r
cut_whole p t r =
    let n = suc (length r.more) in
    let whole : ltb (length p + n) (length p + n) ≡ false = ground arith in
    cut_lead p r.more t r.lead n r.sized r.continued (omega arith)
    ∙ ap (λ x. if x then p else p ++ rune_bytes r) whole

All-take : (k : ℕ) (es : Bytes) → All Continues es → All Continues (take k es)
All-take zero es all = tt
All-take (suc k) [] all = tt
All-take (suc k) (e ∷ es) (one, all) = (one, All-take k es all)

pub cut_part :
    (p t : Bytes) (r : Rune) (m : ℕ)
    → m < length r.more
    → cut (p ++ (rune_bytes r ++ t)) (length p + suc m) ≡ p
cut_part p t r m lt =
    let es = take m r.more in
    let rest = drop m r.more ++ t in
    let size : length es ≡ m = omega (arith, length-take m r.more) in
    let within : ltb (length p + suc (length es)) (length p + suc (length r.more)) ≡ true =
      ground arith in
    let joined : es ++ rest ≡ r.more ++ t =
      sym (append_assoc es (drop m r.more) t) ∙ ap (λ u. u ++ t) (take-append-drop m r.more) in
    ap (λ u. cut (p ++ (r.lead ∷ u)) (length p + suc m)) (sym joined)
    ∙ ap (λ k. cut (p ++ (r.lead ∷ (es ++ rest))) (length p + suc k)) (sym size)
    ∙ cut_lead p es rest r.lead (suc (length r.more)) r.sized (All-take m r.more r.continued)
        (omega arith)
    ∙ ap (λ x. if x then p else p ++ (r.lead ∷ es)) within
