-- ===== src/Storage/Texts/Runes.antt =====
-- Texts as sequences of runes, and the runes that fit in a number of bytes.
use packet_lab.Prelude.{
  ℕ, suc, ◌-◌, ◌≤◌, ◌<◌, ◌≡◌, refl, ap, ◌∙◌, true, false, some, List, [], ◌∷◌, ◌++◌, leb,
  if◌then◌else◌, length, Bytes, All, arith, length-append,
}
use packet_lab.Storage.Texts.{is_continuation, rune_len}

abbrev pub Continues : ℕ → Type 0
Continues c = is_continuation c ≡ true

-- a byte that begins a rune, and the bytes that continue it
pub record Rune : Type 0 where
  pub lead : ℕ
  pub more : Bytes
  pub sized : rune_len lead ≡ some (suc (length more))
  pub continued : All Continues more

abbrev pub rune_bytes : Rune → Bytes
rune_bytes r = r.lead ∷ r.more

abbrev pub flat : List Rune → Bytes
flat [] = []
flat (r ∷ rs) = rune_bytes r ++ flat rs

-- the first runes, as many as fit in a number of bytes
abbrev pub fit : ℕ → List Rune → List Rune
fit max [] = []
fit max (r ∷ rs) = let n = length (rune_bytes r) in if leb n max then r ∷ fit (max - n) rs else []

module _ (r : Rune) (rs : List Rune) (m : ℕ) where
  pub fit-takes :
      leb (length (rune_bytes r)) m ≡ true
      → flat (fit m (r ∷ rs)) ≡ rune_bytes r ++ flat (fit (m - length (rune_bytes r)) rs)
  fit-takes h = ap (λ b. flat (if b then r ∷ fit (m - length (rune_bytes r)) rs else [])) h

  pub fit-drops : leb (length (rune_bytes r)) m ≡ false → flat (fit m (r ∷ rs)) ≡ []
  fit-drops h = ap (λ b. flat (if b then r ∷ fit (m - length (rune_bytes r)) rs else [])) h

  pub rest_longer :
      m < length (flat (r ∷ rs))
      → leb (length (rune_bytes r)) m ≡ true
      → m - length (rune_bytes r) < length (flat rs)
  rest_longer lt h =
      let le : length (rune_bytes r) ≤ m = ground arith in
      omega (arith, length-append (rune_bytes r) (flat rs))

pub fit_all : (rs : List Rune) (m : ℕ) → length (flat rs) ≤ m → flat (fit m rs) ≡ flat rs
fit_all [] m le = refl
fit_all (r ∷ rs) m le =
    let n = length (rune_bytes r) in
    let whole = length-append (rune_bytes r) (flat rs) in
    let fits : leb n m ≡ true = ground (arith, whole) in
    fit-takes r rs m fits ∙ ap (λ u. rune_bytes r ++ u) (fit_all rs (m - n) (omega (arith, whole)))
