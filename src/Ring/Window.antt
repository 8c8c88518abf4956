-- ===== src/Ring/Window.antt =====
-- The records of a ring as a list: a window of the slots that goes round at the capacity.
use native.Mathlib.Nat.{mod-eq_of_lt, mod-eq-sub-mod}
use native.Mathlib.Decide.{dec_lt}
use packet_lab.Prelude.{
  ℕ, zero, suc, ◌+◌, ◌-◌, ◌%◌, ◌<◌, ◌≡◌, refl, ap, ◌≢◌, List, [], ◌∷◌, ◌++◌, arith, ltb, leb,
  if◌then◌else◌, length, get_or, set, get_or-set_self, get_or-set_ne,
}
use packet_lab.Ring.{Slot, zero_slot}

-- an index below twice the capacity, brought back into the storage
abbrev pub wrap : ℕ → ℕ → ℕ
wrap c i = if ltb i c then i else i - c

-- how many slots lie from index `t` up to index `h`
abbrev pub gap : ℕ → ℕ → ℕ → ℕ
gap c h t = if leb t h then h - t else c - t + h

pub mod-eq-wrap : (c i : ℕ) → i < c + c → i % c ≡ wrap c i
mod-eq-wrap c i h = elim (dec_lt i c) [
  | yes p ↦ ground (arith, mod-eq_of_lt p)
  | no p ↦ ground (
    arith,
    mod-eq-sub-mod {n = i} {m = c} (omega arith),
    mod-eq_of_lt {n = i - c} {m = c} (omega arith),
  )
]

unfoldable pub window : List Slot → ℕ → ℕ → ℕ → List Slot
window buf c t zero = []
window buf c t (suc n) = get_or buf t zero_slot ∷ window buf c (wrap c (t + 1)) n

pub window-zero : (buf : List Slot) (c t : ℕ) → window buf c t 0 ≡ []
unfolding window
window-zero buf c t = refl

pub window-suc :
    (buf : List Slot) (c t n : ℕ)
    → window buf c t (suc n) ≡ get_or buf t zero_slot ∷ window buf c (wrap c (t + 1)) n
unfolding window
window-suc buf c t n = refl

pub length-window : (buf : List Slot) (c t n : ℕ) → length (window buf c t n) ≡ n
unfolding window
length-window buf c t zero = refl
length-window buf c t (suc n) = ap suc (length-window buf c (wrap c (t + 1)) n)

-- A window that is not empty starts with the slot at its index.
pub window_pos :
    (buf : List Slot) (c t n : ℕ)
    → n ≢ 0
    → window buf c t n ≡ get_or buf t zero_slot ∷ window buf c (wrap c (t + 1)) (n - 1)
unfolding window
window_pos buf c t zero h = absurd (h refl)
window_pos buf c t (suc n) h = ap (λ k. window buf c t (suc k)) (omega arith)

-- Writing the slot just past a window extends it by that slot.
pub window-set :
    (buf : List Slot) (c t n i : ℕ) (v : Slot)
    → length buf ≡ c
    → t < c
    → n < c
    → i ≡ wrap c (t + n)
    → window (set buf i v) c t (suc n) ≡ window buf c t n ++ v ∷ []
unfolding window
window-set buf c t zero i v len ht hn e =
    let e' : i ≡ t = ground arith in rw (e', get_or-set_self buf t v zero_slot (omega arith))
window-set buf c t (suc n) i v len ht hn e =
    rw (get_or-set_ne buf {i = i} {j = t} v zero_slot (λ p. ground arith)) (
      ap (◌∷◌ (get_or buf t zero_slot))
        (window-set buf c (wrap c (t + 1)) n i v len (ground arith) (omega arith) (ground arith)))
