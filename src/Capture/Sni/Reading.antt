-- ===== src/Capture/Sni/Reading.antt =====
-- Reads at a known place of the data.
use packet_lab.Prelude.{
  ℕ, zero, suc, ◌+◌, ◌*◌, ◌/◌, ◌%◌, ◌≡◌, ap, subst, ◌∙◌, refl, Bool, true, some, [], ◌∷◌, ◌++◌,
  le→leb, length, length-append, get_elem?, drop, drop-add, take-length-append, drop-length-append,
  Bytes, arith,
}
use packet_lab.Capture.Sni.{Sni, named, need, byte, u16, slice}

-- two bytes, the higher first
abbrev pub be16 : ℕ → Bytes → Bytes
be16 n rest = (n / 256) ∷ (n % 256) ∷ rest

-- the rest of the text at a position
pub record At (buf : Bytes) (o : ℕ) (rest : Bytes) : Type 0 where
  pub here : drop o buf ≡ rest
  pub fits : o + length rest ≡ length buf

get_elem?-drop : (xs : Bytes) (o : ℕ) → get_elem? xs o ≡ get_elem? (drop o xs) 0
get_elem?-drop [] zero = refl
get_elem?-drop [] (suc o) = refl
get_elem?-drop (x ∷ xs) zero = refl
get_elem?-drop (x ∷ xs) (suc o) = get_elem?-drop xs o

pub need-true : (b : Bool) (s : Sni) → b ≡ true → need b s ≡ s
need-true b s e = rw e

module _ {buf : Bytes} where
  pub skip :
      {o : ℕ} (xs : Bytes) {rest : Bytes} → At buf o (xs ++ rest) → At buf (o + length xs) rest
  skip {o = o} xs {rest = rest} a = record {
    here = drop-add o (length xs) buf ∙ ap (drop (length xs)) a.here ∙ drop-length-append xs rest;
    fits = omega (arith, a.fits, length-append xs rest);
  }

  pub byte_at :
      {o : ℕ} {b : ℕ} {rest : Bytes} (k : ℕ → Sni) → At buf o (b ∷ rest) → byte buf o k ≡ k b
  unfolding byte
  byte_at {o = o} {b = b} k a =
      let e : get_elem? buf o ≡ some b = get_elem?-drop buf o ∙ ap (λ s. get_elem? s 0) a.here in
      rw (byte, e)

  pub u16_at :
      {o : ℕ} (n : ℕ) {rest : Bytes} (k : ℕ → Sni) → At buf o (be16 n rest) → u16 buf o k ≡ k n
  unfolding u16
  u16_at {o = o} n {rest = rest} k a =
      byte_at (λ hi. byte buf (o + 1) (λ lo. k (hi * 256 + lo))) a
      ∙ byte_at (λ lo. k (n / 256 * 256 + lo)) (skip ((n / 256) ∷ []) a)
      ∙ ap k (omega arith)

  pub slice_at :
      {o : ℕ} (xs rest : Bytes) → At buf o (xs ++ rest) → slice buf o (length xs) ≡ named xs
  unfolding slice
  slice_at {o = o} xs rest a = rw (
    slice,
    le→leb (o + length xs) (length buf) (omega (arith, a.fits, length-append xs rest)),
    a.here,
    take-length-append xs rest,
  )

  pub move : {o p : ℕ} {rest : Bytes} → At buf o rest → o ≡ p → At buf p rest
  move {rest = rest} a e = subst (λ i. At buf i rest) e a
