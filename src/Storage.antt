-- ===== src/Storage.antt =====
-- What the writers use of internal/store: `Save`, `SaveBatch`, and what these promise. A save that
-- returns an error stores nothing, since `SaveBatch` rolls its transaction back.
pub mod Scripted
pub mod Texts
use packet_lab.Prelude.{
  refl, ℕ, ◌+◌, ◌≡◌, Bool, true, Option, none, some, List, [], ◌∷◌, ◌++◌, length, if◌then◌else◌,
  sym, ap, ◌∙◌, arith, map,
}
use packet_lab.Models.{CapturedRequest}

-- the calls; `none` is an error
pub record Storage (S : Type 0) : Type 0 where
  pub save : CapturedRequest → S → Option ℕ × S
  pub save_batch : List CapturedRequest → S → Option (List ℕ) × S

-- the rows of the table, with what a row keeps of a request
pub record IsTable {S : Type 0} (db : Storage S) (Row : Type 0) : Type 0 where
  pub rows : S → List Row
  pub row_of : CapturedRequest → Row
  pub saved :
      (r : CapturedRequest) (s : S) (id : ℕ)
      → (db.save r s).0 ≡ some id
      → rows (db.save r s).1 ≡ rows s ++ (row_of r ∷ [])
  pub not_saved :
      (r : CapturedRequest) (s : S) → (db.save r s).0 ≡ none → rows (db.save r s).1 ≡ rows s
  pub batch_saved :
      (rs : List CapturedRequest) (s : S) (ids : List ℕ)
      → (db.save_batch rs s).0 ≡ some ids
      → (rows (db.save_batch rs s).1 ≡ rows s ++ map row_of rs) × (length ids ≡ length rs)
  pub batch_not_saved :
      (rs : List CapturedRequest) (s : S)
      → (db.save_batch rs s).0 ≡ none
      → rows (db.save_batch rs s).1 ≡ rows s

-- how many elements pass a test
abbrev pub count {ℓ} : {A : Type ℓ} → (A → Bool) → List A → ℕ
count q [] = 0
count q (x ∷ xs) = (if q x then 1 else 0) + count q xs

pub count-append {ℓ} :
    {A : Type ℓ} (q : A → Bool) (xs ys : List A) → count q (xs ++ ys) ≡ count q xs + count q ys
count-append q [] ys = omega arith
count-append q (x ∷ xs) ys = omega (arith, count-append q xs ys)

pub count-map {ℓ κ} :
    {A : Type ℓ} {B : Type κ} (q : B → Bool) (f : A → B) (xs : List A)
    → count q (map f xs) ≡ count (λ x. q (f x)) xs
count-map q f [] = refl
count-map q f (x ∷ xs) = ap (λ n. (if q (f x) then 1 else 0) + n) (count-map q f xs)
