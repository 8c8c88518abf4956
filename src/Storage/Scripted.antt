-- ===== src/Storage/Scripted.antt =====
-- A table whose calls succeed or fail as a script says, and that shows that a store can keep its
-- promises.
use packet_lab.Prelude.{
  ℕ, suc, ◌≡◌, refl, sym, ap, ◌∙◌, Bool, true, false, Option, none, some, List, [], ◌∷◌, ◌++◌,
  length, map,
}
use packet_lab.Models.{CapturedRequest}
use packet_lab.Storage.{Storage, IsTable}

pub record Table : Type 0 where
  pub script : List Bool
  pub rows : List CapturedRequest

-- the next outcome; behind the end of the script all calls succeed
abbrev answer : List Bool → Bool
answer [] = true
answer (b ∷ bs) = b

abbrev behind : List Bool → List Bool
behind [] = []
behind (b ∷ bs) = bs

abbrev ids_from : ℕ → List CapturedRequest → List ℕ
ids_from n [] = []
ids_from n (r ∷ rs) = suc n ∷ ids_from (suc n) rs

abbrev put : {A : Type 0} → Bool → A → List CapturedRequest → Table → Option A × Table
put true a rs s = (some a, record s { script = behind s.script; rows = s.rows ++ rs })
put false a rs s = (none, record s { script = behind s.script })

abbrev pub scripted : Storage Table
scripted = record {
  save = λ r s. put (answer s.script) (suc (length s.rows)) (r ∷ []) s;
  save_batch = λ rs s. put (answer s.script) (ids_from (length s.rows) rs) rs s;
}

put-some :
    {A : Type 0} (b : Bool) (a : A) (rs : List CapturedRequest) (s : Table) (x : A)
    → (put b a rs s).0 ≡ some x
    → ((put b a rs s).1.rows ≡ s.rows ++ rs) × (a ≡ x)
put-some true a rs s x e = (refl, cc)
put-some false a rs s x e = cc

put-none :
    {A : Type 0} (b : Bool) (a : A) (rs : List CapturedRequest) (s : Table)
    → (put b a rs s).0 ≡ none
    → (put b a rs s).1.rows ≡ s.rows
put-none true a rs s e = cc
put-none false a rs s e = refl

length-ids_from : (n : ℕ) (rs : List CapturedRequest) → length (ids_from n rs) ≡ length rs
length-ids_from n [] = refl
length-ids_from n (r ∷ rs) = ap suc (length-ids_from (suc n) rs)

map_same : (rs : List CapturedRequest) → map (λ r. r) rs ≡ rs
map_same [] = refl
map_same (r ∷ rs) = ap (◌∷◌ r) (map_same rs)

pub scripted-IsTable : IsTable scripted CapturedRequest
scripted-IsTable = record {
  rows = λ s. s.rows;
  row_of = λ r. r;
  saved = λ r s id e. (put-some (answer s.script) (suc (length s.rows)) (r ∷ []) s id e).0;
  not_saved = λ r s e. put-none (answer s.script) (suc (length s.rows)) (r ∷ []) s e;
  batch_saved = λ rs s ids e.
      let (kept, same) = put-some (answer s.script) (ids_from (length s.rows) rs) rs s ids e in
      (
        kept ∙ ap (λ x. s.rows ++ x) (sym (map_same rs)),
        ap length (sym same) ∙ length-ids_from (length s.rows) rs,
      );
  batch_not_saved = λ rs s e. put-none (answer s.script) (ids_from (length s.rows) rs) rs s e;
}
