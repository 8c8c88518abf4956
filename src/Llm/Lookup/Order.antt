-- ===== src/Llm/Lookup/Order.antt =====
-- The search does not depend on the order in which Go ranges over the table.
use packet_lab.Prelude.{
  Bool, true, not, ◌&&◌, eqb, eqb_iff, and_iff, ◌⊎◌, ◌≡◌, ◌≢◌, sym, ap, subst, ◌∙◌, ◌↔◌, inl, inr,
  [], ◌∷◌, ◌++◌, length, All, Bytes, to_lower, Map, arith, refl, append-nil,
}
use packet_lab.Llm.Lookup.{lookup_model}
use packet_lab.Llm.Lookup.Longest.{
  Covers, whole, dashed, HasEntry, AtMost, IsLongest, absent, present, lookup_model-IsLongest,
}

same_prefix : (k j s t : Bytes) → k ++ s ≡ j ++ t → length k ≡ length j → k ≡ j
same_prefix [] [] s t e h = refl
same_prefix [] (y ∷ j) s t e h = absurd (omega arith)
same_prefix (x ∷ k) [] s t e h = absurd (omega arith)
same_prefix (x ∷ k) (y ∷ j) s t e h =
    let tails : k ++ s ≡ j ++ t = cc in
    let heads : x ≡ y = cc in let rest = same_prefix k j s t tails (omega arith) in cc

Covers-cut : (m k : Bytes) → Covers m k → (t : Bytes) × (m ≡ k ++ t)
Covers-cut m k (whole e) = ([], e ∙ sym (append-nil k))
Covers-cut m k (dashed rest e) = (b'-' ∷ rest, e)

-- Keys of the same length that cover a name are the same.
Covers-unique : (m k j : Bytes) → Covers m k → Covers m j → length k ≡ length j → k ≡ j
Covers-unique m k j c d h =
    let (s, e) = Covers-cut m k c in
    let (t, e') = Covers-cut m j d in same_prefix k j s t (sym e ∙ e') h

module _ {V : Type 0} where
  -- no two keys are the same in lower case
  abbrev pub DistinctKeys : Map V → Type 0
  DistinctKeys [] = Unit
  DistinctKeys (e ∷ table) =
      All (λ other. to_lower e.0 ≢ to_lower other.0) table × DistinctKeys table

  -- the same entries, in any order
  abbrev pub SameEntries : Map V → Map V → Type 0
  SameEntries table other = (k : Bytes) (v : V) → HasEntry k v table ↔ HasEntry k v other

  entry-eq : (e : Bytes × V) (k : Bytes) (v : V) → k ≡ e.0 → v ≡ e.1 → e ≡ (k, v)
  entry-eq (j, w) k v same same_value = cc

  entry-All :
      (P : Bytes × V → Type 0) (table : Map V) (k : Bytes) (v : V)
      → HasEntry k v table
      → All P table
      → P (k, v)
  entry-All P [] k v has all = absurd has
  entry-All P (e ∷ table) k v has all = elim has [
    | inl (same, same_value) ↦ subst P (entry-eq e k v same same_value) all.0
    | inr later ↦ entry-All P table k v later all.1
  ]

  one_value :
      (table : Map V) (k j : Bytes) (v w : V)
      → DistinctKeys table
      → HasEntry k v table
      → HasEntry j w table
      → to_lower k ≡ to_lower j
      → v ≡ w
  one_value [] k j v w distinct has has' same = absurd has
  one_value (e ∷ table) k j v w distinct has has' same = elim has [
    | inl (key, value) ↦ elim has' [
      | inl (key', value') ↦ value ∙ sym value'
      | inr later ↦
          let other = entry-All (λ o. to_lower e.0 ≢ to_lower o.0) table j w later distinct.0 in
          absurd (other (ap to_lower (sym key) ∙ same))
    ]
    | inr later ↦ elim has' [
      | inl (key', value') ↦
          let other = entry-All (λ o. to_lower e.0 ≢ to_lower o.0) table k v later distinct.0 in
          absurd (other (ap to_lower (sym key') ∙ sym same))
      | inr later' ↦ one_value table k j v w distinct.1 later later' same
    ]
  ]

  longest_unique :
      (m : Bytes) (table other : Map V) (zero_value v w : V)
      → DistinctKeys table
      → SameEntries table other
      → IsLongest m table zero_value v
      → IsLongest m other zero_value w
      → v ≡ w
  longest_unique m table other z v w distinct same (absent e all) (absent e' all') = e ∙ sym e'
  longest_unique m table other z v w distinct same (absent e all) (present j has' c' p' all') =
      let short = entry-All (AtMost m 0) table j w ((same j w).1 has') all c' in
      absurd (omega arith)
  longest_unique m table other z v w distinct same (present k has c p all) (absent e' all') =
      let short = entry-All (AtMost m 0) other k v ((same k v).0 has) all' c in absurd (omega arith)
  longest_unique m table other z v w distinct same (present k has c p all)
        (present j has' c' p' all') =
      let has_j = (same j w).1 has' in
      let le = entry-All (AtMost m (length (to_lower k))) table j w has_j all c' in
      let ge = entry-All (AtMost m (length (to_lower j))) other k v ((same k v).0 has) all' c in
      one_value table k j v w distinct has has_j
        (Covers-unique m (to_lower k) (to_lower j) c c' (omega arith))

  -- Where no two keys of a table are the same in lower case, the search in any table with the same
  -- entries, in whatever order, returns the same.
  pub lookup_model_order :
      (table other : Map V) (zero_value : V) (model : Bytes)
      → DistinctKeys table
      → SameEntries table other
      → lookup_model table zero_value model ≡ lookup_model other zero_value model
  lookup_model_order table other zero_value model distinct same =
      longest_unique (to_lower model) table other zero_value (lookup_model table zero_value model)
        (lookup_model other zero_value model) distinct same
        (lookup_model-IsLongest table zero_value model)
        (lookup_model-IsLongest other zero_value model)

  abbrev all_other : Bytes → Map V → Bool
  all_other k [] = true
  all_other k ((j, w) ∷ table) = not (eqb (to_lower k) (to_lower j)) && all_other k table

  -- the same as a test
  abbrev pub distinct_keys : Map V → Bool
  distinct_keys [] = true
  distinct_keys ((k, v) ∷ table) = all_other k table && distinct_keys table

  all_other-All :
      (k : Bytes) (table : Map V)
      → all_other k table ≡ true
      → All (λ other. to_lower k ≢ to_lower other.0) table
  all_other-All k [] h = tt
  all_other-All k ((j, w) ∷ table) h =
      let (first, rest) = (and_iff (not (eqb (to_lower k) (to_lower j))) (all_other k table)).0 h in
      (
        λ e.
            let contra : not true ≡ true =
              sym (ap not ((eqb_iff (to_lower k) (to_lower j)).1 e)) ∙ first in
            cc,
        all_other-All k table rest,
      )

  pub distinct_keys-DistinctKeys : (table : Map V) → distinct_keys table ≡ true → DistinctKeys table
  distinct_keys-DistinctKeys [] h = tt
  distinct_keys-DistinctKeys ((k, v) ∷ table) h =
      let (first, rest) = (and_iff (all_other k table) (distinct_keys table)).0 h in
      (all_other-All k table first, distinct_keys-DistinctKeys table rest)

  entry-append :
      (k : Bytes) (v : V) (table other : Map V)
      → HasEntry k v (table ++ other)
      → HasEntry k v table ⊎ HasEntry k v other
  entry-append k v [] other h = inr h
  entry-append k v (e ∷ table) other h = elim h [
    | inl here ↦ inl (inl here)
    | inr later ↦ elim (entry-append k v table other later) [ inl a ↦ inl (inr a) | inr b ↦ inr b ]
  ]

  append-entry :
      (k : Bytes) (v : V) (table other : Map V)
      → HasEntry k v table ⊎ HasEntry k v other
      → HasEntry k v (table ++ other)
  append-entry k v [] other h = elim h [ inl a ↦ absurd a | inr b ↦ b ]
  append-entry k v (e ∷ table) other h = elim h [
    | inl a ↦ elim a [
      | inl here ↦ inl here
      | inr later ↦ inr (append-entry k v table other (inl later))
    ]
    | inr b ↦ inr (append-entry k v table other (inr b))
  ]

  -- A range that starts elsewhere and comes round meets the same entries.
  pub SameEntries-rotated : (table other : Map V) → SameEntries (table ++ other) (other ++ table)
  SameEntries-rotated table other k v = (
    λ h. append-entry k v other table (swap (entry-append k v table other h)),
    λ h. append-entry k v table other (swap (entry-append k v other table h)),
  )
    where
      swap : {A B : Type 0} → A ⊎ B → B ⊎ A
      swap (inl a) = inr a
      swap (inr b) = inl b
