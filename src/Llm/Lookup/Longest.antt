-- ===== src/Llm/Lookup/Longest.antt =====
-- The entry that the search finds is the one with the longest key that covers the model.
use packet_lab.Prelude.{
  ℕ, ◌≤◌, ◌<◌, ◌≡◌, sym, ap, subst, ◌∙◌, ◌↔◌, ◌⊎◌, inl, inr, Bool, true, false, not, ◌&&◌, ◌==◌,
  leb, ltb, [], ◌∷◌, ◌++◌, length, get_or, All, Bytes, to_lower, has_prefix, has_prefix_iff,
  Bool-cases, Map, arith, length-append, refl, ==_iff, append-nil, and_iff, lt→ltb, leb→le,
}
use packet_lab.Llm.Lookup.{round, range_table, lookup_model}

-- the key is the model's name, or a part of it in front of a dash
pub data Covers (m k : Bytes) : Type 0 where
  whole : m ≡ k → Covers m k
  dashed : (rest : Bytes) → m ≡ k ++ (b'-' ∷ rest) → Covers m k

pub get_or-append : (k t : Bytes) (c : ℕ) → get_or (k ++ (c ∷ t)) (length k) 0 ≡ c
get_or-append [] t c = refl
get_or-append (x ∷ k) t c = get_or-append k t c

-- the test of the byte behind the key
abbrev pub bounded : Bytes → Bytes → Bool
bounded m k = not (ltb (length k) (length m) && not (get_or m (length k) 0 == b'-'))

bounded-append : (k t : Bytes) (c : ℕ) → bounded (k ++ (c ∷ t)) k ≡ (c == b'-')
bounded-append k t c =
    let longer : ltb (length k) (length (k ++ (c ∷ t))) ≡ true =
      lt→ltb (length k) (length (k ++ (c ∷ t))) (omega (arith, length-append k (c ∷ t))) in
    ap (λ b. not (b && not (get_or (k ++ (c ∷ t)) (length k) 0 == b'-'))) longer
    ∙ ap (λ d. not (not (d == b'-'))) (get_or-append k t c)
    ∙ twice (c == b'-')
  where
    twice : (b : Bool) → not (not b) ≡ b
    twice true = refl
    twice false = refl

bounded_self : (k : Bytes) → bounded k k ≡ true
bounded_self k = ground arith

abbrev pub covered : Bytes → Bytes → Bool
covered m k = has_prefix m k && bounded m k

Covers-rest : (m k t : Bytes) → m ≡ k ++ t → bounded m k ≡ true → Covers m k
Covers-rest m k [] e h = whole (e ∙ append-nil k)
Covers-rest m k (c ∷ t) e h =
    let dash : c ≡ b'-' =
      (==_iff c b'-').0 (sym (bounded-append k t c) ∙ subst (λ u. bounded u k ≡ true) e h) in
    dashed t (e ∙ ap (λ d. k ++ (d ∷ t)) dash)

-- The tests of the loop say yes exactly if the key covers the name.
pub covered_iff : (m k : Bytes) → (covered m k ≡ true) ↔ Covers m k
covered_iff m k = (
  λ h.
      let (prefix, rest) = (and_iff (has_prefix m k) (bounded m k)).0 h in
      let (t, e) = (has_prefix_iff m k).0 prefix in Covers-rest m k t e rest,
  λ c. (and_iff (has_prefix m k) (bounded m k)).1 (elim c [
    | whole e ↦ (
      (has_prefix_iff m k).1 ([], e ∙ sym (append-nil k)),
      subst (λ u. bounded u k ≡ true) (sym e) (bounded_self k),
    )
    | dashed rest e ↦ (
      (has_prefix_iff m k).1 (b'-' ∷ rest, e),
      subst (λ u. bounded u k ≡ true) (sym e) (bounded-append k rest b'-'),
    )
  ]),
)

module _ {V : Type 0} where
  -- the table has this entry
  abbrev pub HasEntry : Bytes → V → Map V → Type 0
  HasEntry k v [] = ⊥
  HasEntry k v ((j, w) ∷ table) = ((k ≡ j) × (v ≡ w)) ⊎ HasEntry k v table

  -- the entry does not cover the name with a key longer than this
  abbrev pub AtMost : Bytes → ℕ → Bytes × V → Type 0
  AtMost m n (key, v) = Covers m (to_lower key) → length (to_lower key) ≤ n

  round_skip :
      (m : Bytes) (best : V) (n : ℕ) (key : Bytes) (v : V)
      → (leb (length (to_lower key)) n ≡ true) ⊎ (covered m (to_lower key) ≡ false)
      → round m (best, n) (key, v) ≡ (best, n)
  unfolding round
  round_skip m best n key v h = elim h [ inl short ↦ ground arith | inr other ↦ ground arith ]

  round_take :
      (m : Bytes) (best : V) (n : ℕ) (key : Bytes) (v : V)
      → leb (length (to_lower key)) n ≡ false
      → covered m (to_lower key) ≡ true
      → round m (best, n) (key, v) ≡ (v, length (to_lower key))
  unfolding round
  round_take m best n key v longer covers = ground arith

  round-cases :
      (m : Bytes) (s : V × ℕ) (e : Bytes × V)
      → ((round m s e ≡ s) × AtMost m s.1 e)
        ⊎ ((round m s e ≡ (e.1, length (to_lower e.0)))
            × Covers m (to_lower e.0)
            × s.1 < length (to_lower e.0))
  round-cases m (best, n) (key, v) =
      let k = to_lower key in
      elim (Bool-cases (leb (length k) n)) [
        | inl short ↦ inl (round_skip m best n key v (inl short), λ c. leb→le (length k) n short)
        | inr longer ↦ elim (Bool-cases (covered m k)) [
          | inl covers ↦
              inr
                (round_take m best n key v longer covers, (covered_iff m k).0 covers, ground arith)
          | inr other ↦ inl (
            round_skip m best n key v (inr other),
            λ c. let contra : true ≡ false = sym ((covered_iff m k).1 c) ∙ other in cc,
          )
        ]
      ]

  -- what a range over the table leaves: the state before, or the longest entry that covers the name
  pub data Ranged (m : Bytes) (s : V × ℕ) (table : Map V) (r : V × ℕ) : Type 0 where
    unchanged : r ≡ s → All (AtMost m s.1) table → Ranged m s table r
    found :
        (key : Bytes) (v : V)
        → HasEntry key v table
        → Covers m (to_lower key)
        → s.1 < length (to_lower key)
        → r ≡ (v, length (to_lower key))
        → All (AtMost m (length (to_lower key))) table
        → Ranged m s table r

  pub range_table-Ranged :
      (m : Bytes) (s : V × ℕ) (table : Map V) → Ranged m s table (range_table m s table)
  unfolding range_table
  range_table-Ranged m s [] = unchanged refl tt
  range_table-Ranged m s (e ∷ table) = elim (round-cases m s e) [
    | inl (same, at_most) ↦
        elim (subst (λ u. Ranged m u table (range_table m (round m s e) table)) same
          (range_table-Ranged m (round m s e) table)) [
            | unchanged r all ↦ unchanged r (at_most, all)
            | found key v has covers longer r all ↦
                found key v (inr has) covers longer r ((λ c. omega (arith, at_most c)), all)
          ]
    | inr (taken, covers, longer) ↦
        elim (subst (λ u. Ranged m u table (range_table m (round m s e) table)) taken
          (range_table-Ranged m (round m s e) table)) [
            | unchanged r all ↦
                found e.0 e.1 (inl (refl, refl)) covers longer r ((λ c. omega arith), all)
            | found key v has covers' longer' r all ↦
                found key v (inr has) covers' (omega arith) r ((λ c. omega arith), all)
          ]
  ]

  -- the value belongs to the longest key that covers the name, or to none
  pub data IsLongest (m : Bytes) (table : Map V) (zero_value v : V) : Type 0 where
    absent : v ≡ zero_value → All (AtMost m 0) table → IsLongest m table zero_value v
    present :
        (key : Bytes)
        → HasEntry key v table
        → Covers m (to_lower key)
        → 0 < length (to_lower key)
        → All (AtMost m (length (to_lower key))) table
        → IsLongest m table zero_value v

  -- The search returns the value of an entry whose key covers the name, in lower case, and is not
  -- shorter than any other key that does, or the zero value where no key but the empty one does.
  pub lookup_model-IsLongest :
      (table : Map V) (zero_value : V) (model : Bytes)
      → IsLongest (to_lower model) table zero_value (lookup_model table zero_value model)
  unfolding lookup_model
  lookup_model-IsLongest table zero_value model =
      elim (range_table-Ranged (to_lower model) (zero_value, 0) table) [
        | unchanged r all ↦ absent (ap (λ u. u.0) r) all
        | found key v has covers longer r all ↦
            present key (subst (λ u. HasEntry key u table) (sym (ap (λ u. u.0) r)) has) covers
              longer all
      ]
