-- ===== src/Prelude/Assoc.antt =====
-- Go maps with string keys, as association lists. The code never relies on the order in which a
-- map is ranged over unless the models say so.
use Prim.Native.Nat.{◌≤◌, ◌<◌, ◌+◌}
use mathlib.Core.Path.{◌≡◌, refl, sym, subst}
use mathlib.Core.Logic.{inl, inr}
use mathlib.Core.List.{List, [], ◌∷◌}
use mathlib.Core.Option.{Option, none, some}
use native.Mathlib.Omega.{arith}
use packet_lab.Prelude.Tests.{if◌then◌else◌, Bool-cases}
use packet_lab.Prelude.Lists.{length, All}
use packet_lab.Prelude.Text.{Bytes, eqb, eqb_iff}

abbrev pub Map {ℓ} : Type ℓ → Type ℓ
Map V = List (Bytes × V)

module _ {ℓ} {V : Type ℓ} where
  -- m[k]
  unfoldable pub lookup : Bytes → Map V → Option V
  lookup k [] = none
  lookup k ((j, v) ∷ m) = if eqb j k then some v else lookup k m

  -- delete(m, k)
  unfoldable pub erase : Bytes → Map V → Map V
  erase k [] = []
  erase k ((j, v) ∷ m) = let rest = erase k m in if eqb j k then rest else (j, v) ∷ rest

  -- m[k] = v
  unfoldable pub insert : Bytes → V → Map V → Map V
  insert k v [] = (k, v) ∷ []
  insert k v ((j, w) ∷ m) = if eqb j k then (j, v) ∷ m else (j, w) ∷ insert k v m

  pub lookup-erase :
      (k j : Bytes) (m : Map V) → lookup j (erase k m) ≡ (if eqb k j then none else lookup j m)
  unfolding lookup erase
  lookup-erase k j [] = ground arith
  lookup-erase k j ((i, v) ∷ m) =
      ground (arith, lookup-erase k j m, eqb_iff i k, eqb_iff i j, eqb_iff k j)

  pub lookup-insert :
      (k j : Bytes) (v : V) (m : Map V)
      → lookup j (insert k v m) ≡ (if eqb k j then some v else lookup j m)
  unfolding lookup insert
  lookup-insert k j v [] = refl
  lookup-insert k j v ((i, w) ∷ m) =
      ground (arith, eqb_iff i k, eqb_iff i j, eqb_iff k j, lookup-insert k j v m)

  pub length-erase-le : (k : Bytes) (m : Map V) → length (erase k m) ≤ length m
  unfolding erase
  length-erase-le k [] = omega arith
  length-erase-le k ((j, v) ∷ m) = ground (arith, length-erase-le k m)

  pub length-insert-le : (k : Bytes) (v : V) (m : Map V) → length (insert k v m) ≤ length m + 1
  unfolding insert
  length-insert-le k v [] = omega arith
  length-insert-le k v ((j, w) ∷ m) = ground (arith, length-insert-le k v m)

  -- A value that is put in the place of another leaves the number of entries.
  pub length-insert_present :
      (k : Bytes) (v w : V) (m : Map V) → lookup k m ≡ some w → length (insert k v m) ≡ length m
  unfolding lookup insert
  length-insert_present k v w [] h = cc
  length-insert_present k v w ((j, u) ∷ m) h = ground (arith, length-insert_present k v w m)

  -- An entry that is there goes.
  pub length-erase-lt :
      (k : Bytes) (w : V) (m : Map V) → lookup k m ≡ some w → length (erase k m) < length m
  unfolding lookup erase
  length-erase-lt k w [] h = cc
  length-erase-lt k w ((j, u) ∷ m) h = ground (arith, length-erase-lt k w m, length-erase-le k m)

  pub lookup-insert_self : (k : Bytes) (v : V) (m : Map V) → lookup k (insert k v m) ≡ some v
  lookup-insert_self k v m = ground (arith, lookup-insert k k v m, eqb_iff k k)

  module _ (P : Bytes × V → Type 0) where
    pub All-lookup : (k : Bytes) (m : Map V) (v : V) → All P m → lookup k m ≡ some v → P (k, v)
    unfolding lookup
    All-lookup k [] v h e = cc
    All-lookup k ((j, w) ∷ m) v (one, h) e = elim (Bool-cases (eqb j k)) [
      | inl same ↦
          let key : j ≡ k = (eqb_iff j k).0 same in
          let it : w ≡ v = ground arith in subst (λ i. P (i, v)) key (subst (λ u. P (j, u)) it one)
      | inr other ↦ All-lookup k m v h (ground arith)
    ]

    pub All-insert : (k : Bytes) (v : V) (m : Map V) → P (k, v) → All P m → All P (insert k v m)
    unfolding insert
    All-insert k v [] g h = (g, tt)
    All-insert k v ((j, w) ∷ m) g (one, h) = elim (Bool-cases (eqb j k)) [
      | inl same ↦
          let key : k ≡ j = sym ((eqb_iff j k).0 same) in
          rw (insert, same) (subst (λ i. P (i, v)) key g, h)
      | inr other ↦ rw (insert, other) (one, All-insert k v m g h)
    ]

    pub All-erase : (k : Bytes) (m : Map V) → All P m → All P (erase k m)
    unfolding erase
    All-erase k [] h = tt
    All-erase k ((j, w) ∷ m) (one, h) = elim (Bool-cases (eqb j k)) [
      | inl same ↦ rw (erase, same) (All-erase k m h)
      | inr other ↦ rw (erase, other) (one, All-erase k m h)
    ]

  -- no key stands twice
  abbrev pub Unique : Map V → Type ℓ
  Unique [] = Unit
  Unique ((k, v) ∷ m) = (lookup k m ≡ none) × Unique m
