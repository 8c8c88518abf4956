-- ===== src/Api/Addresses/Refused.antt =====
-- `blockedIP` refuses exactly the addresses of the blocks.
use native.Mathlib.Nat.{div-div-eq-div-mul}
use packet_lab.Prelude.{
  ℕ, zero, suc, ◌+◌, ◌*◌, ◌/◌, ◌%◌, ◌^◌, ◌<◌, ◌≡◌, refl, sym, ap, subst, ◌∙◌, Bool, true, false,
  ◌&&◌, ◌||◌, none, some, [], ◌∷◌, ◌++◌, ◌==◌, ==_iff, if◌then◌else◌, length, drop, length-drop,
  Bytes, eqb, eqb_iff, has_prefix, replicate, arith, All, Bool-cases, Option-cases, inl, inr, ◌⊎◌,
}
use packet_lab.Api.Addresses.{mapped_prefix, to4, blocked_ip}
use packet_lab.Api.Addresses.Blocks.{
  value, in_any, blocks4, blocks6, is_refused, IsByte, verdict, verdict4_of, value-div, value-inj,
  same_or,
}

-- the tests of `blockedIP` on such an address; multicast covers that of a link
if_tests :
    (v l u m n z p : Bool)
    → v ≡ true
    → (m ≡ true → n ≡ true)
    → (if l || ((v && u) || ((v && m) || ((v && n) || (z || (v && p))))) then true else false)
      ≡ (l || (u || (n || (z || (p || false)))))
if_tests false l u m n z p e h = cc
if_tests true true u m n z p e h = refl
if_tests true false true m n z p e h = refl
if_tests true false false true true z p e h = refl
if_tests true false false true false z p e h = let wrong : false ≡ true = h refl in cc
if_tests true false false false true z p e h = refl
if_tests true false false false false true p e h = refl
if_tests true false false false false false true e h = refl
if_tests true false false false false false false e h = refl

zeros-IsByte : (n : ℕ) (bs : Bytes) → All IsByte bs → All IsByte (replicate n 0 ++ bs)
zeros-IsByte zero bs all = all
zeros-IsByte (suc n) bs all = (omega arith, zeros-IsByte n bs all)

-- an address of 16 bytes
module _ (a b : ℕ) (rest : Bytes) (la : a < 256) (lb : b < 256) (all : All IsByte rest)
    (sixteen : length rest ≡ 14) where
  abbrev ip : Bytes
  ip = a ∷ b ∷ rest

  front : value 0 ip / 2 ^ 112 ≡ a * 256 + b
  front =
      let e : (0 * 256 + a) * 256 + b ≡ a * 256 + b = omega arith in
      ap (λ n. value ((0 * 256 + a) * 256 + b) rest / 256 ^ n) (sym sixteen)
      ∙ value-div ((0 * 256 + a) * 256 + b) rest all
      ∙ e

  -- a block of at most 16 bits looks at the first two bytes
  by_front : (k : ℕ) → value 0 ip / (2 ^ 112 * k) ≡ (a * 256 + b) / k
  by_front k = sym (div-div-eq-div-mul (value 0 ip) (2 ^ 112) k) ∙ ap (λ n. n / k) front

  unicast : ((a == 254) && (b / 64 == 2)) ≡ (value 0 ip / 2 ^ 118 == 1018)
  unicast =
      let e : ((a == 254) && (b / 64 == 2)) ≡ ((a * 256 + b) / 64 == 1018) = ground arith in
      e ∙ ap (λ n. n == 1018) (sym (by_front 64))

  group : (a == 255) ≡ (value 0 ip / 2 ^ 120 == 255)
  group =
      let e : (a == 255) ≡ ((a * 256 + b) / 256 == 255) = ground arith in
      e ∙ ap (λ n. n == 255) (sym (by_front 256))

  private_use : (a / 2 == 126) ≡ (value 0 ip / 2 ^ 121 == 126)
  private_use =
      let e : (a / 2 == 126) ≡ ((a * 256 + b) / 512 == 126) = ground arith in
      e ∙ ap (λ n. n == 126) (sym (by_front 512))

  -- a block of 128 bits is one address
  exact :
      (one : Bytes)
      → length one ≡ 16
      → All IsByte one
      → eqb ip one ≡ (value 0 ip / 1 == value 0 one / 1)
  exact one n also =
      both_ways (eqb ip one) (value 0 ip / 1 == value 0 one / 1)
        (λ h.
          let e = ap (λ x. value 0 x / 1) ((eqb_iff ip one).0 h) in
          (==_iff (value 0 ip / 1) (value 0 one / 1)).1 e)
        λ h.
          let e = (==_iff (value 0 ip / 1) (value 0 one / 1)).0 h in
          let same : value 0 ip ≡ value 0 one = omega (arith, e) in
          (eqb_iff ip one).1 (value-inj 0 0 ip one (omega arith) (la, (lb, all)) also same).1
    where
      both_ways : (x y : Bool) → (x ≡ true → y ≡ true) → (y ≡ true → x ≡ true) → x ≡ y
      both_ways true true f g = refl
      both_ways true false f g = sym (f refl)
      both_ways false true f g = g refl
      both_ways false false f g = refl

  verdict6 : verdict none ip ≡ in_any 128 ip blocks6
  verdict6 =
      let long : (length ip == 16) ≡ true = ground arith in
      let one_byte : 1 < 256 = omega arith in
      let one : Bytes = replicate 15 0 ++ (1 ∷ []) in
      let one_bytes : All IsByte one = zeros-IsByte 15 (1 ∷ []) (one_byte, tt) in
      let zero_bytes : All IsByte (replicate 16 0) = zeros-IsByte 16 [] tt in
      if_tests (length ip == 16) (eqb ip one) ((a == 254) && (b / 64 == 2))
        ((a == 255) && (b % 16 == 2)) (a == 255) (eqb ip (replicate 16 0)) (a / 2 == 126) long
        (λ h. ground arith)
      ∙ same_or _ _ _ _ (exact one refl one_bytes) (
          same_or _ _ _ _ unicast (
            same_or _ _ _ _ group (
              same_or _ _ _ _ (exact (replicate 16 0) refl zero_bytes)
                (same_or _ _ _ _ private_use refl))))

verdict6_of :
    (ip : Bytes) → length ip ≡ 16 → All IsByte ip → verdict none ip ≡ in_any 128 ip blocks6
verdict6_of (a ∷ b ∷ rest) n (la, (lb, all)) = verdict6 a b rest la lb all (omega arith)
verdict6_of [] n all = absurd (omega arith)
verdict6_of (a ∷ []) n all = absurd (omega arith)

All-drop : (n : ℕ) (bs : Bytes) → All IsByte bs → All IsByte (drop n bs)
All-drop zero bs all = all
All-drop (suc n) [] all = tt
All-drop (suc n) (b ∷ bs) (lt, all) = All-drop n bs all

to4_bytes : (ip ip4 : Bytes) → to4 ip ≡ some ip4 → All IsByte ip → (length ip4 ≡ 4) × All IsByte ip4
unfolding to4
to4_bytes ip ip4 e all = elim (Bool-cases (length ip == 4)) [
  | inl four ↦
      let same : some ip ≡ some ip4 = rw (to4, four) at e in
      let eq : ip ≡ ip4 = cc in
      (subst (λ u. length u ≡ 4) eq (ground arith), subst (All IsByte) eq all)
  | inr other ↦ elim (Bool-cases ((length ip == 16) && has_prefix ip mapped_prefix)) [
    | inl mapped ↦
        let same : some (drop 12 ip) ≡ some ip4 = rw (to4, other, mapped) at e in
        let eq : drop 12 ip ≡ ip4 = cc in
        let size : length (drop 12 ip) ≡ 4 = ground (arith, length-drop 12 ip) in
        (subst (λ u. length u ≡ 4) eq size, subst (All IsByte) eq (All-drop 12 ip all))
    | inr plain ↦ let wrong : none ≡ some ip4 = rw (to4, other, plain) at e in cc
  ]
]

to4_four : (ip : Bytes) → length ip ≡ 4 → to4 ip ≡ some ip
unfolding to4
to4_four ip n = let four : (length ip == 4) ≡ true = ground arith in rw (to4, four)

not_nil : (ip : Bytes) → 0 < length ip → blocked_ip ip ≡ verdict (to4 ip) ip
unfolding blocked_ip
not_nil [] lt = absurd (omega arith)
not_nil (b ∷ bs) lt = refl

-- Of the addresses of 4 and of 16 bytes `blockedIP` refuses exactly those in the blocks: one of
-- IPv4, also as IPv6, those of `blocks4`, any other those of `blocks6`.
pub blocked_ip-is_refused :
    (ip : Bytes)
    → (length ip ≡ 4) ⊎ (length ip ≡ 16)
    → All IsByte ip
    → blocked_ip ip ≡ is_refused ip
blocked_ip-is_refused ip size all =
    not_nil ip (elim size [ inl n ↦ omega arith | inr n ↦ omega arith ])
    ∙ elim (Option-cases (to4 ip)) [
      | inr (ip4, e) ↦
          let (four, bytes4) = to4_bytes ip ip4 e all in
          ap (λ o. verdict o ip) e
          ∙ verdict4_of ip4 ip four bytes4
          ∙ sym (
              ap (λ o. elim o [ some ip4 ↦ in_any 32 ip4 blocks4 | none ↦ in_any 128 ip blocks6 ])
                e)
      | inl e ↦
          ap (λ o. verdict o ip) e
          ∙ verdict6_of ip (elim size [ inl n ↦ (let four = to4_four ip n in cc) | inr n ↦ n ]) all
          ∙ sym (
              ap (λ o. elim o [ some ip4 ↦ in_any 32 ip4 blocks4 | none ↦ in_any 128 ip blocks6 ])
                e)
    ]
