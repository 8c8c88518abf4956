-- ===== src/Api/Addresses/Blocks.antt =====
-- The blocks of addresses that `blockedIP` refuses, by their first address and the length of their prefix.
use packet_lab.Prelude.{
  ℕ, suc, ◌+◌, ◌-◌, ◌*◌, ◌/◌, ◌^◌, ◌<◌, ◌≡◌, refl, sym, ap, ◌∙◌, Bool, true, false, ◌&&◌, ◌||◌,
  Option, none, some, List, [], ◌∷◌, ◌++◌, ◌==◌, if◌then◌else◌, length, Bytes, eqb, replicate,
  arith, All,
}
use native.Mathlib.Nat.{div-div-eq-div-mul, pow-suc}
use packet_lab.Api.Addresses.{to4, is_reserved, is_carrier}

-- the number that bytes write, behind the number that came before
abbrev pub value : ℕ → Bytes → ℕ
value n [] = n
value n (b ∷ bs) = value (n * 256 + b) bs

pub record Block : Type 0 where
  pub base : Bytes
  pub size : ℕ

-- whether an address of so many bits begins as the block does
abbrev pub in_block : ℕ → Bytes → Block → Bool
in_block bits ip blk =
    let below = 2 ^ (bits - blk.size) in value 0 ip / below == value 0 blk.base / below

abbrev pub in_any : ℕ → Bytes → List Block → Bool
in_any bits ip [] = false
in_any bits ip (blk ∷ blks) = in_block bits ip blk || in_any bits ip blks

-- loopback, link-local, multicast of a link, multicast, unspecified, private and shared addresses
abbrev pub blocks4 : List Block
blocks4 =
    record { base = 127 ∷ 0 ∷ 0 ∷ 0 ∷ []; size = 8 }
    ∷ record { base = 169 ∷ 254 ∷ 0 ∷ 0 ∷ []; size = 16 }
    ∷ record { base = 224 ∷ 0 ∷ 0 ∷ 0 ∷ []; size = 24 }
    ∷ record { base = 224 ∷ 0 ∷ 0 ∷ 0 ∷ []; size = 4 }
    ∷ record { base = 0 ∷ 0 ∷ 0 ∷ 0 ∷ []; size = 32 }
    ∷ record { base = 10 ∷ 0 ∷ 0 ∷ 0 ∷ []; size = 8 }
    ∷ record { base = 172 ∷ 16 ∷ 0 ∷ 0 ∷ []; size = 12 }
    ∷ record { base = 192 ∷ 168 ∷ 0 ∷ 0 ∷ []; size = 16 }
    ∷ record { base = 100 ∷ 64 ∷ 0 ∷ 0 ∷ []; size = 10 }
    ∷ []

-- loopback, unicast of a link, multicast, unspecified and private addresses
abbrev pub blocks6 : List Block
blocks6 =
    record { base = replicate 15 0 ++ (1 ∷ []); size = 128 }
    ∷ record { base = 254 ∷ 128 ∷ replicate 14 0; size = 10 }
    ∷ record { base = 255 ∷ replicate 15 0; size = 8 }
    ∷ record { base = replicate 16 0; size = 128 }
    ∷ record { base = 252 ∷ replicate 15 0; size = 7 }
    ∷ []

-- an IPv4 address is in a block of these, also one that is written as an IPv6 address; any other in a
-- block of IPv6
abbrev pub is_refused : Bytes → Bool
is_refused ip = elim (to4 ip) [ some ip4 ↦ in_any 32 ip4 blocks4 | none ↦ in_any 128 ip blocks6 ]

abbrev pub IsByte : ℕ → Type 0
IsByte b = b < 256

pub same_or : (x y p q : Bool) → x ≡ y → p ≡ q → (x || p) ≡ (y || q)
same_or x y p q e f = cc

if_chain :
    (l u m n z p q r c : Bool)
    → (if l || (u || (m || (n || (z || (p || (q || r)))))) then true else c)
      ≡ (l || (u || (m || (n || (z || (p || (q || (r || (c || false)))))))))
if_chain true u m n z p q r c = refl
if_chain false true m n z p q r c = refl
if_chain false false true n z p q r c = refl
if_chain false false false true z p q r c = refl
if_chain false false false false true p q r c = refl
if_chain false false false false false true q r c = refl
if_chain false false false false false false true r c = refl
if_chain false false false false false false false true c = refl
if_chain false false false false false false false false true = refl
if_chain false false false false false false false false false = refl

-- what `blockedIP` says of an address that is not nil
abbrev pub verdict : Option Bytes → Bytes → Bool
verdict ip4 ip = if is_reserved ip4 ip then true else is_carrier ip4

module _ (a b c d : ℕ) (la : a < 256) (lb : b < 256) (lc : c < 256) (ld : d < 256) where
  abbrev ip : Bytes
  ip = a ∷ b ∷ c ∷ d ∷ []

  -- each test of the code is a block
  first_byte : (k : ℕ) → (a == k) ≡ (value 0 ip / 16777216 == k)
  first_byte k = ground arith

  two_bytes : (k l : ℕ) → l < 256 → ((a == k) && (b == l)) ≡ (value 0 ip / 65536 == k * 256 + l)
  two_bytes k l lt = ground arith

  three_bytes : ((a == 224) && ((b == 0) && (c == 0))) ≡ (value 0 ip / 256 == 14680064)
  three_bytes = ground arith

  half_byte : (a / 16 == 14) ≡ (value 0 ip / 268435456 == 14)
  half_byte = ground arith

  all_zero : eqb ip (replicate 4 0) ≡ (value 0 ip / 1 == 0)
  unfolding eqb
  all_zero = ground arith

  twelve_bits : ((a == 172) && (b / 16 == 1)) ≡ (value 0 ip / 1048576 == 2753)
  twelve_bits = ground arith

  ten_bits : ((a == 100) && (b / 64 == 1)) ≡ (value 0 ip / 4194304 == 401)
  ten_bits = ground arith

  verdict4 : (whole : Bytes) → verdict (some ip) whole ≡ in_any 32 ip blocks4
  verdict4 whole =
      let loopback = first_byte 127 in
      let link = two_bytes 169 254 (omega arith) in
      let ten = first_byte 10 in
      let home = two_bytes 192 168 (omega arith) in
      if_chain (a == 127) ((a == 169) && (b == 254)) ((a == 224) && ((b == 0) && (c == 0)))
        (a / 16 == 14) (eqb ip (replicate 4 0)) (a == 10) ((a == 172) && (b / 16 == 1))
        ((a == 192) && (b == 168)) ((a == 100) && (b / 64 == 1))
      ∙ same_or _ _ _ _ loopback (
          same_or _ _ _ _ link (
            same_or _ _ _ _ three_bytes (
              same_or _ _ _ _ half_byte (
                same_or _ _ _ _ all_zero (
                  same_or _ _ _ _ ten (
                    same_or _ _ _ _ twelve_bits
                      (same_or _ _ _ _ home (same_or _ _ _ _ ten_bits refl))))))))

pub verdict4_of :
    (ip whole : Bytes)
    → length ip ≡ 4
    → All IsByte ip
    → verdict (some ip) whole ≡ in_any 32 ip blocks4
verdict4_of (a ∷ b ∷ c ∷ d ∷ []) whole four (la, (lb, (lc, (ld, _)))) =
    verdict4 a b c d la lb lc ld whole
verdict4_of [] whole four all = absurd (omega arith)
verdict4_of (a ∷ []) whole four all = absurd (omega arith)
verdict4_of (a ∷ b ∷ []) whole four all = absurd (omega arith)
verdict4_of (a ∷ b ∷ c ∷ []) whole four all = absurd (omega arith)
verdict4_of (a ∷ b ∷ c ∷ d ∷ e ∷ ip) whole four all = absurd (omega arith)

-- the number of the bytes in front
pub value-div : (n : ℕ) (bs : Bytes) → All IsByte bs → value n bs / 256 ^ length bs ≡ n
value-div n [] all = omega arith
value-div n (b ∷ bs) (lt, all) =
    let p : 256 ^ suc (length bs) ≡ 256 ^ length bs * 256 = pow-suc 256 (length bs) in
    ap (λ k. value (n * 256 + b) bs / k) p
    ∙ sym (div-div-eq-div-mul (value (n * 256 + b) bs) (256 ^ length bs) 256)
    ∙ ap (λ k. k / 256) (value-div (n * 256 + b) bs all)
    ∙ omega arith

pub value-inj :
    (n m : ℕ) (xs ys : Bytes)
    → length xs ≡ length ys
    → All IsByte xs
    → All IsByte ys
    → value n xs ≡ value m ys
    → (n ≡ m) × (xs ≡ ys)
value-inj n m [] [] same all also e = (e, refl)
value-inj n m [] (y ∷ ys) same all also e = absurd (omega arith)
value-inj n m (x ∷ xs) [] same all also e = absurd (omega arith)
value-inj n m (x ∷ xs) (y ∷ ys) same (lx, all) (ly, also) e =
    let (front, back) = value-inj (n * 256 + x) (m * 256 + y) xs ys (omega arith) all also e in
    let here : x ≡ y = omega arith in (omega arith, ap (λ z. z ∷ xs) here ∙ ap (◌∷◌ y) back)
