-- ===== src/Prelude/Words.antt =====
-- 64-bit unsigned arithmetic, and `&` with a mask of ones.
use Prim.Native.Nat.{
  ℕ, zero, suc, ◌+◌, ◌-◌, ◌*◌, ◌/◌, ◌%◌, ◌^◌, ◌≤◌, ◌<◌, min, bit_and, digits, bit_and-bitwise,
}
use mathlib.Core.Path.{◌≡◌, sym, ◌∙◌, ap}
use native.Mathlib.Nat.{
  div-add-mod', mul-add-mod_self_right, mod-eq_of_lt, mod-lt, one-le-pow, pow-suc, zero-mod,
}
use native.Mathlib.Omega.{arith}

abbrev pub u64 : ℕ → ℕ
u64 n = n % 2 ^ 64

abbrev pub add_u64 : ℕ → ℕ → ℕ
add_u64 a b = u64 (a + b)

-- `-` on ℕ is truncated, so the modulus is added first.
abbrev pub sub_u64 : ℕ → ℕ → ℕ
sub_u64 a b = u64 (a + 2 ^ 64 - b)

-- The remainder is unique.
mod_unique : (q m r : ℕ) → r < m → (q * m + r) % m ≡ r
mod_unique q m r h = mul-add-mod_self_right q m r ∙ mod-eq_of_lt h

mod_double : (a p : ℕ) → 0 < p → a % (2 * p) ≡ a / 2 % p * 2 + a % 2
mod_double a p h =
    ap (λ n. n % (2 * p)) split ∙ mod_unique (a / 2 / p) (2 * p) (a / 2 % p * 2 + a % 2) small
  where
    small : a / 2 % p * 2 + a % 2 < 2 * p
    small = omega (arith, mod-lt (a / 2) h)

    split : a ≡ a / 2 / p * (2 * p) + (a / 2 % p * 2 + a % 2)
    split = omega (arith, div-add-mod' (a / 2) p)

-- `&` as its definition runs, digit by digit, on fuel.
abbrev and_upto : ℕ → ℕ → ℕ → ℕ
and_upto fuel a b = digits (λ _. 0) min fuel a b

pub two_pow : (k : ℕ) → 2 ^ suc k ≡ 2 * 2 ^ k
two_pow k = omega (arith, pow-suc 2 k)

mask_half : (k : ℕ) → ((2 ^ suc k - 1) / 2 ≡ 2 ^ k - 1) × ((2 ^ suc k - 1) % 2 ≡ 1)
mask_half k = omega (arith, pow-suc 2 k, one-le-pow k 2 (omega arith))

mask_upto : (f k a : ℕ) → a ≤ f → and_upto f a (2 ^ k - 1) ≡ a % 2 ^ k
mask_upto zero k zero h = sym (zero-mod (2 ^ k))
mask_upto zero k (suc a) h = absurd (omega arith)
mask_upto (suc f) k zero h = sym (zero-mod (2 ^ k))
mask_upto (suc f) zero (suc a) h = omega (arith, mask_upto f zero (suc a / 2) (omega arith))
mask_upto (suc f) (suc k) (suc a) h =
    rw ((mask_half k).0, (mask_half k).1)
      (omega (
        arith,
        mask_upto f k (suc a / 2) (omega arith),
        mod_double (suc a) (2 ^ k) (one-le-pow k 2 (omega arith)),
        ap (λ p. suc a % p) (two_pow k),
      ))

-- `&` with k ones is the remainder by 2 ^ k.
pub bit_and_mask : (k a : ℕ) → bit_and a (2 ^ k - 1) ≡ a % 2 ^ k
bit_and_mask k a = bit_and-bitwise a (2 ^ k - 1) ∙ mask_upto a k a (omega arith)
