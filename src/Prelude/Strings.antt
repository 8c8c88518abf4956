-- ===== src/Prelude/Strings.antt =====
-- More of Go's `strings` and `fmt`, on lists of bytes: searching, trimming, splitting, scanning.
use Prim.Native.Nat.{ℕ, zero, suc, ◌+◌, ◌-◌, ◌*◌, ◌/◌, ◌%◌, ◌^◌}
use mathlib.Core.Bool.{Bool, true, false, ◌&&◌, ◌||◌}
use mathlib.Core.List.{List, [], ◌∷◌, ◌++◌, reverse}
use mathlib.Core.Option
use mathlib.Core.Option.{Option, none, some}
use packet_lab.Prelude.Tests.{ltb, leb, ◌==◌, if◌then◌else◌}
use packet_lab.Prelude.Text.{Bytes, has_prefix}
use packet_lab.Prelude.Int.{ℤ, pos, negsuc}

abbrev pub is_some {ℓ} : {A : Type ℓ} → Option A → Bool
is_some none = false
is_some (some a) = true

-- strings.Index(s, p) for a p that is not empty
unfoldable pub index_of : Bytes → Bytes → Option ℕ
index_of p [] = none
index_of p (b ∷ bs) =
    let later = Option.map (λ i. suc i) (index_of p bs) in
    if has_prefix (b ∷ bs) p then some 0 else later

-- strings.Contains
unfoldable pub contains : Bytes → Bytes → Bool
contains s p = is_some (index_of p s)

-- the white space of strings.TrimSpace that is ASCII
abbrev pub is_space : ℕ → Bool
is_space c = (leb 9 c && leb c 13) || (c == 32)

unfoldable pub drop_while : (ℕ → Bool) → Bytes → Bytes
drop_while p [] = []
drop_while p (b ∷ bs) = let r = drop_while p bs in if p b then r else b ∷ bs

-- cut off at both ends what satisfies the test
unfoldable pub trim_by : (ℕ → Bool) → Bytes → Bytes
trim_by p s = reverse (drop_while p (reverse (drop_while p s)))

-- strings.TrimSpace
unfoldable pub trim_space : Bytes → Bytes
trim_space = trim_by is_space

abbrev pub glue : ℕ → List Bytes → List Bytes
glue b [] = (b ∷ []) ∷ []
glue b (l ∷ ls) = (b ∷ l) ∷ ls

-- strings.Split(s, sep) for a separator of one byte
unfoldable pub split_on : ℕ → Bytes → List Bytes
split_on c [] = [] ∷ []
split_on c (b ∷ bs) = let r = split_on c bs in if b == c then [] ∷ r else glue b r

-- strings.CutPrefix(s, p)
unfoldable pub cut_prefix : Bytes → Bytes → Option Bytes
cut_prefix s [] = some s
cut_prefix [] (y ∷ ys) = none
cut_prefix (x ∷ xs) (y ∷ ys) = let r = cut_prefix xs ys in if x == y then r else none

abbrev pub digit? : ℕ → Option ℕ
digit? c = if leb b'0' c && leb c b'9' then some (c - b'0') else none

abbrev pub hex_digit? : ℕ → Option ℕ
hex_digit? c =
    if leb b'0' c && leb c b'9'
    then some (c - b'0')
    else if leb b'a' c && leb c b'f'
    then some (c - b'a' + 10)
    else if leb b'A' c && leb c b'F'
    then some (c - b'A' + 10)
    else none

-- the longest run of digits at the front, as a number; `none` if there is no digit
unfoldable pub scan_digits : (ℕ → Option ℕ) → ℕ → Option ℕ → Bytes → Option ℕ
scan_digits digit base acc [] = acc
scan_digits digit base acc (c ∷ cs) = elim (digit c) [
  | none ↦ acc
  | some d ↦ scan_digits digit base (some (Option.get_or acc 0 * base + d)) cs
]

abbrev within_u64 : Option ℕ → Option ℕ
within_u64 none = none
within_u64 (some n) = if ltb n (2 ^ 64) then some n else none

-- fmt.Sscanf(s, "%x", &u) into a uint64, for an s without leading white space; `none` is an error
unfoldable pub scan_hex : Bytes → Option ℕ
scan_hex s = within_u64 (scan_digits hex_digit? 16 none s)

abbrev positive : Option ℕ → Option ℤ
positive none = none
positive (some n) = if ltb n (2 ^ 63) then some (pos n) else none

abbrev negative : Option ℕ → Option ℤ
negative none = none
negative (some zero) = some (pos 0)
negative (some (suc n)) = if ltb n (2 ^ 63) then some (negsuc n) else none

-- fmt.Sscanf(s, "%d", &i) into an int, for an s without leading white space
unfoldable pub scan_int : Bytes → Option ℤ
scan_int [] = none
scan_int (c ∷ cs) =
    if c == b'-'
    then negative (scan_digits digit? 10 none cs)
    else if c == b'+'
    then positive (scan_digits digit? 10 none cs)
    else positive (scan_digits digit? 10 none (c ∷ cs))

unfoldable pub decimal_upto : ℕ → ℕ → Bytes
decimal_upto zero n = []
decimal_upto (suc fuel) n =
    let last = (b'0' + n % 10) ∷ [] in
    elim (ltb n 10) [ true ↦ last | false ↦ decimal_upto fuel (n / 10) ++ last ]

-- fmt.Sprintf("%d", n); a number has fewer digits than it counts, and one more
unfoldable pub decimal : ℕ → Bytes
unfolding decimal_upto
decimal n = decimal_upto (suc n) n
