-- ===== src/Storage/Texts.antt =====
-- internal/store/store.go: `truncateStr`, which cuts what is stored, and `escapeLike`, which makes a
-- pattern of what the user types. The masks of the source are ranges here, as a byte is below 256.
mod Runes
mod Cuts
mod Fits
mod Like
mod Tests
use packet_lab.Prelude.{
  ℕ, zero, suc, ◌+◌, ◌-◌, Bool, ◌&&◌, Option, none, some, [], ◌∷◌, ◌++◌, ltb, leb, ◌==◌,
  if◌then◌else◌, length, take, get_or, Bytes,
}

-- `b&0xC0 == 0x80`
abbrev pub is_continuation : ℕ → Bool
is_continuation b = leb 128 b && ltb b 192

-- the loop of `truncateStr`, from one above its `i`, and with the steps that are left
unfoldable pub back : ℕ → Bytes → ℕ → ℕ
back zero s j = j
back (suc steps) s zero = zero
back (suc steps) s (suc i) =
    let before = back steps s i in if is_continuation (get_or s i 0) then before else suc i

-- the length of the rune that a byte begins
abbrev pub rune_len : ℕ → Option ℕ
rune_len b =
    if ltb b 128
    then some 1
    else if leb 192 b && ltb b 224
    then some 2
    else if leb 224 b && ltb b 240
    then some 3
    else if leb 240 b && ltb b 248
    then some 4
    else none

-- the end of `truncateStr`, at a byte that does not continue a rune
unfoldable pub cut_rune : Bytes → ℕ → ℕ → Option ℕ → Bytes
cut_rune s max i none = take max s
cut_rune s max i (some n) = if ltb max (i + n) then take i s else take max s

abbrev pub cut_at : Bytes → ℕ → ℕ → Bytes
cut_at s max zero = take max s
cut_at s max (suc i) =
    if leb (suc i + 3) max then take max s else cut_rune s max i (rune_len (get_or s i 0))

-- `truncateStr`
unfoldable pub truncate_str : Bytes → ℕ → Bytes
truncate_str s max = if leb (length s) max then s else cut_at s max (back 3 s max)

-- strings.ReplaceAll, of a byte
unfoldable pub replace_all : Bytes → ℕ → Bytes → Bytes
replace_all [] old new = []
replace_all (c ∷ s) old new =
    let rest = replace_all s old new in if c == old then new ++ rest else c ∷ rest

-- `escapeLike`
unfoldable pub escape_like : Bytes → Bytes
escape_like s =
    let doubled = replace_all s b'\\' (b'\\' ∷ b'\\' ∷ []) in
    replace_all (replace_all doubled b'%' (b'\\' ∷ b'%' ∷ [])) b'_' (b'\\' ∷ b'_' ∷ [])
