-- ===== src/Capture/Sni/Safe.antt =====
-- `extractSNI` reads inside the data and ends.
use packet_lab.Prelude.{
  ℕ, zero, suc, ◌+◌, ◌≤◌, ◌<◌, ◌≡◌, ◌*◌, some, length, get_elem?, Bytes, arith, refl, [], ◌∷◌, Bool,
  true, false, leb, ltb, leb→le, le→leb, ltb→lt, if◌then◌else◌, ◌==◌, ◌&&◌, and_iff,
}
use packet_lab.Capture.Sni.{
  Sni, named, panicked, out_of_fuel, need, byte, u16, slice, at_most, names_from, name_list,
  extensions_from, extensions, compression_methods, cipher_suites, extract_sni,
}

-- an answer, neither a panic nor a loop
abbrev pub Answers : Sni → Type 0
Answers (named name) = Unit {0}
Answers panicked = ⊥
Answers out_of_fuel = ⊥

at_most-le : (a b : ℕ) → at_most a b ≤ b
at_most-le a b = ground arith

if-Answers :
    (b : Bool) (s t : Sni) → (b ≡ true → Answers s) → Answers t → Answers (if b then s else t)
if-Answers true s t h k = h refl
if-Answers false s t h k = k

need-Answers : (b : Bool) (s : Sni) → (b ≡ true → Answers s) → Answers (need b s)
need-Answers true s h = h refl
need-Answers false s h = tt

get_elem?-lt : (xs : Bytes) (i : ℕ) → i < length xs → (b : ℕ) × (get_elem? xs i ≡ some b)
get_elem?-lt [] i lt = absurd (omega arith)
get_elem?-lt (x ∷ xs) zero lt = (x, refl)
get_elem?-lt (x ∷ xs) (suc i) lt = get_elem?-lt xs i (omega arith)

module _ (buf : Bytes) where
  byte-Answers :
      (i : ℕ) (k : ℕ → Sni) → i < length buf → ((b : ℕ) → Answers (k b)) → Answers (byte buf i k)
  unfolding byte
  byte-Answers i k lt h = let (b, e) = get_elem?-lt buf i lt in rw (byte, e) (h b)

  u16-Answers :
      (i : ℕ) (k : ℕ → Sni) → i + 2 ≤ length buf → ((b : ℕ) → Answers (k b)) → Answers (u16 buf i k)
  unfolding u16
  u16-Answers i k le h =
      byte-Answers i (λ hi. byte buf (i + 1) (λ lo. k (hi * 256 + lo))) (omega arith)
        (λ hi.
          byte-Answers (i + 1) (λ lo. k (hi * 256 + lo)) (omega arith) (λ lo. h (hi * 256 + lo)))

  slice-Answers : (i n : ℕ) → i + n ≤ length buf → Answers (slice buf i n)
  unfolding slice
  slice-Answers i n le = rw (slice, le→leb (i + n) (length buf) le) tt

  names-Answers :
      (fuel i end : ℕ)
      → end ≤ length buf
      → 0 < fuel
      → end < fuel + i
      → Answers (names_from fuel buf i end)
  unfolding names_from
  names-Answers zero i end le some_fuel lt = absurd (omega arith)
  names-Answers (suc fuel) i end le some_fuel lt = need-Answers (leb (i + 3) end) _ λ inside.
      let room : i + 3 ≤ end = leb→le (i + 3) end inside in
      byte-Answers i _ (omega arith) λ type. u16-Answers (i + 1) _ (omega arith) λ size.
        if-Answers ((type == 0) && leb (i + 3 + size) end) _ _
          (λ test. slice-Answers (i + 3) size (
            omega (
              arith,
              leb→le (i + 3 + size) end ((and_iff (type == 0) (leb (i + 3 + size) end)).0 test).1,
            )))
          (names-Answers fuel (i + 3 + size) end le (omega arith) (omega arith))

  name_list-Answers : (i end : ℕ) → end ≤ length buf → Answers (name_list buf i end)
  unfolding name_list
  name_list-Answers i end le = need-Answers (leb (i + 2) end) _ λ inside.
      u16-Answers i _ (omega (arith, leb→le (i + 2) end inside)) λ size.
        names-Answers (suc (length buf)) (i + 2) (at_most (i + 2 + size) end)
          (omega (arith, at_most-le (i + 2 + size) end)) (omega arith)
          (omega (arith, at_most-le (i + 2 + size) end))

  extensions_from-Answers :
      (fuel i end : ℕ)
      → end ≤ length buf
      → 0 < fuel
      → end < fuel + i
      → Answers (extensions_from fuel buf i end)
  unfolding extensions_from
  extensions_from-Answers zero i end le some_fuel lt = absurd (omega arith)
  extensions_from-Answers (suc fuel) i end le some_fuel lt =
      need-Answers (leb (i + 4) end) _ λ inside.
        let room : i + 4 ≤ end = leb→le (i + 4) end inside in
        u16-Answers i _ (omega arith) λ type. u16-Answers (i + 2) _ (omega arith) λ size.
          if-Answers (type == 0) _ _ (λ _. name_list-Answers (i + 4) end le)
            (extensions_from-Answers fuel (i + 4 + size) end le (omega arith) (omega arith))

  extensions-Answers : (i : ℕ) → Answers (extensions buf i)
  unfolding extensions
  extensions-Answers i = need-Answers (leb (i + 2) (length buf)) _ λ inside.
      u16-Answers i _ (leb→le (i + 2) (length buf) inside) λ size.
        let end = at_most (i + 2 + size) (length buf) in
        extensions_from-Answers (suc (length buf)) (i + 2) end
          (at_most-le (i + 2 + size) (length buf)) (omega arith)
          (omega (arith, at_most-le (i + 2 + size) (length buf)))

  compression-Answers : (i : ℕ) → Answers (compression_methods buf i)
  unfolding compression_methods
  compression-Answers i = need-Answers (ltb i (length buf)) _ λ inside.
      byte-Answers i _ (ltb→lt i (length buf) inside) λ size. extensions-Answers (i + 1 + size)

  cipher_suites-Answers : (i : ℕ) → Answers (cipher_suites buf i)
  unfolding cipher_suites
  cipher_suites-Answers i = need-Answers (leb (i + 2) (length buf)) _ λ inside.
      u16-Answers i _ (leb→le (i + 2) (length buf) inside)
        λ size. compression-Answers (i + 2 + size)

  -- On any data `extractSNI` returns a name or the empty string: it does not read out of bounds, and its
  -- two loops end.
  pub extract_sni-Answers : Answers (extract_sni buf)
  unfolding extract_sni
  extract_sni-Answers = need-Answers (leb 44 (length buf) && leb (5 + 4) (length buf)) _ λ long.
      let room : 44 ≤ length buf =
        leb→le 44 (length buf)
          ((and_iff (leb 44 (length buf)) (leb (5 + 4) (length buf))).0 long).0 in
      byte-Answers 5 _ (omega arith) λ type.
        need-Answers _ _
          λ _. byte-Answers 43 _ (omega arith) λ size. cipher_suites-Answers (43 + 1 + size)
