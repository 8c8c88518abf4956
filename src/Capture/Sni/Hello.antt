-- ===== src/Capture/Sni/Hello.antt =====
-- A ClientHello as RFC 8446 and RFC 6066 lay it out, and what `extractSNI` finds in it.
use packet_lab.Prelude.{
  ℕ, zero, suc, ◌+◌, ◌≤◌, ◌<◌, ◌≡◌, ◌≢◌, ap, ◌∙◌, refl, false, ◌&&◌, List, [], ◌∷◌, ◌++◌, ltb, leb,
  ◌==◌, le→leb, lt→ltb, if◌then◌else◌, length, length-append, Bytes, All, arith,
}
use packet_lab.Capture.Sni.{
  named, slice, at_most, names_from, name_list, extensions_from, extensions, compression_methods,
  cipher_suites, extract_sni,
}
use packet_lab.Capture.Sni.Reading.{At, be16, need-true, skip, byte_at, u16_at, slice_at, move}

pub record Extension : Type 0 where
  pub type : ℕ
  pub content : Bytes

abbrev pub encoded : List Extension → Bytes → Bytes
encoded [] rest = rest
encoded (x ∷ xs) rest = be16 x.type (be16 (length x.content) (x.content ++ encoded xs rest))

-- the extension with one name
abbrev pub server_name : Bytes → Bytes → Bytes
server_name host rest =
    be16 0 (be16 (length host + 5) (be16 (length host + 3) (0 ∷ be16 (length host) (host ++ rest))))

-- what stands behind the cipher suites
abbrev pub methods_bytes : Bytes → List Extension → Bytes → Bytes → Bytes
methods_bytes methods xs host rest =
    length methods
    ∷ (methods
        ++ be16 (length (encoded xs (server_name host rest))) (encoded xs (server_name host rest)))

not_zero : (n : ℕ) → n ≢ 0 → (n == 0) ≡ false
not_zero n ne = ground arith

length-encoded :
    (xs : List Extension) (r t : Bytes)
    → length r ≤ length t
    → length (encoded xs r) ≤ length (encoded xs t)
length-encoded [] r t le = le
length-encoded (x ∷ xs) r t le = omega (
  arith,
  length-encoded xs r t le,
  length-append x.content (encoded xs r),
  length-append x.content (encoded xs t),
)

length-encoded-ge : (xs : List Extension) (r : Bytes) → length xs ≤ length (encoded xs r)
length-encoded-ge [] r = omega arith
length-encoded-ge (x ∷ xs) r =
    omega (arith, length-encoded-ge xs r, length-append x.content (encoded xs r))

module _ {buf : Bytes} where
  -- one name
  one_name :
      (fuel : ℕ) {o : ℕ} (end : ℕ) (host rest : Bytes)
      → At buf o (0 ∷ be16 (length host) (host ++ rest))
      → end ≡ o + 3 + length host
      → names_from (suc fuel) buf o end ≡ named host
  unfolding names_from
  one_name fuel {o = o} end host rest a e =
      let size = length host in
      let a1 = skip (0 ∷ []) a in
      let a2 : At buf (o + 3) (host ++ rest) = move (skip (be16 size []) a1) (omega arith) in
      need-true (leb (o + 3) end) _ (le→leb (o + 3) end (omega arith))
      ∙ byte_at _ a
      ∙ u16_at size _ a1
      ∙ ap (λ b. if b then slice buf (o + 3) size else names_from fuel buf (o + 3 + size) end)
          (le→leb (o + 3 + size) end (omega arith))
      ∙ slice_at host rest a2

  -- the list with one name
  name_at :
      {o : ℕ} (end : ℕ) (host rest : Bytes)
      → At buf o (be16 (length host + 3) (0 ∷ be16 (length host) (host ++ rest)))
      → o + 5 + length host ≤ end
      → name_list buf o end ≡ named host
  unfolding name_list
  name_at {o = o} end host rest a le =
      let size = length host in
      need-true (leb (o + 2) end) _ (le→leb (o + 2) end (omega arith))
      ∙ u16_at (size + 3) _ a
      ∙ one_name (length buf) (at_most (o + 2 + (size + 3)) end) host rest
          (skip (be16 (size + 3) []) a) (ground arith)

  -- the extensions before the name are passed over
  name_found :
      (fuel : ℕ) {o : ℕ} (end : ℕ) (xs : List Extension) (host rest : Bytes)
      → All (λ x. x.type ≢ 0) xs
      → At buf o (encoded xs (server_name host rest))
      → length xs < fuel
      → o + length (encoded xs (server_name host [])) ≤ end
      → extensions_from fuel buf o end ≡ named host
  unfolding extensions_from
  name_found zero end xs host rest other a lt le = absurd (omega arith)
  name_found (suc fuel) {o = o} end [] host rest other a lt le =
      let size = length host in
      let whole : o + 9 + length (host ++ []) ≤ end = omega arith in
      let a2 = skip (be16 0 []) a in
      let a4 : At buf (o + 4) (be16 (size + 3) (0 ∷ be16 size (host ++ rest))) =
        move (skip (be16 (size + 5) []) a2) (omega arith) in
      need-true (leb (o + 4) end) _ (le→leb (o + 4) end (omega arith))
      ∙ u16_at 0 _ a
      ∙ u16_at (size + 5) _ a2
      ∙ name_at end host rest a4 (omega (arith, length-append host []))
  name_found (suc fuel) {o = o} end (x ∷ xs) host rest (ne, other) a lt le =
      let size = length x.content in
      let tail = encoded xs (server_name host rest) in
      let a2 = skip (be16 x.type []) a in
      let a4 = skip (be16 size []) a2 in
      let next : At buf (o + 4 + size) tail = move (skip x.content a4) (omega arith) in
      need-true (leb (o + 4) end) _ (le→leb (o + 4) end (omega arith))
      ∙ u16_at x.type _ a
      ∙ u16_at size _ a2
      ∙ ap
          (λ b.
            if b then name_list buf (o + 4) end else extensions_from fuel buf (o + 4 + size) end)
          (not_zero x.type ne)
      ∙ name_found fuel end xs host rest other next (omega arith)
          (omega (arith, length-append x.content (encoded xs (server_name host []))))

  extensions_at :
      {o : ℕ} (xs : List Extension) (host rest : Bytes)
      → All (λ x. x.type ≢ 0) xs
      → At buf o
          (be16 (length (encoded xs (server_name host rest))) (encoded xs (server_name host rest)))
      → extensions buf o ≡ named host
  unfolding extensions
  extensions_at {o = o} xs host rest other a =
      let n = length (encoded xs (server_name host rest)) in
      let fit : o + 2 + n ≡ length buf = omega (arith, a.fits) in
      let shorter =
        length-encoded xs (server_name host []) (server_name host rest)
          (omega (arith, length-append host [], length-append host rest)) in
      need-true (leb (o + 2) (length buf)) _ (le→leb (o + 2) (length buf) (omega arith))
      ∙ u16_at n _ a
      ∙ name_found (suc (length buf)) (at_most (o + 2 + n) (length buf)) xs host rest other
          (skip (be16 n []) a) (omega (arith, length-encoded-ge xs (server_name host rest)))
          (ground arith)

  methods_at :
      {o : ℕ} (methods : Bytes) (xs : List Extension) (host rest : Bytes)
      → All (λ x. x.type ≢ 0) xs
      → At buf o (methods_bytes methods xs host rest)
      → compression_methods buf o ≡ named host
  unfolding compression_methods
  methods_at {o = o} methods xs host rest other a =
      need-true (ltb o (length buf)) _ (lt→ltb o (length buf) (omega (arith, a.fits)))
      ∙ byte_at _ a
      ∙ extensions_at xs host rest other (skip methods (skip (length methods ∷ []) a))

  suites_at :
      {o : ℕ} (suites methods : Bytes) (xs : List Extension) (host rest : Bytes)
      → All (λ x. x.type ≢ 0) xs
      → At buf o (be16 (length suites) (suites ++ methods_bytes methods xs host rest))
      → cipher_suites buf o ≡ named host
  unfolding cipher_suites
  suites_at {o = o} suites methods xs host rest other a =
      need-true (leb (o + 2) (length buf)) _ (le→leb (o + 2) (length buf) (omega (arith, a.fits)))
      ∙ u16_at (length suites) _ a
      ∙ methods_at methods xs host rest other (skip suites (skip (be16 (length suites) []) a))

-- a ClientHello: the 5 bytes of the record's header; the handshake's length, the version and the random
-- bytes, which are 37; then what has a length of its own
pub record Hello : Type 0 where
  pub record_header : Bytes
  pub fixed : Bytes
  pub session : Bytes
  pub suites : Bytes
  pub methods : Bytes
  pub before : List Extension
  pub host : Bytes
  pub after : Bytes

module _ (h : Hello) where
  open h use {record_header, fixed, session, suites, methods, before, host, after}

  abbrev after_fixed : Bytes
  after_fixed =
      length session
      ∷ (session ++ be16 (length suites) (suites ++ methods_bytes methods before host after))

  abbrev pub hello_bytes : Bytes
  hello_bytes = record_header ++ (1 ∷ (fixed ++ after_fixed))

  -- `extractSNI` returns the host of a ClientHello that has 5 bytes in front and 37 bytes up to
  -- the session id, whatever extensions of other types stand before the host and whatever stands
  -- behind it.
  pub extract_sni-hello_bytes :
      length record_header ≡ 5
      → length fixed ≡ 37
      → All (λ x. x.type ≢ 0) before
      → extract_sni hello_bytes ≡ named host
  unfolding extract_sni
  extract_sni-hello_bytes five thirty_seven other =
      let n = length hello_bytes in
      let start : At hello_bytes 0 hello_bytes = record { here = refl; fits = omega arith } in
      let a5 : At hello_bytes 5 (1 ∷ (fixed ++ after_fixed)) =
        move (skip record_header start) (omega arith) in
      let a43 : At hello_bytes 43 after_fixed =
        move (skip fixed (skip (1 ∷ []) a5)) (omega arith) in
      let a44 : At hello_bytes (44 + length session)
          (be16 (length suites) (suites ++ methods_bytes methods before host after)) =
        move (skip session (skip (length session ∷ []) a43)) (omega arith) in
      let long : 44 ≤ n = omega (arith, a43.fits) in
      need-true (leb 44 n && leb (5 + 4) n) _ (ground arith)
      ∙ byte_at _ a5
      ∙ need-true ((1 == 1) && (leb (9 + 2) n && (leb (11 + 32) n && ltb 43 n))) _ (ground arith)
      ∙ byte_at _ a43
      ∙ suites_at suites methods before host after other a44
