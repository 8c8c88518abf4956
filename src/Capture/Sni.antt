-- ===== src/Capture/Sni.antt =====
-- internal/capture/engine.go: `extractSNI`, the server's name in a TLS ClientHello. A read out of
-- bounds would panic, and a slice past the end too: the model has a result for it.
mod Safe
mod Reading
mod Hello
mod Tests
use packet_lab.Prelude.{
  ℕ, zero, suc, ◌+◌, ◌*◌, Bool, ◌&&◌, Option, none, some, [], ltb, leb, ◌==◌, if◌then◌else◌, length,
  get_elem?, take, drop, Bytes,
}

pub data Sni : Type 0 where
  named : Bytes → Sni
  panicked : Sni
  out_of_fuel : Sni

-- an early return of ""
abbrev pub need : Bool → Sni → Sni
need ok rest = if ok then rest else named []

-- data[offset]
unfoldable pub byte : Bytes → ℕ → (ℕ → Sni) → Sni
byte buf offset k = elim (get_elem? buf offset) [ none ↦ panicked | some b ↦ k b ]

-- int(data[offset])<<8 | int(data[offset+1])
unfoldable pub u16 : Bytes → ℕ → (ℕ → Sni) → Sni
unfolding byte
u16 buf offset k = byte buf offset (λ hi. byte buf (offset + 1) (λ lo. k (hi * 256 + lo)))

-- data[from:to]
unfoldable pub slice : Bytes → ℕ → ℕ → Sni
slice buf from size =
    if leb (from + size) (length buf) then named (take size (drop from buf)) else panicked

-- the smaller end
abbrev pub at_most : ℕ → ℕ → ℕ
at_most a b = if ltb b a then b else a

-- the loop over the names of the list
unfoldable pub names_from : ℕ → Bytes → ℕ → ℕ → Sni
names_from zero buf offset end = out_of_fuel
names_from (suc fuel) buf offset end = need (leb (offset + 3) end) (
    byte buf offset (λ type. u16 buf (offset + 1) (λ size.
      let later = names_from fuel buf (offset + 3 + size) end in
      if (type == 0) && leb (offset + 3 + size) end then slice buf (offset + 3) size else later)))

-- the extension with the names
unfoldable pub name_list : Bytes → ℕ → ℕ → Sni
name_list buf offset end = need (leb (offset + 2) end) (
    u16 buf offset
      (λ size. names_from (suc (length buf)) buf (offset + 2) (at_most (offset + 2 + size) end)))

-- the loop over the extensions
unfoldable pub extensions_from : ℕ → Bytes → ℕ → ℕ → Sni
extensions_from zero buf offset end = out_of_fuel
extensions_from (suc fuel) buf offset end = need (leb (offset + 4) end) (
    u16 buf offset (λ type. u16 buf (offset + 2) (λ size.
      let later = extensions_from fuel buf (offset + 4 + size) end in
      if type == 0 then name_list buf (offset + 4) end else later)))

unfoldable pub extensions : Bytes → ℕ → Sni
extensions buf offset = need (leb (offset + 2) (length buf)) (
    u16 buf offset (λ size.
      extensions_from (suc (length buf)) buf (offset + 2)
        (at_most (offset + 2 + size) (length buf))))

unfoldable pub compression_methods : Bytes → ℕ → Sni
compression_methods buf offset =
    need (ltb offset (length buf)) (byte buf offset (λ size. extensions buf (offset + 1 + size)))

unfoldable pub cipher_suites : Bytes → ℕ → Sni
cipher_suites buf offset =
    need (leb (offset + 2) (length buf))
      (u16 buf offset (λ size. compression_methods buf (offset + 2 + size)))

-- `extractSNI`: the record header, the handshake's type and length, the version and the random bytes
-- have a fixed size
unfoldable pub extract_sni : Bytes → Sni
extract_sni buf = need (leb 44 (length buf) && leb (5 + 4) (length buf)) (
    byte buf 5 (λ type.
      need
        ((type == 1)
          && (leb (9 + 2) (length buf) && (leb (11 + 32) (length buf) && ltb 43 (length buf))))
        (byte buf 43 (λ size. cipher_suites buf (43 + 1 + size)))))
