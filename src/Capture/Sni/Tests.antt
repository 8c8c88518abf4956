-- ===== src/Capture/Sni/Tests.antt =====
-- A ClientHello with an extension in front of the name, and a witness.
use packet_lab.Prelude.{◌≡◌, refl, [], ◌∷◌, bytes, replicate, arith}
use packet_lab.Capture.Sni.{
  named, byte, u16, slice, names_from, name_list, extensions_from, extensions, compression_methods,
  cipher_suites, extract_sni,
}
use packet_lab.Capture.Sni.Safe.{Answers, extract_sni-Answers}
use packet_lab.Capture.Sni.Hello.{Hello, hello_bytes, extract_sni-hello_bytes}

abbrev hello : Hello
hello = record {
  record_header = 22 ∷ 3 ∷ 1 ∷ 0 ∷ 90 ∷ [];
  fixed = replicate 37 7;
  session = 1 ∷ 2 ∷ [];
  suites = 19 ∷ 1 ∷ 19 ∷ 2 ∷ [];
  methods = 0 ∷ [];
  before = record { type = 10; content = 0 ∷ 29 ∷ [] } ∷ [];
  host = bytes "a.io";
  after = 0 ∷ 16 ∷ 0 ∷ 0 ∷ [];
}

read : extract_sni (hello_bytes hello) ≡ named (bytes "a.io")
unfolding extract_sni cipher_suites compression_methods extensions extensions_from name_list
    names_from slice u16 byte
read = refl

not_a_hello : extract_sni (bytes "GET / HTTP/1.1") ≡ named []
unfolding extract_sni
not_a_hello = refl

extract_sni-hello_bytes_example : extract_sni (hello_bytes hello) ≡ named (bytes "a.io")
extract_sni-hello_bytes_example = extract_sni-hello_bytes hello refl refl (omega arith)

extract_sni-Answers_example : Answers (extract_sni (hello_bytes hello))
extract_sni-Answers_example = extract_sni-Answers (hello_bytes hello)
