-- ===== src/Proxy/Bodies/Tests.antt =====
-- A body that is longer than the limit, a host that is skipped, and a witness for each property.
use packet_lab.Prelude.{◌≡◌, refl, [], true, false, none, some, bytes, has_suffix, eqb}
use packet_lab.Prelude.Int.{pos}
use packet_lab.Proxy.Bodies.{
  Reader, error_with_last, meets_error, plus_one, read_limited, read_body_bounded, none_ends,
  should_mitm,
}
use packet_lab.Proxy.Bodies.Whole.{Reads, read_body_bounded-Reads}

abbrev reader : Reader
reader = record { content = bytes "abcdef"; ending = error_with_last }

-- the error comes with the byte that is one too many
one_more :
    read_body_bounded (some reader) (pos 5)
    ≡ some (record {
      head = bytes "abcdef";
      rest = some (record reader { content = [] });
      truncated = false;
      failed = true;
    })
unfolding read_body_bounded read_limited plus_one meets_error
one_more = refl

skipped : should_mitm (λ host. none) (bytes "a.push.apple.com") ≡ false
unfolding should_mitm none_ends has_suffix eqb
skipped = refl

read_body_bounded-Reads_example : Reads reader (pos 4) (read_body_bounded (some reader) (pos 4))
read_body_bounded-Reads_example = read_body_bounded-Reads reader (pos 4)
