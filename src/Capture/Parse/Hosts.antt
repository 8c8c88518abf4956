-- ===== src/Capture/Parse/Hosts.antt =====
-- `formatHostForURL`.
use packet_lab.Prelude.{
  ◌+◌, ◌≡◌, ap, ◌⊎◌, inl, inr, true, ◌||◌, Bytes, bytes, eqb, has_prefix, ltb, drop, take, ◌++◌,
  Bool, [], Bool-cases, Option-cases, has_prefix_self,
}
use packet_lab.Capture.Parse.{count_byte, last_index, is_port_at, format_host_for_url}

abbrev is_bracketed : Bytes → Bool
is_bracketed host = has_prefix host (bytes "[")

kept : (host : Bytes) → is_bracketed host ≡ true → format_host_for_url host ≡ host
unfolding format_host_for_url
kept host h = elim (Bool-cases (eqb host [])) [ inl e ↦ rw (e) | inr e ↦ rw (e, h) ]

-- The host is kept, or the result starts with a bracket.
format_cases :
    (host : Bytes)
    → (format_host_for_url host ≡ host) ⊎ (is_bracketed (format_host_for_url host) ≡ true)
unfolding format_host_for_url
format_cases host =
    elim (Bool-cases (eqb host [] || (is_bracketed host || ltb (count_byte b':' host) 2))) [
      | inl e ↦ inl (rw e)
      | inr e ↦ elim (Option-cases (last_index b':' host)) [
        | inl none_found ↦
            inr (rw (e, none_found) (has_prefix_self (bytes "[") (host ++ bytes "]")))
        | inr (i, found) ↦ elim (Bool-cases (is_port_at host i)) [
          | inl port ↦ inr (
              rw (e, found, port)
                (has_prefix_self (bytes "[") (take i host ++ (bytes "]:" ++ drop (i + 1) host))))
          | inr other ↦ inr (rw (e, found, other) (has_prefix_self (bytes "[") (host ++ bytes "]")))
        ]
      ]
    ]

-- A host that is formatted once is not changed by formatting it again.
pub format_host_twice :
    (host : Bytes) → format_host_for_url (format_host_for_url host) ≡ format_host_for_url host
format_host_twice host = elim (format_cases host) [
  | inl same ↦ ap format_host_for_url same
  | inr closed ↦ kept (format_host_for_url host) closed
]
