-- ===== src/Proxy/Bodies.antt =====
-- internal/proxy/proxy.go: `readBodyBounded`, which takes the front of a body for the record while the
-- whole goes on, and `shouldMITM`. A reader is the bytes that it still gives and how it ends; net.SplitHostPort is a parameter.
mod Whole
mod Hosts
mod Tests
use packet_lab.Prelude.{
  zero, ◌-◌, ◌^◌, ℕ, suc, Bool, true, false, ◌||◌, Option, none, some, List, [], ◌∷◌, ◌++◌, ltb,
  leb, if◌then◌else◌, length, take, drop, Bytes, bytes, eqb, has_suffix,
}
use packet_lab.Prelude.Int.{ℤ, pos, negsuc}
use packet_lab.Llm.Endpoints.{SplitHostPort, without_port}

-- how a reader ends: with io.EOF, or with an error that a read of its own returns, or with one that
-- comes with the last bytes
pub data Ending : Type 0 where
  at_eof error_behind error_with_last : Ending

pub record Reader : Type 0 where
  pub content : Bytes
  pub ending : Ending

-- what `readBodyBounded` returns
pub record Bounded : Type 0 where
  pub head : Bytes
  pub rest : Option Reader
  pub truncated : Bool
  pub failed : Bool

-- whether a read of all, up to `n` bytes, meets the error
unfoldable pub meets_error : ℕ → Reader → Bool
meets_error n r = elim r.ending [
  | at_eof ↦ false
  | error_behind ↦ ltb (length r.content) n
  | error_with_last ↦ leb (length r.content) n
]

-- io.ReadAll of an io.LimitReader, which reads nothing at a limit that is not positive: the bytes, the
-- reader behind them, and whether it failed
unfoldable pub read_limited : ℤ → Reader → Bytes × (Reader × Bool)
read_limited (negsuc n) r = ([], (r, false))
read_limited (pos zero) r = ([], (r, false))
read_limited (pos (suc n)) r =
    (take (suc n) r.content, (record r { content = drop (suc n) r.content }, meets_error (suc n) r))

-- `limit+1` in int64, which wraps
unfoldable pub plus_one : ℤ → ℤ
plus_one (pos n) = if ltb n (2 ^ 63 - 1) then pos (suc n) else negsuc (2 ^ 63 - 1)
plus_one (negsuc zero) = pos 0
plus_one (negsuc (suc n)) = negsuc n

-- the cut at the limit, `none` is the panic of `head[:limit]` at a negative limit
unfoldable pub cut_head : ℤ → Bytes → Reader → Option Bounded
cut_head (negsuc n) head behind = none
cut_head (pos limit) head behind =
    if ltb limit (length head)
    then some (record {
      head = take limit head;
      rest = some (record behind { content = drop limit head ++ behind.content });
      truncated = true;
      failed = false;
    })
    else some (record { head = head; rest = none; truncated = false; failed = false })

-- `readBodyBounded`; a reader can be nil, and `none` is a panic
unfoldable pub read_body_bounded : Option Reader → ℤ → Option Bounded
read_body_bounded none limit =
    some (record { head = []; rest = none; truncated = false; failed = false })
read_body_bounded (some r) limit =
    let (head, (behind, failed)) = read_limited (plus_one limit) r in
    if failed
    then some (record { head = head; rest = some behind; truncated = false; failed = true })
    else cut_head limit head behind

abbrev pub skip_suffixes : List Bytes
skip_suffixes =
    bytes ".wns.windows.com"
    ∷ bytes ".notify.windows.com"
    ∷ bytes ".push.apple.com"
    ∷ bytes ".talk.google.com"
    ∷ bytes ".events.data.msn.cn"
    ∷ bytes ".events.data.msn.com"
    ∷ bytes ".events.data.microsoft.com"
    ∷ bytes "ntp.msn.cn"
    ∷ bytes "ntp.msn.com"
    ∷ bytes ".telemetry.microsoft.com"
    ∷ bytes ".vortex.data.microsoft.com"
    ∷ bytes ".settings.data.microsoft.com"
    ∷ bytes ".settings-win.data.microsoft.com"
    ∷ []

-- the loop of `shouldMITM`
unfoldable pub none_ends : Bytes → List Bytes → Bool
none_ends host [] = true
none_ends host (s ∷ ss) =
    let later = none_ends host ss in if eqb host s || has_suffix host s then false else later

-- `shouldMITM`
unfoldable pub should_mitm : SplitHostPort → Bytes → Bool
should_mitm split raw_host = none_ends (without_port split raw_host) skip_suffixes
