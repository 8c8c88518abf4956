-- ===== src/Llm/Lookup.antt =====
-- internal/llm/limits.go and internal/llm/pricing.go: the search for a model's entry in a table
-- keyed by a prefix of its name. The table is an argument, a Go map in the order in which it is
-- ranged over, and so is the zero value of its entries. The two functions have the same body.
mod Longest
mod Order
mod Limits
mod Tests
use packet_lab.Prelude.{
  ℕ, ◌==◌, ltb, leb, ◌&&◌, not, [], ◌∷◌, if◌then◌else◌, length, get_or, Bytes, to_lower, has_prefix,
  Map,
}

-- `ModelLimits`
pub record ModelLimits : Type 0 where
  pub context_length : ℕ
  pub max_output : ℕ

module _ {ℓ} {V : Type ℓ} where
  -- one round of the loop; the state is `best` and `bestKeyLen`
  unfoldable pub round : Bytes → V × ℕ → Bytes × V → V × ℕ
  round m (best, best_len) (key, v) =
      let k = to_lower key in
      if leb (length k) best_len
      then (best, best_len)
      else if not (has_prefix m k)
      then (best, best_len)
      else if ltb (length k) (length m) && not (get_or m (length k) 0 == b'-')
      then (best, best_len)
      else (v, length k)

  unfoldable pub range_table : Bytes → V × ℕ → Map V → V × ℕ
  range_table m state [] = state
  range_table m state (entry ∷ table) = range_table m (round m state entry) table

  -- `LookupPricing`, and `LookupLimits` after its text
  unfoldable pub lookup_model : Map V → V → Bytes → V
  lookup_model table zero_value model = (range_table (to_lower model) (zero_value, 0) table).0
