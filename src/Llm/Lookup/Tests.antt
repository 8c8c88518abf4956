-- ===== src/Llm/Lookup/Tests.antt =====
-- Runs of the search, and a witness for each of its properties.
use packet_lab.Prelude.{
  ◌≡◌, refl, subst, true, ◌++◌, bytes, eqb, to_lower, has_prefix, Map, take, drop, take-append-drop,
}
use packet_lab.Llm.Lookup.{ModelLimits, round, range_table, lookup_model}
use packet_lab.Llm.Lookup.Limits.{model_limits, lookup_limits}
use packet_lab.Llm.Lookup.Longest.{IsLongest, lookup_model-IsLongest}
use packet_lab.Llm.Lookup.Order.{
  SameEntries, SameEntries-rotated, distinct_keys, distinct_keys-DistinctKeys, lookup_model_order,
}

abbrev unknown : ModelLimits
unknown = record { context_length = 0; max_output = 0 }

-- a range over the table that starts at its second half
abbrev rotated : Map ModelLimits
rotated = drop 40 model_limits ++ take 40 model_limits

longest_found :
    lookup_limits (bytes "Qwen3.7-Max-2025")
    ≡ record { context_length = 1000000; max_output = 65536 }
unfolding lookup_limits lookup_model range_table round to_lower has_prefix
longest_found = refl

no_boundary : lookup_limits (bytes "qwen-maxi") ≡ unknown
unfolding lookup_limits lookup_model range_table round to_lower has_prefix
no_boundary = refl

-- no two keys of the code's table are the same in lower case
model_limits_distinct : distinct_keys model_limits ≡ true
unfolding to_lower eqb
model_limits_distinct = refl

rotated_same : SameEntries model_limits rotated
rotated_same =
    subst (λ table. SameEntries table rotated) (take-append-drop 40 model_limits)
      (SameEntries-rotated (take 40 model_limits) (drop 40 model_limits))

lookup_model-IsLongest_example :
    IsLongest
      (to_lower (bytes "Qwen-Max-2025"))
      model_limits
      unknown
      (lookup_model model_limits unknown (bytes "Qwen-Max-2025"))
lookup_model-IsLongest_example = lookup_model-IsLongest model_limits unknown (bytes "Qwen-Max-2025")

lookup_model_order_example :
    lookup_model model_limits unknown (bytes "Qwen-Max-2025")
    ≡ lookup_model rotated unknown (bytes "Qwen-Max-2025")
lookup_model_order_example =
    lookup_model_order model_limits rotated unknown (bytes "Qwen-Max-2025")
      (distinct_keys-DistinctKeys model_limits model_limits_distinct) rotated_same
