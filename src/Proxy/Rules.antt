-- ===== src/Proxy/Rules.antt =====
-- The rule engine of internal/proxy/interceptor.go: `matchRule`, and the loop over the rules at the
-- start of `Handle`.
mod Spec
mod Match
mod First
mod Case
mod Tests
use packet_lab.Prelude.{
  ℕ, Bool, true, false, not, ◌&&◌, ◌||◌, Option, none, some, List, [], ◌∷◌, ltb, if◌then◌else◌,
  take, drop, Bytes, bytes, eqb, to_lower, to_upper, has_prefix, has_suffix, index_of, trim_space,
  split_on, ◌++◌,
}
use packet_lab.Models.{InterceptRule, InterceptLog}

-- the loop over the methods that the rule lists, which are separated by commas
unfoldable pub method_listed : List Bytes → Bytes → Bool
method_listed [] m = false
method_listed (rm ∷ rms) m = eqb (to_upper (trim_space rm)) m || method_listed rms m

unfoldable pub method_matches : Bytes → Bytes → Bool
method_matches rule_method method =
    if eqb rule_method [] then true else method_listed (split_on b',' rule_method) (to_upper method)

-- `*.example.com` against a host
unfoldable pub wildcard_matches : Bytes → Bytes → Bool
wildcard_matches pattern host = has_prefix pattern (bytes "*.") && has_suffix host (drop 1 pattern)

-- the part of `matchRule` for a pattern with a path, whose first slash is at `idx`
unfoldable pub path_matches : Bytes → Bytes → Bytes → ℕ → Bool
path_matches pattern host path idx =
    ltb 0 idx
    && ((eqb (take idx pattern) host || wildcard_matches (take idx pattern) host)
        && has_prefix path (drop idx pattern))

-- `matchRule`
unfoldable pub match_rule : InterceptRule → Bytes → Bytes → Bytes → Bool
match_rule rule method host0 path =
    if not (method_matches rule.method method)
    then false
    else let pattern = to_lower rule.pattern in
      let host = to_lower host0 in
      if eqb pattern host
      then true
      else if wildcard_matches pattern host
      then true
      else elim (index_of (bytes "/") pattern) [
        | some idx ↦ path_matches pattern host path idx
        | none ↦ false
      ]

-- what the model needs of an *http.Request: `URL.String()`, `URL.Host` and `URL.Path` are fields
pub record Request : Type 0 where
  pub method : Bytes
  pub url : Bytes
  pub host : Bytes
  pub path : Bytes

-- what the automatic mode does with a request, and the log that it writes
pub data Verdict : Type 0 where
  pass : Option InterceptLog → Verdict
  block : InterceptLog → Bytes → Verdict

-- the fields of a log that `Handle` leaves at their zero values are those of the database
abbrev pub log_of : Bytes → Request → Bytes → Bytes → InterceptLog
log_of action req pattern mode = record {
  id = 0;
  action = action;
  request_url = req.url;
  request_method = req.method;
  request_host = req.host;
  rule_pattern = pattern;
  mode = mode;
  created_at = [];
}

-- the first rule that is enabled and matches
unfoldable pub act : InterceptRule → Request → Verdict
act rule req =
    if eqb rule.action (bytes "block")
    then block (log_of (bytes "drop") req rule.pattern (bytes "auto"))
        (bytes "Blocked by PacketLab rule: " ++ rule.pattern)
    else pass (some (log_of (bytes "allow") req rule.pattern (bytes "auto")))

-- `Handle` in the mode "auto"
unfoldable pub handle_auto : List InterceptRule → Request → Verdict
handle_auto [] req = pass none
handle_auto (rule ∷ rules) req =
    let later = handle_auto rules req in
    if not rule.enabled
    then later
    else if match_rule rule req.method req.host req.path
    then act rule req
    else later
