-- ===== src/Proxy/Rules/First.antt =====
-- The loop over the rules acts on the first one that is enabled and matches.
use packet_lab.Prelude.{
  ◌≡◌, ◌⊎◌, inl, inr, refl, ◌∙◌, true, false, ◌≢◌, sym, subst, Bytes, bytes, eqb, eqb_iff, some,
  none, List, [], ◌∷◌, ◌++◌, Bool-cases, All,
}
use packet_lab.Models.{InterceptRule, InterceptLog}
use packet_lab.Proxy.Rules.{Request, Verdict, block, pass, act, match_rule, handle_auto}

-- the rule decides the request: it is enabled and matches
pub record Applies (req : Request) (rule : InterceptRule) : Type 0 where
  pub is_enabled : rule.enabled ≡ true
  pub matches : match_rule rule req.method req.host req.path ≡ true

-- the rule is skipped
pub data Skipped (req : Request) (rule : InterceptRule) : Type 0 where
  disabled : rule.enabled ≡ false → Skipped req rule
  no_match : match_rule rule req.method req.host req.path ≡ false → Skipped req rule

skip :
    (req : Request) (rule : InterceptRule) (rules : List InterceptRule)
    → Skipped req rule
    → handle_auto (rule ∷ rules) req ≡ handle_auto rules req
unfolding handle_auto
skip req rule rules (disabled e) = simp (e)
skip req rule rules (no_match e) = elim (Bool-cases rule.enabled) [
  | inl f ↦ simp (e, f)
  | inr f ↦ simp (f)
]

-- what is written of a rule that decides
abbrev pub log_with : Bytes → InterceptRule → Request → InterceptLog
log_with action rule req = record {
  id = 0;
  action = action;
  request_url = req.url;
  request_method = req.method;
  request_host = req.host;
  rule_pattern = rule.pattern;
  mode = bytes "auto";
  created_at = [];
}

-- the two things that a rule can do
pub data ActsAs (rule : InterceptRule) (req : Request) : Verdict → Type 0 where
  blocks :
      rule.action ≡ bytes "block"
      → ActsAs rule req (
          block
            (log_with (bytes "drop") rule req)
            (bytes "Blocked by PacketLab rule: " ++ rule.pattern))
  passes :
      rule.action ≢ bytes "block"
      → ActsAs rule req (pass (some (log_with (bytes "allow") rule req)))

act-ActsAs : (rule : InterceptRule) (req : Request) → ActsAs rule req (act rule req)
unfolding act
act-ActsAs rule req = elim (Bool-cases (eqb rule.action (bytes "block"))) [
  | inl e ↦ rw (e) (blocks ((eqb_iff rule.action (bytes "block")).0 e))
  | inr e ↦ rw (e) (passes λ same. let yes = (eqb_iff rule.action (bytes "block")).1 same in cc)
]

-- The rules before the first one that applies are of no effect, and neither are those behind it.
pub first_rule_acts :
    (req : Request) (before : List InterceptRule) (rule : InterceptRule)
    (after : List InterceptRule)
    → All (Skipped req) before
    → Applies req rule
    → handle_auto (before ++ (rule ∷ after)) req ≡ act rule req
first_rule_acts req [] rule after all a = unfold handle_auto in simp (a.is_enabled, a.matches)
first_rule_acts req (r ∷ before) rule after all a =
    skip req r (before ++ (rule ∷ after)) all.0 ∙ first_rule_acts req before rule after all.1 a

-- what the rules are for a request: all are skipped, or one is the first that applies
pub data Decided (req : Request) : List InterceptRule → Type 0 where
  nobody : (rules : List InterceptRule) → All (Skipped req) rules → Decided req rules
  first :
      (before : List InterceptRule) (rule : InterceptRule) (after : List InterceptRule)
      → All (Skipped req) before
      → Applies req rule
      → Decided req (before ++ (rule ∷ after))

All-Skipped :
    (req : Request) (rules : List InterceptRule)
    → All (Skipped req) rules
    → handle_auto rules req ≡ pass none
All-Skipped req [] all = unfold handle_auto in refl
All-Skipped req (r ∷ rules) all = skip req r rules all.0 ∙ All-Skipped req rules all.1

later :
    (req : Request) (r : InterceptRule) (rules : List InterceptRule)
    → Skipped req r
    → Decided req rules
    → Decided req (r ∷ rules)
later req r rules s (nobody _ all) = nobody (r ∷ rules) (s, all)
later req r _ s (first before rule after all a) = first (r ∷ before) rule after (s, all) a

decide : (req : Request) (rules : List InterceptRule) → Decided req rules
decide req [] = nobody [] tt
decide req (r ∷ rules) = elim (Bool-cases r.enabled) [
  | inr e ↦ later req r rules (disabled e) (decide req rules)
  | inl e ↦ elim (Bool-cases (match_rule r req.method req.host req.path)) [
    | inr f ↦ later req r rules (no_match f) (decide req rules)
    | inl f ↦ first [] r rules tt (record { is_enabled = e; matches = f })
  ]
]

-- In the automatic mode a request passes unlogged when every rule is skipped; else the first rule
-- that applies decides: with the action `block` the request is blocked, with a log of the action
-- `drop` and a message that names the pattern, and with any other action it passes, with a log of the
-- action `allow`.
pub handle_auto_decides :
    (req : Request) (rules : List InterceptRule)
    → ((handle_auto rules req ≡ pass none) × All (Skipped req) rules)
      ⊎ ((before : List InterceptRule) × (rule : InterceptRule) × (after : List InterceptRule)
          × (rules ≡ before ++ (rule ∷ after))
          × All (Skipped req) before
          × Applies req rule
          × ActsAs rule req (handle_auto rules req))
handle_auto_decides req rules =
    elim (decide req rules)
      as (λ rs d.
        ((handle_auto rs req ≡ pass none) × All (Skipped req) rs)
        ⊎ ((before : List InterceptRule) × (rule : InterceptRule) × (after : List InterceptRule)
            × (rs ≡ before ++ (rule ∷ after))
            × All (Skipped req) before
            × Applies req rule
            × ActsAs rule req (handle_auto rs req))) [
              | nobody rs all ↦ inl (All-Skipped req rs all, all)
              | first before rule after all a ↦ inr (
                before,
                rule,
                after,
                refl,
                all,
                a,
                subst (ActsAs rule req) (sym (first_rule_acts req before rule after all a))
                    (act-ActsAs rule req),
              )
            ]
