-- ===== src/Proxy/Decide/Given.antt =====
-- When a decision lets a request go on, and when it gives something new.
use packet_lab.Prelude.{
  not, or_iff, arith, ◌≡◌, ◌≢◌, refl, true, ◌||◌, [], ◌∷◌, inl, inr, Bytes, bytes, eqb, eqb_iff,
  Map,
}
use packet_lab.Models.{InterceptResult}
use packet_lab.Proxy.Decide.{is_empty, is_modified, no_headers}

-- the decision is to let the request go on
pub data LetsPass (r : InterceptResult) : Type 0 where
  allowed : r.action ≡ bytes "allow" → LetsPass r
  to_modify : r.action ≡ bytes "modify" → LetsPass r

-- the decision gives something new
pub data Gives (r : InterceptResult) : Type 0 where
  new_method : r.method ≢ [] → Gives r
  new_url : r.url ≢ [] → Gives r
  new_body : r.new_body ≢ [] → Gives r
  new_headers : r.new_headers ≢ [] → Gives r

not_empty : (s : Bytes) → not (is_empty s) ≡ true → s ≢ []
unfolding eqb
not_empty [] h e = cc
not_empty (b ∷ bs) h e = cc

not_empty_iff : (s : Bytes) → s ≢ [] → not (is_empty s) ≡ true
unfolding eqb
not_empty_iff [] ne = absurd (ne refl)
not_empty_iff (b ∷ bs) ne = refl

some_headers : (hs : Map Bytes) → not (no_headers hs) ≡ true → hs ≢ []
some_headers [] h e = cc
some_headers (x ∷ hs) h e = cc

some_headers_iff : (hs : Map Bytes) → hs ≢ [] → not (no_headers hs) ≡ true
some_headers_iff [] ne = absurd (ne refl)
some_headers_iff (x ∷ hs) ne = refl

pub is_modified-Gives : (r : InterceptResult) → is_modified r ≡ true → Gives r
unfolding is_modified
is_modified-Gives r h = elim ((or_iff (not (is_empty r.method)) _).0 h) [
  | inl e ↦ new_method (not_empty r.method e)
  | inr h1 ↦ elim ((or_iff (not (is_empty r.url)) _).0 h1) [
    | inl e ↦ new_url (not_empty r.url e)
    | inr h2 ↦ elim ((or_iff (not (is_empty r.new_body)) (not (no_headers r.new_headers))).0 h2) [
      | inl e ↦ new_body (not_empty r.new_body e)
      | inr e ↦ new_headers (some_headers r.new_headers e)
    ]
  ]
]

pub Gives-is_modified : (r : InterceptResult) → Gives r → is_modified r ≡ true
unfolding is_modified
Gives-is_modified r (new_method ne) = let e = not_empty_iff r.method ne in ground (arith, e)
Gives-is_modified r (new_url ne) = let e = not_empty_iff r.url ne in ground (arith, e)
Gives-is_modified r (new_body ne) = let e = not_empty_iff r.new_body ne in ground (arith, e)
Gives-is_modified r (new_headers ne) =
    let e = some_headers_iff r.new_headers ne in ground (arith, e)

pub LetsPass-or :
    (r : InterceptResult)
    → LetsPass r
    → (eqb r.action (bytes "allow") || eqb r.action (bytes "modify")) ≡ true
LetsPass-or r (allowed e) =
    (or_iff (eqb r.action (bytes "allow")) _).1 (inl ((eqb_iff r.action (bytes "allow")).1 e))
LetsPass-or r (to_modify e) =
    (or_iff (eqb r.action (bytes "allow")) _).1 (inr ((eqb_iff r.action (bytes "modify")).1 e))

pub or-LetsPass :
    (r : InterceptResult)
    → (eqb r.action (bytes "allow") || eqb r.action (bytes "modify")) ≡ true
    → LetsPass r
or-LetsPass r h = elim ((or_iff (eqb r.action (bytes "allow")) _).0 h) [
  | inl e ↦ allowed ((eqb_iff r.action (bytes "allow")).0 e)
  | inr e ↦ to_modify ((eqb_iff r.action (bytes "modify")).0 e)
]
