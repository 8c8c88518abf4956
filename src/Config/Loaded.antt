-- ===== src/Config/Loaded.antt =====
-- What a configuration satisfies that `Load` returns, and which arguments it accepts.
use packet_lab.Prelude.{
  ℕ, suc, ◌*◌, ◌≤◌, ◌≡◌, ◌≢◌, refl, sym, ap, ◌∙◌, subst, Bool, true, false, not, ◌&&◌, ◌||◌, Option,
  none, some, [], ◌∷◌, arith, length, Option-cases, inl, inr, Bytes, bytes,
}
use packet_lab.Prelude.Int.{ℤ, pos, negsuc, ltb_ℤ}
use packet_lab.Config.{
  Flags, Config, LoadError, Result, ok, err, ◌>>=◌, ◌>>◌, reject_if, required, Os, hex,
  generate_api_token, second, minute, or_default, or_text, bad_port, is_negative, same_int,
  token_or_new, with_limits, load_limits, base_config, load, no_random, no_home_dir,
}

-- the number lies between two bounds
pub record Between (a b : ℕ) (n : ℤ) : Type 0 where
  pub value : ℕ
  pub is_value : n ≡ pos value
  pub above : a ≤ value
  pub below : value ≤ b

pub record AtLeast (a : ℕ) (n : ℤ) : Type 0 where
  pub value : ℕ
  pub is_value : n ≡ pos value
  pub above : a ≤ value

-- what holds of the sizes and times of a configuration
pub record HasLimits (c : Config) : Type 0 where
  pub req_body : AtLeast 1 c.max_req_body_kb
  pub res_body : AtLeast 1 c.max_res_body_kb
  pub stream_timeout : AtLeast 1 c.capture_stream_timeout_min
  pub ring_entries : AtLeast 1 c.capture_ring_entries
  pub streams : AtLeast 64 c.max_streams
  pub pending : Between second (10 * minute) c.intercept_pending_timeout
  pub retention : AtLeast 0 c.cleanup_retention_days
  pub interval : AtLeast minute c.cleanup_interval

-- what holds of a configuration that is loaded
pub record IsUsable (c : Config) : Type 0 where
  pub proxy : Between 1 65535 c.proxy_port
  pub api : Between 1 65535 c.api_port
  pub apart : c.proxy_port ≢ c.api_port
  pub host_given : c.api_host ≢ []
  pub token_given : c.api_token ≢ []
  pub limits : HasLimits c

pub reject_inv :
    {A : Type 0} (b : Bool) (e : LoadError) (k : Result A) {c : A}
    → (reject_if b e >> k) ≡ ok c
    → (b ≡ false) × (k ≡ ok c)
reject_inv true e k h = cc
reject_inv false e k h = (refl, h)

pub required_inv :
    {A B : Type 0} (o : Option A) (e : LoadError) (f : A → Result B) {c : B}
    → (required o e >>= f) ≡ ok c
    → (a : A) × (o ≡ some a) × (f a ≡ ok c)
required_inv none e f h = cc
required_inv (some a) e f h = (a, refl, h)

bind_inv :
    {A B : Type 0} (m : Result A) (f : A → Result B) {c : B}
    → (m >>= f) ≡ ok c
    → (a : A) × (m ≡ ok a) × (f a ≡ ok c)
bind_inv (ok a) f h = (a, refl, h)
bind_inv (err e) f h = cc

default_positive : (n : ℤ) (d : ℕ) → 1 ≤ d → is_negative n ≡ false → AtLeast 1 (or_default n d)
default_positive (pos ℕ.zero) d le h = record { value = d; is_value = refl; above = le }
default_positive (pos (suc n)) d le h = record {
  value = suc n;
  is_value = ground arith;
  above = omega arith;
}
default_positive (negsuc n) d le h = absurd (ground arith)

streams_enough :
    (n : ℤ) → AtLeast 1 n → (ltb_ℤ (pos 0) n && ltb_ℤ n (pos 64)) ≡ false → AtLeast 64 n
streams_enough (pos n) p h = record {
  value = n;
  is_value = refl;
  above = let e : n ≡ p.value = cc p.is_value in ground (arith, e, p.above);
}
streams_enough (negsuc n) p h = cc p.is_value

within : (a b : ℕ) (n : ℤ) → (ltb_ℤ n (pos a) || ltb_ℤ (pos b) n) ≡ false → Between a b n
within a b (pos n) h = record {
  value = n;
  is_value = refl;
  above = ground arith;
  below = ground arith;
}
within a b (negsuc n) h = absurd (ground arith)

at_least : (a : ℕ) (n : ℤ) → ltb_ℤ n (pos a) ≡ false → AtLeast a n
at_least a (pos n) h = record { value = n; is_value = refl; above = ground arith }
at_least a (negsuc n) h = absurd (ground arith)

-- Sizes and times that `Load` lets through are in their ranges, defaults put in.
limits_hold :
    (f : Flags) (b c : Config)
    → load_limits f b ≡ ok c
    → (with_limits f b ≡ c) × HasLimits (with_limits f b)
unfolding load_limits
limits_hold f b c h =
    let streams = or_default f.max_streams 1000 in
    let pending = or_default f.intercept_pending_timeout (15 * second) in
    let interval = or_default f.cleanup_interval (6 * 60 * minute) in
    let (req, h1) = reject_inv (is_negative f.max_req_body_kb) _ _ h in
    let (res, h2) = reject_inv (is_negative f.max_res_body_kb) _ _ h1 in
    let (stream, h3) = reject_inv (is_negative f.stream_timeout_min) _ _ h2 in
    let (entries, h4) = reject_inv (is_negative f.capture_ring_entries) _ _ h3 in
    let (negative, h5) = reject_inv (is_negative f.max_streams) _ _ h4 in
    let (few, h6) = reject_inv (ltb_ℤ (pos 0) streams && ltb_ℤ streams (pos 64)) _ _ h5 in
    let (time, h7) =
      reject_inv (ltb_ℤ pending (pos second) || ltb_ℤ (pos (10 * minute)) pending) _ _ h6 in
    let (days, h8) = reject_inv (is_negative f.cleanup_retention_days) _ _ h7 in
    let (often, h9) = reject_inv (ltb_ℤ interval (pos minute)) _ _ h8 in
    (
      ok_inj h9,
      record {
        req_body = default_positive f.max_req_body_kb 2048 (omega arith) req;
        res_body = default_positive f.max_res_body_kb 4096 (omega arith) res;
        stream_timeout = default_positive f.stream_timeout_min 2 (omega arith) stream;
        ring_entries = default_positive f.capture_ring_entries 262144 (omega arith) entries;
        streams =
            streams_enough streams (default_positive f.max_streams 1000 (omega arith) negative) few;
        pending = within second (10 * minute) pending time;
        retention = at_least 0 f.cleanup_retention_days days;
        interval = at_least minute interval often;
      },
    )
  where
    ok_inj : {A : Type 0} {a b : A} → ok a ≡ ok b → a ≡ b
    ok_inj h = cc

port-Between : (n : ℤ) → bad_port n ≡ false → Between 1 65535 n
port-Between (pos n) h = record {
  value = n;
  is_value = refl;
  above = ground arith;
  below = ground arith;
}
port-Between (negsuc n) h = absurd (ground arith)

different : (a b : ℤ) → same_int a b ≡ false → a ≢ b
different a b h e = same_self b (subst (λ x. same_int x b ≡ false) e h)
  where
    same_self : (b : ℤ) → same_int b b ≡ false → ⊥
    same_self (pos n) h = ground arith
    same_self (negsuc n) h = ground arith

text_given : (s d : Bytes) → d ≢ [] → or_text s d ≢ []
text_given [] d h = h
text_given (b ∷ s) d h = λ e. cc

-- the random source reads as many bytes as it is asked for, when it reads
unfoldable pub FillsBuffer : Os → Type 0
FillsBuffer os = (n : ℕ) (buf : Bytes) → os.rand_read n ≡ some buf → length buf ≡ n

length-hex : (b : Bytes) → length (hex b) ≡ 2 * length b
unfolding hex
length-hex [] = omega arith
length-hex (b ∷ bs) = omega (arith, length-hex bs)

new_token : (os : Os) (buf : Bytes) → os.rand_read 32 ≡ some buf → token_or_new os [] ≡ ok (hex buf)
unfolding generate_api_token
new_token os buf e = rw (generate_api_token, e)

no_token : (os : Os) → os.rand_read 32 ≡ none → token_or_new os [] ≡ err no_random
unfolding generate_api_token
no_token os e = rw (generate_api_token, e)

-- a token is given, or made of 32 random bytes
token_there :
    (os : Os) (t token : Bytes) → FillsBuffer os → token_or_new os t ≡ ok token → token ≢ []
unfolding FillsBuffer
token_there os (b ∷ bs) token fills h e = cc
token_there os [] token fills h e = elim (Option-cases (os.rand_read 32)) [
  | inl n ↦ let contra : err no_random ≡ ok token = sym (no_token os n) ∙ h in cc
  | inr (buf, some_buf) ↦
      let made : hex buf ≡ token = cc (new_token os buf some_buf, h) in
      absurd (omega (arith, fills 32 buf some_buf, length-hex buf, ap length made, ap length e))
]

-- A configuration that `Load` returns, on a system whose random source fills the buffer, has two
-- different ports from 1 to 65535, a host and a token, positive sizes and stream timeout, at least 64
-- streams, a timeout of pending requests from 1 second to 10 minutes, and cleanup intervals of at
-- least a minute.
pub load-IsUsable :
    (os : Os) (f : Flags) (c : Config) → FillsBuffer os → load os f ≡ ok c → IsUsable c
unfolding load
load-IsUsable os f c fills h =
    let (home, _, h1) = required_inv os.user_home_dir no_home_dir _ h in
    let base = os.join home (bytes ".packetlab") in
    let db = or_text f.db_path (os.join base (bytes "data.db")) in
    let cert = os.join base (bytes "certs") in
    let host = or_text f.api_host (bytes "127.0.0.1") in
    let (proxy, h2) = reject_inv (bad_port f.proxy_port) _ _ h1 in
    let (api, h3) = reject_inv (bad_port f.api_port) _ _ h2 in
    let (apart, h4) = reject_inv (same_int f.proxy_port f.api_port) _ _ h3 in
    let (_, h5) = reject_inv (not (os.mkdir_all base)) _ _ h4 in
    let (_, h6) = reject_inv (not (os.mkdir_all cert)) _ _ h5 in
    let (_, h7) = reject_inv (not (os.mkdir_all (os.dir db))) _ _ h6 in
    let (token, t, h8) = bind_inv (token_or_new os f.api_token) _ h7 in
    let (same, limits) = limits_hold f (base_config f base cert db host token) c h8 in
    subst IsUsable same (record {
      proxy = port-Between f.proxy_port proxy;
      api = port-Between f.api_port api;
      apart = different f.proxy_port f.api_port apart;
      host_given = text_given f.api_host (bytes "127.0.0.1") (λ e. cc);
      token_given = token_there os f.api_token token fills t;
      limits = limits;
    })
