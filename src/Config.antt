-- ===== src/Config.antt =====
-- internal/config/config.go: `Load`, which checks the values of the command line, puts the defaults in
-- and makes the directories. A duration is a number of nanoseconds, and may be negative.
-- The write of the token file is left out, as its failure, a warning, changes no result.
mod Loaded
mod Tests
use packet_lab.Prelude.{
  ℕ, ◌+◌, ◌-◌, ◌*◌, ◌/◌, ◌%◌, ◌^◌, Bool, true, false, not, ◌&&◌, ◌||◌, Option, none, some, List, [],
  ◌∷◌, ◌++◌, map, if◌then◌else◌, ltb, ◌==◌, Bytes, bytes, eqb, String,
}
use packet_lab.Prelude.Int.{ℤ, pos, negsuc, ltb_ℤ, leb_ℤ, pos_part, neg_part}

-- the arguments of `Load`
pub record Flags : Type 0 where
  pub proxy_port : ℤ
  pub api_port : ℤ
  pub db_path : Bytes
  pub no_proxy : Bool
  pub no_mitm : Bool
  pub insecure : Bool
  pub api_host : Bytes
  pub api_token : Bytes
  pub capture : Bool
  pub capture_iface : Bytes
  pub capture_bpf : Bytes
  pub capture_no_proc : Bool
  pub stream_timeout_min : ℤ
  pub max_req_body_kb : ℤ
  pub max_res_body_kb : ℤ
  pub capture_ring_entries : ℤ
  pub max_streams : ℤ
  pub intercept_pending_timeout : ℤ
  pub cleanup_retention_days : ℤ
  pub cleanup_interval : ℤ
  pub llm_endpoints : List Bytes

-- `Config`; `AllowOrigins` is set elsewhere
pub record Config : Type 0 where
  pub proxy_port : ℤ
  pub api_port : ℤ
  pub api_host : Bytes
  pub api_token : Bytes
  pub db_path : Bytes
  pub no_proxy : Bool
  pub no_mitm : Bool
  pub insecure : Bool
  pub base_dir : Bytes
  pub cert_dir : Bytes
  pub capture : Bool
  pub capture_iface : Bytes
  pub capture_bpf : Bytes
  pub capture_no_proc : Bool
  pub capture_stream_timeout_min : ℤ
  pub capture_ring_entries : ℤ
  pub max_streams : ℤ
  pub max_req_body_kb : ℤ
  pub max_res_body_kb : ℤ
  pub allow_origins : List Bytes
  pub intercept_pending_timeout : ℤ
  pub cleanup_retention_days : ℤ
  pub cleanup_interval : ℤ
  pub llm_endpoints : List Bytes

-- the errors of `Load`, in the order in which it finds them
pub data LoadError : Type 0 where
  no_home_dir : LoadError
  bad_proxy_port : ℤ → LoadError
  bad_api_port : ℤ → LoadError
  same_ports : ℤ → LoadError
  no_base_dir : Bytes → LoadError
  no_cert_dir : Bytes → LoadError
  no_db_dir : Bytes → LoadError
  no_random : LoadError
  bad_max_req_body : ℤ → LoadError
  bad_max_res_body : ℤ → LoadError
  bad_stream_timeout : ℤ → LoadError
  bad_ring_entries : ℤ → LoadError
  negative_streams : ℤ → LoadError
  few_streams : ℤ → LoadError
  bad_pending_timeout : ℤ → LoadError
  bad_retention_days : ℤ → LoadError
  bad_cleanup_interval : ℤ → LoadError

pub data Result (A : Type 0) : Type 0 where
  ok : A → Result A
  err : LoadError → Result A

infixl 5 ◌>>=◌ ◌>>◌
abbrev pub ◌>>=◌ : {A B : Type 0} → Result A → (A → Result B) → Result B
ok a >>= f = f a
err e >>= f = err e

abbrev pub ◌>>◌ : {B : Type 0} → Result (Unit {0}) → Result B → Result B
m >> k = m >>= λ _. k

-- an `if` that returns the error
abbrev pub reject_if : Bool → LoadError → Result (Unit {0})
reject_if true e = err e
reject_if false e = ok tt

abbrev pub required : {A : Type 0} → Option A → LoadError → Result A
required none e = err e
required (some a) e = ok a

-- what the code uses of `os`, `filepath` and `crypto/rand`: a directory is there or can be made, and
-- random bytes are read or not
pub record Os : Type 0 where
  pub user_home_dir : Option Bytes
  pub join : Bytes → Bytes → Bytes
  pub dir : Bytes → Bytes
  pub mkdir_all : Bytes → Bool
  pub rand_read : ℕ → Option Bytes

abbrev hex_char : ℕ → ℕ
hex_char d = if ltb d 10 then b'0' + d else b'a' + d - 10

-- hex.EncodeToString
unfoldable pub hex : Bytes → Bytes
hex [] = []
hex (b ∷ bs) = hex_char (b / 16) ∷ hex_char (b % 16) ∷ hex bs

-- `generateAPIToken`
unfoldable pub generate_api_token : Os → Option Bytes
generate_api_token os = elim (os.rand_read 32) [ none ↦ none | some buf ↦ some (hex buf) ]

abbrev pub second : ℕ
second = 10 ^ 9

abbrev pub minute : ℕ
minute = 60 * second

abbrev pub is_zero : ℤ → Bool
is_zero n = leb_ℤ n (pos 0) && leb_ℤ (pos 0) n

abbrev pub or_default : ℤ → ℕ → ℤ
or_default n d = if is_zero n then pos d else n

abbrev pub or_text : Bytes → Bytes → Bytes
or_text [] d = d
or_text (b ∷ bs) d = b ∷ bs

abbrev pub bad_port : ℤ → Bool
bad_port n = leb_ℤ n (pos 0) || ltb_ℤ (pos 65535) n

abbrev pub is_negative : ℤ → Bool
is_negative n = ltb_ℤ n (pos 0)

abbrev pub same_int : ℤ → ℤ → Bool
same_int a b = leb_ℤ a b && leb_ℤ b a

-- the token that is given, or a new one
abbrev pub token_or_new : Os → Bytes → Result Bytes
token_or_new os [] = required (generate_api_token os) no_random
token_or_new os (b ∷ bs) = ok (b ∷ bs)

-- the sizes, the streams and the times, with the defaults put in
abbrev pub with_limits : Flags → Config → Config
with_limits f c = record c {
  max_req_body_kb = or_default f.max_req_body_kb 2048;
  max_res_body_kb = or_default f.max_res_body_kb 4096;
  capture_stream_timeout_min = or_default f.stream_timeout_min 2;
  capture_ring_entries = or_default f.capture_ring_entries 262144;
  max_streams = or_default f.max_streams 1000;
  intercept_pending_timeout = or_default f.intercept_pending_timeout (15 * second);
  cleanup_retention_days = f.cleanup_retention_days;
  cleanup_interval = or_default f.cleanup_interval (6 * 60 * minute);
}

-- the checks on the sizes, the streams and the times, each with its default
unfoldable pub load_limits : Flags → Config → Result Config
load_limits f c = do
  reject_if (is_negative f.max_req_body_kb) (bad_max_req_body f.max_req_body_kb)
  reject_if (is_negative f.max_res_body_kb) (bad_max_res_body f.max_res_body_kb)
  reject_if (is_negative f.stream_timeout_min) (bad_stream_timeout f.stream_timeout_min)
  reject_if (is_negative f.capture_ring_entries) (bad_ring_entries f.capture_ring_entries)
  reject_if (is_negative f.max_streams) (negative_streams f.max_streams)
  let streams = or_default f.max_streams 1000
  reject_if (ltb_ℤ (pos 0) streams && ltb_ℤ streams (pos 64)) (few_streams streams)
  let pending = or_default f.intercept_pending_timeout (15 * second)
  reject_if (ltb_ℤ pending (pos second) || ltb_ℤ (pos (10 * minute)) pending)
      (bad_pending_timeout pending)
  reject_if (is_negative f.cleanup_retention_days) (bad_retention_days f.cleanup_retention_days)
  let interval = or_default f.cleanup_interval (6 * 60 * minute)
  reject_if (ltb_ℤ interval (pos minute)) (bad_cleanup_interval interval)
  ok (with_limits f c)

-- the fields that are copied from the arguments, with the directories and the token
abbrev pub base_config : Flags → Bytes → Bytes → Bytes → Bytes → Bytes → Config
base_config f base cert db host token = record {
  proxy_port = f.proxy_port;
  api_port = f.api_port;
  api_host = host;
  api_token = token;
  db_path = db;
  no_proxy = f.no_proxy;
  no_mitm = f.no_mitm;
  insecure = f.insecure;
  base_dir = base;
  cert_dir = cert;
  capture = f.capture;
  capture_iface = f.capture_iface;
  capture_bpf = f.capture_bpf;
  capture_no_proc = f.capture_no_proc;
  capture_stream_timeout_min = f.stream_timeout_min;
  capture_ring_entries = f.capture_ring_entries;
  max_streams = f.max_streams;
  max_req_body_kb = f.max_req_body_kb;
  max_res_body_kb = f.max_res_body_kb;
  allow_origins = [];
  intercept_pending_timeout = f.intercept_pending_timeout;
  cleanup_retention_days = f.cleanup_retention_days;
  cleanup_interval = f.cleanup_interval;
  llm_endpoints = f.llm_endpoints;
}

-- `Load`
unfoldable pub load : Os → Flags → Result Config
load os f = do
  home ← required os.user_home_dir no_home_dir
  let base = os.join home (bytes ".packetlab")
  let db = or_text f.db_path (os.join base (bytes "data.db"))
  reject_if (bad_port f.proxy_port) (bad_proxy_port f.proxy_port)
  reject_if (bad_port f.api_port) (bad_api_port f.api_port)
  reject_if (same_int f.proxy_port f.api_port) (same_ports f.proxy_port)
  reject_if (not (os.mkdir_all base)) (no_base_dir base)
  let cert = os.join base (bytes "certs")
  reject_if (not (os.mkdir_all cert)) (no_cert_dir cert)
  reject_if (not (os.mkdir_all (os.dir db))) (no_db_dir (os.dir db))
  token ← token_or_new os f.api_token
  load_limits f (base_config f base cert db (or_text f.api_host (bytes "127.0.0.1")) token)
