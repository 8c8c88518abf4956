-- ===== src/Config/Tests.antt =====
-- Runs of `Load`, and a witness for its property.
use packet_lab.Prelude.{
  ℕ, ◌≡◌, refl, true, false, some, [], ◌++◌, bytes, replicate, length-replicate,
}
use packet_lab.Prelude.Int.{pos, negsuc}
use packet_lab.Config.{
  Flags, Config, Os, ok, err, bad_proxy_port, few_streams, no_base_dir, load_limits, load,
}
use packet_lab.Config.Loaded.{IsUsable, FillsBuffer, load-IsUsable}

abbrev os : Os
os = record {
  user_home_dir = some (bytes "/home/u");
  join = λ a b. a ++ (bytes "/" ++ b);
  dir = λ a. a;
  mkdir_all = λ a. true;
  rand_read = λ n. some (replicate n 7);
}

abbrev flags : Flags
flags = record {
  proxy_port = pos 8080;
  api_port = pos 9090;
  db_path = [];
  no_proxy = false;
  no_mitm = false;
  insecure = false;
  api_host = [];
  api_token = bytes "secret";
  capture = false;
  capture_iface = [];
  capture_bpf = [];
  capture_no_proc = false;
  stream_timeout_min = pos 0;
  max_req_body_kb = pos 0;
  max_res_body_kb = pos 16;
  capture_ring_entries = pos 0;
  max_streams = pos 0;
  intercept_pending_timeout = pos 0;
  cleanup_retention_days = pos 7;
  cleanup_interval = pos 0;
  llm_endpoints = [];
}

bad_port_run : load os (record flags { proxy_port = negsuc 0 }) ≡ err (bad_proxy_port (negsuc 0))
unfolding load
bad_port_run = refl

few_streams_run : load os (record flags { max_streams = pos 63 }) ≡ err (few_streams (pos 63))
unfolding load load_limits
few_streams_run = refl

no_dir_run :
    load (record os { mkdir_all = λ a. false }) (record flags { max_req_body_kb = negsuc 4 })
    ≡ err (no_base_dir (bytes "/home/u/.packetlab"))
unfolding load
no_dir_run = refl

abbrev loaded : Config
loaded = record {
  proxy_port = pos 8080;
  api_port = pos 9090;
  api_host = bytes "127.0.0.1";
  api_token = bytes "secret";
  db_path = bytes "/home/u/.packetlab/data.db";
  no_proxy = false;
  no_mitm = false;
  insecure = false;
  base_dir = bytes "/home/u/.packetlab";
  cert_dir = bytes "/home/u/.packetlab/certs";
  capture = false;
  capture_iface = [];
  capture_bpf = [];
  capture_no_proc = false;
  capture_stream_timeout_min = pos 2;
  capture_ring_entries = pos 262144;
  max_streams = pos 1000;
  max_req_body_kb = pos 2048;
  max_res_body_kb = pos 16;
  allow_origins = [];
  intercept_pending_timeout = pos 15000000000;
  cleanup_retention_days = pos 7;
  cleanup_interval = pos 21600000000000;
  llm_endpoints = [];
}

loads : load os flags ≡ ok loaded
unfolding load load_limits
loads = refl

os-FillsBuffer : FillsBuffer os
unfolding FillsBuffer
os-FillsBuffer n buf e = cc (e, length-replicate {A = ℕ} n 7)

load-IsUsable_example : IsUsable loaded
load-IsUsable_example = load-IsUsable os flags loaded os-FillsBuffer loads
