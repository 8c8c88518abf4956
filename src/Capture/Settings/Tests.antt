-- ===== src/Capture/Settings/Tests.antt =====
-- Settings of a configuration, and a witness.
use packet_lab.Prelude.{ℕ, ◌≡◌, refl, true, false, none, List, [], ◌∷◌, bytes}
use packet_lab.Prelude.Int.{pos}
use packet_lab.Config.{Config}
use packet_lab.Capture.Stream.{Engine, Surroundings}
use packet_lab.Capture.Assembler.{max_streams_of, new_assembler, Event, ticks, closes, run_worker}
use packet_lab.Capture.Assembler.Chains.{Yields}
use packet_lab.Capture.Assembler.Valid.{IsValid}
use packet_lab.Capture.Settings.{mul_i64, given, configured}
use packet_lab.Capture.Settings.Configured.{limited, configured-IsValid}

abbrev config : Config
config = record {
  proxy_port = pos 8080;
  api_port = pos 9090;
  api_host = bytes "127.0.0.1";
  api_token = bytes "t";
  db_path = [];
  no_proxy = false;
  no_mitm = false;
  insecure = false;
  base_dir = [];
  cert_dir = [];
  capture = true;
  capture_iface = [];
  capture_bpf = [];
  capture_no_proc = false;
  capture_stream_timeout_min = pos 2;
  capture_ring_entries = pos 1024;
  max_streams = pos 64;
  max_req_body_kb = pos 1;
  max_res_body_kb = pos 8;
  allow_origins = [];
  intercept_pending_timeout = pos 60;
  cleanup_retention_days = pos 0;
  cleanup_interval = pos 60;
  llm_endpoints = [];
}

abbrev env : Surroundings
env = record {
  max_res_bytes = 0;
  has_hub = false;
  save = λ calls req. none;
  resolve = λ ip port. none;
}

abbrev idle : Engine
idle = record { http_found = 0; outputs = [] }

abbrev events : List (ℕ × Event)
events = (5, ticks) ∷ (9, closes) ∷ []

body_limit : (configured config).max_res_bytes ≡ 8192
unfolding configured mul_i64 given
body_limit = refl

-- 2 ^ 53 kilobytes pass the range of int64, and the default stays
wrapped :
    (configured (record config { max_res_body_kb = pos 9007199254740992 })).max_res_bytes ≡ 4194304
unfolding configured mul_i64 given
wrapped = refl

configured-IsValid_example :
    Yields
      (IsValid (configured config).max_res_bytes (max_streams_of (configured config).max_streams))
      (run_worker
        (limited config env)
        (max_streams_of (configured config).max_streams)
        (configured config).stream_timeout
        events
        (new_assembler idle))
configured-IsValid_example =
    configured-IsValid config env events idle (record { finals = tt; counted = refl })
