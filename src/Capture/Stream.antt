-- ===== src/Capture/Stream.antt =====
-- internal/capture/engine.go: `TCPStream`, from the data of a connection to captured requests: its
-- state here, its methods in the children. A call reads the clock once.
-- The engine is what a stream changes of it: the counter and what it sends to the store, the hub and
-- the ring, the newest first.
pub mod Extract
pub mod Feed
pub mod Outcomes
pub mod Ends
mod Closes
pub mod Sound
pub mod Feeds
pub mod Bounds
mod Exchange
mod Tests
use packet_lab.Prelude.{
  ℕ, zero, suc, ◌+◌, ◌-◌, ◌/◌, Bool, true, false, not, ◌&&◌, ◌||◌, Option, none, some, List, [],
  ◌∷◌, ◌++◌, ltb, leb, if◌then◌else◌, length, take, drop, Bytes, bytes, eqb, to_lower, contains,
  Map, decimal,
}
use packet_lab.Prelude.Int.{ℤ, pos, negsuc, ltb_ℤ}
use packet_lab.Models.{CapturedRequest, empty_request, ProcessInfo}
use packet_lab.Capture.Scan.{
  index_double_crlf, is_http_response, looks_like_http, is_tls_client_hello,
}
use packet_lab.Capture.Frame.{
  find_http_message_end, parse_content_length, parse_transfer_encoding, truncate_buffer,
}
use packet_lab.Capture.Sni.{Sni, named, extract_sni}
use packet_lab.Capture.Parse.{
  Ip, no_ip, ipv4, ipv6, ip_string, Flow, Response, parse_http_request, parse_http_response,
  parse_http_response_from_header, parse_status_code_from_header, response_can_have_no_body,
}

-- the calls that leave the engine; a save has its answer, `none` for an error
pub data Output : Type 0 where
  saved : CapturedRequest → Option ℕ → Output
  res_body_updated : ℕ → Bytes → Output
  update_told : CapturedRequest → Output
  emitted : CapturedRequest → Output

-- `Engine`, as far as a stream changes it
pub record Engine : Type 0 where
  pub http_found : ℕ
  pub outputs : List Output

-- what a stream finds in the engine: the limit, whether there is a hub, what Save answers after the
-- calls so far, and the look-up of processes
pub record Surroundings : Type 0 where
  pub max_res_bytes : ℕ
  pub has_hub : Bool
  pub save : List Output → CapturedRequest → Option ℕ
  pub resolve : Bytes → ℕ → Option ProcessInfo

-- `TCPStream`
pub record TcpStream : Type 0 where
  pub src_ip : Ip
  pub src_port : ℕ
  pub dst_port : ℕ
  pub client_port : ℕ
  pub client_buf : Bytes
  pub server_buf : Bytes
  pub last_active : ℕ
  pub pending_req : Option CapturedRequest
  pub non_http : Bool
  pub first_data : Bool
  pub sni_emitted : Bool
  pub sse_pending : Bool
  pub sse_req_id : ℕ
  pub sse_buf : Bytes

abbrev pub flow_of : Surroundings → TcpStream → Flow
flow_of env s = record {
  src_ip = s.src_ip;
  src_port = s.src_port;
  dst_port = s.dst_port;
  resolve = env.resolve;
}

-- `TCPStreamPool.New`
abbrev pub new_stream : Ip → ℕ → ℕ → ℕ → TcpStream
new_stream ip client server now = record {
  src_ip = ip;
  src_port = client;
  dst_port = server;
  client_port = client;
  client_buf = [];
  server_buf = [];
  last_active = now;
  pending_req = none;
  non_http = false;
  first_data = false;
  sni_emitted = false;
  sse_pending = false;
  sse_req_id = 0;
  sse_buf = [];
}

abbrev pub log : Output → Engine → Engine
log o e = record e { outputs = o ∷ e.outputs }

abbrev pub count_found : Engine → Engine
count_found e = record e { http_found = e.http_found + 1 }

abbrev pub is_nil : Ip → Bool
is_nil no_ip = true
is_nil (ipv4 text) = false
is_nil (ipv6 text) = false

-- `emitNonBlocking`, up to the push into the ring
unfoldable pub emit : CapturedRequest → Engine → Engine
emit req e = log (emitted (record req { capture_mode = bytes "nic" })) (count_found e)

-- without the data that is buffered
abbrev pub emptied : TcpStream → TcpStream
emptied s = record s { client_buf = []; server_buf = [] }
