-- ===== src/Capture/Assembler/Tests.antt =====
-- A worker that gets packets, and a witness for each property.
use packet_lab.Prelude.{
  ℕ, ◌≡◌, refl, true, false, none, some, List, [], ◌∷◌, ◌++◌, bytes, arith, Map, lookup, eqb,
}
use packet_lab.Capture.Scan.{cr, lf, crlf_crlf}
use packet_lab.Capture.Parse.{Ip, ipv4}
use packet_lab.Capture.Stream.{Engine, Surroundings, TcpStream, new_stream}
use packet_lab.Capture.Assembler.{
  Packet, new_assembler, stream_key, evict_oldest_idle_stream, Event, arrives, ticks, closes,
  run_worker, oldest_from,
}
use packet_lab.Capture.Assembler.Chains.{Yields}
use packet_lab.Capture.Assembler.Evict.{Evicts, evict_oldest}
use packet_lab.Capture.Assembler.Keys.{stream_key_swap}
use packet_lab.Capture.Assembler.Valid.{IsValid}
use packet_lab.Capture.Assembler.Runs.{run_worker-IsValid}

abbrev env : Surroundings
env = record {
  max_res_bytes = 4096;
  has_hub = false;
  save = λ calls req. some 7;
  resolve = λ ip port. none;
}

abbrev idle : Engine
idle = record { http_found = 0; outputs = [] }

abbrev client : Ip
client = ipv4 (bytes "10.0.0.1")

abbrev server : Ip
server = ipv4 (bytes "10.0.0.9")

abbrev asks : Packet
asks = record {
  src_ip = client;
  dst_ip = server;
  src_port = 5000;
  dst_port = 80;
  syn = false;
  ack = true;
  fin = false;
  rst = false;
  payload = bytes "GET /a HTTP/1.1" ++ ((cr ∷ lf ∷ []) ++ (bytes "A: b" ++ crlf_crlf));
}

abbrev ends : Packet
ends = record asks {
  src_ip = server;
  dst_ip = client;
  src_port = 80;
  dst_port = 5000;
  fin = true;
  payload = [];
}

abbrev events : List (ℕ × Event)
events =
    (5, arrives (some asks))
    ∷ (6, arrives none)
    ∷ (7, arrives (some ends))
    ∷ (9, ticks)
    ∷ (10, closes)
    ∷ []

abbrev stream : ℕ → TcpStream
stream now = new_stream client 5000 80 now

abbrev streams : Map TcpStream
streams = (bytes "b", stream 8) ∷ (bytes "a", stream 3) ∷ (bytes "c", stream 4) ∷ []

oldest : (oldest_from ([], 0) streams) ≡ (bytes "a", 3)
unfolding oldest_from
oldest = refl

run_worker-IsValid_example :
    Yields (IsValid 4096 5) (run_worker env 5 100 events (new_assembler idle))
run_worker-IsValid_example =
    run_worker-IsValid env (omega arith) 5 (omega arith) 100 events idle
      (record { finals = tt; counted = refl })

stream_key_swap_example :
    stream_key (bytes "10.0.0.1") 5000 (bytes "10.0.0.9") 80
    ≡ stream_key (bytes "10.0.0.9") 80 (bytes "10.0.0.1") 5000
stream_key_swap_example = stream_key_swap (bytes "10.0.0.1") 5000 (bytes "10.0.0.9") 80

evict_oldest_example : Evicts streams (evict_oldest_idle_stream streams)
unfolding lookup eqb
evict_oldest_example =
    evict_oldest (bytes "b") (stream 8) ((bytes "a", stream 3) ∷ (bytes "c", stream 4) ∷ [])
      (refl, (refl, (refl, tt))) (omega arith, (omega arith, (omega arith, tt)))
      ((λ e. cc), ((λ e. cc), ((λ e. cc), tt)))
