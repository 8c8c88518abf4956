-- ===== src/Capture/Assembler.antt =====
-- internal/capture/engine.go: `Assembler`, which spreads the packets of a worker over streams, and the
-- worker's loop. A packet is what gopacket decodes, and none where it lacks a layer; the clock, in
-- nanoseconds with 0 for the zero time, is read once for an event.
mod Keys
mod Evict
pub mod Chains
pub mod Valid
pub mod Runs
mod Tests
use packet_lab.Prelude.{
  ℕ, zero, suc, ◌+◌, ◌-◌, Bool, true, false, not, ◌&&◌, ◌||◌, Option, none, some, List, [], ◌∷◌,
  ◌++◌, ltb, leb, ◌==◌, if◌then◌else◌, length, Bytes, bytes, eqb, Map, lookup, insert, erase,
  decimal,
}
use packet_lab.Capture.Parse.{Ip, ip_string}
use packet_lab.Capture.Stream.{Engine, Surroundings, TcpStream, new_stream}
use packet_lab.Capture.Stream.Feed.{feed, flush_stream}

-- the layers of a packet that the code reads
pub record Packet : Type 0 where
  pub src_ip : Ip
  pub dst_ip : Ip
  pub src_port : ℕ
  pub dst_port : ℕ
  pub syn : Bool
  pub ack : Bool
  pub fin : Bool
  pub rst : Bool
  pub payload : Bytes

-- `Assembler`, with the engine and its counters of streams
pub record Assembler : Type 0 where
  pub streams : Map TcpStream
  pub engine : Engine
  pub streams_evicted : ℕ
  pub streams_drop : ℕ

-- `NewAssembler`: the bound on streams, and no stream
abbrev pub max_streams_of : ℕ → ℕ
max_streams_of configured = if ltb 0 configured then configured else 1000

abbrev pub new_assembler : Engine → Assembler
new_assembler e = record { streams = []; engine = e; streams_evicted = 0; streams_drop = 0 }

abbrev one_of : ℕ → List ℕ → Bool
one_of n [] = false
one_of n (m ∷ ms) = (n == m) || one_of n ms

abbrev server_ports : List ℕ
server_ports =
    80 ∷ 443 ∷ 8080 ∷ 8443 ∷ 3000 ∷ 5000 ∷ 8000 ∷ 8888 ∷ 9000 ∷ 9090 ∷ 2080 ∷ 2083 ∷ 2086 ∷ 2087
    ∷ 4443 ∷ 7443 ∷ 11180 ∷ []

-- `isLikelyServerPort`
unfoldable pub is_likely_server_port : ℕ → Bool
is_likely_server_port port = one_of port server_ports || ltb port 1024

-- `determineDirection`
unfoldable pub determine_direction : ℕ → ℕ → Bool
determine_direction src dst =
    if is_likely_server_port dst
    then true
    else if is_likely_server_port src
    then false
    else ltb dst src

-- `<` on strings
unfoldable pub lt_bytes : Bytes → Bytes → Bool
lt_bytes xs [] = false
lt_bytes [] (y ∷ ys) = true
lt_bytes (x ∷ xs) (y ∷ ys) = ltb x y || ((x == y) && lt_bytes xs ys)

abbrev end_text : Bytes → ℕ → Bytes
end_text ip port = ip ++ (bytes "#" ++ decimal port)

-- the key of a stream from the ends of a packet
unfoldable pub stream_key : Bytes → ℕ → Bytes → ℕ → Bytes
stream_key src src_port dst dst_port =
    if lt_bytes src dst || (eqb src dst && ltb src_port dst_port)
    then end_text src src_port ++ (bytes "#" ++ end_text dst dst_port)
    else end_text dst dst_port ++ (bytes "#" ++ end_text src src_port)

-- the loop of `evictOldestIdleStream`
unfoldable pub oldest_from : Bytes × ℕ → Map TcpStream → Bytes × ℕ
oldest_from best [] = best
oldest_from (key, time) ((k, s) ∷ streams) =
    oldest_from (if (time == 0) || ltb s.last_active time then (k, s.last_active) else (key, time))
      streams

-- `evictOldestIdleStream`
unfoldable pub evict_oldest_idle_stream : Map TcpStream → Option TcpStream × Map TcpStream
evict_oldest_idle_stream streams =
    let key = (oldest_from ([], 0) streams).0 in
    if eqb key [] then (none, streams) else (lookup key streams, erase key streams)

abbrev pub evicted : Option TcpStream → Map TcpStream → Assembler → Option TcpStream × Assembler
evicted none rest a = (none, a)
evicted (some s) rest a =
    (some s, record a { streams = rest; streams_evicted = a.streams_evicted + 1 })

-- room for a new stream
unfoldable pub make_room : ℕ → Assembler → Option TcpStream × Assembler
make_room max a =
    let (victim, rest) = evict_oldest_idle_stream a.streams in
    if leb max (length a.streams) then evicted victim rest a else (none, a)

-- the stream of a packet that opens one
abbrev pub opened : ℕ → Packet → TcpStream
opened now p =
    if determine_direction p.src_port p.dst_port
    then new_stream p.src_ip p.src_port p.dst_port now
    else new_stream p.dst_ip p.dst_port p.src_port now

-- the client of a stream as a handshake shows it, and whether the packet comes from it
unfoldable pub directed : Packet → TcpStream → TcpStream × Bool
directed p s =
    if p.syn && not p.ack
    then (record s { client_port = p.src_port }, true)
    else if p.syn && (p.ack && not (s.client_port == 0))
    then (record s { client_port = p.dst_port }, false)
    else if not (s.client_port == 0)
    then (s, p.src_port == s.client_port)
    else (s, determine_direction p.src_port p.dst_port)

abbrev pub with_entry :
    Bytes → TcpStream → Option (Map TcpStream × Engine) → Option (Map TcpStream × Engine)
with_entry k s none = none
with_entry k s (some (kept, e)) = some ((k, s) ∷ kept, e)

module _ (env : Surroundings) (now : ℕ) where
  -- `flushEvictedStream`
  unfoldable pub flush_evicted_stream : Option TcpStream → Engine → Option Engine
  flush_evicted_stream none e = some e
  flush_evicted_stream (some s) e = elim (flush_stream env now s e) [
    | none ↦ none
    | some (_, e') ↦ some e'
  ]

  -- `HandleClose`
  unfoldable pub handle_close : Bytes → TcpStream → Assembler → Option Assembler
  handle_close key s a = elim (flush_stream env now s a.engine) [
    | none ↦ none
    | some (_, e) ↦ some (record a { streams = erase key a.streams; engine = e })
  ]

  unfoldable pub feed_payload : Packet → TcpStream × Bool → Engine → Option (TcpStream × Engine)
  feed_payload p (s, client_to_server) e =
      if eqb p.payload [] then some (s, e) else feed env now p.payload client_to_server s e

  -- the end of `Assemble`: the payload goes to the stream, which may close
  unfoldable pub deliver : Packet → Bytes → TcpStream → Assembler → Option Assembler
  deliver p key s a = elim (feed_payload p (directed p s) a.engine) [
    | none ↦ none
    | some (s', e) ↦
        let a' = record a { streams = insert key s' a.streams; engine = e } in
        if p.fin || p.rst then handle_close key s' a' else some a'
  ]

  -- a packet whose stream is not there: it is dropped if there is no room even so
  unfoldable pub open_stream : ℕ → Packet → Bytes → Assembler → Option Assembler
  open_stream max p key a =
      let (victim, roomy) = make_room max a in
      elim (flush_evicted_stream victim roomy.engine) [
        | none ↦ none
        | some e ↦
            if leb max (length roomy.streams)
            then some (record roomy { engine = e; streams_drop = roomy.streams_drop + 1 })
            else let s = opened now p in
              deliver p key s (record roomy { streams = insert key s roomy.streams; engine = e })
      ]

  -- `Assemble`
  unfoldable pub assemble : ℕ → Option Packet → Assembler → Option Assembler
  assemble max none a = some a
  assemble max (some p) a =
      let key = stream_key (ip_string p.src_ip) p.src_port (ip_string p.dst_ip) p.dst_port in
      elim (lookup key a.streams) [ some s ↦ deliver p key s a | none ↦ open_stream max p key a ]

  -- the loop of `FlushOlderThan`
  unfoldable pub flush_older : ℕ → Map TcpStream → Engine → Option (Map TcpStream × Engine)
  flush_older cutoff [] e = some ([], e)
  flush_older cutoff ((k, s) ∷ streams) e =
      let deleted = flush_older cutoff streams e in
      let flushed : Option (Map TcpStream × Engine) = elim (flush_stream env now s e) [
        | none ↦ none
        | some (_, e') ↦ flush_older cutoff streams e'
      ] in
      if s.non_http
      then deleted
      else if ltb s.last_active cutoff
      then flushed
      else with_entry k s deleted

  -- `FlushOlderThan`
  unfoldable pub flush_older_than : ℕ → Assembler → Option Assembler
  flush_older_than cutoff a = elim (flush_older cutoff a.streams a.engine) [
    | none ↦ none
    | some (kept, e) ↦ some (record a { streams = kept; engine = e })
  ]

  -- the loop of `FlushAllWithPending`
  unfoldable pub flush_all_streams : Map TcpStream → Engine → Option Engine
  flush_all_streams [] e = some e
  flush_all_streams ((k, s) ∷ streams) e = elim (flush_stream env now s e) [
    | none ↦ none
    | some (_, e') ↦ flush_all_streams streams e'
  ]

  -- `FlushAllWithPending`
  unfoldable pub flush_all_with_pending : Assembler → Option Assembler
  flush_all_with_pending a = elim (flush_all_streams a.streams a.engine) [
    | none ↦ none
    | some e ↦ some (record a { streams = []; engine = e })
  ]

-- what the loop of a worker gets: a packet, a tick of its clean-up, the end of its channel
pub data Event : Type 0 where
  arrives : Option Packet → Event
  ticks : Event
  closes : Event

-- one turn of `workerLoop`
unfoldable pub worker_step : Surroundings → ℕ → ℕ → ℕ × Event → Assembler → Option Assembler
worker_step env max timeout (now, arrives p) a = assemble env now max p a
worker_step env max timeout (now, ticks) a = flush_older_than env now (now - timeout) a
worker_step env max timeout (now, closes) a = flush_all_with_pending env now a

-- events with the times at which they happen
unfoldable pub run_worker : Surroundings → ℕ → ℕ → List (ℕ × Event) → Assembler → Option Assembler
run_worker env max timeout [] a = some a
run_worker env max timeout (ev ∷ evs) a = elim (worker_step env max timeout ev a) [
  | none ↦ none
  | some a' ↦ run_worker env max timeout evs a'
]
