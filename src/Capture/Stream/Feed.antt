-- ===== src/Capture/Stream/Feed.antt =====
-- internal/capture/engine.go: `Feed`, `flushSSEEvents`, and what is done with a stream that ends.
use packet_lab.Prelude.{
  ℕ, ◌-◌, ◌*◌, ◌==◌, Bool, true, false, not, ◌&&◌, ◌||◌, Option, none, some, [], ◌∷◌, ◌++◌, ltb,
  leb, if◌then◌else◌, length, drop, Bytes, bytes, eqb, decimal,
}
use packet_lab.Models.{empty_request}
use packet_lab.Capture.Scan.{looks_like_http, is_tls_client_hello}
use packet_lab.Capture.Frame.{truncate_buffer}
use packet_lab.Capture.Sni.{Sni, named, extract_sni}
use packet_lab.Capture.Parse.{ip_string}
use packet_lab.Capture.Stream.{
  res_body_updated, update_told, Engine, Surroundings, TcpStream, is_nil, log, emit, emptied,
}
use packet_lab.Capture.Stream.Extract.{try_extract_http, try_extract_http_on_close}

-- `streamBufLimit`
unfoldable pub stream_buf_limit : ℕ → ℕ
stream_buf_limit max = if ltb 0 max then max else 4 * 1024 * 1024

-- `emitTLSRecord`
unfoldable pub emit_tls_record : ℕ → TcpStream → Bytes → Engine → Engine
emit_tls_record now s sni e =
    let tls = (bytes "TLS-SNI", sni) ∷ (bytes "Dst-Port", decimal s.dst_port) ∷ [] in
    let source =
      (bytes "Src-IP", ip_string s.src_ip) ∷ (bytes "Src-Port", decimal s.src_port) ∷ [] in
    emit
      (record empty_request {
        method = bytes "TLS";
        url = bytes "https://" ++ (sni ++ bytes "/");
        host = sni;
        path = bytes "/";
        protocol = bytes "HTTPS/TLS";
        is_https = true;
        req_headers = if is_nil s.src_ip then tls else tls ++ source;
        res_body = bytes "[TLS encrypted - content not available]";
        captured_at = now;
        capture_mode = bytes "nic";
      })
      e

-- the first data of a connection is not HTTP
abbrev pub is_foreign : Bytes → Bool
is_foreign first = not (eqb first []) && not (looks_like_http first)

abbrev pub first_bytes : TcpStream → Bytes
first_bytes s = if eqb s.client_buf [] then s.server_buf else s.client_buf

-- the name in a TLS greeting; a panic is ruled out in Sni/Safe
abbrev pub name_of : Sni → Bytes
name_of (named name) = name
name_of _ = []

abbrev pub buffered : Bytes → Bool → TcpStream → TcpStream
buffered buf true s = record s { client_buf = s.client_buf ++ buf }
buffered buf false s = record s { server_buf = s.server_buf ++ buf }

-- what becomes of a connection that is not HTTP
unfoldable pub refuse : ℕ → TcpStream → Engine → TcpStream × Engine
refuse now s e =
    let sni = name_of (extract_sni (first_bytes s)) in
    let tells = is_tls_client_hello (first_bytes s) && (not s.sni_emitted && not (eqb sni [])) in
    (
      record (emptied s) {
        first_data = true;
        non_http = true;
        sni_emitted = if tells then true else s.sni_emitted;
      },
      if tells then emit_tls_record now s sni e else e,
    )

-- the last bytes of the events, up to the limit
unfoldable pub latest : ℕ → Bytes → Bytes
latest max buf = if ltb max (length buf) then drop (length buf - max) buf else buf

module _ (env : Surroundings) where
  -- `flushSSEEvents`; what it does is the same if the update fails
  unfoldable pub flush_sse_events : TcpStream → Engine → Engine
  flush_sse_events s e =
      if (s.sse_req_id == 0) || eqb s.sse_buf []
      then e
      else let updated = log (res_body_updated s.sse_req_id s.sse_buf) e in
        if env.has_hub
        then log
            (update_told (record empty_request {
              id = s.sse_req_id;
              is_sse = true;
              size_bytes = length s.sse_buf;
            }))
            updated
        else updated

  -- data of an event stream that has begun
  unfoldable pub feed_sse : Bytes → TcpStream → Engine → TcpStream × Engine
  feed_sse buf s e =
      let added = record s { sse_buf = s.sse_buf ++ buf } in
      (
        record s { sse_buf = latest env.max_res_bytes added.sse_buf },
        if leb 4096 (length added.sse_buf) then flush_sse_events added e else e,
      )

  -- the buffers, cut to the limit
  unfoldable pub trimmed : TcpStream → TcpStream
  trimmed s =
      let limit = stream_buf_limit env.max_res_bytes in
      record s {
        client_buf = truncate_buffer s.client_buf limit;
        server_buf = truncate_buffer s.server_buf limit;
      }

  abbrev pub trimmed_result : Option (TcpStream × Engine) → Option (TcpStream × Engine)
  trimmed_result none = none
  trimmed_result (some (s, e)) = some (trimmed s, e)

module _ (env : Surroundings) (now : ℕ) where
  -- `Feed`
  unfoldable pub feed : Bytes → Bool → TcpStream → Engine → Option (TcpStream × Engine)
  feed buf client_to_server s0 e =
      let s = record s0 { last_active = now } in
      let s1 = buffered buf client_to_server s in
      if s.non_http
      then some (s, e)
      else if s.sse_pending && not client_to_server
      then some (feed_sse env buf s e)
      else if not s.first_data && is_foreign (first_bytes s1)
      then some (refuse now s1 e)
      else trimmed_result env (try_extract_http env now (record s1 { first_data = true }) e)

  -- what `HandleClose`, `flushEvictedStream`, `FlushOlderThan` and `FlushAllWithPending` do with a stream
  unfoldable pub flush_stream : TcpStream → Engine → Option (TcpStream × Engine)
  flush_stream s e =
      if s.non_http
      then some (s, e)
      else if s.sse_pending
      then some (s, flush_sse_events env s e)
      else try_extract_http_on_close env now s e
