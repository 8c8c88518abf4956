-- ===== src/Capture/Stream/Feeds.antt =====
-- `Feed` and the flush of a stream: they return, and keep the engine sound and the buffers bounded.
use packet_lab.Prelude.{
  ℕ, Option, none, some, [], ◌++◌, length, Bytes, refl, Bool-cases, inl, inr, Bool, true, false,
  if◌then◌else◌, not, ◌&&◌, ◌||◌, leb, ◌==◌, eqb,
}
use packet_lab.Models.{empty_request}
use packet_lab.Capture.Scan.{is_tls_client_hello}
use packet_lab.Capture.Sni.{extract_sni}
use packet_lab.Capture.Stream.{res_body_updated, Engine, Surroundings, TcpStream, log}
use packet_lab.Capture.Stream.Extract.{try_extract_http, try_extract_http_on_close}
use packet_lab.Capture.Stream.Feed.{
  emit_tls_record, flush_sse_events, feed_sse, is_foreign, first_bytes, name_of, refuse, trimmed,
  buffered, trimmed_result, feed, flush_stream,
}
use packet_lab.Capture.Stream.Ends.{Returns, Ends-Returns, if-Returns, try_extract_end}
use packet_lab.Capture.Stream.Closes.{on_close_end}
use packet_lab.Capture.Stream.Sound.{
  IsSound, IsSoundEngine, emit-IsSoundEngine, told, extract-IsSound, close-IsSound,
}

module _ (env : Surroundings) (now : ℕ) where
  flush_sse-IsSoundEngine :
      (s : TcpStream) (e : Engine) → IsSoundEngine e → IsSoundEngine (flush_sse_events env s e)
  unfolding flush_sse_events
  flush_sse-IsSoundEngine s e v = elim (Bool-cases ((s.sse_req_id == 0) || eqb s.sse_buf [])) [
    | inl quiet ↦ rw (flush_sse_events, quiet) v
    | inr due ↦
        rw (flush_sse_events, due)
          (told env.has_hub
            (record empty_request {
              id = s.sse_req_id;
              is_sse = true;
              size_bytes = length s.sse_buf;
            })
            (log (res_body_updated s.sse_req_id s.sse_buf) e)
            (record { finals = (tt, v.finals); counted = v.counted }))
  ]

  -- The flush of a stream returns and keeps the engine sound.
  pub flush_stream-Returns :
      (s : TcpStream) (e : Engine) → IsSound s e → Returns IsSound (flush_stream env now s e)
  unfolding flush_stream
  flush_stream-Returns s e h = if-Returns IsSound s.non_http (some (s, e)) _ h (
      if-Returns IsSound s.sse_pending (some (s, flush_sse_events env s e)) _
        (h.0, flush_sse-IsSoundEngine s e h.1)
        (Ends-Returns IsSound (try_extract_http_on_close env now s e) (on_close_end env now s e)
          (λ r. close-IsSound env now s e r h)))

  if-IsSoundEngine :
      (b : Bool) (x y : Engine)
      → IsSoundEngine x
      → IsSoundEngine y
      → IsSoundEngine (if b then x else y)
  if-IsSoundEngine true x y h k = h
  if-IsSoundEngine false x y h k = k

  tls-IsSoundEngine :
      (s : TcpStream) (sni : Bytes) (e : Engine)
      → IsSoundEngine e
      → IsSoundEngine (emit_tls_record now s sni e)
  unfolding emit_tls_record
  tls-IsSoundEngine s sni e v = emit-IsSoundEngine _ e (inl refl) v

  feed_sse-IsSound :
      (buf : Bytes) (s : TcpStream) (e : Engine)
      → IsSound s e
      → IsSound (feed_sse env buf s e).0 (feed_sse env buf s e).1
  unfolding feed_sse
  feed_sse-IsSound buf s e h =
      let added = record s { sse_buf = s.sse_buf ++ buf } in
      (
        h.0,
        if-IsSoundEngine (leb 4096 (length added.sse_buf)) (flush_sse_events env added e) e
            (flush_sse-IsSoundEngine added e h.1) h.1,
      )

  refuse-IsSound :
      (s : TcpStream) (e : Engine) → IsSound s e → IsSound (refuse now s e).0 (refuse now s e).1
  unfolding refuse
  refuse-IsSound s e h =
      let sni = name_of (extract_sni (first_bytes s)) in
      (
        h.0,
        if-IsSoundEngine
            (is_tls_client_hello (first_bytes s) && (not s.sni_emitted && not (eqb sni [])))
            (emit_tls_record now s sni e) e (tls-IsSoundEngine s sni e h.1) h.1,
      )

  buffered-IsSound :
      (buf : Bytes) (b : Bool) (s : TcpStream) (e : Engine)
      → IsSound s e
      → IsSound (buffered buf b s) e
  buffered-IsSound buf true s e h = h
  buffered-IsSound buf false s e h = h

  pub trimmed-Returns :
      (P Q : TcpStream → Engine → Type 0) (o : Option (TcpStream × Engine))
      → ((s : TcpStream) (e : Engine) → P s e → Q (trimmed env s) e)
      → Returns P o
      → Returns Q (trimmed_result env o)
  trimmed-Returns P Q none f h = h
  trimmed-Returns P Q (some (s, e)) f h = f s e h

  -- `Feed` returns and keeps the engine sound.
  pub feed-Returns :
      (buf : Bytes) (b : Bool) (s0 : TcpStream) (e : Engine)
      → IsSound s0 e
      → Returns IsSound (feed env now buf b s0 e)
  unfolding feed trimmed
  feed-Returns buf b s0 e h =
      let s = record s0 { last_active = now } in
      let s1 = buffered buf b s in
      let t = record s1 { first_data = true } in
      let h1 = buffered-IsSound buf b s e h in
      if-Returns IsSound s.non_http (some (s, e)) _ h (
        if-Returns IsSound (s.sse_pending && not b) (some (feed_sse env buf s e)) _
          (feed_sse-IsSound buf s e h)
          (if-Returns IsSound (not s.first_data && is_foreign (first_bytes s1))
            (some (refuse now s1 e)) _ (refuse-IsSound s1 e h1)
            (trimmed-Returns IsSound IsSound (try_extract_http env now t e) (λ u f v. v)
              (Ends-Returns IsSound (try_extract_http env now t e) (try_extract_end env now t e)
                (λ r. extract-IsSound env now t e r h1)))))
