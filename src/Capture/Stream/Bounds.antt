-- ===== src/Capture/Stream/Bounds.antt =====
-- The memory that a stream holds.
use packet_lab.Prelude.{
  ℕ, suc, ◌-◌, ◌≤◌, ◌<◌, ◌≡◌, sym, subst, none, some, ◌++◌, length, length-drop, Bytes, arith, refl,
  Bool, true, false, not, ◌&&◌,
}
use packet_lab.Models.{CapturedRequest}
use packet_lab.Capture.Frame.Message.{length-truncate_buffer}
use packet_lab.Capture.Stream.{Engine, Surroundings, TcpStream}
use packet_lab.Capture.Stream.Extract.{Next, try_extract_http}
use packet_lab.Capture.Stream.Feed.{
  stream_buf_limit, latest, feed_sse, is_foreign, first_bytes, refuse, trimmed, buffered, feed,
}
use packet_lab.Capture.Stream.Ends.{Returns, Ends-Returns, if-Returns, try_extract_end}
use packet_lab.Capture.Stream.Outcomes.{
  Outcome, waits, skips, answers, fails, begins, Taken, kept, taken, Holds, IsKept,
  extract_rounds-Holds,
}
use packet_lab.Capture.Stream.Feeds.{trimmed-Returns}

-- each buffer holds at most `max` bytes
pub record IsBounded (max : ℕ) (s : TcpStream) : Type 0 where
  pub client : length s.client_buf ≤ max
  pub server : length s.server_buf ≤ max
  pub events : length s.sse_buf ≤ max

latest-le : (max : ℕ) (buf : Bytes) → length (latest max buf) ≤ max
unfolding latest
latest-le max buf = ground (arith, length-drop (length buf - max) buf)

module _ (env : Surroundings) (now : ℕ) where
  -- the extraction leaves the events alone
  abbrev SameEvents : ℕ → TcpStream → Engine → Type 0
  SameEvents n s e = length s.sse_buf ≤ n

  keeps_events : (n : ℕ) → IsKept env now (SameEvents n)
  keeps_events n = record { by_taking = taking; by_round = round }
    where
      taking :
          (s t : TcpStream) (e : Engine)
          → SameEvents n s e
          → s.pending_req ≡ none
          → Taken s t
          → SameEvents n t e
      taking s t e h p (kept eq) = subst (λ u. SameEvents n u e) (sym eq) h
      taking s t e h p (taken k o pos le fresh eq) = subst (λ u. SameEvents n u e) (sym eq) h

      round :
          (s : TcpStream) (req : CapturedRequest) (e : Engine) (x : Next)
          → SameEvents n s e
          → s.pending_req ≡ some req
          → Outcome env now s req e x
          → Holds env now (SameEvents n) x
      round s req e x h p (waits eq) = subst (Holds env now (SameEvents n)) (sym eq) h
      round s req e x h p (skips k pos le eq) = subst (Holds env now (SameEvents n)) (sym eq) h
      round s req e x h p (answers k size resp pos le final eq) =
          subst (Holds env now (SameEvents n)) (sym eq) h
      round s req e x h p (fails k size resp pos le final eq) =
          subst (Holds env now (SameEvents n)) (sym eq) h
      round s req e x h p (begins k size id resp pos le final eq) =
          subst (Holds env now (SameEvents n)) (sym eq) h

  extract-events :
      (n : ℕ) (s : TcpStream) (e : Engine) (r : TcpStream × Engine)
      → length s.sse_buf ≤ n
      → try_extract_http env now s e ≡ some r
      → length r.0.sse_buf ≤ n
  unfolding try_extract_http
  extract-events n s e r h done =
      extract_rounds-Holds env now (SameEvents n) (keeps_events n) (suc (length s.server_buf)) s e r
        h done

  limit_lem : 0 < env.max_res_bytes → stream_buf_limit env.max_res_bytes ≡ env.max_res_bytes
  unfolding stream_buf_limit
  limit_lem some_bytes = ground arith

  abbrev Bounded : TcpStream → Engine → Type 0
  Bounded s e = IsBounded env.max_res_bytes s

  trimmed-IsBounded :
      (s : TcpStream)
      → 0 < env.max_res_bytes
      → length s.sse_buf ≤ env.max_res_bytes
      → IsBounded env.max_res_bytes (trimmed env s)
  unfolding trimmed
  trimmed-IsBounded s some_bytes h =
      let limit = stream_buf_limit env.max_res_bytes in
      record {
        client = omega (arith, length-truncate_buffer s.client_buf limit, limit_lem some_bytes);
        server = omega (arith, length-truncate_buffer s.server_buf limit, limit_lem some_bytes);
        events = h;
      }

  sse-IsBounded :
      (buf : Bytes) (s : TcpStream) (e : Engine)
      → IsBounded env.max_res_bytes s
      → IsBounded env.max_res_bytes (feed_sse env buf s e).0
  unfolding feed_sse
  sse-IsBounded buf s e v = record {
    client = v.client;
    server = v.server;
    events = latest-le env.max_res_bytes (s.sse_buf ++ buf);
  }

  buffered-events :
      (buf : Bytes) (b : Bool) (s : TcpStream) → (buffered buf b s).sse_buf ≡ s.sse_buf
  buffered-events buf true s = refl
  buffered-events buf false s = refl

  refuse-IsBounded :
      (max : ℕ) (s : TcpStream) (e : Engine)
      → length s.sse_buf ≤ max
      → IsBounded max (refuse now s e).0
  unfolding refuse
  refuse-IsBounded max s e h = record { client = omega arith; server = omega arith; events = h }

  -- Where the engine has a limit, `Feed` returns a stream none of whose buffers is above it, if none was
  -- before.
  pub feed-IsBounded :
      (buf : Bytes) (b : Bool) (s0 : TcpStream) (e : Engine)
      → 0 < env.max_res_bytes
      → IsBounded env.max_res_bytes s0
      → Returns (λ s _. IsBounded env.max_res_bytes s) (feed env now buf b s0 e)
  unfolding feed
  feed-IsBounded buf b s0 e some_bytes v =
      let s = record s0 { last_active = now } in
      let s1 = buffered buf b s in
      let t = record s1 { first_data = true } in
      let h1 : length s1.sse_buf ≤ env.max_res_bytes =
        subst (λ u. length u ≤ env.max_res_bytes) (sym (buffered-events buf b s)) v.events in
      let same : IsBounded env.max_res_bytes s = record {
        client = v.client;
        server = v.server;
        events = v.events;
      } in
      if-Returns Bounded s.non_http (some (s, e)) _ same (
        if-Returns Bounded (s.sse_pending && not b) (some (feed_sse env buf s e)) _
          (sse-IsBounded buf s e same)
          (if-Returns Bounded (not s.first_data && is_foreign (first_bytes s1))
            (some (refuse now s1 e)) _ (refuse-IsBounded env.max_res_bytes s1 e h1)
            (trimmed-Returns env now (SameEvents env.max_res_bytes) Bounded
              (try_extract_http env now t e) (λ u f h. trimmed-IsBounded u some_bytes h)
              (Ends-Returns (SameEvents env.max_res_bytes) (try_extract_http env now t e)
                (try_extract_end env now t e) (λ r. extract-events env.max_res_bytes t e r h1)))))
