-- ===== src/Capture/Assembler/Valid.antt =====
-- What holds of an assembler after any events, which each return.
use packet_lab.Prelude.{
  ℕ, ◌+◌, ◌≤◌, ◌<◌, ◌≡◌, ◌≢◌, sym, ap, subst, Bool, false, not, ◌&&◌, ◌||◌, Option, none, some, [],
  ◌∷◌, ◌++◌, ltb, leb, ◌==◌, if◌then◌else◌, length, Bytes, bytes, eqb, Map, lookup, insert, erase,
  All, arith, Bool-cases, inl, inr, length-insert-le, length-erase-le, length-append,
  length-insert_present, length-erase-lt, lookup-insert_self, All-lookup, All-insert, All-erase,
  decimal,
}
use packet_lab.Capture.Parse.{Ip}
use packet_lab.Capture.Parse.Responses.{Fresh}
use packet_lab.Capture.Stream.{Engine, Surroundings, TcpStream, new_stream}
use packet_lab.Capture.Stream.Feed.{feed, flush_stream}
use packet_lab.Capture.Stream.Ends.{Returns, if-Returns}
use packet_lab.Capture.Stream.Sound.{IsSound, IsSoundEngine}
use packet_lab.Capture.Stream.Feeds.{feed-Returns, flush_stream-Returns}
use packet_lab.Capture.Stream.Bounds.{IsBounded, feed-IsBounded}
use packet_lab.Capture.Assembler.Chains.{Yields, then-Yields, if-Yields, if-has, both, step-Yields}
use packet_lab.Capture.Assembler.Evict.{HasKey, evict-Takes}
use packet_lab.Capture.Assembler.{
  lt_bytes, Packet, Assembler, determine_direction, opened, directed, evicted, make_room,
  flush_evicted_stream, handle_close, feed_payload, deliver, open_stream, stream_key,
}

-- a stream in the map: it has a key, its request has no answer yet, its buffers are within the bound
abbrev pub IsGood : ℕ → TcpStream → Type 0
IsGood max s = Fresh s.pending_req × IsBounded max s

abbrev pub IsEntry : ℕ → Bytes × TcpStream → Type 0
IsEntry max e = HasKey e × IsGood max e.1

abbrev pub AllGood : ℕ → Map TcpStream → Type 0
AllGood max streams = All (IsEntry max) streams

-- no more streams than the bound, each of them good, a sound engine, and no packet turned away
pub record IsValid (limit max : ℕ) (a : Assembler) : Type 0 where
  pub few : length a.streams ≤ max
  pub good : AllGood limit a.streams
  pub sound : IsSoundEngine a.engine
  pub all_taken : a.streams_drop ≡ 0

abbrev GoodOption : ℕ → Option TcpStream → Type 0
GoodOption max none = Unit
GoodOption max (some s) = IsGood max s

keys_of : (max : ℕ) (m : Map TcpStream) → AllGood max m → All HasKey m
keys_of max [] h = tt
keys_of max (e ∷ m) (one, h) = (one.0, keys_of max m h)

pub stream_key-HasKey :
    (src : Bytes) (src_port : ℕ) (dst : Bytes) (dst_port : ℕ)
    → stream_key src src_port dst dst_port ≢ []
unfolding stream_key
stream_key-HasKey src src_port dst dst_port =
    if-has (λ (key : Bytes). key ≢ []) (lt_bytes src dst || (eqb src dst && ltb src_port dst_port))
      _ _ (hashed (src ++ (bytes "#" ++ decimal src_port)) (dst ++ (bytes "#" ++ decimal dst_port)))
      (hashed (dst ++ (bytes "#" ++ decimal dst_port)) (src ++ (bytes "#" ++ decimal src_port)))
  where
    hashed : (x y : Bytes) → (x ++ (bytes "#" ++ y)) ≢ []
    hashed x y e =
        let n : length (x ++ (bytes "#" ++ y)) ≡ 0 = ap length e in
        absurd (omega (arith, length-append x (bytes "#" ++ y)))

module _ (env : Surroundings) (some_bytes : 0 < env.max_res_bytes) (now : ℕ) where
  pub flush_lem :
      (s : TcpStream) (e : Engine)
      → Fresh s.pending_req
      → IsSoundEngine e
      → Returns IsSound (flush_stream env now s e)
  flush_lem s e h v = flush_stream-Returns env now s e (h, v)

  feed_lem :
      (buf : Bytes) (b : Bool) (s : TcpStream) (e : Engine)
      → IsGood env.max_res_bytes s
      → IsSoundEngine e
      → Returns (λ t f. IsSound t f × IsBounded env.max_res_bytes t) (feed env now buf b s e)
  feed_lem buf b s e (h, k) v =
      both IsSound (λ t _. IsBounded env.max_res_bytes t) (feed env now buf b s e)
        (feed-Returns env now buf b s e (h, v)) (feed-IsBounded env now buf b s e some_bytes k)

  flush_evicted-Yields :
      (o : Option TcpStream) (e : Engine)
      → GoodOption env.max_res_bytes o
      → IsSoundEngine e
      → Yields IsSoundEngine (flush_evicted_stream env now o e)
  unfolding flush_evicted_stream
  flush_evicted-Yields none e g v = v
  flush_evicted-Yields (some s) e g v =
      then-Yields IsSound IsSoundEngine (flush_stream env now s e) (λ _ e'. some e')
        (flush_lem s e g.0 v) (λ t f h. h.1)

  module _ (max : ℕ) where
    abbrev Valid : Assembler → Type 0
    Valid = IsValid env.max_res_bytes max

    close-Yields :
        (key : Bytes) (s : TcpStream) (a : Assembler)
        → Fresh s.pending_req
        → Valid a
        → Yields Valid (handle_close env now key s a)
    unfolding handle_close
    close-Yields key s a h v =
        then-Yields IsSound Valid (flush_stream env now s a.engine) _
          (flush_lem s a.engine h v.sound)
          λ t f k. record {
            few = omega (arith, v.few, length-erase-le key a.streams);
            good = All-erase (IsEntry env.max_res_bytes) key a.streams v.good;
            sound = k.1;
            all_taken = v.all_taken;
          }

    payload-Returns :
        (p : Packet) (s : TcpStream) (b : Bool) (e : Engine)
        → IsGood env.max_res_bytes s
        → IsSoundEngine e
        → Returns
            (λ t f. IsSound t f × IsBounded env.max_res_bytes t)
            (feed_payload env now p (s, b) e)
    unfolding feed_payload
    payload-Returns p s b e g v =
        if-Returns (λ t f. IsSound t f × IsBounded env.max_res_bytes t) (eqb p.payload [])
          (some (s, e)) _ ((g.0, v), g.1) (feed_lem p.payload b s e g v)

    readdressed :
        (c : ℕ) (s : TcpStream)
        → IsGood env.max_res_bytes s
        → IsGood env.max_res_bytes (record s { client_port = c })
    readdressed c s (h, k) = (h, record { client = k.client; server = k.server; events = k.events })

    directed-Good :
        (p : Packet) (s : TcpStream)
        → IsGood env.max_res_bytes s
        → IsGood env.max_res_bytes (directed p s).0
    unfolding directed
    directed-Good p s g =
        let Q = λ (q : TcpStream × Bool). IsGood env.max_res_bytes q.0 in
        if-has Q (p.syn && not p.ack) _ _ (readdressed p.src_port s g) (
          if-has Q (p.syn && (p.ack && not (s.client_port == 0))) _ _ (readdressed p.dst_port s g) (
            if-has Q (not (s.client_port == 0)) (s, p.src_port == s.client_port)
              (s, determine_direction p.src_port p.dst_port) g g))

    pub deliver-Yields :
        (p : Packet) (key : Bytes) (s t : TcpStream) (a : Assembler)
        → key ≢ []
        → IsGood env.max_res_bytes s
        → lookup key a.streams ≡ some t
        → Valid a
        → Yields Valid (deliver env now p key s a)
    unfolding deliver
    deliver-Yields p key s t a ne g here v =
        then-Yields (λ t f. IsSound t f × IsBounded env.max_res_bytes t) Valid
          (feed_payload env now p (directed p s) a.engine) _
          (payload-Returns p (directed p s).0 (directed p s).1 a.engine (directed-Good p s g)
            v.sound)
          λ u f k.
            let a' = record a { streams = insert key u a.streams; engine = f } in
            let valid : Valid a' = record {
              few = omega (arith, length-insert_present key u t a.streams here, v.few);
              good =
                  All-insert (IsEntry env.max_res_bytes) key u a.streams (ne, (k.0.0, k.1)) v.good;
              sound = k.0.1;
              all_taken = v.all_taken;
            } in
            if-Yields Valid (p.fin || p.rst) _ (some a') (close-Yields key u a' k.0.0 valid) valid

    -- room for one stream more
    record HasRoom (r : Option TcpStream × Assembler) : Type 0 where
      victim : GoodOption env.max_res_bytes r.0
      room : length r.1.streams < max
      good : AllGood env.max_res_bytes r.1.streams
      sound : IsSoundEngine r.1.engine
      all_taken : r.1.streams_drop ≡ 0

    make_room-HasRoom : (a : Assembler) → 0 < max → Valid a → HasRoom (make_room max a)
    unfolding make_room
    make_room-HasRoom a some_room v = elim (Bool-cases (leb max (length a.streams))) [
      | inr roomy ↦
          rw (make_room, roomy)
            (record {
              victim = tt;
              room = ground arith;
              good = v.good;
              sound = v.sound;
              all_taken = v.all_taken;
            })
      | inl full ↦
          let t =
            evict-Takes a.streams (ground arith) (keys_of env.max_res_bytes a.streams v.good) in
          let goes : make_room max a ≡ evicted (some t.victim) (erase t.key a.streams) a =
            rw (make_room, full) (ap (λ q. evicted q.0 q.1 a) t.goes) in
          subst HasRoom (sym goes) (record {
            victim =
                (All-lookup (IsEntry env.max_res_bytes) t.key a.streams t.victim v.good
                  t.is_there).1;
            room = omega (arith, v.few, length-erase-lt t.key t.victim a.streams t.is_there);
            good = All-erase (IsEntry env.max_res_bytes) t.key a.streams v.good;
            sound = v.sound;
            all_taken = v.all_taken;
          })
    ]

    opened-Good : (p : Packet) → IsGood env.max_res_bytes (opened now p)
    opened-Good p =
        if-has (IsGood env.max_res_bytes) (determine_direction p.src_port p.dst_port) _ _
          (fresh_stream p.src_ip p.src_port p.dst_port)
          (fresh_stream p.dst_ip p.dst_port p.src_port)
      where
        fresh_stream :
            (ip : Ip) (client server : ℕ)
            → IsGood env.max_res_bytes (new_stream ip client server now)
        fresh_stream ip client server =
            (tt, record { client = omega arith; server = omega arith; events = omega arith })

    pub open-Yields :
        (p : Packet) (key : Bytes) (a : Assembler)
        → 0 < max
        → key ≢ []
        → Valid a
        → Yields Valid (open_stream env now max p key a)
    unfolding open_stream
    open-Yields p key a some_room ne v =
        let h = make_room-HasRoom a some_room v in
        let victim = (make_room max a).0 in
        let roomy = (make_room max a).1 in
        step-Yields IsSoundEngine Valid (flush_evicted_stream env now victim roomy.engine) _
          (flush_evicted-Yields victim roomy.engine h.victim h.sound)
          λ e sound.
            let s = opened now p in
            let a' = record roomy { streams = insert key s roomy.streams; engine = e } in
            let below : leb max (length roomy.streams) ≡ false = ground (arith, h.room) in
            let valid : Valid a' = record {
              few = omega (arith, h.room, length-insert-le key s roomy.streams);
              good =
                  All-insert (IsEntry env.max_res_bytes) key s roomy.streams (ne, opened-Good p)
                    h.good;
              sound = sound;
              all_taken = h.all_taken;
            } in
            subst
              (λ b. Yields Valid (
                if b
                then some (record roomy { engine = e; streams_drop = roomy.streams_drop + 1 })
                else deliver env now p key s a'))
              (sym below)
              (deliver-Yields p key s s a' ne (opened-Good p)
                (lookup-insert_self key s roomy.streams) valid)
