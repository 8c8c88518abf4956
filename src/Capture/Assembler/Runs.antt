-- ===== src/Capture/Assembler/Runs.antt =====
-- A worker's assembler over any events: each event is handled to its end, and the invariant stands.
use packet_lab.Prelude.{
  ℕ, suc, ◌-◌, ◌≤◌, ◌<◌, ◌≡◌, ◌≢◌, false, Option, none, some, List, [], ◌∷◌, ltb, length, Bytes,
  Map, lookup, All, All-lookup, arith, refl,
}
use packet_lab.Capture.Parse.{ip_string}
use packet_lab.Capture.Stream.{Engine, Surroundings, TcpStream}
use packet_lab.Capture.Stream.Feed.{flush_stream}
use packet_lab.Capture.Stream.Sound.{IsSound, IsSoundEngine}
use packet_lab.Capture.Assembler.{
  Packet, Assembler, new_assembler, stream_key, deliver, open_stream, assemble, with_entry,
  flush_older, flush_older_than, flush_all_streams, flush_all_with_pending, Event, arrives, ticks,
  closes, worker_step, run_worker,
}
use packet_lab.Capture.Assembler.Chains.{Yields, then-Yields, test-Yields, step-Yields}
use packet_lab.Capture.Assembler.Valid.{
  IsValid, IsEntry, AllGood, stream_key-HasKey, flush_lem, deliver-Yields, open-Yields,
}

-- what the clean-up leaves: streams that were active since the cutoff, and that are HTTP
abbrev pub IsRecent : ℕ → Bytes × TcpStream → Type 0
IsRecent cutoff e = (e.1.non_http ≡ false) × (cutoff ≤ e.1.last_active)

module _ (env : Surroundings) (some_bytes : 0 < env.max_res_bytes) (max : ℕ)
    (some_room : 0 < max) where
  abbrev Valid : Assembler → Type 0
  Valid = IsValid env.max_res_bytes max

  looked_up :
      (now : ℕ) (p : Packet) (key : Bytes) (a : Assembler) (o : Option TcpStream)
      → key ≢ []
      → lookup key a.streams ≡ o
      → Valid a
      → Yields Valid
          (elim o [ some s ↦ deliver env now p key s a | none ↦ open_stream env now max p key a ])
  looked_up now p key a none ne e v = open-Yields env some_bytes now max p key a some_room ne v
  looked_up now p key a (some s) ne e v =
      deliver-Yields env some_bytes now max p key s s a ne
        (All-lookup (IsEntry env.max_res_bytes) key a.streams s v.good e).1 e v

  assemble-Yields :
      (now : ℕ) (p : Option Packet) (a : Assembler)
      → Valid a
      → Yields Valid (assemble env now max p a)
  unfolding assemble
  assemble-Yields now none a v = v
  assemble-Yields now (some p) a v =
      let key = stream_key (ip_string p.src_ip) p.src_port (ip_string p.dst_ip) p.dst_port in
      looked_up now p key a (lookup key a.streams)
        (stream_key-HasKey (ip_string p.src_ip) p.src_port (ip_string p.dst_ip) p.dst_port) refl v

  record Cleaned (cutoff n : ℕ) (r : Map TcpStream × Engine) : Type 0 where
    few : length r.0 ≤ n
    good : AllGood env.max_res_bytes r.0
    recent : All (IsRecent cutoff) r.0
    sound : IsSoundEngine r.1

  more : (cutoff n : ℕ) (r : Map TcpStream × Engine) → Cleaned cutoff n r → Cleaned cutoff (suc n) r
  more cutoff n r c = record {
    few = omega (arith, c.few);
    good = c.good;
    recent = c.recent;
    sound = c.sound;
  }

  more-Yields :
      (cutoff n : ℕ) (o : Option (Map TcpStream × Engine))
      → Yields (Cleaned cutoff n) o
      → Yields (Cleaned cutoff (suc n)) o
  more-Yields cutoff n none h = h
  more-Yields cutoff n (some r) h = more cutoff n r h

  with_entry-Yields :
      (cutoff n : ℕ) (k : Bytes) (s : TcpStream) (o : Option (Map TcpStream × Engine))
      → IsEntry env.max_res_bytes (k, s)
      → IsRecent cutoff (k, s)
      → Yields (Cleaned cutoff n) o
      → Yields (Cleaned cutoff (suc n)) (with_entry k s o)
  with_entry-Yields cutoff n k s none one rec h = h
  with_entry-Yields cutoff n k s (some r) one rec h = record {
    few = omega (arith, h.few);
    good = (one, h.good);
    recent = (rec, h.recent);
    sound = h.sound;
  }

  flush_older-Yields :
      (now cutoff : ℕ) (m : Map TcpStream) (e : Engine)
      → AllGood env.max_res_bytes m
      → IsSoundEngine e
      → Yields (Cleaned cutoff (length m)) (flush_older env now cutoff m e)
  unfolding flush_older
  flush_older-Yields now cutoff [] e h v = record {
    few = omega arith;
    good = tt;
    recent = tt;
    sound = v;
  }
  flush_older-Yields now cutoff ((k, s) ∷ m) e (one, h) v =
      let n = length m in
      let P = Cleaned cutoff (suc n) in
      let deleted = flush_older-Yields now cutoff m e h v in
      let flushed =
        then-Yields IsSound P (flush_stream env now s e) (λ _ e'. flush_older env now cutoff m e')
          (flush_lem env some_bytes now s e one.1.0 v)
          (λ _ e' w.
            more-Yields cutoff n (flush_older env now cutoff m e')
              (flush_older-Yields now cutoff m e' h w.1)) in
      test-Yields P s.non_http (flush_older env now cutoff m e) _
        (λ _. more-Yields cutoff n (flush_older env now cutoff m e) deleted)
        (λ http.
          test-Yields P (ltb s.last_active cutoff) _
            (with_entry k s (flush_older env now cutoff m e)) (λ _. flushed)
            (λ recent.
              with_entry-Yields cutoff n k s (flush_older env now cutoff m e) one
                (http, ground arith) deleted))

  older-Yields :
      (now cutoff : ℕ) (a : Assembler) → Valid a → Yields Valid (flush_older_than env now cutoff a)
  unfolding flush_older_than
  older-Yields now cutoff a v =
      step-Yields (Cleaned cutoff (length a.streams)) Valid
        (flush_older env now cutoff a.streams a.engine) _
        (flush_older-Yields now cutoff a.streams a.engine v.good v.sound)
        λ r c. record {
          few = omega (arith, c.few, v.few);
          good = c.good;
          sound = c.sound;
          all_taken = v.all_taken;
        }

  -- The clean-up keeps no stream that is older than the cutoff, and none that is not HTTP.
  pub flush_older-IsRecent :
      (now cutoff : ℕ) (a : Assembler)
      → Valid a
      → Yields (λ b. All (IsRecent cutoff) b.streams) (flush_older_than env now cutoff a)
  unfolding flush_older_than
  flush_older-IsRecent now cutoff a v =
      step-Yields (Cleaned cutoff (length a.streams)) (λ b. All (IsRecent cutoff) b.streams)
        (flush_older env now cutoff a.streams a.engine) _
        (flush_older-Yields now cutoff a.streams a.engine v.good v.sound) (λ r c. c.recent)

  all_flushed :
      (now : ℕ) (m : Map TcpStream) (e : Engine)
      → AllGood env.max_res_bytes m
      → IsSoundEngine e
      → Yields IsSoundEngine (flush_all_streams env now m e)
  unfolding flush_all_streams
  all_flushed now [] e h v = v
  all_flushed now ((k, s) ∷ m) e (one, h) v =
      then-Yields IsSound IsSoundEngine (flush_stream env now s e)
        (λ _ e'. flush_all_streams env now m e') (flush_lem env some_bytes now s e one.1.0 v)
        (λ _ e' w. all_flushed now m e' h w.1)

  all-Yields : (now : ℕ) (a : Assembler) → Valid a → Yields Valid (flush_all_with_pending env now a)
  unfolding flush_all_with_pending
  all-Yields now a v =
      step-Yields IsSoundEngine Valid (flush_all_streams env now a.streams a.engine) _
        (all_flushed now a.streams a.engine v.good v.sound)
        λ e w. record { few = omega arith; good = tt; sound = w; all_taken = v.all_taken }

  worker_step-Yields :
      (timeout : ℕ) (ev : ℕ × Event) (a : Assembler)
      → Valid a
      → Yields Valid (worker_step env max timeout ev a)
  unfolding worker_step
  worker_step-Yields timeout (now, arrives p) a v = assemble-Yields now p a v
  worker_step-Yields timeout (now, ticks) a v = older-Yields now (now - timeout) a v
  worker_step-Yields timeout (now, closes) a v = all-Yields now a v

  run-Yields :
      (timeout : ℕ) (evs : List (ℕ × Event)) (a : Assembler)
      → Valid a
      → Yields Valid (run_worker env max timeout evs a)
  unfolding run_worker
  run-Yields timeout [] a v = v
  run-Yields timeout (ev ∷ evs) a v =
      step-Yields Valid Valid (worker_step env max timeout ev a) _
        (worker_step-Yields timeout ev a v) (λ b w. run-Yields timeout evs b w)

  -- Where the limit of a buffer and the bound on streams are above 0, and the engine is sound at
  -- the start: whatever packets, ticks and ends of its channel a worker gets, it handles each to
  -- its end; and it has at most `max` streams, each buffer of which holds at most `max_res_bytes`,
  -- has turned no packet away for lack of room, and what it gave out has a final status, or none,
  -- and is counted once.
  pub run_worker-IsValid :
      (timeout : ℕ) (evs : List (ℕ × Event)) (e : Engine)
      → IsSoundEngine e
      → Yields (IsValid env.max_res_bytes max) (run_worker env max timeout evs (new_assembler e))
  run_worker-IsValid timeout evs e v =
      run-Yields timeout evs (new_assembler e)
        (record { few = omega arith; good = tt; sound = v; all_taken = refl })
