-- ===== src/Capture/Settings/Configured.antt =====
-- A worker of an engine with the settings of a configuration.
use packet_lab.Prelude.{ℕ, ◌<◌, List, arith}
use packet_lab.Prelude.Int.{ℤ, pos, negsuc}
use packet_lab.Config.{Config}
use packet_lab.Capture.Stream.{Engine, Surroundings}
use packet_lab.Capture.Stream.Sound.{IsSoundEngine}
use packet_lab.Capture.Assembler.{max_streams_of, new_assembler, Event, run_worker}
use packet_lab.Capture.Assembler.Chains.{Yields}
use packet_lab.Capture.Assembler.Valid.{IsValid}
use packet_lab.Capture.Assembler.Runs.{run_worker-IsValid}
use packet_lab.Capture.Settings.{mul_i64, given, configured}

given_positive : (n : ℤ) (old : ℕ) → 0 < old → 0 < given n old
unfolding given
given_positive (pos n) old h = ground arith
given_positive (negsuc n) old h = h

max_streams_positive : (n : ℕ) → 0 < max_streams_of n
max_streams_positive n = ground arith

-- the surroundings of a stream, with the limit that is configured
abbrev pub limited : Config → Surroundings → Surroundings
limited c env = record env { max_res_bytes = (configured c).max_res_bytes }

-- Whatever the configuration, an engine that is set up with it, and that is sound, has workers
-- that handle any events to their end, within the limits of its settings.
pub configured-IsValid :
    (c : Config) (env : Surroundings) (evs : List (ℕ × Event)) (e : Engine)
    → IsSoundEngine e
    → Yields (IsValid (configured c).max_res_bytes (max_streams_of (configured c).max_streams)) (
        run_worker
          (limited c env)
          (max_streams_of (configured c).max_streams)
          (configured c).stream_timeout
          evs
          (new_assembler e))
unfolding configured
configured-IsValid c env evs e v =
    let some_bytes : 0 < (configured c).max_res_bytes =
      given_positive (mul_i64 c.max_res_body_kb 1024) 4194304 (omega arith) in
    run_worker-IsValid (limited c env) some_bytes (max_streams_of (configured c).max_streams)
      (max_streams_positive (configured c).max_streams) (configured c).stream_timeout evs e v
