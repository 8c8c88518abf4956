-- ===== src/Capture/Settings.antt =====
-- internal/capture/engine.go: the settings of the engine, from `New` and its setters, as
-- cmd/proxy/main.go calls them with a configuration. Products are int64, with their wrap written out.
mod Configured
mod Tests
use packet_lab.Prelude.{ℕ, suc, ◌+◌, ◌-◌, ◌*◌, ◌%◌, ◌^◌, Bool, true, false, ltb, if◌then◌else◌}
use packet_lab.Prelude.Int.{ℤ, pos, negsuc}
use packet_lab.Config.{Config}

-- the settings in `Engine`; times are nanoseconds
pub record Settings : Type 0 where
  pub stream_timeout : ℕ
  pub max_res_bytes : ℕ
  pub ring_buf_size : ℕ
  pub max_streams : ℕ

-- `New`
abbrev pub default_settings : Settings
default_settings = record {
  stream_timeout = 120000000000;
  max_res_bytes = 4194304;
  ring_buf_size = 0;
  max_streams = 0;
}

-- a number modulo 2 ^ 64, as an int64
abbrev pub signed : ℕ → ℤ
signed n = if ltb n (2 ^ 63) then pos n else negsuc (2 ^ 64 - n - 1)

-- a product of int64
unfoldable pub mul_i64 : ℤ → ℕ → ℤ
mul_i64 (pos n) k = signed (n * k % 2 ^ 64)
mul_i64 (negsuc n) k = signed ((2 ^ 64 - suc n * k % 2 ^ 64) % 2 ^ 64)

-- a value that replaces the old one if it is above 0
unfoldable pub given : ℤ → ℕ → ℕ
given (pos n) old = if ltb 0 n then n else old
given (negsuc n) old = old

-- `SetStreamTimeout`, `SetMaxResBytes`, `SetRingBufSize` and `SetMaxStreams`
abbrev pub set_stream_timeout : ℤ → Settings → Settings
set_stream_timeout d e = record e { stream_timeout = given d e.stream_timeout }

abbrev pub set_max_res_bytes : ℤ → Settings → Settings
set_max_res_bytes n e = record e { max_res_bytes = given n e.max_res_bytes }

abbrev pub set_ring_buf_size : ℤ → Settings → Settings
set_ring_buf_size n e = record e { ring_buf_size = given n e.ring_buf_size }

abbrev pub set_max_streams : ℤ → Settings → Settings
set_max_streams n e = record e { max_streams = given n e.max_streams }

-- the calls of `main`
unfoldable pub configured : Config → Settings
configured c = set_max_streams c.max_streams (
    set_ring_buf_size c.capture_ring_entries (
      set_max_res_bytes (mul_i64 c.max_res_body_kb 1024)
        (set_stream_timeout (mul_i64 c.capture_stream_timeout_min 60000000000) default_settings)))
