-- ===== src/Time.antt =====
-- Instants and durations of `std::time`, in nanoseconds. `Instant + Duration` panics past the largest
-- instant of the platform, `horizon`.
use mechanics_http_client.Prelude.{ℕ, ◌+◌, ◌*◌, ltb, if◌then◌else◌, Run, returns, panics}

-- `Duration::from_secs`, `Duration::from_millis`
abbrev pub from_secs : ℕ → ℕ
from_secs n = n * 1_000_000_000

abbrev pub from_millis : ℕ → ℕ
from_millis n = n * 1_000_000

-- `Instant + Duration`
unfoldable pub add_instant : ℕ → ℕ → ℕ → Run ℕ
add_instant horizon t d = if ltb horizon (t + d) then panics else returns (t + d)
