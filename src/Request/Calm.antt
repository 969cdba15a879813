-- ===== src/Request/Calm.antt =====
-- That `send` does not panic, as long as the instants that it reckons are instants of the platform.
use mechanics_http_client.Prelude.{ℕ, ◌≤◌, ◌≢◌, some}
use mechanics_http_client.Origin.{Origin}
use mechanics_http_client.Async.{Async, panicked, World}
use mechanics_http_client.Async.Sync.{Sync}
use mechanics_http_client.Http.{Http, Shared}

-- Dropped at an instant up to `last`, a computation does not panic, and is over by then.
pub record Calm {C A : Type 0} (last : ℕ) (m : Async Shared C A) : Type 0 where
  pub calm :
      (t : ℕ) (w : World Shared C)
      → t ≤ last
      → w.clock ≤ t
      → ((m (some t) w).1.clock ≤ t) × ((m (some t) w).0 ≢ panicked)
