-- ===== src/Async/Sync.antt =====
-- Code between two awaits: it makes no call, takes no time, ends, and is not cut.
use mechanics_http_client.Prelude.{ℕ, ◌≡◌, ◌≢◌, Option, some, arith}
use mechanics_http_client.Async.{hangs, cut, World, Async}
use mechanics_http_client.Async.Spends.{Spends}
use mechanics_http_client.Async.Timing.{Obeys, Lasts}

pub record Sync {S C A : Type 0} (m : Async S C A) : Type 0 where
  pub same_trace : (cutoff : Option ℕ) (w : World S C) → (m cutoff w).1.trace ≡ w.trace
  pub same_clock : (cutoff : Option ℕ) (w : World S C) → (m cutoff w).1.clock ≡ w.clock
  pub ends : (cutoff : Option ℕ) (w : World S C) → (m cutoff w).0 ≢ hangs
  pub uncut : (cutoff : Option ℕ) (w : World S C) → (m cutoff w).0 ≢ cut

module _ {S C A : Type 0} {m : Async S C A} (s : Sync m) where
  pub Sync-Spends : (cost : C → ℕ) → Spends cost 0 m
  Sync-Spends cost = record { spends = λ cutoff w. rw (s.same_trace cutoff w) (omega arith) }

  pub Sync-Obeys : Obeys m
  Sync-Obeys = record {
    in_time = λ t w h. rw (s.same_clock (some t) w) h;
    ends = λ t w h. s.ends (some t) w;
  }

  pub Sync-Lasts : Lasts 0 m
  Sync-Lasts = record {
    obeys = Sync-Obeys;
    lasts = λ cutoff w h. rw (s.same_clock cutoff w) (omega arith);
    returns = λ cutoff w h. s.ends cutoff w;
  }
