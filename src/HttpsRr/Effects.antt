-- ===== src/HttpsRr/Effects.antt =====
-- Calls and time of `https_rr_entry`.
use mechanics_http_client.Prelude.{ℕ, ◌+◌, ◌≤◌, ◌≢◌, Option, none, some, arith}
use mechanics_http_client.Error.{Result, ok, err}
use mechanics_http_client.Origin.{Origin}
use mechanics_http_client.Async.{panicked, World, Timer, IsTimer, pure, ◌>>=◌}
use mechanics_http_client.Async.Spends.{
  Spends, Spends-pure, Spends-bind, Spends-le, Spends-await, Spends-timeout,
}
use mechanics_http_client.Async.Timing.{
  Obeys, Obeys-pure, Obeys-bind, Obeys-await, Lasts, Lasts-pure, Lasts-bind, Lasts-le,
  Lasts-timeout,
}
use mechanics_http_client.Async.Sync.{Sync, Sync-Spends, Sync-Lasts}
use mechanics_http_client.Http.{HttpsRrEntry, Call, lookup_https, Shared, Network}
use mechanics_http_client.HttpsRr.{
  https_rr_lookup_timeout, lookup, store_lookup, cached_entry, https_rr_entry,
}

module _ {C : Type 0} where
  pub store_lookup-Sync :
      (origin : Origin) (r : Option (Result (Option HttpsRrEntry)))
      → Sync (store_lookup {C = C} origin r)
  unfolding store_lookup
  store_lookup-Sync origin r = record {
    same_trace = λ cutoff w. ground arith;
    same_clock = λ cutoff w. ground arith;
    ends = λ cutoff w. ground arith;
    uncut = λ cutoff w. ground arith;
  }

  pub cached_entry-Sync : (origin : Origin) (t : ℕ) → Sync (cached_entry {C = C} origin t)
  unfolding cached_entry
  cached_entry-Sync origin t = record {
    same_trace = λ cutoff w. ground arith;
    same_clock = λ cutoff w. ground arith;
    ends = λ cutoff w. ground arith;
    uncut = λ cutoff w. ground arith;
  }

module _ {M : Type 0} (net : Network M) (timer : Timer Shared (Call M)) (law : IsTimer timer) where
  module _ (cost : Call M → ℕ) (k : ℕ) (origin : Origin)
      (cheap : cost (lookup_https origin.host) ≤ k) where
    lookup-Spends : Spends cost k (lookup net origin)
    unfolding lookup
    lookup-Spends =
        Spends-le (k + 0) k
          (Spends-bind k 0 _ _ (Spends-await k net.others (lookup_https origin.host) _ cheap)
            (λ r. Spends-pure _))
          (omega arith)

    pub https_rr_entry-Spends : (t : ℕ) → Spends cost k (https_rr_entry net timer origin t)
    unfolding https_rr_entry
    https_rr_entry-Spends t =
        Spends-le (0 + k) k
          (Spends-bind 0 k _ _ (Sync-Spends (cached_entry-Sync origin t) cost) rest) (omega arith)
      where
        rest :
            (cached : Option HttpsRrEntry)
            → Spends cost k (elim cached [
              | some e ↦ pure (some e)
              | none ↦
                  timer.timeout https_rr_lookup_timeout (lookup net origin) >>= store_lookup origin
            ])
        rest (some e) = Spends-le 0 k (Spends-pure _) (omega arith)
        rest none =
            Spends-le (k + 0) k
              (Spends-bind k 0 _ _ (Spends-timeout timer k _ _ law lookup-Spends)
                (λ r. Sync-Spends (store_lookup-Sync origin r) cost))
              (omega arith)

  lookup-Obeys : (origin : Origin) → Obeys (lookup net origin)
  unfolding lookup
  lookup-Obeys origin =
      Obeys-bind _ _ (Obeys-await net.others (lookup_https origin.host) _) (λ r. Obeys-pure _)

  pub https_rr_entry-Lasts :
      (origin : Origin) (t : ℕ) → Lasts https_rr_lookup_timeout (https_rr_entry net timer origin t)
  unfolding https_rr_entry
  https_rr_entry-Lasts origin t =
      Lasts-le _ https_rr_lookup_timeout
        (Lasts-bind 0 https_rr_lookup_timeout _ _ (Sync-Lasts (cached_entry-Sync origin t)) rest)
        (omega arith)
    where
      rest :
          (cached : Option HttpsRrEntry)
          → Lasts https_rr_lookup_timeout (elim cached [
            | some e ↦ pure (some e)
            | none ↦
                timer.timeout https_rr_lookup_timeout (lookup net origin) >>= store_lookup origin
          ])
      rest (some e) = Lasts-le 0 _ (Lasts-pure _) (omega arith)
      rest none =
          Lasts-le (https_rr_lookup_timeout + 0) _
            (Lasts-bind https_rr_lookup_timeout 0 _ _
              (Lasts-timeout timer law https_rr_lookup_timeout _ (lookup-Obeys origin))
              (λ r. Sync-Lasts (store_lookup-Sync origin r)))
            (omega arith)

module _ {C : Type 0} (origin : Origin) (t : ℕ) (cutoff : Option ℕ) (w : World Shared C) where
  pub cached_entry-ne_panicked : (cached_entry origin t cutoff w).0 ≢ panicked
  unfolding cached_entry
  cached_entry-ne_panicked = ground arith

pub store_lookup-ne_panicked :
    {C : Type 0} (origin : Origin) (r : Option (Result (Option HttpsRrEntry))) (cutoff : Option ℕ)
    (w : World Shared C)
    → (store_lookup origin r cutoff w).0 ≢ panicked
unfolding store_lookup
store_lookup-ne_panicked origin (some (ok (some e))) cutoff w = λ x. cc
store_lookup-ne_panicked origin (some (ok none)) cutoff w = λ x. cc
store_lookup-ne_panicked origin (some (err e)) cutoff w = λ x. cc
store_lookup-ne_panicked origin none cutoff w = λ x. cc
