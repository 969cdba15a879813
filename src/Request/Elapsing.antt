-- ===== src/Request/Elapsing.antt =====
-- When `send` reports a timeout, and that it ends when it is dropped.
pub mod Phases
pub mod Timeouts
use mechanics_http_client.Prelude.{
  ℕ, ◌+◌, ◌≤◌, ◌≡◌, ◌≢◌, refl, sym, ap, ◌∙◌, Bool, true, false, Option, none, some, List, arith,
  inl, inr, Bool-cases, or, if◌then◌else◌,
}
use mechanics_http_client.Text.{Text, codes}
use mechanics_http_client.Error.{Error, timeout, Result, ok, err}
use mechanics_http_client.Origin.{Origin, Uri, from_uri}
use mechanics_http_client.Async.{
  Async, World, Outcome, done, cut, hangs, panicked, Timer, IsTimer, pure, now, proceed, ◌>>=◌,
}
use mechanics_http_client.Async.Elapsing.{
  Elapses, Passed, Sync-Elapses, Elapses-pure, Elapses-now, Elapses-bind, Elapses-await,
  Elapses-timeout, timeout-none,
}
use mechanics_http_client.Async.Sync.{Sync-Obeys}
use mechanics_http_client.Async.Timing.{
  Obeys, Obeys-pure, Obeys-now, Obeys-bind, Obeys-await, Lasts-timeout,
}
use mechanics_http_client.Cache.Effects.{
  insert_negative-Sync, negative_cache_hit-Sync, alt_svc_entry-Sync, maybe_update_alt_svc-Sync,
}
use mechanics_http_client.HttpsRr.Effects.{cached_entry-Sync, store_lookup-Sync}
use mechanics_http_client.Http.{
  Fallible, success, failure, Parts, RequestBody, Response, Call, ClientInner, Http, Network,
  Shared,
}
use mechanics_http_client.Http3.{H3}
use mechanics_http_client.Http3.Effects.{endpoint-Sync, connecting-Sync}
use mechanics_http_client.Request.Builder.{RequestBuilder}
use mechanics_http_client.Request.Calls.{drop_guard-Sync}
use mechanics_http_client.Request.Fallback.{
  Settings, Guard, arm, drop_guard, guarded, leave, unwound,
}
use mechanics_http_client.Request.Send.{settings, send}
use mechanics_http_client.Request.Timing.{clock-leave}
use mechanics_http_client.Request.Walk.{Rules, Any}
use mechanics_http_client.Request.Walk.Sending.{send-walk}

unwound-cut :
    {A : Type 0} (o : Outcome A) (u : Outcome Unit) → u ≢ cut → unwound o u ≡ cut → o ≡ cut
unwound-cut o (done x) n e = e
unwound-cut o cut n e = absurd (n refl)
unwound-cut o hangs n e = e
unwound-cut o panicked n e = cc

module _ {C : Type 0} (s : Settings) where
  leave-cut :
      {A : Type 0} (guard : Guard) (cutoff : Option ℕ) (o : Outcome A) (w : World Shared C)
      → (leave s guard cutoff o w).0 ≡ cut
      → o ≡ cut
  leave-cut guard cutoff (done a) w e = unwound-cut _ _ ((drop_guard-Sync s _).uncut cutoff w) e
  leave-cut guard cutoff cut w e = refl
  leave-cut guard cutoff hangs w e = cc
  leave-cut guard cutoff panicked w e = unwound-cut _ _ ((drop_guard-Sync s _).uncut cutoff w) e

  guarded-Elapses :
      {A : Type 0} (origin : Origin) (m : Async Shared C A)
      → Elapses m
      → Elapses (guarded s origin m)
  unfolding guarded
  guarded-Elapses origin m l = record {
    grows = λ cutoff w. rw clock-leave (l.grows cutoff w);
    cut_late = λ cutoff w e.
        rw clock-leave (l.cut_late cutoff w (leave-cut (arm origin) cutoff _ (m cutoff w).1 e));
  }

module _ {M : Type 0} (net : Network M) (timer : Timer Shared (Call M)) (law : IsTimer timer)
    (s : Settings) where
  pub Elapses-Rules : Rules net timer s Any Any (λ A m. Elapses m)
  Elapses-Rules = record {
    on_pure = λ a. Elapses-pure a;
    on_now = λ f h. Elapses-bind now f Elapses-now (λ t. h t tt);
    on_bind = λ m f. Elapses-bind m f;
    on_await = λ call ask. Elapses-await net.others call ask;
    on_timeout = λ d m. Elapses-timeout timer law d m;
    on_guarded = λ origin m i. guarded-Elapses s origin m;
    on_insert_negative =
        λ origin t i p. Sync-Elapses (insert_negative-Sync s.horizon s.negative_duration origin t);
    on_negative_cache_hit = λ origin t i p. Sync-Elapses (negative_cache_hit-Sync origin t);
    on_alt_svc_entry = λ origin t i p. Sync-Elapses (alt_svc_entry-Sync origin t);
    on_cached_entry = λ origin t i p. Sync-Elapses (cached_entry-Sync origin t);
    on_store_lookup = λ origin r i. Sync-Elapses (store_lookup-Sync origin r);
    on_endpoint = Sync-Elapses (endpoint-Sync net timer);
    on_connecting = λ e addr host. Sync-Elapses (connecting-Sync net timer e addr host);
  }
