-- ===== src/Request/Timing.antt =====
-- How long `send` takes under a timeout.
pub mod Sending
use mechanics_http_client.Prelude.{
  ℕ, zero, suc, ◌+◌, ◌≤◌, ◌≡◌, ◌≢◌, refl, Bool, true, false, Option, none, some, arith, Bool-cases,
  inl, inr, if◌then◌else◌, or,
}
use mechanics_http_client.Text.{Text}
use mechanics_http_client.Error.{Error, Result, ok, err}
use mechanics_http_client.Origin.{Origin, Uri, from_uri}
use mechanics_http_client.AltSvc.{AltSvcEntry}
use mechanics_http_client.Async.{
  Async, Outcome, now, done, cut, hangs, panicked, World, Timer, IsTimer, pure, ◌>>=◌, await,
}
use mechanics_http_client.Async.Timing.{
  InTime, Obeys, Obeys-pure, Obeys-now, Obeys-bind, Obeys-await, Lasts, Lasts-pure, Lasts-now,
  Lasts-bind, Lasts-le, Lasts-timeout,
}
use mechanics_http_client.Async.Sync.{Sync-Obeys}
use mechanics_http_client.Http.{
  Fallible, success, failure, Parts, RequestBody, Response, Call, tcp_request, HttpsRrEntry,
  ClientInner, Http, Network, Shared,
}
use mechanics_http_client.Cache.Effects.{
  insert_negative-Sync, negative_cache_hit-Sync, alt_svc_entry-Sync, maybe_update_alt_svc-Sync,
}
use mechanics_http_client.HttpsRr.Effects.{cached_entry-Sync, store_lookup-Sync}
use mechanics_http_client.Http3.{H3, Attempt, accepted, refused, handshake_failed, stream_failed}
use mechanics_http_client.Http3.Effects.{endpoint-Sync, connecting-Sync}
use mechanics_http_client.Request.Walk.{Rules, Any}
use mechanics_http_client.Request.Walk.Sending.{send-walk}
use mechanics_http_client.Request.Builder.{RequestBuilder, replayable_for_h3, into_body}
use mechanics_http_client.Request.Calls.{drop_guard-Sync}
use mechanics_http_client.Request.Fallback.{
  Guard, arm, leave, unwound, guarded, Settings, Http3RequestTarget, give_up, after_attempt,
  attempts, H3StreamFailureAction, h3_stream_failure_action, retry_fresh_h3, use_tcp,
  request_http3_with_stale_retry, via_alt_svc, via_https_rr, or_https_rr, by_alternatives,
  try_http3,
}
use mechanics_http_client.Request.Send.{
  settings, after_http3, bounded_http3, http3_phase, exchange, answered, answered_in_time, over_tcp,
  after_phase, built, builder_headers, request_for_http3, send_to, send,
}

unwound-ends : {A : Type 0} (o : Outcome A) (p : Outcome Unit) → o ≢ hangs → unwound o p ≢ hangs
unwound-ends o panicked n = λ e. cc
unwound-ends o (done u) n = n
unwound-ends o cut n = n
unwound-ends o hangs n = n

module _ {C : Type 0} (s : Settings) where
  pub clock-leave :
      {A : Type 0} (guard : Guard) (cutoff : Option ℕ) (o : Outcome A) (w : World Shared C)
      → (leave s guard cutoff o w).1.clock ≡ w.clock
  clock-leave guard cutoff (done a) w = (drop_guard-Sync s _).same_clock cutoff w
  clock-leave guard cutoff cut w = (drop_guard-Sync s _).same_clock cutoff w
  clock-leave guard cutoff hangs w = refl
  clock-leave guard cutoff panicked w = (drop_guard-Sync s _).same_clock cutoff w

  leave-ends :
      {A : Type 0} (guard : Guard) (cutoff : Option ℕ) (o : Outcome A) (w : World Shared C)
      → o ≢ hangs
      → (leave s guard cutoff o w).0 ≢ hangs
  leave-ends guard cutoff (done a) w n = unwound-ends (done a) _ n
  leave-ends guard cutoff cut w n = unwound-ends cut _ n
  leave-ends guard cutoff hangs w n = n
  leave-ends guard cutoff panicked w n = unwound-ends panicked _ n

  guarded-Obeys :
      {A : Type 0} (origin : Origin) (m : Async Shared C A) → Obeys m → Obeys (guarded s origin m)
  unfolding guarded
  guarded-Obeys origin m o = record {
    in_time = λ t w h. rw clock-leave (o.in_time t w h);
    ends = λ t w h. leave-ends (arm origin) (some t) _ _ (o.ends t w h);
  }

module _ {M : Type 0} (net : Network M) (timer : Timer Shared (Call M)) (law : IsTimer timer)
    (s : Settings) where
  pub Obeys-Rules : Rules net timer s Any Any (λ A m. Obeys m)
  Obeys-Rules = record {
    on_pure = λ a. Obeys-pure a;
    on_now = λ f h. Obeys-bind now f Obeys-now (λ t. h t tt);
    on_bind = λ m f. Obeys-bind m f;
    on_await = λ call ask. Obeys-await net.others call ask;
    on_timeout = λ d m o. (Lasts-timeout timer law d m o).obeys;
    on_guarded = λ origin m i. guarded-Obeys s origin m;
    on_insert_negative =
        λ origin t i p. Sync-Obeys (insert_negative-Sync s.horizon s.negative_duration origin t);
    on_negative_cache_hit = λ origin t i p. Sync-Obeys (negative_cache_hit-Sync origin t);
    on_alt_svc_entry = λ origin t i p. Sync-Obeys (alt_svc_entry-Sync origin t);
    on_cached_entry = λ origin t i p. Sync-Obeys (cached_entry-Sync origin t);
    on_store_lookup = λ origin r i. Sync-Obeys (store_lookup-Sync origin r);
    on_endpoint = Sync-Obeys (endpoint-Sync net timer);
    on_connecting = λ e addr host. Sync-Obeys (connecting-Sync net timer e addr host);
  }
