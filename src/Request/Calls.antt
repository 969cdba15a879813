-- ===== src/Request/Calls.antt =====
-- The calls that the HTTP/3 attempts of `send` make.
pub mod Sending
pub mod Tcp
use mechanics_http_client.Prelude.{
  ℕ, zero, suc, ◌+◌, ◌*◌, ◌≤◌, ◌≡◌, refl, Bool, true, false, Option, none, some, List, [], ◌∷◌,
  arith, Option-cases, Bool-cases, inl, inr, if◌then◌else◌, or,
}
use mechanics_http_client.Text.{Text}
use mechanics_http_client.Error.{Result, ok, err}
use mechanics_http_client.Error
use mechanics_http_client.Origin.{Origin, Uri, from_uri}
use mechanics_http_client.AltSvc.{AltSvcEntry}
use mechanics_http_client.Async.{
  Async, Outcome, done, cut, hangs, panicked, World, Timer, IsTimer, pure, now, ◌>>=◌, ◌>>◌, await,
}
use mechanics_http_client.Async.Spends.{
  Spends, Spends-pure, Spends-now, Spends-bind, Spends-le, Spends-await, Spends-timeout, total,
}
use mechanics_http_client.Async.Sync.{Sync, Sync-Spends}
use mechanics_http_client.Http.{
  Fallible, success, failure, Parts, RequestBody, Response, Call, tcp_request, send_request,
  HttpsRrEntry, ClientInner, Http, Network, Shared,
}
use mechanics_http_client.Cache.Effects.{
  insert_negative-Sync, negative_cache_hit-Sync, alt_svc_entry-Sync, maybe_update_alt_svc-Sync,
}
use mechanics_http_client.HttpsRr.{https_rr_entry}
use mechanics_http_client.HttpsRr.Effects.{https_rr_entry-Spends}
use mechanics_http_client.Http3.{
  H3, Attempt, accepted, refused, handshake_failed, stream_failed, request,
}
use mechanics_http_client.Http3.Effects.{Requests, request-Spends}
use mechanics_http_client.Request.Builder.{RequestBuilder, replayable_for_h3, into_body}
use mechanics_http_client.Request.Fallback.{
  Guard, drop_guard, leave, guarded, arm, Settings, Http3RequestTarget, give_up, attempts,
  h3_stream_failure_action, H3StreamFailureAction, retry_fresh_h3, use_tcp, remember_failure,
  after_attempt, request_http3_with_stale_retry, via_alt_svc, via_https_rr, or_https_rr,
  by_alternatives, try_http3,
}
use mechanics_http_client.Request.Send.{
  after_http3, bounded_http3, http3_phase, exchange, answered, answered_in_time, over_tcp,
  after_phase, built, builder_headers, request_for_http3, send_to, send, settings,
}

module _ {C : Type 0} (s : Settings) where
  pub drop_guard-Sync : (guard : Guard) → Sync (drop_guard {C = C} s guard)
  unfolding drop_guard
  drop_guard-Sync guard = elim (Bool-cases guard.armed) [
    | inl e ↦ record {
      same_trace = λ cutoff w. rw e ((failure_at w.clock).same_trace cutoff w);
      same_clock = λ cutoff w. rw e ((failure_at w.clock).same_clock cutoff w);
      ends = λ cutoff w. rw e ((failure_at w.clock).ends cutoff w);
      uncut = λ cutoff w. rw e ((failure_at w.clock).uncut cutoff w);
    }
    | inr e ↦ record {
      same_trace = λ cutoff w. rw e refl;
      same_clock = λ cutoff w. rw e refl;
      ends = λ cutoff w. rw e (λ x. cc);
      uncut = λ cutoff w. rw e (λ x. cc);
    }
  ]
    where
      failure_at : (t : ℕ) → Sync (remember_failure {C = C} s guard.origin t)
      failure_at t = insert_negative-Sync s.horizon s.negative_duration guard.origin t

  trace-leave :
      {A : Type 0} (guard : Guard) (cutoff : Option ℕ) (o : Outcome A) (w : World Shared C)
      → (leave s guard cutoff o w).1.trace ≡ w.trace
  trace-leave guard cutoff (done a) w = (drop_guard-Sync _).same_trace cutoff w
  trace-leave guard cutoff cut w = (drop_guard-Sync _).same_trace cutoff w
  trace-leave guard cutoff hangs w = refl
  trace-leave guard cutoff panicked w = (drop_guard-Sync _).same_trace cutoff w

  guarded-Spends :
      {A : Type 0} {cost : C → ℕ} (k : ℕ) (origin : Origin) (m : Async Shared C A)
      → Spends cost k m
      → Spends cost k (guarded s origin m)
  unfolding guarded
  guarded-Spends k origin m p = record { spends = λ cutoff w. rw trace-leave (p.spends cutoff w) }

module _ {M : Type 0} (net : Network M) (timer : Timer Shared (Call M)) (law : IsTimer timer)
    (s : Settings) where
  module _ {cost : Call M → ℕ} {k : ℕ} (r : Requests cost k) where
    give_up-Spends : (origin : Origin) (t : ℕ) → Spends cost 0 (give_up net timer s origin t)
    give_up-Spends origin t =
        Spends-bind 0 0 _ _
          (Sync-Spends (insert_negative-Sync s.horizon s.negative_duration origin t) cost)
          (λ u. Spends-pure _)

    after_attempt-Spends :
        (j : ℕ) (again : H3 M (Result (Option (Response M)))) (origin : Origin) (t attempt : ℕ)
        (result : Attempt (Response M))
        → Spends cost j again
        → Spends cost j (after_attempt net timer s again origin t attempt result)
    unfolding after_attempt
    after_attempt-Spends j again origin t attempt (accepted x) h =
        Spends-le 0 j (Spends-pure _) (omega arith)
    after_attempt-Spends j again origin t attempt (refused (handshake_failed x)) h =
        Spends-le 0 j (give_up-Spends origin t) (omega arith)
    after_attempt-Spends j again origin t attempt (refused (stream_failed x)) h =
        next (h3_stream_failure_action x attempt)
      where
        next :
            (action : H3StreamFailureAction)
            → Spends cost j
                (elim action [ retry_fresh_h3 ↦ again | use_tcp ↦ give_up net timer s origin t ])
        next retry_fresh_h3 = h
        next use_tcp = Spends-le 0 j (give_up-Spends origin t) (omega arith)

    attempts-Spends :
        (rounds attempt : ℕ) (target : Http3RequestTarget) (parts : Parts M) (body : Option Text)
        (t : ℕ)
        → Spends cost (rounds * k) (attempts net timer s rounds attempt target parts body t)
    unfolding attempts
    attempts-Spends zero attempt target parts body t =
        Spends-le 0 (0 * k) (give_up-Spends target.origin t) (omega arith)
    attempts-Spends (suc rounds) attempt target parts body t =
        Spends-le (k + rounds * k) (suc rounds * k)
          (Spends-bind k (rounds * k) _ _
            (guarded-Spends s k target.origin _ (
              request-Spends net timer law r target.target target.authority_host target.addresses
                parts body))
            (λ result.
              after_attempt-Spends (rounds * k) _ target.origin t attempt result
                (attempts-Spends rounds (attempt + 1) target parts body t)))
          (omega arith)

    retry-Spends :
        (target : Http3RequestTarget) (parts : Parts M) (body : Option Text) (t : ℕ)
        → Spends cost (2 * k) (request_http3_with_stale_retry net timer s target parts body t)
    unfolding request_http3_with_stale_retry
    retry-Spends target parts body t = attempts-Spends 2 0 target parts body t

    via_alt_svc-Spends :
        (e : Option AltSvcEntry) (origin : Origin) (parts : Parts M) (body : Option Text) (t : ℕ)
        → Spends cost (2 * k) (via_alt_svc net timer s e origin parts body t)
    unfolding via_alt_svc
    via_alt_svc-Spends none origin parts body t = Spends-le 0 (2 * k) (Spends-pure _) (omega arith)
    via_alt_svc-Spends (some e) origin parts body t = retry-Spends _ parts body t

    via_https_rr-Spends :
        (e : Option HttpsRrEntry) (origin : Origin) (parts : Parts M) (body : Option Text) (t : ℕ)
        → Spends cost (2 * k) (via_https_rr net timer s e origin parts body t)
    unfolding via_https_rr
    via_https_rr-Spends none origin parts body t = Spends-le 0 (2 * k) (Spends-pure _) (omega arith)
    via_https_rr-Spends (some e) origin parts body t = elim (Bool-cases e.has_h3) [
      | inl yes_h3 ↦ rw yes_h3 (retry-Spends _ parts body t)
      | inr no_h3 ↦ rw no_h3 (Spends-le 0 (2 * k) (Spends-pure _) (omega arith))
    ]

    or_https_rr-Spends :
        (origin : Origin) (parts : Parts M) (body : Option Text) (t : ℕ)
        (first : Result (Option (Response M)))
        → Spends cost (0 + 2 * k) (or_https_rr net timer s origin parts body t first)
    unfolding or_https_rr
    or_https_rr-Spends origin parts body t (ok (some x)) =
        Spends-le 0 _ (Spends-pure _) (omega arith)
    or_https_rr-Spends origin parts body t (err e) = Spends-le 0 _ (Spends-pure _) (omega arith)
    or_https_rr-Spends origin parts body t (ok none) =
        Spends-bind 0 (2 * k) _ _
          (https_rr_entry-Spends net timer law cost 0 origin
            (omega (arith, r.free_https origin.host)) t)
          (λ discovered. via_https_rr-Spends discovered origin parts body t)

    pub try_http3-Spends :
        (origin : Origin) (parts : Parts M) (body : Option Text)
        → Spends cost (4 * k) (try_http3 net timer s origin parts body)
    unfolding try_http3
    try_http3-Spends origin parts body =
        Spends-le (0 + (0 + 4 * k)) (4 * k)
          (Spends-bind 0 (0 + 4 * k) _ _ Spends-now λ t.
            Spends-bind 0 (4 * k) _ _ (Sync-Spends (negative_cache_hit-Sync origin t) cost) λ hit.
              elim hit
                as (λ h.
                  Spends cost (4 * k) (
                    if h
                    then pure (ok none)
                    else by_alternatives net timer s origin parts body t)) [
                      | true ↦ Spends-le 0 (4 * k) (Spends-pure _) (omega arith)
                      | false ↦ alternatives t
                    ])
          (omega arith)
      where
        alternatives :
            (t : ℕ) → Spends cost (4 * k) (by_alternatives net timer s origin parts body t)
        alternatives t =
            Spends-le (0 + (2 * k + (0 + 2 * k))) (4 * k)
              (Spends-bind 0 (2 * k + (0 + 2 * k)) _ _
                (Sync-Spends (alt_svc_entry-Sync origin t) cost)
                λ e.
                  Spends-bind (2 * k) (0 + 2 * k) _ _ (via_alt_svc-Spends e origin parts body t)
                    λ first. or_https_rr-Spends origin parts body t first)
              (omega arith)
