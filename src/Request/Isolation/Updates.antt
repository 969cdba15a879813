-- ===== src/Request/Isolation/Updates.antt =====
-- The `Alt-Svc` update, the guard and the endpoint, in worlds that are alike for requests to one origin.
use mechanics_http_client.Prelude.{
  ℕ, ◌≡◌, refl, sym, ap, subst, Bool, true, false, Option, none, some, List, Run, returns, panics,
  out_of_fuel,
}
use mechanics_http_client.Text.{Text}
use mechanics_http_client.Origin.{Origin, Uri, from_uri}
use mechanics_http_client.Async.{Async, World, Outcome, done, cut, hangs, panicked, Timer}
use mechanics_http_client.AltSvc.{AltSvcUpdate, clear, entry, nothing, parse_header}
use mechanics_http_client.Http.{
  Fallible, success, failure, SocketAddr, Call, Shared, Network, Http, Response,
}
use mechanics_http_client.Cache.{
  insert_negative, write, store_update, update_for, maybe_update_alt_svc,
}
use mechanics_http_client.Http3.{endpoint, connecting, made_endpoint, or_new_endpoint}
use mechanics_http_client.Http.{Endpoint}
use mechanics_http_client.Http3.Quic.{new_endpoint}
use mechanics_http_client.Request.Fallback.{Settings, arm, drop_guard, guarded, leave, unwound}
use mechanics_http_client.Request.Isolation.{Alike, AlikeRuns, Blind, AlikeRuns-if, Blind-now}
use mechanics_http_client.Request.Isolation.Locks.{
  with-shared, with-alt_svc, write-Alike, remove-Alike, insert-Alike,
}
use mechanics_http_client.Request.Isolation.Sections.{insert_negative-Blind}

module _ {origin : Origin} {start : ℕ} where
  store_update-Alike :
      {C : Type 0} (update : Run AltSvcUpdate) (w v : World Shared C)
      → Alike origin start w v
      → AlikeRuns origin start (store_update origin update w) (store_update origin update v)
  store_update-Alike (returns clear) w v h = (
    refl,
    with-shared w v _ _ h (
        with-alt_svc w.shared v.shared h.shared _ _
          (remove-Alike w.shared.alt_svc_cache v.shared.alt_svc_cache h.shared.alt_svc)),
  )
  store_update-Alike (returns (entry e)) w v h = (
    refl,
    with-shared w v _ _ h (
        with-alt_svc w.shared v.shared h.shared _ _
          (insert-Alike e w.shared.alt_svc_cache v.shared.alt_svc_cache h.shared.alt_svc)),
  )
  store_update-Alike (returns nothing) w v h = (
    refl,
    with-shared w v _ _ h (
        with-alt_svc w.shared v.shared h.shared _ _ (
          write-Alike (λ m. m) (λ m. m) w.shared.alt_svc_cache v.shared.alt_svc_cache
            h.shared.alt_svc h.shared.alt_svc.same_entry)),
  )
  store_update-Alike panics w v h = (refl, h)
  store_update-Alike out_of_fuel w v h = (refl, h)

  update_for-Alike :
      {M C : Type 0} (http : Http M) (horizon : ℕ) (o : Option Origin) (value : Option Text)
      (w v : World Shared C)
      → ((k : Origin) → o ≡ some k → k ≡ origin)
      → Alike origin start w v
      → AlikeRuns origin start
          (update_for http horizon o value w)
          (update_for http horizon o value v)
  update_for-Alike http horizon none value w v mine h = (refl, h)
  update_for-Alike http horizon (some k) none w v mine h = (refl, h)
  update_for-Alike http horizon (some k) (some value) w v mine h =
      subst
        (λ o.
          AlikeRuns origin start (update_for http horizon (some o) (some value) w)
            (update_for http horizon (some o) (some value) v))
        (sym (mine k refl))
        (subst
          (λ t.
            AlikeRuns origin start
              (store_update origin (parse_header horizon (http.to_str value) w.clock origin.port) w)
              (store_update origin (parse_header horizon (http.to_str value) t origin.port) v))
          h.same_clock
          (store_update-Alike (parse_header horizon (http.to_str value) w.clock origin.port) w v h))

  pub maybe_update_alt_svc-Blind :
      {M C : Type 0} (http : Http M) (horizon : ℕ) (uri : Uri) (response : Response M)
      → ((k : Origin) → from_uri uri ≡ some k → k ≡ origin)
      → Blind origin start {C = C} (maybe_update_alt_svc http horizon uri response)
  unfolding maybe_update_alt_svc
  maybe_update_alt_svc-Blind http horizon uri response mine = record {
    blind = λ cutoff w v h. update_for-Alike http horizon (from_uri uri) _ w v mine h;
  }

  module _ {C : Type 0} (s : Settings) where
    drop_guard-Alike :
        (armed : Bool) (cutoff : Option ℕ) (w v : World Shared C)
        → Alike origin start w v
        → AlikeRuns origin start
            (drop_guard s (record { origin = origin; armed = armed }) cutoff w)
            (drop_guard s (record { origin = origin; armed = armed }) cutoff v)
    unfolding drop_guard
    drop_guard-Alike false cutoff w v h = (refl, h)
    drop_guard-Alike true cutoff w v h =
        (Blind-now (insert_negative s.horizon s.negative_duration origin)
            (λ t later. insert_negative-Blind s.horizon s.negative_duration t)).blind
          cutoff w v h

    leave-Alike :
        {A : Type 0} (cutoff : Option ℕ) (o p : Outcome A) (w v : World Shared C)
        → o ≡ p
        → Alike origin start w v
        → AlikeRuns origin start (leave s (arm origin) cutoff o w) (leave s (arm origin) cutoff p v)
    leave-Alike {A} cutoff o p w v e h =
        subst
          (λ x.
            AlikeRuns origin start (leave s (arm origin) cutoff o w)
              (leave s (arm origin) cutoff x v))
          e (go o)
      where
        go :
            (x : Outcome A)
            → AlikeRuns origin start
                (leave s (arm origin) cutoff x w)
                (leave s (arm origin) cutoff x v)
        go (done a) =
            let r = drop_guard-Alike false cutoff w v h in (ap (unwound (done a)) r.0, r.1)
        go cut = let r = drop_guard-Alike true cutoff w v h in (ap (unwound cut) r.0, r.1)
        go hangs = (refl, h)
        go panicked = let r = drop_guard-Alike true cutoff w v h in (ap (unwound panicked) r.0, r.1)

    pub guarded-Blind :
        {A : Type 0} (m : Async Shared C A)
        → Blind origin start m
        → Blind origin start (guarded s origin m)
    unfolding guarded
    guarded-Blind m b = record {
      blind = λ cutoff w v h. let r = b.blind cutoff w v h in leave-Alike cutoff _ _ _ _ r.0 r.1;
    }

  module _ {M : Type 0} (net : Network M) (timer : Timer Shared (Call M)) where
    pub connecting-Blind :
        (e : Endpoint) (addr : SocketAddr) (host : Text)
        → Blind origin start (connecting net timer e addr host)
    connecting-Blind e addr host = record {
      blind = λ cutoff w v h. (ap (λ calls. done (net.connect calls e addr host)) h.same_trace, h);
    }

    made_endpoint-Alike :
        (made : Fallible Endpoint) (w v : World Shared (Call M))
        → Alike origin start w v
        → AlikeRuns origin start (made_endpoint net timer made w) (made_endpoint net timer made v)
    made_endpoint-Alike (failure e) w v h = (refl, h)
    made_endpoint-Alike (success e) w v h = (
      refl,
      with-shared w v _ _ h (record {
        https_rr = h.shared.https_rr;
        alt_svc = h.shared.alt_svc;
        failures = h.shared.failures;
        same_endpoint = ap (write (λ _. some e)) h.shared.same_endpoint;
      }),
    )

    or_new_endpoint-Alike :
        (made : Fallible Endpoint) (content : Option Endpoint) (w v : World Shared (Call M))
        → Alike origin start w v
        → AlikeRuns origin start
            (or_new_endpoint net timer made content w)
            (or_new_endpoint net timer made content v)
    or_new_endpoint-Alike made (some e) w v h = (refl, h)
    or_new_endpoint-Alike made none w v h = made_endpoint-Alike made w v h

    pub endpoint-Blind : Blind origin start (endpoint net timer)
    unfolding endpoint
    endpoint-Blind = record {
      blind = λ cutoff w v h.
          let made : List (Call M) → Fallible Endpoint =
            λ calls. new_endpoint (net.quinn calls) net.rustls in
          AlikeRuns-if w.shared.endpoint.poisoned v.shared.endpoint.poisoned
            (ap (λ e. e.poisoned) h.shared.same_endpoint) (refl, h)
            (subst
              (λ calls.
                AlikeRuns origin start
                  (or_new_endpoint net timer (made w.trace) w.shared.endpoint.content w)
                  (or_new_endpoint net timer (made calls) v.shared.endpoint.content v))
              h.same_trace
              (subst
                (λ e.
                  AlikeRuns origin start
                    (or_new_endpoint net timer (made w.trace) w.shared.endpoint.content w)
                    (or_new_endpoint net timer (made w.trace) e.content v))
                h.shared.same_endpoint
                (or_new_endpoint-Alike (made w.trace) w.shared.endpoint.content w v h)));
    }
