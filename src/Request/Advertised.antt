-- ===== src/Request/Advertised.antt =====
-- HTTP/3 attempts to an origin that is known to offer it, at a server that answers.
pub mod Attempting
pub mod Sending
use mechanics_http_client.Prelude.{
  ℕ, ◌+◌, ◌≤◌, ◌<◌, ◌≡◌, ◌⊎◌, inl, inr, refl, sym, subst, Bool, true, false, Option, none, some,
  arith, if◌then◌else◌, unwrap_or, Bool-cases,
}
use mechanics_http_client.Text.{Text}
use mechanics_http_client.Error.{Result, ok, err}
use mechanics_http_client.Origin.{Origin, HashMap}
use mechanics_http_client.Async.{Async, Outcome, World, Timer, IsTimer, pure, done}
use mechanics_http_client.Async.Giving.{
  Gave, Gives, Certain, Gives-pure, Gives-le, Gives-bind, Gives-after,
}
use mechanics_http_client.Http.{
  IpAddr, Parts, Response, Call, HttpsRrEntry, RwLock, Shared, Network,
}
use mechanics_http_client.AltSvc.{AltSvcEntry}
use mechanics_http_client.Cache.{live, usable, negative_cache_hit, alt_svc_entry, found_alt_svc}
use mechanics_http_client.HttpsRr.{https_rr_entry, cached_entry, fresh}
use mechanics_http_client.Http3.{H3, Attempt, accepted, refused, request}
use mechanics_http_client.Http3.Effects.{Requests}
use mechanics_http_client.Http3.Serving.{Serves, h3_request_time}
use mechanics_http_client.Http3.Serving.Stream.{Accepts, request-Gives}
use mechanics_http_client.Request.Fallback.{
  Settings, Http3RequestTarget, arm, leave, guarded, after_attempt, attempts,
  request_http3_with_stale_retry, via_alt_svc, via_https_rr, or_https_rr, by_alternatives,
  try_http3,
}

-- The caches know where the origin offers HTTP/3: by an `Alt-Svc` entry that is fresh, or, without one,
-- by an HTTPS record that is.
pub data Advertised (origin : Origin) (now : ℕ) (alt_svc : RwLock (HashMap AltSvcEntry))
    (https_rr : RwLock (HashMap HttpsRrEntry)) : Type 0 where
  by_alt_svc :
      (e : AltSvcEntry)
      → alt_svc.poisoned ≡ false
      → usable now (alt_svc.content origin) ≡ some e
      → Advertised origin now alt_svc https_rr
  by_https_rr :
      (e : HttpsRrEntry)
      → usable now (alt_svc.content origin) ≡ none
      → https_rr.poisoned ≡ false
      → https_rr.content origin ≡ some e
      → now < e.expires_at
      → e.has_h3 ≡ true
      → Advertised origin now alt_svc https_rr

-- No failure is remembered, an endpoint can be had, and the caches know an alternative.
pub record Attemptable (origin : Origin) (now : ℕ) (s : Shared) : Type 0 where
  pub not_failed : live now (s.negative_cache.content origin) ≡ false
  pub healthy : s.endpoint.poisoned ≡ false
  pub advertised : Advertised origin now s.alt_svc_cache s.https_rr_cache

-- HTTP/3 gave the response.
abbrev pub Obtains : {M : Type 0} → Response M → Result (Option (Response M)) → Type 0
Obtains response (ok (some r)) = r ≡ response
Obtains response (ok none) = ⊥
Obtains response (err e) = ⊥

module _ {M : Type 0} (origin : Origin) (now : ℕ) (w : World Shared (Call M)) where
  -- What holds after a look at the negative cache.
  abbrev pub GoesOn : Bool → World Shared (Call M) → Type 0
  GoesOn hit v =
      (hit ≡ false)
      × (v.shared.endpoint.poisoned ≡ false)
      × Advertised origin now v.shared.alt_svc_cache v.shared.https_rr_cache

  pub negative_cache_hit-Certain :
      Attemptable origin now w.shared → Certain GoesOn (negative_cache_hit origin now) w
  unfolding negative_cache_hit
  negative_cache_hit-Certain a = elim (Bool-cases w.shared.negative_cache.poisoned) [
    | inl p ↦ record {
      answer = false;
      after = w;
      gives = λ cutoff. simp p refl;
      same_clock = refl;
      same_trace = refl;
      holds = (refl, a.healthy, a.advertised);
    }
    | inr p ↦ record {
      answer = false;
      after = (negative_cache_hit origin now none w).1;
      gives = λ cutoff. simp (p, a.not_failed) refl;
      same_clock = simp (p, a.not_failed) refl;
      same_trace = simp (p, a.not_failed) refl;
      holds = (refl, simp (p, a.not_failed) a.healthy, simp (p, a.not_failed) a.advertised);
    }
  ]

  -- What holds once the `Alt-Svc` cache was read: an entry, or none and a record with h3.
  abbrev pub Chosen : Option AltSvcEntry → World Shared (Call M) → Type 0
  Chosen (some e) v = v.shared.endpoint.poisoned ≡ false
  Chosen none v =
      (v.shared.endpoint.poisoned ≡ false)
      × (v.shared.https_rr_cache.poisoned ≡ false)
      × (e : HttpsRrEntry) × (v.shared.https_rr_cache.content origin ≡ some e)
      × (now < e.expires_at)
      × (e.has_h3 ≡ true)

  pub alt_svc_entry-Certain :
      w.shared.endpoint.poisoned ≡ false
      → Advertised origin now w.shared.alt_svc_cache w.shared.https_rr_cache
      → Certain Chosen (alt_svc_entry origin now) w
  unfolding alt_svc_entry
  alt_svc_entry-Certain healthy (by_alt_svc e p u) = record {
    answer = some e;
    after = w;
    gives = λ cutoff. simp (p, u) refl;
    same_clock = refl;
    same_trace = refl;
    holds = healthy;
  }
  alt_svc_entry-Certain healthy (by_https_rr e u p c l h) =
      elim (Bool-cases w.shared.alt_svc_cache.poisoned) [
        | inl q ↦ record {
          answer = none;
          after = w;
          gives = λ cutoff. simp q refl;
          same_clock = refl;
          same_trace = refl;
          holds = (healthy, p, e, c, l, h);
        }
        | inr q ↦ record {
          answer = none;
          after = (found_alt_svc origin none w).1;
          gives = λ cutoff. simp (q, u) refl;
          same_clock = refl;
          same_trace = refl;
          holds = (healthy, p, e, c, l, h);
        }
      ]

  -- What holds once the cache of HTTPS records was read.
  abbrev pub Found : HttpsRrEntry → Option HttpsRrEntry → World Shared (Call M) → Type 0
  Found e found v = (found ≡ some e) × (v.shared.endpoint.poisoned ≡ false)

  pub https_rr_entry-Certain :
      (net : Network M) (timer : Timer Shared (Call M)) (e : HttpsRrEntry)
      → w.shared.endpoint.poisoned ≡ false
      → w.shared.https_rr_cache.poisoned ≡ false
      → w.shared.https_rr_cache.content origin ≡ some e
      → now < e.expires_at
      → Certain (Found e) (https_rr_entry net timer origin now) w
  unfolding https_rr_entry fresh
  https_rr_entry-Certain net timer e healthy p c l =
      let f : fresh e now ≡ true = ground (arith, l) in
      record {
        answer = some e;
        after = w;
        gives = λ cutoff. simp (p, c, f) refl;
        same_clock = refl;
        same_trace = refl;
        holds = (refl, healthy);
      }
