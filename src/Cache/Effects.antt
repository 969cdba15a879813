-- ===== src/Cache/Effects.antt =====
-- The cache operations as code between two awaits.
use mechanics_http_client.Prelude.{
  ℕ, ◌+◌, ◌≤◌, ◌≡◌, ◌≢◌, refl, false, ltb, Bool-cases, inl, inr, Option, none, some, arith, Run,
  returns, panics, out_of_fuel,
}
use mechanics_http_client.Text.{Text, codes}
use mechanics_http_client.Time.{add_instant}
use mechanics_http_client.Origin.{Origin, Uri, from_uri}
use mechanics_http_client.Async.{World, panicked}
use mechanics_http_client.Async.Giving.{Certain}
use mechanics_http_client.Async.Sync.{Sync}
use mechanics_http_client.Http.{Http, Response, Shared}
use mechanics_http_client.AltSvc.{AltSvcUpdate, parse_header}
use mechanics_http_client.AltSvc.Bounds.{parse_str-ends}
use mechanics_http_client.Cache.{
  negative_until, insert_negative, negative_cache_hit, alt_svc_entry, maybe_update_alt_svc,
  update_for, store_update,
}

module _ {C : Type 0} where
  pub insert_negative-Sync :
      (horizon duration : ℕ) (origin : Origin) (t : ℕ)
      → Sync (insert_negative {C = C} horizon duration origin t)
  unfolding insert_negative add_instant
  insert_negative-Sync horizon duration origin t = record {
    same_trace = λ cutoff w. ground arith;
    same_clock = λ cutoff w. ground arith;
    ends = λ cutoff w. ground arith;
    uncut = λ cutoff w. ground arith;
  }

  pub negative_cache_hit-Sync :
      (origin : Origin) (t : ℕ) → Sync (negative_cache_hit {C = C} origin t)
  unfolding negative_cache_hit
  negative_cache_hit-Sync origin t = record {
    same_trace = λ cutoff w. ground arith;
    same_clock = λ cutoff w. ground arith;
    ends = λ cutoff w. ground arith;
    uncut = λ cutoff w. ground arith;
  }

  pub alt_svc_entry-Sync : (origin : Origin) (t : ℕ) → Sync (alt_svc_entry {C = C} origin t)
  unfolding alt_svc_entry
  alt_svc_entry-Sync origin t = record {
    same_trace = λ cutoff w. ground arith;
    same_clock = λ cutoff w. ground arith;
    ends = λ cutoff w. ground arith;
    uncut = λ cutoff w. ground arith;
  }

  store_update-Sync :
      (origin : Origin) (r : Run AltSvcUpdate)
      → r ≢ out_of_fuel
      → Sync {C = C} (λ cutoff. store_update origin r)
  store_update-Sync origin (returns update) n = record {
    same_trace = λ cutoff w. refl;
    same_clock = λ cutoff w. refl;
    ends = λ cutoff w e. cc;
    uncut = λ cutoff w e. cc;
  }
  store_update-Sync origin panics n = record {
    same_trace = λ cutoff w. refl;
    same_clock = λ cutoff w. refl;
    ends = λ cutoff w e. cc;
    uncut = λ cutoff w e. cc;
  }
  store_update-Sync origin out_of_fuel n = absurd (n refl)

parse_header-ends :
    (horizon : ℕ) (value : Option Text) (t port : ℕ)
    → parse_header horizon value t port ≢ out_of_fuel
unfolding parse_header
parse_header-ends horizon none t port = λ e. cc
parse_header-ends horizon (some raw) t port = parse_str-ends horizon raw t port

module _ {M C : Type 0} (http : Http M) (horizon : ℕ) where
  update_for-Sync :
      (o : Option Origin) (v : Option Text) → Sync {C = C} (λ cutoff. update_for http horizon o v)
  update_for-Sync none v = record {
    same_trace = λ cutoff w. refl;
    same_clock = λ cutoff w. refl;
    ends = λ cutoff w e. cc;
    uncut = λ cutoff w e. cc;
  }
  update_for-Sync (some origin) none = record {
    same_trace = λ cutoff w. refl;
    same_clock = λ cutoff w. refl;
    ends = λ cutoff w e. cc;
    uncut = λ cutoff w e. cc;
  }
  update_for-Sync (some origin) (some value) = record {
    same_trace = λ cutoff w. (stored w.clock).same_trace cutoff w;
    same_clock = λ cutoff w. (stored w.clock).same_clock cutoff w;
    ends = λ cutoff w. (stored w.clock).ends cutoff w;
    uncut = λ cutoff w. (stored w.clock).uncut cutoff w;
  }
    where
      stored :
          (t : ℕ)
          → Sync {C = C} (λ cutoff.
            store_update origin (parse_header horizon (http.to_str value) t origin.port))
      stored t =
          store_update-Sync origin _ (parse_header-ends horizon (http.to_str value) t origin.port)

  pub maybe_update_alt_svc-Sync :
      (uri : Uri) (response : Response M)
      → Sync {C = C} (maybe_update_alt_svc http horizon uri response)
  unfolding maybe_update_alt_svc
  maybe_update_alt_svc-Sync uri response =
      update_for-Sync (from_uri uri) (http.get response.headers (codes "alt-svc"))

module _ {C : Type 0} (origin : Origin) (t : ℕ) (cutoff : Option ℕ) (w : World Shared C) where
  pub negative_cache_hit-ne_panicked : (negative_cache_hit origin t cutoff w).0 ≢ panicked
  unfolding negative_cache_hit
  negative_cache_hit-ne_panicked = ground arith

  pub alt_svc_entry-ne_panicked : (alt_svc_entry origin t cutoff w).0 ≢ panicked
  unfolding alt_svc_entry
  alt_svc_entry-ne_panicked = ground arith

module _ {C : Type 0} (horizon duration : ℕ) (origin : Origin) (t : ℕ) where
  -- To record a failure until an instant of the platform does not panic.
  pub insert_negative-Certain :
      (w : World Shared C)
      → t + duration ≤ horizon
      → Certain (λ u v. Unit) (insert_negative horizon duration origin t) w
  unfolding insert_negative negative_until add_instant
  insert_negative-Certain w room =
      let fits : ltb horizon (t + duration) ≡ false = ground (arith, room) in
      elim (Bool-cases w.shared.negative_cache.poisoned) [
        | inl p ↦ record {
          answer = tt;
          after = (insert_negative horizon duration origin t none w).1;
          gives = λ cutoff. simp p refl;
          same_clock = simp p refl;
          same_trace = simp p refl;
          holds = tt;
        }
        | inr p ↦ record {
          answer = tt;
          after = (insert_negative horizon duration origin t none w).1;
          gives = λ cutoff. simp (p, fits) refl;
          same_clock = simp (p, fits) refl;
          same_trace = simp (p, fits) refl;
          holds = tt;
        }
      ]
