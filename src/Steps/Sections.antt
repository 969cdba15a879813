-- ===== src/Steps/Sections.antt =====
-- Each section of code between two awaits takes steps of the state machine.
use mechanics_http_client.Prelude.{
  ℕ, ◌≡◌, refl, Bool, true, false, Option, none, some, Run, returns, panics, out_of_fuel, inl, inr,
  Bool-cases, if◌then◌else◌,
}
use mechanics_http_client.Text.{Text}
use mechanics_http_client.Time.{add_instant}
use mechanics_http_client.Error.{Result, ok, err}
use mechanics_http_client.Origin.{Origin, Uri, from_uri, remove}
use mechanics_http_client.Async.{Async, World, Timer, Outcome, done}
use mechanics_http_client.Http.{
  HttpsRrEntry, RwLock, SocketAddr, Shared, Fallible, success, failure, Http, Response, Call,
  Network,
}
use mechanics_http_client.AltSvc.{AltSvcEntry, AltSvcUpdate, clear, entry, nothing}
use mechanics_http_client.Cache.{
  write, negative_until, insert_negative, live, usable, negative_cache_hit, found_alt_svc,
  alt_svc_entry, update_for, store_update, maybe_update_alt_svc,
}
use mechanics_http_client.HttpsRr.{store_lookup, cached_entry, usable as rr_usable}
use mechanics_http_client.Http.{Endpoint}
use mechanics_http_client.Http3.{endpoint, made_endpoint, or_new_endpoint, connecting}
use mechanics_http_client.Steps.{
  remember, poison, forgive, forget, learn, drop_record, keep_record, make_endpoint, Steps, here,
  next, one,
}

-- Every run of `m` moves the shared state by steps.
pub record Moves (IsMine : Origin → Type 0) {C A : Type 0} (m : Async Shared C A) : Type 0 where
  pub moves : (cutoff : Option ℕ) (w : World Shared C) → Steps IsMine w.shared (m cutoff w).1.shared

pub if-Steps :
    {C A : Type 0} {IsMine : Origin → Type 0} {s : Shared} (b : Bool)
    (x y : Outcome A × World Shared C)
    → Steps IsMine s x.1.shared
    → Steps IsMine s y.1.shared
    → Steps IsMine s (if b then x else y).1.shared
if-Steps true x y h k = h
if-Steps false x y h k = k

write-same : {A : Type 0} (lock : RwLock A) → write (λ a. a) lock ≡ lock
write-same lock = elim (Bool-cases lock.poisoned) [ inl p ↦ rw p refl | inr p ↦ rw p refl ]

module _ {C : Type 0} (IsMine : Origin → Type 0) where
  negative_until-Steps :
      (horizon : ℕ) (origin : Origin) (r : Run ℕ) (w : World Shared C)
      → IsMine origin
      → Steps IsMine w.shared (negative_until horizon origin r w).1.shared
  unfolding negative_until
  negative_until-Steps horizon origin (returns t) w i =
      next (one (remember w.shared origin t i)) (forget _ origin i)
  negative_until-Steps horizon origin panics w i = one (poison w.shared)
  negative_until-Steps horizon origin out_of_fuel w i = here

  pub insert_negative-Moves :
      (horizon duration : ℕ) (origin : Origin) (t : ℕ)
      → IsMine origin
      → Moves IsMine (insert_negative {C = C} horizon duration origin t)
  unfolding insert_negative
  insert_negative-Moves horizon duration origin t i = record {
    moves = λ cutoff w.
        if-Steps w.shared.negative_cache.poisoned _ _ (one (forget w.shared origin i))
          (negative_until-Steps horizon origin (add_instant horizon t duration) w i);
  }

  pub negative_cache_hit-Moves :
      (origin : Origin) (t : ℕ) → IsMine origin → Moves IsMine (negative_cache_hit {C = C} origin t)
  unfolding negative_cache_hit
  negative_cache_hit-Moves origin t i = record {
    moves = λ cutoff w. if-Steps w.shared.negative_cache.poisoned _ _ here (
        if-Steps (live t (w.shared.negative_cache.content origin)) _ _ here
          (one (forgive w.shared origin i)));
  }

  found_alt_svc-Steps :
      (origin : Origin) (e : Option AltSvcEntry) (w : World Shared C)
      → IsMine origin
      → Steps IsMine w.shared (found_alt_svc origin e w).1.shared
  found_alt_svc-Steps origin (some e) w i = here
  found_alt_svc-Steps origin none w i = one (forget w.shared origin i)

  pub alt_svc_entry-Moves :
      (origin : Origin) (t : ℕ) → IsMine origin → Moves IsMine (alt_svc_entry {C = C} origin t)
  unfolding alt_svc_entry
  alt_svc_entry-Moves origin t i = record {
    moves = λ cutoff w.
        if-Steps w.shared.alt_svc_cache.poisoned _ _ here
          (found_alt_svc-Steps origin (usable t (w.shared.alt_svc_cache.content origin)) w i);
  }

  pub store_lookup-Moves :
      (origin : Origin) (r : Option (Result (Option HttpsRrEntry)))
      → IsMine origin
      → Moves IsMine (store_lookup {C = C} origin r)
  unfolding store_lookup
  store_lookup-Moves origin (some (ok (some e))) i = record {
    moves = λ cutoff w. one (keep_record w.shared origin e i);
  }
  store_lookup-Moves origin (some (ok none)) i = record { moves = λ cutoff w. here }
  store_lookup-Moves origin (some (err e)) i = record { moves = λ cutoff w. here }
  store_lookup-Moves origin none i = record { moves = λ cutoff w. here }

  pub cached_entry-Moves :
      (origin : Origin) (t : ℕ) → IsMine origin → Moves IsMine (cached_entry {C = C} origin t)
  unfolding cached_entry
  cached_entry-Moves origin t i = record {
    moves = λ cutoff w.
        if-Steps w.shared.https_rr_cache.poisoned _ _ here
          (by_entry w (rr_usable t (w.shared.https_rr_cache.content origin)));
  }
    where
      by_entry :
          (w : World Shared C) (e : Option HttpsRrEntry)
          → let r : Outcome (Option HttpsRrEntry) × World Shared C = elim e [
            | some x ↦ (done (some x), w)
            | none ↦ (
              done none,
              record w {
                shared = record w.shared {
                  https_rr_cache = write (λ m. remove m origin) w.shared.https_rr_cache;
                };
              },
            )
          ] in
            Steps IsMine w.shared r.1.shared
      by_entry w (some e) = here
      by_entry w none = one (drop_record w.shared origin i)

  store_update-Steps :
      (origin : Origin) (r : Run AltSvcUpdate) (w : World Shared C)
      → IsMine origin
      → Steps IsMine w.shared (store_update origin r w).1.shared
  store_update-Steps origin (returns clear) w i = one (forget w.shared origin i)
  store_update-Steps origin (returns (entry e)) w i = one (learn w.shared origin e i)
  store_update-Steps origin (returns nothing) w i = rw (write-same w.shared.alt_svc_cache) here
  store_update-Steps origin panics w i = here
  store_update-Steps origin out_of_fuel w i = here

module _ {M C : Type 0} (http : Http M) (horizon : ℕ) (IsMine : Origin → Type 0) where
  update_for-Steps :
      (origin : Option Origin) (value : Option Text) (w : World Shared C)
      → ((o : Origin) → origin ≡ some o → IsMine o)
      → Steps IsMine w.shared (update_for http horizon origin value w).1.shared
  update_for-Steps none value w h = here
  update_for-Steps (some origin) none w h = here
  update_for-Steps (some origin) (some value) w h =
      store_update-Steps IsMine origin _ w (h origin refl)

  pub maybe_update_alt_svc-Moves :
      (uri : Uri) (response : Response M)
      → ((o : Origin) → from_uri uri ≡ some o → IsMine o)
      → Moves IsMine (maybe_update_alt_svc {C = C} http horizon uri response)
  unfolding maybe_update_alt_svc
  maybe_update_alt_svc-Moves uri response h = record {
    moves = λ cutoff w. update_for-Steps (from_uri uri) _ w h;
  }

module _ {M : Type 0} (net : Network M) (timer : Timer Shared (Call M))
    (IsMine : Origin → Type 0) where
  made_endpoint-Steps :
      (e : Fallible Endpoint) (w : World Shared (Call M))
      → w.shared.endpoint.content ≡ none
      → Steps IsMine w.shared (made_endpoint net timer e w).1.shared
  made_endpoint-Steps (failure e) w h = here
  made_endpoint-Steps (success e) w h = one (make_endpoint w.shared e h)

  or_new_endpoint-Steps :
      (made : Fallible Endpoint) (e : Option Endpoint) (w : World Shared (Call M))
      → w.shared.endpoint.content ≡ e
      → Steps IsMine w.shared (or_new_endpoint net timer made e w).1.shared
  or_new_endpoint-Steps made (some e) w h = here
  or_new_endpoint-Steps made none w h = made_endpoint-Steps made w h

  pub endpoint-Moves : Moves IsMine (endpoint net timer)
  unfolding endpoint
  endpoint-Moves = record {
    moves = λ cutoff w.
        if-Steps w.shared.endpoint.poisoned _ _ here
          (or_new_endpoint-Steps _ w.shared.endpoint.content w refl);
  }

  pub connecting-Moves :
      (e : Endpoint) (addr : SocketAddr) (host : Text)
      → Moves IsMine (connecting net timer e addr host)
  connecting-Moves e addr host = record { moves = λ cutoff w. here }
