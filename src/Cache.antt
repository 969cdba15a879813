-- ===== src/Cache.antt =====
-- src/request.rs: the three caches of the client: `insert_negative`, `negative_cache_hit`,
-- `alt_svc_entry`, `maybe_update_alt_svc`.
pub mod Effects
pub mod Negative
pub mod Updates
use mechanics_http_client.Prelude.{
  ℕ, Bool, true, false, Option, none, some, ltb, if◌then◌else◌, Run, returns, panics, out_of_fuel,
}
use mechanics_http_client.Text.{Text, codes}
use mechanics_http_client.Time.{add_instant}
use mechanics_http_client.Origin.{Origin, HashMap, insert, remove, Uri, from_uri}
use mechanics_http_client.Async.{Async, Outcome, done, cut, hangs, panicked, World}
use mechanics_http_client.Http.{RwLock, Shared, Http, Response}
use mechanics_http_client.AltSvc.{
  AltSvcEntry, AltSvcUpdate, clear, entry, nothing, fresh, parse_header,
}

-- `if let Ok(mut guard) = lock.write() { … }`
abbrev pub write : {A : Type 0} → (A → A) → RwLock A → RwLock A
write f lock = if lock.poisoned then lock else record lock { content = f lock.content }

abbrev pub forget_alt_svc : Origin → Shared → Shared
forget_alt_svc origin s = record s { alt_svc_cache = write (λ m. remove m origin) s.alt_svc_cache }

module _ {C : Type 0} (horizon : ℕ) where
  -- The sum is computed under the write lock, so its panic poisons the lock.
  unfoldable pub negative_until : Origin → Run ℕ → World Shared C → Outcome Unit × World Shared C
  negative_until origin (returns expires_at) w =
      let s = record w.shared {
        negative_cache = write (λ m. insert m origin expires_at) w.shared.negative_cache;
      } in
      (done tt, record w { shared = forget_alt_svc origin s })
  negative_until origin panics w =
      let s = record w.shared {
        negative_cache = record w.shared.negative_cache { poisoned = true };
      } in
      (panicked, record w { shared = s })
  negative_until origin out_of_fuel w = (hangs, w)

  unfoldable pub insert_negative : ℕ → Origin → ℕ → Async Shared C Unit
  unfolding negative_until
  insert_negative duration origin now cutoff w =
      if w.shared.negative_cache.poisoned
      then (done tt, record w { shared = forget_alt_svc origin w.shared })
      else negative_until origin (add_instant horizon now duration) w

abbrev pub live : ℕ → Option ℕ → Bool
live now none = false
live now (some expires_at) = ltb now expires_at

abbrev pub usable : ℕ → Option AltSvcEntry → Option AltSvcEntry
usable now none = none
usable now (some e) = if fresh e now then some e else none

abbrev pub apply_update : Origin → AltSvcUpdate → HashMap AltSvcEntry → HashMap AltSvcEntry
apply_update origin clear m = remove m origin
apply_update origin (entry e) m = insert m origin e
apply_update origin nothing m = m

module _ {C : Type 0} where
  unfoldable pub negative_cache_hit : Origin → ℕ → Async Shared C Bool
  negative_cache_hit origin now cutoff w =
      let lock = w.shared.negative_cache in
      if lock.poisoned
      then (done false, w)
      else if live now (lock.content origin)
      then (done true, w)
      else (
        done false,
        record w {
          shared = record w.shared { negative_cache = write (λ m. remove m origin) lock };
        },
      )

  abbrev pub found_alt_svc :
      Origin → Option AltSvcEntry → World Shared C → Outcome (Option AltSvcEntry) × World Shared C
  found_alt_svc origin (some e) w = (done (some e), w)
  found_alt_svc origin none w = (done none, record w { shared = forget_alt_svc origin w.shared })

  unfoldable pub alt_svc_entry : Origin → ℕ → Async Shared C (Option AltSvcEntry)
  alt_svc_entry origin now cutoff w =
      if w.shared.alt_svc_cache.poisoned
      then (done none, w)
      else found_alt_svc origin (usable now (w.shared.alt_svc_cache.content origin)) w

  abbrev pub store_update :
      Origin → Run AltSvcUpdate → World Shared C → Outcome Unit × World Shared C
  store_update origin (returns update) w =
      let s = record w.shared {
        alt_svc_cache = write (apply_update origin update) w.shared.alt_svc_cache;
      } in
      (done tt, record w { shared = s })
  store_update origin panics w = (panicked, w)
  store_update origin out_of_fuel w = (hangs, w)

module _ {M C : Type 0} (http : Http M) (horizon : ℕ) where
  abbrev pub update_for :
      Option Origin → Option Text → World Shared C → Outcome Unit × World Shared C
  update_for none value w = (done tt, w)
  update_for (some origin) none w = (done tt, w)
  update_for (some origin) (some value) w =
      store_update origin (parse_header horizon (http.to_str value) w.clock origin.port) w

  unfoldable pub maybe_update_alt_svc : Uri → Response M → Async Shared C Unit
  maybe_update_alt_svc uri response cutoff w =
      update_for (from_uri uri) (http.get response.headers (codes "alt-svc")) w
