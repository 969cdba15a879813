-- ===== src/Client/Inspection.antt =====
-- src/client.rs: the functions of `Client` by which the crate's own tests write its caches and look
-- into them.
use mechanics_http_client.Prelude.{ℕ, Bool, false, is_some, if◌then◌else◌}
use mechanics_http_client.Origin.{Origin, HashMap, insert}
use mechanics_http_client.AltSvc.{AltSvcEntry}
use mechanics_http_client.Http.{HttpsRrEntry, RwLock, Shared}
use mechanics_http_client.Cache.{write}

abbrev pub insert_https_rr_for_test : Origin → HttpsRrEntry → Shared → Shared
insert_https_rr_for_test origin entry s = record s {
  https_rr_cache = write (λ m. insert m origin entry) s.https_rr_cache;
}

abbrev pub insert_alt_svc_for_test : Origin → AltSvcEntry → Shared → Shared
insert_alt_svc_for_test origin entry s = record s {
  alt_svc_cache = write (λ m. insert m origin entry) s.alt_svc_cache;
}

abbrev pub insert_negative_for_test : Origin → ℕ → Shared → Shared
insert_negative_for_test origin expires_at s = record s {
  negative_cache = write (λ m. insert m origin expires_at) s.negative_cache;
}

-- `lock.read().map(|cache| cache.contains_key(origin)).unwrap_or(false)`
abbrev contains_key : {V : Type 0} → RwLock (HashMap V) → Origin → Bool
contains_key lock origin = if lock.poisoned then false else is_some (lock.content origin)

abbrev pub has_https_rr_for_test : Shared → Origin → Bool
has_https_rr_for_test s = contains_key s.https_rr_cache

abbrev pub has_alt_svc_for_test : Shared → Origin → Bool
has_alt_svc_for_test s = contains_key s.alt_svc_cache

abbrev pub has_negative_for_test : Shared → Origin → Bool
has_negative_for_test s = contains_key s.negative_cache
