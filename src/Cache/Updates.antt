-- ===== src/Cache/Updates.antt =====
-- What a response's `Alt-Svc` header leaves in the cache.
use mechanics_http_client.Prelude.{ℕ, ◌≡◌, refl, false, Option, none, some, returns}
use mechanics_http_client.Text.{Text, codes}
use mechanics_http_client.Origin.{Origin, Uri, from_uri, get-insert_self, get-remove_self}
use mechanics_http_client.Async.{World, done}
use mechanics_http_client.Http.{Shared, Http, Response}
use mechanics_http_client.AltSvc.{AltSvcEntry, AltSvcUpdate, clear, entry, nothing, parse_header}
use mechanics_http_client.Cache.{
  maybe_update_alt_svc, alt_svc_entry, store_update, usable, found_alt_svc,
}

-- What an update leaves for its origin, of what was there.
abbrev pub updated : AltSvcUpdate → Option AltSvcEntry → Option AltSvcEntry
updated clear old = none
updated (entry e) old = some e
updated nothing old = old

found_alt_svc-value :
    {C : Type 0} (origin : Origin) (e : Option AltSvcEntry) (w : World Shared C)
    → (found_alt_svc origin e w).0 ≡ done e
found_alt_svc-value origin none w = refl
found_alt_svc-value origin (some e) w = refl

alt_svc_entry-store_update :
    {C : Type 0} (origin : Origin) (update : AltSvcUpdate) (cutoff : Option ℕ) (w : World Shared C)
    (later : ℕ)
    → w.shared.alt_svc_cache.poisoned ≡ false
    → (alt_svc_entry origin later cutoff (store_update origin (returns update) w).1).0
      ≡ done (usable later (updated update (w.shared.alt_svc_cache.content origin)))
unfolding alt_svc_entry
alt_svc_entry-store_update origin clear cutoff w later h =
    rw (h, get-remove_self w.shared.alt_svc_cache.content origin) refl
alt_svc_entry-store_update origin (entry e) cutoff w later h =
    rw (h, get-insert_self w.shared.alt_svc_cache.content origin e)
      (found_alt_svc-value origin (usable later (some e)) _)
alt_svc_entry-store_update origin nothing cutoff w later h =
    rw h (found_alt_svc-value origin (usable later (w.shared.alt_svc_cache.content origin)) _)

module _ {M C : Type 0} (http : Http M) (horizon : ℕ) where
  -- After a response over https whose `Alt-Svc` header parses, with the lock not poisoned, the cache
  -- answers for the origin by the header: nothing after `clear`, the new entry, whatever was there
  -- before, as long as it is fresh, and what was there before if no alternative is supported.
  pub alt_svc_entry-maybe_update_alt_svc :
      (uri : Uri) (origin : Origin) (response : Response M) (value : Text) (update : AltSvcUpdate)
      (cutoff : Option ℕ) (w : World Shared C) (later : ℕ)
      → from_uri uri ≡ some origin
      → http.get response.headers (codes "alt-svc") ≡ some value
      → parse_header horizon (http.to_str value) w.clock origin.port ≡ returns update
      → w.shared.alt_svc_cache.poisoned ≡ false
      → (alt_svc_entry origin later cutoff
          (maybe_update_alt_svc http horizon uri response cutoff w).1).0
        ≡ done (usable later (updated update (w.shared.alt_svc_cache.content origin)))
  unfolding maybe_update_alt_svc
  alt_svc_entry-maybe_update_alt_svc uri origin response value update cutoff w later u v p h =
      rw (u, v, p) (alt_svc_entry-store_update origin update cutoff w later h)
