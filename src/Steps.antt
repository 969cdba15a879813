-- ===== src/Steps.antt =====
-- The shared state of a client as a state machine: what the sections of code between two awaits of
-- src/request.rs and src/http3.rs do to it, one lock at a time, on behalf of requests to some origins.
pub mod Invariants
pub mod Sections
pub mod Sending
use mechanics_http_client.Prelude.{ℕ, ◌≡◌, true, none, some}
use mechanics_http_client.Origin.{Origin, insert, remove}
use mechanics_http_client.Http.{Endpoint, HttpsRrEntry, Shared}
use mechanics_http_client.AltSvc.{AltSvcEntry}
use mechanics_http_client.Cache.{write, forget_alt_svc}

-- One step for an origin of `IsMine`.
pub data Step (IsMine : Origin → Type 0) : Shared → Shared → Type 0 where
  -- `negative_cache.write()`, insert
  remember :
      (s : Shared) (origin : Origin) (until : ℕ)
      → IsMine origin
      → Step IsMine s
          (record s { negative_cache = write (λ m. insert m origin until) s.negative_cache })
  -- a panic under that lock
  poison :
      (s : Shared)
      → Step IsMine s (record s { negative_cache = record s.negative_cache { poisoned = true } })
  -- `negative_cache.write()`, remove
  forgive :
      (s : Shared) (origin : Origin)
      → IsMine origin
      → Step IsMine s (record s { negative_cache = write (λ m. remove m origin) s.negative_cache })
  -- `alt_svc_cache.write()`, remove
  forget : (s : Shared) (origin : Origin) → IsMine origin → Step IsMine s (forget_alt_svc origin s)
  -- `alt_svc_cache.write()`, insert
  learn :
      (s : Shared) (origin : Origin) (e : AltSvcEntry)
      → IsMine origin
      → Step IsMine s (record s { alt_svc_cache = write (λ m. insert m origin e) s.alt_svc_cache })
  -- `https_rr_cache.write()`, remove
  drop_record :
      (s : Shared) (origin : Origin)
      → IsMine origin
      → Step IsMine s (record s { https_rr_cache = write (λ m. remove m origin) s.https_rr_cache })
  -- `https_rr_cache.write()`, insert
  keep_record :
      (s : Shared) (origin : Origin) (e : HttpsRrEntry)
      → IsMine origin
      → Step IsMine s
          (record s { https_rr_cache = write (λ m. insert m origin e) s.https_rr_cache })
  -- `endpoint.lock()`, set
  make_endpoint :
      (s : Shared) (e : Endpoint)
      → s.endpoint.content ≡ none
      → Step IsMine s (record s { endpoint = write (λ _. some e) s.endpoint })

-- Any number of steps.
pub data Steps (IsMine : Origin → Type 0) (s : Shared) : Shared → Type 0 where
  here : Steps IsMine s s
  next : {t u : Shared} → Steps IsMine s t → Step IsMine t u → Steps IsMine s u

module _ {IsMine : Origin → Type 0} where
  pub one : {s t : Shared} → Step IsMine s t → Steps IsMine s t
  one st = next here st

  pub Steps-trans : {s t u : Shared} → Steps IsMine s t → Steps IsMine t u → Steps IsMine s u
  Steps-trans r here = r
  Steps-trans r (next q st) = next (Steps-trans r q) st
