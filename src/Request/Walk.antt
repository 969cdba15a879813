-- ===== src/Request/Walk.antt =====
-- Properties of computations that hold of `send` because they hold of its parts: the rules that such
-- a property has to obey. The modules below walk through the code of `send` with them, once for all.
pub mod Connection
pub mod Fallback
pub mod Sending
use mechanics_http_client.Prelude.{ℕ, Option, List}
use mechanics_http_client.Text.{Text}
use mechanics_http_client.Error.{Result}
use mechanics_http_client.Origin.{Origin}
use mechanics_http_client.Async.{Async, Future, Timer, pure, now, ◌>>=◌, await}
use mechanics_http_client.Http.{Endpoint, SocketAddr, HttpsRrEntry, Call, Network, Shared}
use mechanics_http_client.Cache.{insert_negative, negative_cache_hit, alt_svc_entry}
use mechanics_http_client.HttpsRr.{store_lookup, cached_entry}
use mechanics_http_client.Http3.{H3, endpoint, connecting}
use mechanics_http_client.Request.Fallback.{Settings, guarded}

-- No condition.
abbrev pub Any : {A : Type 0} → A → Type 0
Any a = Unit

-- The ways to build a computation: sequences, awaits, timeouts, the guard, and the sections of code
-- between two awaits that touch the shared state. `IsMine` holds of the origins that the sections are
-- about, and `IsPast` of the instants that were read off the clock.
pub record Rules {M : Type 0} (net : Network M) (timer : Timer Shared (Call M)) (s : Settings)
    (IsMine : Origin → Type 0) (IsPast : ℕ → Type 0) (P : (A : Type 0) → H3 M A → Type 0)
    : Type 1 where
  pub on_pure : {A : Type 0} (a : A) → P _ (pure a)
  pub on_now : {B : Type 0} (f : ℕ → H3 M B) → ((t : ℕ) → IsPast t → P _ (f t)) → P _ (now >>= f)
  pub on_bind :
      {A B : Type 0} (m : H3 M A) (f : A → H3 M B) → P _ m → ((a : A) → P _ (f a)) → P _ (m >>= f)
  pub on_await :
      {A : Type 0} (call : Call M) (ask : List (Call M) → Future A)
      → P _ (await net.others call ask)
  pub on_timeout : {A : Type 0} (d : ℕ) (m : H3 M A) → P _ m → P _ (timer.timeout d m)
  pub on_guarded :
      {A : Type 0} (origin : Origin) (m : H3 M A) → IsMine origin → P _ m → P _ (guarded s origin m)
  pub on_insert_negative :
      (origin : Origin) (t : ℕ)
      → IsMine origin
      → IsPast t
      → P _ (insert_negative s.horizon s.negative_duration origin t)
  pub on_negative_cache_hit :
      (origin : Origin) (t : ℕ) → IsMine origin → IsPast t → P _ (negative_cache_hit origin t)
  pub on_alt_svc_entry :
      (origin : Origin) (t : ℕ) → IsMine origin → IsPast t → P _ (alt_svc_entry origin t)
  pub on_cached_entry :
      (origin : Origin) (t : ℕ) → IsMine origin → IsPast t → P _ (cached_entry origin t)
  pub on_store_lookup :
      (origin : Origin) (r : Option (Result (Option HttpsRrEntry)))
      → IsMine origin
      → P _ (store_lookup origin r)
  pub on_endpoint : P _ (endpoint net timer)
  pub on_connecting :
      (e : Endpoint) (addr : SocketAddr) (host : Text) → P _ (connecting net timer e addr host)
