-- ===== src/Client.antt =====
-- src/client.rs: `ClientBuilder` and the client that it builds. A caller's conversion into a header
-- name or value is given by its result, as is the setup of the DNS resolver.
pub mod Ops
pub mod Calls
pub mod Settings
pub mod Requests
pub mod Inspection
use mechanics_http_client.Prelude.{
  ℕ, ◌*◌, Bool, true, false, Option, none, some, ◌++◌, or, unwrap_or,
}
use mechanics_http_client.Text.{Text, codes}
use mechanics_http_client.Time.{from_secs}
use mechanics_http_client.Error.{Error, invalid_header, unreachable, Result, ok, err}
use mechanics_http_client.Tls.{webpki_roots_client_config}
use mechanics_http_client.Http3
use mechanics_http_client.Http.{
  Fallible, success, failure, ClientConfig, Rustls, RwLock, Shared, ClientInner, Http,
}

pub record ClientBuilder (M : Type 0) : Type 0 where
  pub timeout : Option ℕ
  pub pool_max_idle_per_host : Option ℕ
  pub pool_idle_timeout : Option ℕ
  pub default_headers : M
  pub user_agent : Option Text
  pub invalid_default_header : Option Error
  pub http3_enabled : Bool
  pub http3_negative_cache_duration : Option ℕ

-- A client: what never changes, what its clones share, and the options of hyper's pool that were
-- set.
pub record Client (M : Type 0) : Type 0 where
  pub inner : ClientInner M
  pub shared : Shared
  pub pool_max_idle_per_host : Option ℕ
  pub pool_idle_timeout : Option ℕ

abbrev pub unlocked : {A : Type 0} → A → RwLock A
unlocked content = record { poisoned = false; content = content }

abbrev pub no_state : Shared
no_state = record {
  https_rr_cache = unlocked (λ origin. none);
  alt_svc_cache = unlocked (λ origin. none);
  negative_cache = unlocked (λ origin. none);
  endpoint = Http3.new;
}

module _ {M : Type 0} where
  -- `invalid_default_header.get_or_insert_with(…)`
  abbrev pub reject : Error → ClientBuilder M → ClientBuilder M
  reject e b = record b { invalid_default_header = or b.invalid_default_header (some e) }

  unfoldable pub timeout : ℕ → ClientBuilder M → ClientBuilder M
  timeout d b = record b { timeout = some d }

  unfoldable pub pool_max_idle_per_host : ℕ → ClientBuilder M → ClientBuilder M
  pool_max_idle_per_host max b = record b { pool_max_idle_per_host = some max }

  unfoldable pub pool_idle_timeout : ℕ → ClientBuilder M → ClientBuilder M
  pool_idle_timeout d b = record b { pool_idle_timeout = some d }

  unfoldable pub user_agent : Option Text → ClientBuilder M → ClientBuilder M
  user_agent (some value) b = record b { user_agent = some value }
  user_agent none b = reject (invalid_header (codes "User-Agent value rejected")) b

  unfoldable pub default_headers : M → ClientBuilder M → ClientBuilder M
  default_headers headers b = record b { default_headers = headers }

  unfoldable pub http3 : Bool → ClientBuilder M → ClientBuilder M
  http3 enabled b = record b { http3_enabled = enabled }

  unfoldable pub http3_negative_cache_duration : ℕ → ClientBuilder M → ClientBuilder M
  http3_negative_cache_duration d b = record b { http3_negative_cache_duration = some d }

module _ {M : Type 0} (http : Http M) where
  -- `ClientBuilder::default`
  unfoldable pub default : ClientBuilder M
  default = record {
    timeout = none;
    pool_max_idle_per_host = none;
    pool_idle_timeout = none;
    default_headers = http.empty;
    user_agent = none;
    invalid_default_header = none;
    http3_enabled = true;
    http3_negative_cache_duration = none;
  }

  -- `ClientBuilder::new`
  unfoldable pub new : ClientBuilder M
  unfolding default
  new = default

  unfoldable pub default_header : Option Text → Option Text → ClientBuilder M → ClientBuilder M
  default_header none value b = reject (invalid_header (codes "default header name rejected")) b
  default_header (some name) none b =
      reject (invalid_header (codes "default header `" ++ (name ++ codes "` value rejected"))) b
  default_header (some name) (some value) b = record b {
    default_headers = http.insert b.default_headers name value;
  }

  abbrev pub with_user_agent : Option Text → M → M
  with_user_agent none headers = headers
  with_user_agent (some ua) headers = http.insert headers (codes "user-agent") ua

  abbrev pub made : ClientBuilder M → Client M
  made b = record {
    inner = record {
      default_timeout = b.timeout;
      default_headers = with_user_agent b.user_agent b.default_headers;
      http3_enabled = b.http3_enabled;
      http3_negative_cache_duration =
          unwrap_or b.http3_negative_cache_duration (from_secs (5 * 60));
    };
    shared = no_state;
    pool_max_idle_per_host = b.pool_max_idle_per_host;
    pool_idle_timeout = b.pool_idle_timeout;
  }

  -- `build` after the TLS configuration.
  abbrev pub resolve : Fallible (Unit {0}) → ClientBuilder M → Result (Client M)
  resolve (failure e) b = err (unreachable (codes "DNS resolver init failed: " ++ e))
  resolve (success _) b = ok (made b)

  abbrev pub configure :
      Result ClientConfig → Fallible (Unit {0}) → ClientBuilder M → Result (Client M)
  configure (err e) dns b = err e
  configure (ok tls_config) dns b = resolve dns b

  -- `ClientBuilder::build`
  unfoldable pub build : Rustls → Fallible (Unit {0}) → ClientBuilder M → Result (Client M)
  unfolding webpki_roots_client_config
  build rustls dns b = elim b.invalid_default_header [
    | some e ↦ err e
    | none ↦ configure (webpki_roots_client_config rustls) dns b
  ]
