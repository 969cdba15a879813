-- ===== src/Request/Isolation/Sending.antt =====
-- `send`, in worlds that are alike for requests to its origin.
use mechanics_http_client.Prelude.{refl, ℕ, ◌≤◌, ◌≡◌, sym, subst, Option, some, List}
use mechanics_http_client.Error.{ok}
use mechanics_http_client.Origin.{Origin, Uri, from_uri}
use mechanics_http_client.Async.{World, Timer, IsTimer}
use mechanics_http_client.Http.{Call, ClientInner, Shared, Network, Http}
use mechanics_http_client.Cache.{insert_negative, negative_cache_hit, alt_svc_entry}
use mechanics_http_client.HttpsRr.{store_lookup, cached_entry}
use mechanics_http_client.Request.Builder.{RequestBuilder}
use mechanics_http_client.Request.Fallback.{Settings, guarded}
use mechanics_http_client.Request.Isolation.{
  AlikeShared, Alike, AlikeRuns, Blind, Blind-pure, Blind-now, Blind-bind, Blind-await,
  Blind-timeout,
}
use mechanics_http_client.Request.Isolation.Sections.{
  negative_cache_hit-Blind, alt_svc_entry-Blind, cached_entry-Blind, store_lookup-Blind,
  insert_negative-Blind,
}
use mechanics_http_client.Request.Send.{settings, send}
use mechanics_http_client.Request.Walk.{Rules}
use mechanics_http_client.Request.Walk.Sending.{send-walk}
use mechanics_http_client.Request.Isolation.Updates.{
  maybe_update_alt_svc-Blind, guarded-Blind, connecting-Blind, endpoint-Blind,
}

-- Other tasks of the client do not make caches differ that are alike.
abbrev pub OthersAlike : {M : Type 0} → Origin → ℕ → Network M → Type 0
OthersAlike {M} origin start net =
    (calls : List (Call M)) (s t : Shared)
    → AlikeShared origin start s t
    → AlikeShared origin start (net.others calls s) (net.others calls t)

module _ {M : Type 0} (net : Network M) (timer : Timer Shared (Call M)) (law : IsTimer timer)
    (s : Settings) (origin : Origin) (start : ℕ) (others : OthersAlike origin start net) where
  -- What holds of the computations about the origin holds of those about an equal one.
  at_origin : (P : Origin → Type 0) (o : Origin) → P origin → o ≡ origin → P o
  at_origin P o p e = subst P (sym e) p

  Blind-Rules : Rules net timer s (λ o. o ≡ origin) (λ t. start ≤ t) (λ A m. Blind origin start m)
  Blind-Rules = record {
    on_pure = λ a. Blind-pure a;
    on_now = Blind-now;
    on_bind = Blind-bind;
    on_await = λ call ask. Blind-await net.others call ask others;
    on_timeout = λ d m b. Blind-timeout timer d m law b;
    on_guarded = λ o m e b.
        at_origin (λ x. Blind origin start {C = Call M} (guarded s x m)) o (guarded-Blind s m b) e;
    on_insert_negative = λ o t e past.
        at_origin
          (λ x. Blind origin start {C = Call M} (insert_negative s.horizon s.negative_duration x t))
          o (insert_negative-Blind s.horizon s.negative_duration t) e;
    on_negative_cache_hit = λ o t e past.
        at_origin (λ x. Blind origin start {C = Call M} (negative_cache_hit x t)) o
          (negative_cache_hit-Blind t past) e;
    on_alt_svc_entry = λ o t e past.
        at_origin (λ x. Blind origin start {C = Call M} (alt_svc_entry x t)) o
          (alt_svc_entry-Blind t past) e;
    on_cached_entry = λ o t e past.
        at_origin (λ x. Blind origin start {C = Call M} (cached_entry x t)) o
          (cached_entry-Blind t past) e;
    on_store_lookup = λ o r e.
        at_origin (λ x. Blind origin start {C = Call M} (store_lookup x r)) o (store_lookup-Blind r)
          e;
    on_endpoint = endpoint-Blind net timer;
    on_connecting = connecting-Blind net timer;
  }

module _ {M : Type 0} (http : Http M) (net : Network M) (timer : Timer Shared (Call M))
    (law : IsTimer timer) (client : ClientInner M) (horizon : ℕ) where
  -- With a timer that does what is documented, and other tasks that do not make caches differ that are
  -- alike: a request to an https URL depends on the caches only by the entries of its own origin that
  -- have not expired when it starts. From worlds that agree on those, on the locks, the endpoint, the
  -- clock and the calls so far, `send` comes to the same outcome, at the same instant, by the same calls,
  -- and to worlds that agree again.
  pub send-Blind :
      (b : RequestBuilder M) (uri : Uri) (origin : Origin) (start : ℕ) (cutoff : Option ℕ)
      (w v : World Shared (Call M))
      → OthersAlike origin start net
      → b.uri ≡ ok uri
      → from_uri uri ≡ some origin
      → Alike origin start w v
      → AlikeRuns origin start
          (send http net timer client horizon b cutoff w)
          (send http net timer client horizon b cutoff v)
  send-Blind b uri origin start cutoff w v others u o h = m.blind cutoff w v h
    where
      mine : (x : Uri) → b.uri ≡ ok x → (k : Origin) → from_uri x ≡ some k → k ≡ origin
      mine x e k f =
          let same_uri : uri ≡ x = cc in
          let same_origin : from_uri uri ≡ some k = rw same_uri f in cc

      m : Blind origin start (send http net timer client horizon b)
      m =
          send-walk http client horizon
            (Blind-Rules net timer law (settings http net timer client horizon) origin start others)
            b mine (λ x response e. maybe_update_alt_svc-Blind http horizon x response (mine x e))
            (λ x e full. record { blind = λ cut s t k. (refl, k) })
