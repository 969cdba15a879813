-- ===== src/HttpsRr.antt =====
-- src/https_rr.rs: HTTPS resource records and the entries made of them; src/request.rs:
-- `https_rr_entry`, the cache in front of the lookup.
pub mod Effects
pub mod Choice
pub mod Again
use mechanics_http_client.Prelude.{
  ℕ, Bool, true, false, Option, none, some, List, [], ◌∷◌, ltb, if◌then◌else◌, unwrap_or, or,
}
use mechanics_http_client.Text.{Text, codes}
use mechanics_http_client.Time.{from_millis}
use mechanics_http_client.Error.{dns, Result, ok, err}
use mechanics_http_client.Origin.{Origin, insert, remove}
use mechanics_http_client.Async.{Async, Outcome, done, World, Timer, pure, ◌>>=◌, await}
use mechanics_http_client.Http.{
  Fallible, success, failure, HttpsRecord, HttpsRrEntry, Call, lookup_https, Shared, Network,
}
use mechanics_http_client.Cache.{write}

unfoldable pub fresh : HttpsRrEntry → ℕ → Bool
fresh e now = ltb now e.expires_at

unfoldable pub parse_https_record : HttpsRecord → ℕ → HttpsRrEntry
parse_https_record record' origin_port = record {
  port = unwrap_or record'.port origin_port;
  addresses = record'.address_hints;
  has_h3 = record'.has_alpn (codes "h3");
  expires_at = record'.expires_at;
}

-- The loop of `lookup`; the second argument is `best`.
unfoldable pub select : ℕ → Option HttpsRrEntry → List HttpsRecord → Option HttpsRrEntry
unfolding parse_https_record
select origin_port best [] = best
select origin_port best (r ∷ records) =
    let parsed = parse_https_record r origin_port in
    let rest = select origin_port (or best (some parsed)) records in
    if parsed.has_h3 then some parsed else rest

abbrev pub selected : ℕ → Fallible (List HttpsRecord) → Result (Option HttpsRrEntry)
selected origin_port (success records) = ok (select origin_port none records)
selected origin_port (failure e) = err (dns e)

abbrev pub https_rr_lookup_timeout : ℕ
https_rr_lookup_timeout = from_millis 150

abbrev pub usable : ℕ → Option HttpsRrEntry → Option HttpsRrEntry
usable now none = none
usable now (some e) = if fresh e now then some e else none

module _ {M : Type 0} (net : Network M) where
  unfoldable pub lookup : Origin → Async Shared (Call M) (Result (Option HttpsRrEntry))
  lookup origin = do
    records ←
        await net.others (lookup_https origin.host) (λ calls. net.lookup_https calls origin.host)
    pure (selected origin.port records)

-- What the result of the lookup, or its timeout, does to the cache.
unfoldable pub store_lookup :
    {C : Type 0}
    → Origin
    → Option (Result (Option HttpsRrEntry))
    → Async Shared C (Option HttpsRrEntry)
store_lookup origin (some (ok (some e))) cutoff w = (
  done (some e),
  record w {
    shared = record w.shared {
      https_rr_cache = write (λ m. insert m origin e) w.shared.https_rr_cache;
    };
  },
)
store_lookup origin (some (ok none)) cutoff w = (done none, w)
store_lookup origin (some (err e)) cutoff w = (done none, w)
store_lookup origin none cutoff w = (done none, w)

-- The first part of `https_rr_entry`: what the cache still holds for the origin.
unfoldable pub cached_entry : {C : Type 0} → Origin → ℕ → Async Shared C (Option HttpsRrEntry)
cached_entry origin now cutoff w =
    let lock = w.shared.https_rr_cache in
    if lock.poisoned then (done none, w) else elim (usable now (lock.content origin)) [
      | some e ↦ (done (some e), w)
      | none ↦ (
        done none,
        record w {
          shared = record w.shared { https_rr_cache = write (λ m. remove m origin) lock };
        },
      )
    ]

module _ {M : Type 0} (net : Network M) (timer : Timer Shared (Call M)) where
  unfoldable pub https_rr_entry : Origin → ℕ → Async Shared (Call M) (Option HttpsRrEntry)
  unfolding cached_entry store_lookup lookup
  https_rr_entry origin now = do
    cached ← cached_entry origin now
    elim cached [
      | some e ↦ pure (some e)
      | none ↦ do
        looked_up ← timer.timeout https_rr_lookup_timeout (lookup net origin)
        store_lookup origin looked_up
    ]
