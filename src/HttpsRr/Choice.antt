-- ===== src/HttpsRr/Choice.antt =====
-- Which HTTPS record is chosen, and what the cache in front of the lookup does with it.
use mechanics_http_client.Prelude.{
  ℕ, ◌≡◌, refl, ap, ◌∙◌, Bool, true, false, Option, none, some, List, [], ◌∷◌, map, arith, ltb, or,
  if◌then◌else◌,
}
use mechanics_http_client.Origin.{Origin, get-insert_self}
use mechanics_http_client.Async.{World, done}
use mechanics_http_client.Http.{HttpsRecord, HttpsRrEntry, Shared}
use mechanics_http_client.HttpsRr.{fresh, parse_https_record, select, store_lookup, cached_entry}
use mechanics_http_client.Error.{ok}

abbrev pub first_entry : List HttpsRrEntry → Option HttpsRrEntry
first_entry [] = none
first_entry (e ∷ es) = some e

abbrev pub first_h3 : List HttpsRrEntry → Option HttpsRrEntry
first_h3 [] = none
first_h3 (e ∷ es) = if e.has_h3 then some e else first_h3 es

or-some : {A : Type 0} (b c : Option A) (p : A) → or (or b (some p)) c ≡ or b (some p)
or-some none c p = refl
or-some (some x) c p = refl

pick :
    {A : Type 0} (has_h3 : Bool) (p : A) (s t best n : Option A)
    → s ≡ or t (or (or best (some p)) n)
    → (if has_h3 then some p else s) ≡ or (if has_h3 then some p else t) (or best (some p))
pick true p s t best n h = refl
pick false p s t best n h = h ∙ ap (or t) (or-some best n p)

select-or :
    (port : ℕ) (best : Option HttpsRrEntry) (records : List HttpsRecord)
    → let entries = map (λ r. parse_https_record r port) records in
      select port best records ≡ or (first_h3 entries) (or best (first_entry entries))
unfolding select
select-or port none [] = refl
select-or port (some b) [] = refl
select-or port best (r ∷ rs) =
    pick (parse_https_record r port).has_h3 (parse_https_record r port)
      (select port (or best (some (parse_https_record r port))) rs)
      (first_h3 (map (λ x. parse_https_record x port) rs)) best
      (first_entry (map (λ x. parse_https_record x port) rs))
      (select-or port (or best (some (parse_https_record r port))) rs)

-- The lookup chooses the first record that has h3, and without one the first record.
pub select-first_h3 :
    (port : ℕ) (records : List HttpsRecord)
    → let entries = map (λ r. parse_https_record r port) records in
      select port none records ≡ or (first_h3 entries) (first_entry entries)
select-first_h3 port records = select-or port none records

module _ {C : Type 0} (origin : Origin) (e : HttpsRrEntry) where
  -- An entry that a lookup stored, with the lock not poisoned, is read back from the cache before it
  -- expires, and not from then on.
  pub cached_entry-store_lookup :
      (cutoff : Option ℕ) (w : World Shared C) (later : ℕ)
      → w.shared.https_rr_cache.poisoned ≡ false
      → (cached_entry origin later cutoff (store_lookup origin (some (ok (some e))) cutoff w).1).0
        ≡ done (if ltb later e.expires_at then some e else none)
  unfolding cached_entry store_lookup fresh
  cached_entry-store_lookup cutoff w later h =
      ground (arith, get-insert_self w.shared.https_rr_cache.content origin e)
