-- ===== src/Request/Isolation/Sections.antt =====
-- The sections of code between two awaits, in worlds that are alike for requests to one origin.
use mechanics_http_client.Prelude.{
  ℕ, ◌≤◌, ◌≡◌, refl, sym, ap, ◌∙◌, subst, Option, none, some, Run, returns, panics, out_of_fuel,
}
use mechanics_http_client.Time.{add_instant}
use mechanics_http_client.Error.{Result, ok, err}
use mechanics_http_client.Origin.{Origin, remove}
use mechanics_http_client.Async.{World, Outcome, done}
use mechanics_http_client.AltSvc.{AltSvcEntry}
use mechanics_http_client.Http.{HttpsRrEntry, Shared}
use mechanics_http_client.Cache.{
  write, negative_until, insert_negative, live, usable, negative_cache_hit, found_alt_svc,
  alt_svc_entry,
}
use mechanics_http_client.HttpsRr
use mechanics_http_client.HttpsRr.{store_lookup, cached_entry}
use mechanics_http_client.Request.Isolation.{
  expiry_of_https_rr, expiry_of_alt_svc, expiry_of_failure, Alike, AlikeRuns, Blind, AlikeRuns-if,
}
use mechanics_http_client.Request.Isolation.Locks.{
  later-same, live-unexpired, usable-unexpired, usable_https_rr-unexpired, remove-Alike,
  insert-Alike, with-failures, with-https_rr, forget-Alike, with-shared,
}

module _ {origin : Origin} {start : ℕ} where
  pub negative_cache_hit-Blind :
      {C : Type 0} (t : ℕ) → start ≤ t → Blind origin start {C = C} (negative_cache_hit origin t)
  unfolding negative_cache_hit
  negative_cache_hit-Blind t later = record {
    blind = λ cutoff w v h.
        let x = w.shared.negative_cache in
        let y = v.shared.negative_cache in
        let k = h.shared.failures in
        AlikeRuns-if x.poisoned y.poisoned k.same_poison (refl, h)
          (AlikeRuns-if (live t (x.content origin)) (live t (y.content origin))
            (live-unexpired t (x.content origin)
              ∙ ap (live t) (later-same expiry_of_failure start t _ _ later k.same_entry)
              ∙ sym (live-unexpired t (y.content origin)))
            (refl, h)
            (
              refl,
              with-shared w v _ _ h
                  (with-failures w.shared v.shared h.shared _ _ (remove-Alike x y k)),
            ));
  }

  found_alt_svc-Alike :
      {C : Type 0} (x y : Option AltSvcEntry) (w v : World Shared C)
      → x ≡ y
      → Alike origin start w v
      → AlikeRuns origin start (found_alt_svc origin x w) (found_alt_svc origin y v)
  found_alt_svc-Alike x y w v e h =
      subst (λ z. AlikeRuns origin start (found_alt_svc origin x w) (found_alt_svc origin z v)) e
        (go x)
    where
      go :
          (z : Option AltSvcEntry)
          → AlikeRuns origin start (found_alt_svc origin z w) (found_alt_svc origin z v)
      go (some found) = (refl, h)
      go none = (refl, with-shared w v _ _ h (forget-Alike w.shared v.shared h.shared))

  pub alt_svc_entry-Blind :
      {C : Type 0} (t : ℕ) → start ≤ t → Blind origin start {C = C} (alt_svc_entry origin t)
  unfolding alt_svc_entry
  alt_svc_entry-Blind t later = record {
    blind = λ cutoff w v h.
        let x = w.shared.alt_svc_cache in
        let y = v.shared.alt_svc_cache in
        let k = h.shared.alt_svc in
        AlikeRuns-if x.poisoned y.poisoned k.same_poison (refl, h)
          (found_alt_svc-Alike (usable t (x.content origin)) (usable t (y.content origin)) w v
            (usable-unexpired t (x.content origin)
              ∙ later-same expiry_of_alt_svc start t _ _ later k.same_entry
              ∙ sym (usable-unexpired t (y.content origin)))
            h);
  }

  pub cached_entry-Blind :
      {C : Type 0} (t : ℕ) → start ≤ t → Blind origin start {C = C} (cached_entry origin t)
  unfolding cached_entry
  cached_entry-Blind {C} t later = record {
    blind = λ cutoff w v h.
        let x = w.shared.https_rr_cache in
        let y = v.shared.https_rr_cache in
        let k = h.shared.https_rr in
        AlikeRuns-if x.poisoned y.poisoned k.same_poison (refl, h)
          (cached w v h (HttpsRr.usable t (x.content origin)) (HttpsRr.usable t (y.content origin))
            (usable_https_rr-unexpired t (x.content origin)
              ∙ later-same expiry_of_https_rr start t _ _ later k.same_entry
              ∙ sym (usable_https_rr-unexpired t (y.content origin))));
  }
    where
      answer : World Shared C → Option HttpsRrEntry → Outcome (Option HttpsRrEntry) × World Shared C
      answer w x = elim x [
        | some e ↦ (done (some e), w)
        | none ↦ (
          done none,
          record w {
            shared = record w.shared {
              https_rr_cache = write (λ m. remove m origin) w.shared.https_rr_cache;
            };
          },
        )
      ]

      cached :
          (w v : World Shared C)
          → Alike origin start w v
          → (x y : Option HttpsRrEntry) → x ≡ y
          → AlikeRuns origin start (answer w x) (answer v y)
      cached w v h x y e = subst (λ z. AlikeRuns origin start (answer w x) (answer v z)) e (go x)
        where
          go : (z : Option HttpsRrEntry) → AlikeRuns origin start (answer w z) (answer v z)
          go (some found) = (refl, h)
          go none = (
            refl,
            with-shared w v _ _ h (
                with-https_rr w.shared v.shared h.shared _ _
                  (remove-Alike w.shared.https_rr_cache v.shared.https_rr_cache h.shared.https_rr)),
          )

  pub store_lookup-Blind :
      {C : Type 0} (r : Option (Result (Option HttpsRrEntry)))
      → Blind origin start {C = C} (store_lookup origin r)
  unfolding store_lookup
  store_lookup-Blind (some (ok (some e))) = record {
    blind = λ cutoff w v h. (
      refl,
      with-shared w v _ _ h (
          with-https_rr w.shared v.shared h.shared _ _
            (insert-Alike e w.shared.https_rr_cache v.shared.https_rr_cache h.shared.https_rr)),
    );
  }
  store_lookup-Blind (some (ok none)) = record { blind = λ cutoff w v h. (refl, h) }
  store_lookup-Blind (some (err e)) = record { blind = λ cutoff w v h. (refl, h) }
  store_lookup-Blind none = record { blind = λ cutoff w v h. (refl, h) }

  negative_until-Alike :
      {C : Type 0} (horizon : ℕ) (until : Run ℕ) (w v : World Shared C)
      → Alike origin start w v
      → AlikeRuns origin start
          (negative_until horizon origin until w)
          (negative_until horizon origin until v)
  unfolding negative_until
  negative_until-Alike horizon (returns until) w v h = (
    refl,
    with-shared w v _ _ h (
        forget-Alike _ _ (
          with-failures w.shared v.shared h.shared _ _ (
            insert-Alike until w.shared.negative_cache v.shared.negative_cache h.shared.failures))),
  )
  negative_until-Alike horizon panics w v h = (
    refl,
    with-shared w v _ _ h (
        with-failures w.shared v.shared h.shared _ _
          (record { same_poison = refl; same_entry = h.shared.failures.same_entry })),
  )
  negative_until-Alike horizon out_of_fuel w v h = (refl, h)

  pub insert_negative-Blind :
      {C : Type 0} (horizon duration t : ℕ)
      → Blind origin start {C = C} (insert_negative horizon duration origin t)
  unfolding insert_negative
  insert_negative-Blind horizon duration t = record {
    blind = λ cutoff w v h.
        AlikeRuns-if w.shared.negative_cache.poisoned v.shared.negative_cache.poisoned
          h.shared.failures.same_poison
          (refl, with-shared w v _ _ h (forget-Alike w.shared v.shared h.shared))
          (negative_until-Alike horizon (add_instant horizon t duration) w v h);
  }
