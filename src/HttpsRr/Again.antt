-- ===== src/HttpsRr/Again.antt =====
-- What the cache of HTTPS records is for: an entry that was found is not looked up again while it is
-- fresh.
use mechanics_http_client.Prelude.{
  ℕ, ◌≡◌, refl, sym, ap, subst, ◌∙◌, Bool, true, false, Option, none, some, inl, inr, Bool-cases,
  if◌then◌else◌,
}
use mechanics_http_client.Error.{Result, ok, err}
use mechanics_http_client.Origin.{Origin, HashMap, insert, remove, get-insert_self}
use mechanics_http_client.Async.{
  Async, Outcome, done, cut, hangs, panicked, World, Timer, proceed, ◌>>=◌, pure,
}
use mechanics_http_client.Http.{HttpsRrEntry, RwLock, Call, Shared, Network}
use mechanics_http_client.Cache.{write}
use mechanics_http_client.HttpsRr.{
  fresh, usable, https_rr_lookup_timeout, lookup, store_lookup, cached_entry, https_rr_entry,
}

usable-some :
    (t : ℕ) (o : Option HttpsRrEntry) (e : HttpsRrEntry) → usable t o ≡ some e → o ≡ some e
usable-some t none e h = cc
usable-some t (some x) e h = elim (Bool-cases (fresh x t)) [
  | inl f ↦ rw f at h
  | inr f ↦ let h' : none ≡ some e = rw f at h in cc
]

-- An entry is in the cache, in a lock that is not poisoned.
abbrev pub Holds : {C : Type 0} → World Shared C → Origin → HttpsRrEntry → Type 0
Holds w origin e =
    (w.shared.https_rr_cache.poisoned ≡ false) × (w.shared.https_rr_cache.content origin ≡ some e)

usable-fresh :
    (t : ℕ) (o : Option HttpsRrEntry) (e : HttpsRrEntry)
    → o ≡ some e
    → fresh e t ≡ true
    → usable t o ≡ some e
usable-fresh t o e h f = rw (h, f) refl

insert-Holds :
    (origin : Origin) (lock : RwLock (HashMap HttpsRrEntry)) (x e : HttpsRrEntry)
    → x ≡ e
    → (write (λ m. insert m origin x) lock).poisoned ≡ false
    → (write (λ m. insert m origin x) lock).content origin ≡ some e
insert-Holds origin lock x e same p = elim (Bool-cases lock.poisoned) [
  | inl q ↦ let p' : true ≡ false = rw q at p in cc
  | inr q ↦ rw q (get-insert_self lock.content origin x ∙ ap some same)
]

module _ {C : Type 0} (origin : Origin) where
  -- What `cached_entry` does, by whether the lock is poisoned and what is usable in the cache.
  abbrev found :
      Bool → Option HttpsRrEntry → World Shared C → Outcome (Option HttpsRrEntry) × World Shared C
  found poisoned entry w = if poisoned then (done none, w) else elim entry [
    | some e ↦ (done (some e), w)
    | none ↦ (
      done none,
      record w {
        shared = record w.shared {
          https_rr_cache = write (λ m. remove m origin) w.shared.https_rr_cache;
        };
      },
    )
  ]

  found-hit :
      (poisoned : Bool) (entry : Option HttpsRrEntry) (e : HttpsRrEntry) (w : World Shared C)
      → poisoned ≡ false
      → entry ≡ some e
      → found poisoned entry w ≡ (done (some e), w)
  found-hit true entry e w p h = cc
  found-hit false none e w p h = cc
  found-hit false (some x) e w p h = ap (λ y. (done y, w)) h

  found-some :
      (poisoned : Bool) (entry : Option HttpsRrEntry) (e : HttpsRrEntry) (w : World Shared C)
      → (found poisoned entry w).0 ≡ done (some e)
      → (poisoned ≡ false) × (entry ≡ some e) × ((found poisoned entry w).1 ≡ w)
  found-some true entry e w h = cc
  found-some false none e w h = cc
  found-some false (some x) e w h = (refl, cc, refl)

  cached_entry-hit :
      (t : ℕ) (e : HttpsRrEntry) (cutoff : Option ℕ) (w : World Shared C)
      → Holds w origin e
      → fresh e t ≡ true
      → cached_entry origin t cutoff w ≡ (done (some e), w)
  unfolding cached_entry
  cached_entry-hit t e cutoff w (p, c) f =
      found-hit w.shared.https_rr_cache.poisoned _ e w p (usable-fresh t _ e c f)

  cached_entry-Holds :
      (t : ℕ) (e : HttpsRrEntry) (cutoff : Option ℕ) (w : World Shared C)
      → (cached_entry origin t cutoff w).0 ≡ done (some e)
      → Holds (cached_entry origin t cutoff w).1 origin e
  unfolding cached_entry
  cached_entry-Holds t e cutoff w h =
      let (p, u, same) = found-some w.shared.https_rr_cache.poisoned _ e w h in
      subst (λ v. Holds v origin e) (sym same) (p, usable-some t _ e u)

  store_lookup-Holds :
      (r : Option (Result (Option HttpsRrEntry))) (e : HttpsRrEntry) (cutoff : Option ℕ)
      (w : World Shared C)
      → (store_lookup origin r cutoff w).0 ≡ done (some e)
      → (store_lookup origin r cutoff w).1.shared.https_rr_cache.poisoned ≡ false
      → Holds (store_lookup origin r cutoff w).1 origin e
  unfolding store_lookup
  store_lookup-Holds none e cutoff w h p = cc
  store_lookup-Holds (some (err x)) e cutoff w h p = cc
  store_lookup-Holds (some (ok none)) e cutoff w h p = cc
  store_lookup-Holds (some (ok (some x))) e cutoff w h p =
      let same : x ≡ e = cc in (p, insert-Holds origin w.shared.https_rr_cache x e same p)

module _ {M : Type 0} (net : Network M) (timer : Timer Shared (Call M)) (origin : Origin) where
  -- What `https_rr_entry` does with what it found in the cache.
  abbrev rest : Option HttpsRrEntry → Async Shared (Call M) (Option HttpsRrEntry)
  rest cached = elim cached [
    | some e ↦ pure (some e)
    | none ↦ do
      looked_up ← timer.timeout https_rr_lookup_timeout (lookup net origin)
      store_lookup origin looked_up
  ]

  proceed-Holds :
      {A : Type 0} (f : A → Async Shared (Call M) (Option HttpsRrEntry)) (e : HttpsRrEntry)
      (cutoff : Option ℕ) (o : Outcome A) (w : World Shared (Call M))
      → ((a : A)
          → o ≡ done a
          → (f a cutoff w).0 ≡ done (some e)
          → (f a cutoff w).1.shared.https_rr_cache.poisoned ≡ false
          → Holds (f a cutoff w).1 origin e)
      → (proceed cutoff f o w).0 ≡ done (some e)
      → (proceed cutoff f o w).1.shared.https_rr_cache.poisoned ≡ false
      → Holds (proceed cutoff f o w).1 origin e
  proceed-Holds f e cutoff (done a) w k h p = k a refl h p
  proceed-Holds f e cutoff cut w k h p = cc
  proceed-Holds f e cutoff hangs w k h p = cc
  proceed-Holds f e cutoff panicked w k h p = cc

  https_rr_entry-Holds :
      (t : ℕ) (e : HttpsRrEntry) (cutoff : Option ℕ) (w : World Shared (Call M))
      → (https_rr_entry net timer origin t cutoff w).0 ≡ done (some e)
      → (https_rr_entry net timer origin t cutoff w).1.shared.https_rr_cache.poisoned ≡ false
      → Holds (https_rr_entry net timer origin t cutoff w).1 origin e
  unfolding https_rr_entry
  https_rr_entry-Holds t e cutoff w = proceed-Holds rest e cutoff _ _ after_cache
    where
      after_cache :
          (cached : Option HttpsRrEntry)
          → let r = cached_entry origin t cutoff w in
            r.0 ≡ done cached
            → (rest cached cutoff r.1).0 ≡ done (some e)
            → (rest cached cutoff r.1).1.shared.https_rr_cache.poisoned ≡ false
            → Holds (rest cached cutoff r.1).1 origin e
      after_cache (some x) found_x h p = cached_entry-Holds origin t e cutoff w cc
      after_cache none missed h p =
          proceed-Holds (store_lookup origin) e cutoff _ _
            (λ r q. store_lookup-Holds origin r e cutoff _) h p

  -- Once `https_rr_entry` has given an entry, by the cache or by a lookup, with the lock not poisoned,
  -- a call for the origin right after it, at an instant at which the entry is fresh, gives the same
  -- entry, makes no call to the outside and changes nothing.
  pub https_rr_entry-again :
      (t : ℕ) (e : HttpsRrEntry) (cutoff : Option ℕ) (w : World Shared (Call M)) (later : ℕ)
      → let r = https_rr_entry net timer origin t cutoff w in
        r.0 ≡ done (some e)
        → r.1.shared.https_rr_cache.poisoned ≡ false
        → fresh e later ≡ true
        → https_rr_entry net timer origin later cutoff r.1 ≡ (done (some e), r.1)
  unfolding https_rr_entry
  https_rr_entry-again t e cutoff w later h p f =
      ap (λ x. proceed cutoff rest x.0 x.1)
        (cached_entry-hit origin later e cutoff _ (https_rr_entry-Holds t e cutoff w h p) f)
