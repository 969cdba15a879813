-- ===== src/Request/Isolation/Locks.antt =====
-- Caches and entries that are alike for requests to one origin.
use mechanics_http_client.Prelude.{
  ℕ, ◌≤◌, ◌≡◌, refl, sym, ap, ◌∙◌, Bool, true, false, Option, none, some, arith, ltb, if◌then◌else◌,
  Bool-cases, inl, inr,
}
use mechanics_http_client.Origin.{Origin, HashMap, insert, remove, get-insert_self, get-remove_self}
use mechanics_http_client.Async.{World}
use mechanics_http_client.AltSvc.{AltSvcEntry, AltSvcUpdate, clear, entry, nothing, parse_header}
use mechanics_http_client.AltSvc
use mechanics_http_client.Http.{HttpsRrEntry, RwLock, Shared}
use mechanics_http_client.Cache.{write, forget_alt_svc, live, usable}
use mechanics_http_client.HttpsRr
use mechanics_http_client.HttpsRr.{store_lookup, cached_entry}
use mechanics_http_client.Request.Isolation.{
  unexpired, expiry_of_https_rr, expiry_of_alt_svc, expiry_of_failure, AlikeLock, AlikeShared,
  Alike,
}

-- What is left of an entry later is decided by what is left of it now.
pub unexpired-later :
    {V : Type 0} (expiry : V → ℕ) (start t : ℕ) (x : Option V)
    → start ≤ t
    → unexpired expiry t (unexpired expiry start x) ≡ unexpired expiry t x
unexpired-later expiry start t none h = refl
unexpired-later expiry start t (some v) h = elim (Bool-cases (ltb start (expiry v))) [
  | inl e ↦ rw e refl
  | inr e ↦ rw e (ground (arith, h, e))
]

pub later-same :
    {V : Type 0} (expiry : V → ℕ) (start t : ℕ) (x y : Option V)
    → start ≤ t
    → unexpired expiry start x ≡ unexpired expiry start y
    → unexpired expiry t x ≡ unexpired expiry t y
later-same expiry start t x y h e =
    sym (unexpired-later expiry start t x h)
    ∙ ap (unexpired expiry t) e
    ∙ unexpired-later expiry start t y h

pub live-unexpired : (t : ℕ) (x : Option ℕ) → live t x ≡ live t (unexpired expiry_of_failure t x)
live-unexpired t none = refl
live-unexpired t (some until) = elim (Bool-cases (ltb t until)) [
  | inl e ↦ rw e (sym e)
  | inr e ↦ rw e refl
]

pub usable-unexpired :
    (t : ℕ) (x : Option AltSvcEntry) → usable t x ≡ unexpired expiry_of_alt_svc t x
unfolding AltSvc.fresh
usable-unexpired t none = refl
usable-unexpired t (some e) = refl

pub usable_https_rr-unexpired :
    (t : ℕ) (x : Option HttpsRrEntry) → HttpsRr.usable t x ≡ unexpired expiry_of_https_rr t x
unfolding HttpsRr.fresh
usable_https_rr-unexpired t none = refl
usable_https_rr-unexpired t (some e) = refl

module _ {origin : Origin} {start : ℕ} where
  pub AlikeLock-if :
      {V : Type 0} {expiry : V → ℕ} (b c : Bool) {x x' y y' : RwLock (HashMap V)}
      → b ≡ c
      → AlikeLock origin start expiry x x'
      → AlikeLock origin start expiry y y'
      → AlikeLock origin start expiry (if b then x else y) (if c then x' else y')
  AlikeLock-if true true e h k = h
  AlikeLock-if true false e h k = cc
  AlikeLock-if false true e h k = cc
  AlikeLock-if false false e h k = k

  pub write-Alike :
      {V : Type 0} {expiry : V → ℕ} (f g : HashMap V → HashMap V) (x y : RwLock (HashMap V))
      → AlikeLock origin start expiry x y
      → unexpired expiry start (f x.content origin) ≡ unexpired expiry start (g y.content origin)
      → AlikeLock origin start expiry (write f x) (write g y)
  write-Alike f g x y h e =
      AlikeLock-if x.poisoned y.poisoned h.same_poison h
        (record { same_poison = h.same_poison; same_entry = e })

  pub remove-Alike :
      {V : Type 0} {expiry : V → ℕ} (x y : RwLock (HashMap V))
      → AlikeLock origin start expiry x y
      → AlikeLock origin start expiry
          (write (λ m. remove m origin) x)
          (write (λ m. remove m origin) y)
  remove-Alike {expiry = expiry} x y h =
      write-Alike (λ m. remove m origin) (λ m. remove m origin) x y h
        (ap (unexpired expiry start)
          (get-remove_self x.content origin ∙ sym (get-remove_self y.content origin)))

  pub insert-Alike :
      {V : Type 0} {expiry : V → ℕ} (v : V) (x y : RwLock (HashMap V))
      → AlikeLock origin start expiry x y
      → AlikeLock origin start expiry
          (write (λ m. insert m origin v) x)
          (write (λ m. insert m origin v) y)
  insert-Alike {expiry = expiry} v x y h =
      write-Alike (λ m. insert m origin v) (λ m. insert m origin v) x y h
        (ap (unexpired expiry start)
          (get-insert_self x.content origin v ∙ sym (get-insert_self y.content origin v)))

  module _ (s t : Shared) (h : AlikeShared origin start s t) where
    pub with-failures :
        (a b : RwLock (HashMap ℕ))
        → AlikeLock origin start expiry_of_failure a b
        → AlikeShared origin start
            (record s { negative_cache = a })
            (record t { negative_cache = b })
    with-failures a b k = record {
      https_rr = h.https_rr;
      alt_svc = h.alt_svc;
      failures = k;
      same_endpoint = h.same_endpoint;
    }

    pub with-alt_svc :
        (a b : RwLock (HashMap AltSvcEntry))
        → AlikeLock origin start expiry_of_alt_svc a b
        → AlikeShared origin start (record s { alt_svc_cache = a }) (record t { alt_svc_cache = b })
    with-alt_svc a b k = record {
      https_rr = h.https_rr;
      alt_svc = k;
      failures = h.failures;
      same_endpoint = h.same_endpoint;
    }

    pub with-https_rr :
        (a b : RwLock (HashMap HttpsRrEntry))
        → AlikeLock origin start expiry_of_https_rr a b
        → AlikeShared origin start
            (record s { https_rr_cache = a })
            (record t { https_rr_cache = b })
    with-https_rr a b k = record {
      https_rr = k;
      alt_svc = h.alt_svc;
      failures = h.failures;
      same_endpoint = h.same_endpoint;
    }

  pub forget-Alike :
      (s t : Shared)
      → AlikeShared origin start s t
      → AlikeShared origin start (forget_alt_svc origin s) (forget_alt_svc origin t)
  forget-Alike s t h =
      with-alt_svc s t h _ _ (remove-Alike s.alt_svc_cache t.alt_svc_cache h.alt_svc)

  pub with-shared :
      {C : Type 0} (w v : World Shared C) (s t : Shared)
      → Alike origin start w v
      → AlikeShared origin start s t
      → Alike origin start (record w { shared = s }) (record v { shared = t })
  with-shared w v s t h k = record {
    same_clock = h.same_clock;
    same_trace = h.same_trace;
    shared = k;
    started = h.started;
  }
