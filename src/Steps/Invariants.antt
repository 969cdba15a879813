-- ===== src/Steps/Invariants.antt =====
-- What the steps for some origins leave as it was.
use mechanics_http_client.Prelude.{◌≡◌, refl, ◌∙◌, false, some, inl, inr, Bool-cases}
use mechanics_http_client.Origin.{Origin, HashMap, insert, remove, origin_eq}
use mechanics_http_client.Http.{Endpoint, RwLock, Shared}
use mechanics_http_client.Cache.{write}
use mechanics_http_client.Steps.{
  Step, remember, poison, forgive, forget, learn, drop_record, keep_record, make_endpoint, Steps,
  here, next,
}

-- An origin that is none of those of `IsMine`.
abbrev pub IsApart : (Origin → Type 0) → Origin → Type 0
IsApart IsMine k = (origin : Origin) → IsMine origin → origin_eq origin k ≡ false

module _ {V : Type 0} (lock : RwLock (HashMap V)) (origin k : Origin)
    (apart : origin_eq origin k ≡ false) where
  write-remove-apart : (write (λ m. remove m origin) lock).content k ≡ lock.content k
  unfolding remove
  write-remove-apart = elim (Bool-cases lock.poisoned) [
    | inl p ↦ rw p refl
    | inr p ↦ rw (p, apart) refl
  ]

  write-insert-apart : (v : V) → (write (λ m. insert m origin v) lock).content k ≡ lock.content k
  unfolding insert
  write-insert-apart v = elim (Bool-cases lock.poisoned) [
    | inl p ↦ rw p refl
    | inr p ↦ rw (p, apart) refl
  ]

poisoned-write :
    {A : Type 0} (f : A → A) (lock : RwLock A) → (write f lock).poisoned ≡ lock.poisoned
poisoned-write f lock = elim (Bool-cases lock.poisoned) [ inl p ↦ rw p refl | inr p ↦ rw p refl ]

-- What the caches hold for an origin.
abbrev pub SameEntries : Origin → Shared → Shared → Type 0
SameEntries k s t =
    (t.alt_svc_cache.content k ≡ s.alt_svc_cache.content k)
    × (t.https_rr_cache.content k ≡ s.https_rr_cache.content k)
    × (t.negative_cache.content k ≡ s.negative_cache.content k)

-- The flags of the locks, but for that of the negative cache.
abbrev pub SameLocks : Shared → Shared → Type 0
SameLocks s t =
    (t.alt_svc_cache.poisoned ≡ s.alt_svc_cache.poisoned)
    × (t.https_rr_cache.poisoned ≡ s.https_rr_cache.poisoned)
    × (t.endpoint.poisoned ≡ s.endpoint.poisoned)

-- An endpoint that was made stays.
abbrev pub SameEndpoint : Shared → Shared → Type 0
SameEndpoint s t = (e : Endpoint) → s.endpoint.content ≡ some e → t.endpoint.content ≡ some e

abbrev pub Keeps : Origin → Shared → Shared → Type 0
Keeps k s t = SameEntries k s t × SameLocks s t × SameEndpoint s t

module _ {IsMine : Origin → Type 0} (k : Origin) (apart : IsApart IsMine k) where
  Step-SameEntries : {s t : Shared} → Step IsMine s t → SameEntries k s t
  Step-SameEntries (remember s origin until mine) =
      (refl, refl, write-insert-apart s.negative_cache origin k (apart origin mine) until)
  Step-SameEntries (poison s) = (refl, refl, refl)
  Step-SameEntries (forgive s origin mine) =
      (refl, refl, write-remove-apart s.negative_cache origin k (apart origin mine))
  Step-SameEntries (forget s origin mine) =
      (write-remove-apart s.alt_svc_cache origin k (apart origin mine), refl, refl)
  Step-SameEntries (learn s origin e mine) =
      (write-insert-apart s.alt_svc_cache origin k (apart origin mine) e, refl, refl)
  Step-SameEntries (drop_record s origin mine) =
      (refl, write-remove-apart s.https_rr_cache origin k (apart origin mine), refl)
  Step-SameEntries (keep_record s origin e mine) =
      (refl, write-insert-apart s.https_rr_cache origin k (apart origin mine) e, refl)
  Step-SameEntries (make_endpoint s e unset) = (refl, refl, refl)

  Step-SameLocks : {s t : Shared} → Step IsMine s t → SameLocks s t
  Step-SameLocks (remember s origin until mine) = (refl, refl, refl)
  Step-SameLocks (poison s) = (refl, refl, refl)
  Step-SameLocks (forgive s origin mine) = (refl, refl, refl)
  Step-SameLocks (forget s origin mine) =
      (poisoned-write (λ m. remove m origin) s.alt_svc_cache, refl, refl)
  Step-SameLocks (learn s origin e mine) =
      (poisoned-write (λ m. insert m origin e) s.alt_svc_cache, refl, refl)
  Step-SameLocks (drop_record s origin mine) =
      (refl, poisoned-write (λ m. remove m origin) s.https_rr_cache, refl)
  Step-SameLocks (keep_record s origin e mine) =
      (refl, poisoned-write (λ m. insert m origin e) s.https_rr_cache, refl)
  Step-SameLocks (make_endpoint s e unset) = (refl, refl, poisoned-write (λ _. some e) s.endpoint)

  Step-SameEndpoint : {s t : Shared} → Step IsMine s t → SameEndpoint s t
  Step-SameEndpoint (remember s origin until mine) e h = h
  Step-SameEndpoint (poison s) e h = h
  Step-SameEndpoint (forgive s origin mine) e h = h
  Step-SameEndpoint (forget s origin mine) e h = h
  Step-SameEndpoint (learn s origin x mine) e h = h
  Step-SameEndpoint (drop_record s origin mine) e h = h
  Step-SameEndpoint (keep_record s origin x mine) e h = h
  Step-SameEndpoint (make_endpoint s x unset) e h = cc

pub Keeps-refl : (k : Origin) (s : Shared) → Keeps k s s
Keeps-refl k s = ((refl, refl, refl), (refl, refl, refl), λ e h. h)

pub Keeps-trans : (k : Origin) (s t u : Shared) → Keeps k s t → Keeps k t u → Keeps k s u
Keeps-trans k s t u ((a, b, c), (l, m, n), e) ((a', b', c'), (l', m', n'), e') =
    ((a' ∙ a, b' ∙ b, c' ∙ c), (l' ∙ l, m' ∙ m, n' ∙ n), λ x h. e' x (e x h))

-- Steps for other origins keep what the caches hold for an origin, the endpoint, and the locks
-- other than that of the negative cache.
pub Steps-Keeps :
    {IsMine : Origin → Type 0} {s t : Shared} (k : Origin)
    → IsApart IsMine k
    → Steps IsMine s t
    → Keeps k s t
Steps-Keeps {s = s} k apart here = Keeps-refl k s
Steps-Keeps {s = s} k apart (next {t = t} {u = u} r st) =
    Keeps-trans k s t u (Steps-Keeps {s = s} {t = t} k apart r) (
      Step-SameEntries k apart {s = t} {t = u} st,
      Step-SameLocks k apart {s = t} {t = u} st,
      Step-SameEndpoint k apart {s = t} {t = u} st,
    )
