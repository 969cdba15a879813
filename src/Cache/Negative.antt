-- ===== src/Cache/Negative.antt =====
-- The negative cache: what `insert_negative` leaves behind, and what is read back later.
use mechanics_http_client.Prelude.{
  ℕ, ◌+◌, ◌≤◌, ◌≡◌, ◌⊎◌, inl, inr, refl, true, false, Option, none, some, arith, ltb, Bool-cases,
}
use mechanics_http_client.Time.{add_instant}
use mechanics_http_client.Origin.{
  Origin, HashMap, insert, remove, origin_eq, get-insert_self, get-remove_self, get-insert_ne,
  get-remove_ne,
}
use mechanics_http_client.Async.{Outcome, done, panicked, World}
use mechanics_http_client.Http.{RwLock, Shared}
use mechanics_http_client.Cache.{
  write, negative_until, insert_negative, negative_cache_hit, alt_svc_entry,
}

-- A lock is poisoned, or what it protects says this of the origin.
abbrev pub Holds : {V : Type 0} → RwLock (HashMap V) → Origin → Option V → Type 0
Holds lock origin v = (lock.poisoned ≡ true) ⊎ (lock.content origin ≡ v)

-- The shared state remembers a failure until an instant, and no alternative of the origin.
abbrev pub Remembers : Origin → ℕ → Shared → Type 0
Remembers origin until s =
    Holds s.negative_cache origin (some until) × Holds s.alt_svc_cache origin none

-- What a call that records a failure can come to.
abbrev pub Recorded : {A C : Type 0} → Origin → ℕ → Outcome A → World Shared C → Type 0
Recorded origin until (done a) w = Remembers origin until w.shared
Recorded origin until panicked w = w.shared.negative_cache.poisoned ≡ true
Recorded origin until _ w = ⊥

Holds-remove :
    {V : Type 0} (lock : RwLock (HashMap V)) (origin : Origin)
    → Holds (write (λ m. remove m origin) lock) origin none
Holds-remove lock origin = elim (Bool-cases lock.poisoned) [
  | inl p ↦ inl (rw p refl)
  | inr p ↦ inr (rw p (get-remove_self lock.content origin))
]

Holds-insert :
    {V : Type 0} (lock : RwLock (HashMap V)) (origin : Origin) (v : V)
    → Holds (write (λ m. insert m origin v) lock) origin (some v)
Holds-insert lock origin v = elim (Bool-cases lock.poisoned) [
  | inl p ↦ inl (rw p refl)
  | inr p ↦ inr (rw p (get-insert_self lock.content origin v))
]

module _ {C : Type 0} (horizon duration : ℕ) (origin : Origin) (t : ℕ) where
  until-Recorded :
      (w : World Shared C)
      → let r = negative_until horizon origin (add_instant horizon t duration) w in
        Recorded origin (t + duration) r.0 r.1
  unfolding negative_until add_instant
  until-Recorded w = elim (Bool-cases (ltb horizon (t + duration))) [
    | inl late ↦ rw late refl
    | inr fits ↦ rw fits (
      Holds-insert w.shared.negative_cache origin (t + duration),
      Holds-remove w.shared.alt_svc_cache origin,
    )
  ]

  pub insert_negative-Recorded :
      (cutoff : Option ℕ) (w : World Shared C)
      → let r = insert_negative horizon duration origin t cutoff w in
        Recorded origin (t + duration) r.0 r.1
  unfolding insert_negative
  insert_negative-Recorded cutoff w = elim (Bool-cases w.shared.negative_cache.poisoned) [
    | inl p ↦ rw p (inl refl, Holds-remove w.shared.alt_svc_cache origin)
    | inr p ↦ rw p (until-Recorded _)
  ]

  -- After a failure at `t` is recorded, with the locks not poisoned and `t + duration` an instant of
  -- the platform, the origin is skipped at every instant before `t + duration` and at none from then
  -- on, and no `Alt-Svc` entry of it is left.
  pub negative_cache_hit-insert_negative :
      (cutoff : Option ℕ) (w : World Shared C) (later : ℕ)
      → w.shared.negative_cache.poisoned ≡ false
      → w.shared.alt_svc_cache.poisoned ≡ false
      → t + duration ≤ horizon
      → let w' = (insert_negative horizon duration origin t cutoff w).1 in
        ((negative_cache_hit origin later cutoff w').0 ≡ done (ltb later (t + duration)))
        × ((alt_svc_entry origin later cutoff w').0 ≡ done none)
  unfolding insert_negative negative_until add_instant negative_cache_hit alt_svc_entry
  negative_cache_hit-insert_negative cutoff w later p q fits = ground (
    arith,
    get-insert_self w.shared.negative_cache.content origin (t + duration),
    get-remove_self w.shared.alt_svc_cache.content origin,
  )

  -- To record a failure of one origin, until an instant of the platform, changes nothing that is
  -- read of another.
  pub negative_cache_hit-insert_negative_ne :
      (cutoff : Option ℕ) (w : World Shared C) (other : Origin) (later : ℕ)
      → origin_eq origin other ≡ false
      → t + duration ≤ horizon
      → let w' = (insert_negative horizon duration origin t cutoff w).1 in
        ((negative_cache_hit other later cutoff w').0 ≡ (negative_cache_hit other later cutoff w).0)
        × ((alt_svc_entry other later cutoff w').0 ≡ (alt_svc_entry other later cutoff w).0)
  unfolding insert_negative negative_until add_instant negative_cache_hit alt_svc_entry
  negative_cache_hit-insert_negative_ne cutoff w other later ne fits = ground (
    arith,
    get-insert_ne w.shared.negative_cache.content origin other (t + duration),
    get-remove_ne w.shared.alt_svc_cache.content origin other,
  )
