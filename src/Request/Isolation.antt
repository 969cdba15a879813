-- ===== src/Request/Isolation.antt =====
-- What a request can see of the caches: the live entries of its own origin. Two worlds that differ in
-- nothing else are alike for it.
pub mod Locks
pub mod Sections
pub mod Updates
pub mod Sending
use mechanics_http_client.Prelude.{
  ℕ, ◌+◌, ◌≤◌, ◌≡◌, refl, sym, ap, subst, Bool, true, false, Option, none, some, List, ◌∷◌, arith,
  ltb, leb, if◌then◌else◌,
}
use mechanics_http_client.Origin.{Origin, HashMap}
use mechanics_http_client.Async.{
  Async, Future, World, Outcome, done, cut, hangs, panicked, Timer, IsTimer, pure, now, proceed,
  ◌>>=◌, reaches, never, wait, await, at_deadline, at_cutoff,
}
use mechanics_http_client.AltSvc.{AltSvcEntry}
use mechanics_http_client.Http.{HttpsRrEntry, RwLock, Shared}

-- An entry, unless it has expired.
abbrev pub unexpired : {V : Type 0} → (V → ℕ) → ℕ → Option V → Option V
unexpired expiry t none = none
unexpired expiry t (some v) = if ltb t (expiry v) then some v else none

abbrev pub expiry_of_https_rr : HttpsRrEntry → ℕ
expiry_of_https_rr e = e.expires_at

abbrev pub expiry_of_alt_svc : AltSvcEntry → ℕ
expiry_of_alt_svc e = e.expires_at

abbrev pub expiry_of_failure : ℕ → ℕ
expiry_of_failure expires_at = expires_at

module _ (origin : Origin) (start : ℕ) where
  -- One cache, seen by requests to the origin from `start` on.
  pub record AlikeLock {V : Type 0} (expiry : V → ℕ) (a b : RwLock (HashMap V)) : Type 0 where
    pub same_poison : a.poisoned ≡ b.poisoned
    pub same_entry :
        unexpired expiry start (a.content origin) ≡ unexpired expiry start (b.content origin)

  pub record AlikeShared (s t : Shared) : Type 0 where
    pub https_rr : AlikeLock expiry_of_https_rr s.https_rr_cache t.https_rr_cache
    pub alt_svc : AlikeLock expiry_of_alt_svc s.alt_svc_cache t.alt_svc_cache
    pub failures : AlikeLock expiry_of_failure s.negative_cache t.negative_cache
    pub same_endpoint : s.endpoint ≡ t.endpoint

  pub record Alike {C : Type 0} (w v : World Shared C) : Type 0 where
    pub same_clock : w.clock ≡ v.clock
    pub same_trace : w.trace ≡ v.trace
    pub shared : AlikeShared w.shared v.shared
    pub started : start ≤ w.clock

  abbrev pub AlikeRuns :
      {C A : Type 0} → Outcome A × World Shared C → Outcome A × World Shared C → Type 0
  AlikeRuns r q = (r.0 ≡ q.0) × Alike r.1 q.1

  -- A computation that cannot tell worlds apart that are alike, and leaves them alike.
  pub record Blind {C A : Type 0} (m : Async Shared C A) : Type 0 where
    pub blind :
        (cutoff : Option ℕ) (w v : World Shared C) → Alike w v → AlikeRuns (m cutoff w) (m cutoff v)

module _ {origin : Origin} {start : ℕ} where
  pub AlikeRuns-if :
      {C A : Type 0} (b c : Bool) {r r' q q' : Outcome A × World Shared C}
      → b ≡ c
      → AlikeRuns origin start r r'
      → AlikeRuns origin start q q'
      → AlikeRuns origin start (if b then r else q) (if c then r' else q')
  AlikeRuns-if true true e h k = h
  AlikeRuns-if true false e h k = cc
  AlikeRuns-if false true e h k = cc
  AlikeRuns-if false false e h k = k

  pub Blind-pure : {C A : Type 0} (a : A) → Blind origin start {C = C} (pure a)
  Blind-pure a = record { blind = λ cutoff w v h. (refl, h) }

  pub Blind-now :
      {C B : Type 0} (f : ℕ → Async Shared C B)
      → ((t : ℕ) → start ≤ t → Blind origin start (f t))
      → Blind origin start (now >>= f)
  Blind-now f g = record {
    blind = λ cutoff w v h.
        subst (λ t. AlikeRuns origin start (f w.clock cutoff w) (f t cutoff v)) h.same_clock
          ((g w.clock h.started).blind cutoff w v h);
  }

  proceed-Alike :
      {C A B : Type 0} (f : A → Async Shared C B) (cutoff : Option ℕ) (o p : Outcome A)
      (w v : World Shared C)
      → ((a : A) → Blind origin start (f a))
      → o ≡ p
      → Alike origin start w v
      → AlikeRuns origin start (proceed cutoff f o w) (proceed cutoff f p v)
  proceed-Alike f cutoff o p w v g e h =
      subst (λ x. AlikeRuns origin start (proceed cutoff f o w) (proceed cutoff f x v)) e (go o)
    where
      go : (x : Outcome _) → AlikeRuns origin start (proceed cutoff f x w) (proceed cutoff f x v)
      go (done a) = (g a).blind cutoff w v h
      go cut = (refl, h)
      go hangs = (refl, h)
      go panicked = (refl, h)

  pub Blind-bind :
      {C A B : Type 0} (m : Async Shared C A) (f : A → Async Shared C B)
      → Blind origin start m
      → ((a : A) → Blind origin start (f a))
      → Blind origin start (m >>= f)
  Blind-bind m f b g = record {
    blind =
        λ cutoff w v h. let r = b.blind cutoff w v h in proceed-Alike f cutoff _ _ _ _ g r.0 r.1;
  }

  never-Alike :
      (A : Type 0) {C : Type 0} (cutoff : Option ℕ) (w v : World Shared C)
      → Alike origin start w v
      → AlikeRuns origin start (never {A = A} cutoff w) (never {A = A} cutoff v)
  unfolding never
  never-Alike A none w v h = (refl, h)
  never-Alike A (some cutoff) w v h = (
    refl,
    record {
      same_clock = ap (λ t. if leb t cutoff then cutoff else t) h.same_clock;
      same_trace = h.same_trace;
      shared = h.shared;
      started = ground (arith, h.started);
    },
  )

  wait-Alike :
      {C A : Type 0} (cutoff delay : Option ℕ) (value : A) (w v : World Shared C)
      → Alike origin start w v
      → AlikeRuns origin start (wait cutoff delay value w) (wait cutoff delay value v)
  unfolding wait
  wait-Alike {A = A} cutoff none value w v h = never-Alike A cutoff w v h
  wait-Alike {A = A} cutoff (some d) value w v h =
      AlikeRuns-if (reaches cutoff (w.clock + d)) (reaches cutoff (v.clock + d))
        (ap (λ t. reaches cutoff (t + d)) h.same_clock)
        (
          refl,
          record {
            same_clock = ap (λ t. t + d) h.same_clock;
            same_trace = h.same_trace;
            shared = h.shared;
            started = omega (arith, h.started);
          },
        )
        (never-Alike A cutoff w v h)

  -- What other tasks do keeps the caches alike.
  pub Blind-await :
      {C A : Type 0} (others : List C → Shared → Shared) (call : C) (ask : List C → Future A)
      → ((calls : List C) (s t : Shared)
          → AlikeShared origin start s t
          → AlikeShared origin start (others calls s) (others calls t))
      → Blind origin start (await others call ask)
  unfolding await
  Blind-await others call ask k = record {
    blind = λ cutoff w v h.
        subst
          (λ calls.
            AlikeRuns origin start
              (wait cutoff (ask w.trace).delay (ask w.trace).value
                (record w { shared = others w.trace w.shared; trace = call ∷ w.trace }))
              (wait cutoff (ask calls).delay (ask calls).value
                (record v { shared = others calls v.shared; trace = call ∷ calls })))
          h.same_trace
          (wait-Alike cutoff (ask w.trace).delay (ask w.trace).value _ _ (record {
            same_clock = h.same_clock;
            same_trace = refl;
            shared = k w.trace w.shared v.shared h.shared;
            started = h.started;
          }));
  }

  pub Blind-timeout :
      {C A : Type 0} (timer : Timer Shared C) (d : ℕ) (m : Async Shared C A)
      → IsTimer timer
      → Blind origin start m
      → Blind origin start (timer.timeout d m)
  Blind-timeout timer d m law b = record {
    blind = λ cutoff w v h.
        let inner = b.blind cutoff w v h in
        rw (law.timeout_lem d m cutoff w, law.timeout_lem d m cutoff v)
          (AlikeRuns-if (reaches cutoff (w.clock + d)) (reaches cutoff (v.clock + d))
            (ap (λ t. reaches cutoff (t + d)) h.same_clock) (at_own cutoff w v h)
            (ap at_cutoff inner.0, inner.1));
  }
    where
      at_own :
          (cutoff : Option ℕ) (w v : World Shared _)
          → Alike origin start w v
          → AlikeRuns origin start
              (at_deadline (m (some (w.clock + d)) w).0, (m (some (w.clock + d)) w).1)
              (at_deadline (m (some (v.clock + d)) v).0, (m (some (v.clock + d)) v).1)
      at_own cutoff w v h =
          subst
            (λ t.
              AlikeRuns origin start
                (at_deadline (m (some (w.clock + d)) w).0, (m (some (w.clock + d)) w).1)
                (at_deadline (m (some (t + d)) v).0, (m (some (t + d)) v).1))
            h.same_clock
            (let inner = b.blind (some (w.clock + d)) w v h in (ap at_deadline inner.0, inner.1))
