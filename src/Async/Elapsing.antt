-- ===== src/Async/Elapsing.antt =====
-- The clock of a computation: it does not run back, a computation is cut only at its cut-off, and a
-- timeout is over early only with a value.
use mechanics_http_client.Prelude.{
  ℕ, ◌+◌, ◌≤◌, ◌≡◌, ◌≢◌, refl, Option, none, some, List, arith, Bool-cases, inl, inr,
}
use mechanics_http_client.Async.{
  Future, Outcome, done, cut, hangs, panicked, World, Async, reaches, pure, proceed, ◌>>=◌, now,
  wait, await, Timer, IsTimer, at_deadline, at_cutoff,
}
use mechanics_http_client.Async.Sync.{Sync}

-- An instant that the clock has passed; without one, never.
abbrev pub Passed : Option ℕ → ℕ → Type 0
Passed none clock = ⊥
Passed (some t) clock = t ≤ clock

pub record Elapses {S C A : Type 0} (m : Async S C A) : Type 0 where
  pub grows : (cutoff : Option ℕ) (w : World S C) → w.clock ≤ (m cutoff w).1.clock
  pub cut_late :
      (cutoff : Option ℕ) (w : World S C)
      → (m cutoff w).0 ≡ cut
      → Passed cutoff (m cutoff w).1.clock

at_deadline-uncut : {A : Type 0} (o : Outcome A) → at_deadline o ≢ cut
at_deadline-uncut (done a) e = cc
at_deadline-uncut cut e = cc
at_deadline-uncut hangs e = cc
at_deadline-uncut panicked e = cc

at_cutoff-cut : {A : Type 0} (o : Outcome A) → at_cutoff o ≡ cut → o ≡ cut
at_cutoff-cut (done a) e = cc
at_cutoff-cut cut e = refl
at_cutoff-cut hangs e = cc
at_cutoff-cut panicked e = cc

at_deadline-none : {A : Type 0} (o : Outcome A) → at_deadline o ≡ done none → o ≡ cut
at_deadline-none (done a) e = cc
at_deadline-none cut e = refl
at_deadline-none hangs e = cc
at_deadline-none panicked e = cc

at_cutoff-none : {A : Type 0} (o : Outcome A) → at_cutoff o ≢ done none
at_cutoff-none (done a) e = cc
at_cutoff-none cut e = cc
at_cutoff-none hangs e = cc
at_cutoff-none panicked e = cc

module _ {S C : Type 0} where
  pub Sync-Elapses : {A : Type 0} {m : Async S C A} → Sync m → Elapses m
  Sync-Elapses s = record {
    grows = λ cutoff w. rw (s.same_clock cutoff w) (omega arith);
    cut_late = λ cutoff w e. absurd (s.uncut cutoff w e);
  }

  pub Elapses-pure : {A : Type 0} (a : A) → Elapses {S = S} {C = C} (pure a)
  Elapses-pure a = record { grows = λ cutoff w. omega arith; cut_late = λ cutoff w e. cc }

  pub Elapses-now : Elapses {S = S} {C = C} now
  Elapses-now = record { grows = λ cutoff w. omega arith; cut_late = λ cutoff w e. cc }

  proceed-grows :
      {A B : Type 0} (f : A → Async S C B)
      → ((a : A) → Elapses (f a))
      → (cutoff : Option ℕ) (o : Outcome A) (w : World S C)
      → w.clock ≤ (proceed cutoff f o w).1.clock
  proceed-grows f g cutoff (done a) w = (g a).grows cutoff w
  proceed-grows f g cutoff cut w = omega arith
  proceed-grows f g cutoff hangs w = omega arith
  proceed-grows f g cutoff panicked w = omega arith

  proceed-cut_late :
      {A B : Type 0} (f : A → Async S C B)
      → ((a : A) → Elapses (f a))
      → (cutoff : Option ℕ) (o : Outcome A) (w : World S C) → (o ≡ cut → Passed cutoff w.clock)
      → (proceed cutoff f o w).0 ≡ cut
      → Passed cutoff (proceed cutoff f o w).1.clock
  proceed-cut_late f g cutoff (done a) w h e = (g a).cut_late cutoff w e
  proceed-cut_late f g cutoff cut w h e = h refl
  proceed-cut_late f g cutoff hangs w h e = cc
  proceed-cut_late f g cutoff panicked w h e = cc

  pub Elapses-bind :
      {A B : Type 0} (m : Async S C A) (f : A → Async S C B)
      → Elapses m
      → ((a : A) → Elapses (f a))
      → Elapses (m >>= f)
  Elapses-bind m f l g = record {
    grows = λ cutoff w.
        omega (arith, l.grows cutoff w, proceed-grows f g cutoff (m cutoff w).0 (m cutoff w).1);
    cut_late =
        λ cutoff w. proceed-cut_late f g cutoff (m cutoff w).0 (m cutoff w).1 (l.cut_late cutoff w);
  }

  wait-grows :
      {A : Type 0} (cutoff delay : Option ℕ) (value : A) (w : World S C)
      → w.clock ≤ (wait cutoff delay value w).1.clock
  unfolding wait
  wait-grows none none value w = ground arith
  wait-grows none (some d) value w = ground arith
  wait-grows (some t) none value w = ground arith
  wait-grows (some t) (some d) value w = ground arith

  wait-cut_late :
      {A : Type 0} (cutoff delay : Option ℕ) (value : A) (w : World S C)
      → (wait cutoff delay value w).0 ≡ cut
      → Passed cutoff (wait cutoff delay value w).1.clock
  unfolding wait
  wait-cut_late none none value w e = cc
  wait-cut_late none (some d) value w e = cc
  wait-cut_late (some t) none value w e = ground arith
  wait-cut_late (some t) (some d) value w e = ground arith

  pub Elapses-await :
      {A : Type 0} (others : List C → S → S) (call : C) (ask : List C → Future A)
      → Elapses (await others call ask)
  unfolding await
  Elapses-await others call ask = record {
    grows = λ cutoff w. wait-grows cutoff _ _ _;
    cut_late = λ cutoff w. wait-cut_late cutoff _ _ _;
  }

  module _ {A : Type 0} (timer : Timer S C) (law : IsTimer timer) (d : ℕ) (m : Async S C A)
      (l : Elapses m) where
    pub Elapses-timeout : Elapses (timer.timeout d m)
    Elapses-timeout = record {
      grows = λ cutoff w. rw law.timeout_lem (elim (Bool-cases (reaches cutoff (w.clock + d))) [
        | inl e ↦ rw e (l.grows (some (w.clock + d)) w)
        | inr e ↦ rw e (l.grows cutoff w)
      ]);
      cut_late = λ cutoff w. rw law.timeout_lem (elim (Bool-cases (reaches cutoff (w.clock + d))) [
        | inl e ↦ rw e (λ h. absurd (at_deadline-uncut _ h))
        | inr e ↦ rw e (λ h. l.cut_late cutoff w (at_cutoff-cut _ h))
      ]);
    }

    -- `Err(Elapsed)` comes at the deadline and not before.
    pub timeout-none :
        (cutoff : Option ℕ) (w : World S C)
        → (timer.timeout d m cutoff w).0 ≡ done none
        → w.clock + d ≤ (timer.timeout d m cutoff w).1.clock
    timeout-none cutoff w = rw law.timeout_lem (elim (Bool-cases (reaches cutoff (w.clock + d))) [
      | inl e ↦ rw e (λ h. l.cut_late (some (w.clock + d)) w (at_deadline-none _ h))
      | inr e ↦ rw e (λ h. absurd (at_cutoff-none _ h))
    ])
