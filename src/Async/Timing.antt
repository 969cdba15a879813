-- ===== src/Async/Timing.antt =====
-- How long a computation takes at most.
use mechanics_http_client.Prelude.{
  ℕ, ◌+◌, ◌≤◌, ◌≡◌, ◌≢◌, refl, true, false, Option, none, some, List, arith, leb, Bool-cases, inl,
  inr,
}
use mechanics_http_client.Async.{
  Future, Outcome, done, cut, hangs, panicked, World, Async, pure, panic, proceed, ◌>>=◌, now, wait,
  await, Timer, IsTimer, at_deadline, at_cutoff,
}

-- The clock has not passed the cut-off.
abbrev pub InTime : {S C : Type 0} → Option ℕ → World S C → Type 0
InTime none w = Unit
InTime (some t) w = w.clock ≤ t

-- `m` is over by its cut-off.
pub record Obeys {S C A : Type 0} (m : Async S C A) : Type 0 where
  pub in_time : (t : ℕ) (w : World S C) → w.clock ≤ t → (m (some t) w).1.clock ≤ t
  pub ends : (t : ℕ) (w : World S C) → w.clock ≤ t → (m (some t) w).0 ≢ hangs

-- `m` is over after `k`, and by its cut-off.
pub record Lasts {S C A : Type 0} (k : ℕ) (m : Async S C A) : Type 0 where
  pub obeys : Obeys m
  pub lasts :
      (cutoff : Option ℕ) (w : World S C) → InTime cutoff w → (m cutoff w).1.clock ≤ w.clock + k
  pub returns : (cutoff : Option ℕ) (w : World S C) → InTime cutoff w → (m cutoff w).0 ≢ hangs

le_of_true : (a t b : ℕ) → leb a t ≡ true → b ≤ a → b ≤ t
le_of_true a t b e h = ground arith

le_of_false : (a t b : ℕ) → leb a t ≡ false → b ≤ t → b ≤ a
le_of_false a t b e h = ground arith

at_deadline-ne : {A : Type 0} (o : Outcome A) → o ≢ hangs → at_deadline o ≢ hangs
at_deadline-ne (done a) n e = cc
at_deadline-ne cut n e = cc
at_deadline-ne hangs n e = n refl
at_deadline-ne panicked n e = cc

at_cutoff-ne : {A : Type 0} (o : Outcome A) → o ≢ hangs → at_cutoff o ≢ hangs
at_cutoff-ne (done a) n e = cc
at_cutoff-ne cut n e = cc
at_cutoff-ne hangs n e = n refl
at_cutoff-ne panicked n e = cc

module _ {S C : Type 0} where
  pub Obeys-pure : {A : Type 0} (a : A) → Obeys {S = S} {C = C} (pure a)
  Obeys-pure a = record { in_time = λ t w h. h; ends = λ t w h e. cc }

  Obeys-panic : {A : Type 0} → Obeys {S = S} {C = C} (panic {A = A})
  Obeys-panic = record { in_time = λ t w h. h; ends = λ t w h e. cc }

  pub Obeys-now : Obeys {S = S} {C = C} now
  Obeys-now = record { in_time = λ t w h. h; ends = λ t w h e. cc }

  proceed-in_time :
      {A B : Type 0} (f : A → Async S C B)
      → ((a : A) → Obeys (f a))
      → (t : ℕ) (o : Outcome A) (w : World S C) → w.clock ≤ t
      → (proceed (some t) f o w).1.clock ≤ t
  proceed-in_time f g t (done a) w h = (g a).in_time t w h
  proceed-in_time f g t cut w h = h
  proceed-in_time f g t hangs w h = h
  proceed-in_time f g t panicked w h = h

  proceed-ends :
      {A B : Type 0} (f : A → Async S C B)
      → ((a : A) → Obeys (f a))
      → (t : ℕ) (o : Outcome A) (w : World S C) → w.clock ≤ t
      → o ≢ hangs
      → (proceed (some t) f o w).0 ≢ hangs
  proceed-ends f g t (done a) w h n = (g a).ends t w h
  proceed-ends f g t cut w h n = λ e. cc
  proceed-ends f g t hangs w h n = absurd (n refl)
  proceed-ends f g t panicked w h n = λ e. cc

  pub Obeys-bind :
      {A B : Type 0} (m : Async S C A) (f : A → Async S C B)
      → Obeys m
      → ((a : A) → Obeys (f a))
      → Obeys (m >>= f)
  Obeys-bind m f o g = record {
    in_time = λ t w h. proceed-in_time f g t (m (some t) w).0 (m (some t) w).1 (o.in_time t w h);
    ends = λ t w h.
        proceed-ends f g t (m (some t) w).0 (m (some t) w).1 (o.in_time t w h) (o.ends t w h);
  }

  wait-in_time :
      {A : Type 0} (t : ℕ) (delay : Option ℕ) (value : A) (w : World S C)
      → w.clock ≤ t
      → (wait (some t) delay value w).1.clock ≤ t
  unfolding wait
  wait-in_time t none value w h = ground arith
  wait-in_time t (some d) value w h = ground arith

  wait-ends :
      {A : Type 0} (t : ℕ) (delay : Option ℕ) (value : A) (w : World S C)
      → (wait (some t) delay value w).0 ≢ hangs
  unfolding wait
  wait-ends t none value w = λ e. cc
  wait-ends t (some d) value w = ground arith

  pub Obeys-await :
      {A : Type 0} (others : List C → S → S) (call : C) (ask : List C → Future A)
      → Obeys (await others call ask)
  unfolding await
  Obeys-await others call ask = record {
    in_time = λ t w h. wait-in_time t _ _ _ h;
    ends = λ t w h. wait-ends t _ _ _;
  }

  module _ {A : Type 0} (timer : Timer S C) (law : IsTimer timer) (d : ℕ) (m : Async S C A)
      (o : Obeys m) where
    timeout-lasts :
        (cutoff : Option ℕ) (w : World S C)
        → InTime cutoff w
        → ((timer.timeout d m cutoff w).1.clock ≤ w.clock + d)
          × ((timer.timeout d m cutoff w).0 ≢ hangs)
    timeout-lasts none w h = rw law.timeout_lem (
      o.in_time (w.clock + d) w (omega arith),
      at_deadline-ne _ (o.ends (w.clock + d) w (omega arith)),
    )
    timeout-lasts (some t) w h = rw law.timeout_lem (elim (Bool-cases (leb (w.clock + d) t)) [
      | inl e ↦ rw e (
        o.in_time (w.clock + d) w (omega arith),
        at_deadline-ne _ (o.ends (w.clock + d) w (omega arith)),
      )
      | inr e ↦
          rw e (le_of_false (w.clock + d) t _ e (o.in_time t w h), at_cutoff-ne _ (o.ends t w h))
    ])

    timeout-in_time :
        (t : ℕ) (w : World S C) → w.clock ≤ t → (timer.timeout d m (some t) w).1.clock ≤ t
    timeout-in_time t w h = rw law.timeout_lem (elim (Bool-cases (leb (w.clock + d) t)) [
      | inl e ↦ rw e (le_of_true (w.clock + d) t _ e (o.in_time (w.clock + d) w (omega arith)))
      | inr e ↦ rw e (o.in_time t w h)
    ])

    -- A timeout is over after its duration, if what it bounds can be dropped.
    pub Lasts-timeout : Lasts d (timer.timeout d m)
    Lasts-timeout = record {
      obeys = record { in_time = timeout-in_time; ends = λ t w h. (timeout-lasts (some t) w h).1 };
      lasts = λ cutoff w h. (timeout-lasts cutoff w h).0;
      returns = λ cutoff w h. (timeout-lasts cutoff w h).1;
    }

  pub Lasts-pure : {A : Type 0} (a : A) → Lasts {S = S} {C = C} 0 (pure a)
  Lasts-pure a = record {
    obeys = Obeys-pure a;
    lasts = λ cutoff w h. omega arith;
    returns = λ cutoff w h e. cc;
  }

  pub Lasts-panic : {A : Type 0} → Lasts {S = S} {C = C} 0 (panic {A = A})
  Lasts-panic = record {
    obeys = Obeys-panic;
    lasts = λ cutoff w h. omega arith;
    returns = λ cutoff w h e. cc;
  }

  pub Lasts-now : Lasts {S = S} {C = C} 0 now
  Lasts-now = record {
    obeys = Obeys-now;
    lasts = λ cutoff w h. omega arith;
    returns = λ cutoff w h e. cc;
  }

  pub Lasts-le : {A : Type 0} {m : Async S C A} (j k : ℕ) → Lasts j m → j ≤ k → Lasts k m
  Lasts-le j k l h = record {
    obeys = l.obeys;
    lasts = λ cutoff w i. omega (arith, l.lasts cutoff w i);
    returns = l.returns;
  }

  still-InTime :
      {A : Type 0} {m : Async S C A} (cutoff : Option ℕ) (w : World S C)
      → Obeys m
      → InTime cutoff w
      → InTime cutoff (m cutoff w).1
  still-InTime none w o h = tt
  still-InTime (some t) w o h = o.in_time t w h

  proceed-Lasts :
      {A B : Type 0} (k : ℕ) (f : A → Async S C B)
      → ((a : A) → Lasts k (f a))
      → (cutoff : Option ℕ) (o : Outcome A) (w : World S C) → InTime cutoff w
      → o ≢ hangs
      → ((proceed cutoff f o w).1.clock ≤ w.clock + k) × ((proceed cutoff f o w).0 ≢ hangs)
  proceed-Lasts k f g cutoff (done a) w h n = ((g a).lasts cutoff w h, (g a).returns cutoff w h)
  proceed-Lasts k f g cutoff cut w h n = (omega arith, λ e. cc)
  proceed-Lasts k f g cutoff hangs w h n = absurd (n refl)
  proceed-Lasts k f g cutoff panicked w h n = (omega arith, λ e. cc)

  pub Lasts-bind :
      {A B : Type 0} (j k : ℕ) (m : Async S C A) (f : A → Async S C B)
      → Lasts j m
      → ((a : A) → Lasts k (f a))
      → Lasts (j + k) (m >>= f)
  Lasts-bind j k m f l g = record {
    obeys = Obeys-bind m f l.obeys (λ a. (g a).obeys);
    lasts = λ cutoff w h. omega (arith, l.lasts cutoff w h, (rest cutoff w h).0);
    returns = λ cutoff w h. (rest cutoff w h).1;
  }
    where
      rest :
          (cutoff : Option ℕ) (w : World S C)
          → InTime cutoff w
          → ((proceed cutoff f (m cutoff w).0 (m cutoff w).1).1.clock ≤ (m cutoff w).1.clock + k)
            × ((proceed cutoff f (m cutoff w).0 (m cutoff w).1).0 ≢ hangs)
      rest cutoff w h =
          proceed-Lasts k f g cutoff (m cutoff w).0 (m cutoff w).1
            (still-InTime {m = m} cutoff w l.obeys h) (l.returns cutoff w h)
