-- ===== src/Async/Spends.antt =====
-- How many calls a computation makes at most, counted by any cost of calls.
use mechanics_http_client.Prelude.{
  ℕ, ◌+◌, ◌≤◌, ◌≡◌, refl, Option, none, some, List, [], ◌∷◌, arith, Bool-cases, inl, inr,
}
use mechanics_http_client.Async.{
  Future, Outcome, done, cut, hangs, panicked, World, Async, reaches, pure, panic, proceed, ◌>>=◌,
  now, never, wait, await, Timer, IsTimer,
}

abbrev pub total : {C : Type 0} → (C → ℕ) → List C → ℕ
total cost [] = 0
total cost (c ∷ calls) = cost c + total cost calls

-- Whatever the cut-off and the world, `m` adds at most `k` to the cost of the calls made.
pub record Spends {S C A : Type 0} (cost : C → ℕ) (k : ℕ) (m : Async S C A) : Type 0 where
  pub spends :
      (cutoff : Option ℕ) (w : World S C) → total cost (m cutoff w).1.trace ≤ k + total cost w.trace

module _ {S C : Type 0} where
  trace-never :
      (A : Type 0) (cutoff : Option ℕ) (w : World S C) → (never {A = A} cutoff w).1.trace ≡ w.trace
  unfolding never
  trace-never A none w = refl
  trace-never A (some t) w = refl

  pub trace-wait :
      {A : Type 0} (cutoff delay : Option ℕ) (value : A) (w : World S C)
      → (wait cutoff delay value w).1.trace ≡ w.trace
  unfolding wait
  trace-wait {A} cutoff none value w = trace-never A cutoff w
  trace-wait {A} cutoff (some d) value w = elim (Bool-cases (reaches cutoff (w.clock + d))) [
    | inl e ↦ rw e refl
    | inr e ↦ rw e (trace-never A cutoff w)
  ]

module _ {S C : Type 0} {cost : C → ℕ} where
  pub Spends-pure : {A : Type 0} (a : A) → Spends {S = S} cost 0 (pure a)
  Spends-pure a = record { spends = λ cutoff w. omega arith }

  pub Spends-panic : {A : Type 0} → Spends {S = S} cost 0 (panic {A = A})
  Spends-panic = record { spends = λ cutoff w. omega arith }

  pub Spends-now : Spends {S = S} cost 0 now
  Spends-now = record { spends = λ cutoff w. omega arith }

  pub Spends-le :
      {A : Type 0} {m : Async S C A} (j k : ℕ) → Spends cost j m → j ≤ k → Spends cost k m
  Spends-le j k s h = record { spends = λ cutoff w. omega (arith, s.spends cutoff w) }

  proceed-Spends :
      {A B : Type 0} (k : ℕ) (f : A → Async S C B)
      → ((a : A) → Spends cost k (f a))
      → (cutoff : Option ℕ) (o : Outcome A) (w : World S C)
      → total cost (proceed cutoff f o w).1.trace ≤ k + total cost w.trace
  proceed-Spends k f s cutoff (done a) w = (s a).spends cutoff w
  proceed-Spends k f s cutoff cut w = omega arith
  proceed-Spends k f s cutoff hangs w = omega arith
  proceed-Spends k f s cutoff panicked w = omega arith

  pub Spends-bind :
      {A B : Type 0} (j k : ℕ) (m : Async S C A) (f : A → Async S C B)
      → Spends cost j m
      → ((a : A) → Spends cost k (f a))
      → Spends cost (j + k) (m >>= f)
  Spends-bind j k m f s t = record {
    spends = λ cutoff w.
        omega (arith, s.spends cutoff w, proceed-Spends k f t cutoff (m cutoff w).0 (m cutoff w).1);
  }

  pub Spends-await :
      {A : Type 0} (k : ℕ) (others : List C → S → S) (call : C) (ask : List C → Future A)
      → cost call ≤ k
      → Spends cost k (await others call ask)
  unfolding await
  Spends-await k others call ask h = record { spends = λ cutoff w. rw trace-wait (omega arith) }

  -- A timeout makes the calls of what it bounds.
  pub Spends-timeout :
      {A : Type 0} (t : Timer S C) (k d : ℕ) (m : Async S C A)
      → IsTimer t
      → Spends cost k m
      → Spends cost k (t.timeout d m)
  Spends-timeout t k d m law s = record {
    spends = λ cutoff w. rw law.timeout_lem (elim (Bool-cases (reaches cutoff (w.clock + d))) [
      | inl e ↦ rw e (s.spends (some (w.clock + d)) w)
      | inr e ↦ rw e (s.spends cutoff w)
    ]);
  }
