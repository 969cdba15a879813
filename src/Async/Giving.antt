-- ===== src/Async/Giving.antt =====
-- What a computation gives when what it awaits is ready soon enough: an answer, after at most so much
-- time, and at no cost in calls.
use mechanics_http_client.Prelude.{
  ℕ, ◌+◌, ◌≤◌, ◌≡◌, refl, sym, ap, subst, ◌∙◌, true, Option, none, some, List, arith, Bool-cases,
  inl, inr,
}
use mechanics_http_client.Async.{
  Future, Outcome, done, World, Async, reaches, pure, proceed, ◌>>=◌, wait, await, Timer, IsTimer,
  at_deadline, at_cutoff,
}
use mechanics_http_client.Async.Spends.{total}

-- The cut-off, if there is one, leaves time until `t`.
abbrev pub Leaves : Option ℕ → ℕ → Type 0
Leaves none t = Unit
Leaves (some cutoff) t = t ≤ cutoff

pub Leaves-le : (cutoff : Option ℕ) (t u : ℕ) → t ≤ u → Leaves cutoff u → Leaves cutoff t
Leaves-le none t u h l = l
Leaves-le (some cutoff) t u h l = omega arith

pub reaches-Leaves : (cutoff : Option ℕ) (t : ℕ) → Leaves cutoff t → reaches cutoff t ≡ true
reaches-Leaves none t l = refl
reaches-Leaves (some cutoff) t l = ground arith

-- A future that is ready within `k`, with a value of which `Q` holds.
pub record Ready {A : Type 0} (Q : A → Type 0) (k : ℕ) (f : Future A) : Type 0 where
  pub after : ℕ
  pub delay_is : f.delay ≡ some after
  pub after_le : after ≤ k
  pub value_holds : Q f.value

-- A timeout that is long enough gives what it bounds.
abbrev pub InTime : {A : Type 0} → (A → Type 0) → Option A → Type 0
InTime Q none = ⊥
InTime Q (some a) = Q a

-- A step that gives the same whenever its owner would drop it, at once and with no call; `Q` holds of
-- the answer and of what the step leads to.
pub record Certain {S C A : Type 0} (Q : A → World S C → Type 0) (m : Async S C A) (w : World S C)
    : Type 0 where
  pub answer : A
  pub after : World S C
  pub gives : (cutoff : Option ℕ) → m cutoff w ≡ (done answer, after)
  pub same_clock : after.clock ≡ w.clock
  pub same_trace : after.trace ≡ w.trace
  pub holds : Q answer after

module _ {S C : Type 0} (cost : C → ℕ) where
  -- What one run from `w` has come to.
  pub record Gave {A : Type 0} (Q : A → Type 0) (k : ℕ) (w : World S C) (r : Outcome A × World S C)
      : Type 0 where
    pub answer : A
    pub is_done : r.0 ≡ done answer
    pub holds : Q answer
    pub soon : r.1.clock ≤ w.clock + k
    pub free : total cost r.1.trace ≡ total cost w.trace

  -- `m`, run from `w`, gives an answer of which `Q` holds within `k`, if it is not dropped before.
  pub record Gives {A : Type 0} (Q : A → Type 0) (k : ℕ) (m : Async S C A) (w : World S C)
      : Type 0 where
    pub gives : (cutoff : Option ℕ) → Leaves cutoff (w.clock + k) → Gave Q k w (m cutoff w)

module _ {S C : Type 0} {cost : C → ℕ} where
  pub Gives-pure :
      {A : Type 0} (Q : A → Type 0) (a : A) (w : World S C) → Q a → Gives cost Q 0 (pure a) w
  Gives-pure Q a w q = record {
    gives = λ cutoff l. record {
      answer = a;
      is_done = refl;
      holds = q;
      soon = omega arith;
      free = refl;
    };
  }

  pub Gives-le :
      {A : Type 0} {Q : A → Type 0} (j k : ℕ) (m : Async S C A) (w : World S C)
      → j ≤ k
      → Gives cost Q j m w
      → Gives cost Q k m w
  Gives-le j k m w h g = record {
    gives = λ cutoff l.
        let r = g.gives cutoff (Leaves-le cutoff (w.clock + j) (w.clock + k) (omega arith) l) in
        record {
          answer = r.answer;
          is_done = r.is_done;
          holds = r.holds;
          soon = omega (arith, r.soon);
          free = r.free;
        };
  }

  pub Gives-bind :
      {A B : Type 0} (Q : A → Type 0) (R : B → Type 0) (j k : ℕ) (m : Async S C A)
      (f : A → Async S C B) (w : World S C)
      → Gives cost Q j m w
      → ((a : A) (v : World S C) → Q a → Gives cost R k (f a) v)
      → Gives cost R (j + k) (m >>= f) w
  Gives-bind {A} {B} Q R j k m f w g h = record {
    gives = λ cutoff l.
        go cutoff l (m cutoff w)
          (g.gives cutoff (Leaves-le cutoff (w.clock + j) (w.clock + (j + k)) (omega arith) l));
  }
    where
      go :
          (cutoff : Option ℕ)
          → Leaves cutoff (w.clock + (j + k))
          → (r : Outcome A × World S C) → Gave cost Q j w r
          → Gave cost R (j + k) w (proceed cutoff f r.0 r.1)
      go cutoff l (o, v) r =
          let s =
            (h r.answer v r.holds).gives cutoff
              (Leaves-le cutoff (v.clock + k) (w.clock + (j + k)) (omega (arith, r.soon)) l) in
          subst (λ x. Gave cost R (j + k) w (proceed cutoff f x v)) (sym r.is_done)
            (record {
              answer = s.answer;
              is_done = s.is_done;
              holds = s.holds;
              soon = omega (arith, s.soon, r.soon);
              free = s.free ∙ r.free;
            })

  pub Gives-after :
      {A B : Type 0} (Q : A → World S C → Type 0) (R : B → Type 0) (k : ℕ) (m : Async S C A)
      (f : A → Async S C B) (w : World S C)
      → Certain Q m w
      → ((a : A) (v : World S C) → Q a v → Gives cost R k (f a) v)
      → Gives cost R k (m >>= f) w
  Gives-after Q R k m f w c g = record {
    gives = λ cutoff l.
        let s = (g c.answer c.after c.holds).gives cutoff (rw c.same_clock l) in
        subst (λ x. Gave cost R k w (proceed cutoff f x.0 x.1)) (sym (c.gives cutoff))
          (record {
            answer = s.answer;
            is_done = s.is_done;
            holds = s.holds;
            soon = omega (arith, s.soon, c.same_clock);
            free = s.free ∙ ap (total cost) c.same_trace;
          });
  }

  pub Gives-await :
      {A : Type 0} (Q : A → Type 0) (k : ℕ) (others : List C → S → S) (call : C)
      (ask : List C → Future A) (w : World S C)
      → cost call ≡ 0
      → Ready Q k (ask w.trace)
      → Gives cost Q k (await others call ask) w
  unfolding await wait
  Gives-await Q k others call ask w c r = record {
    gives = λ cutoff l.
        let reached =
          reaches-Leaves cutoff (w.clock + r.after)
            (Leaves-le cutoff (w.clock + r.after) (w.clock + k) (omega (arith, r.after_le)) l) in
        rw (r.delay_is) (
          rw reached (record {
            answer = (ask w.trace).value;
            is_done = refl;
            holds = r.value_holds;
            soon = omega (arith, r.after_le);
            free = omega arith;
          }));
  }

  deadline-Gave :
      {A : Type 0} (Q : A → Type 0) (k : ℕ) (w : World S C) (r : Outcome A × World S C)
      → Gave cost Q k w r
      → Gave cost (InTime Q) k w (at_deadline r.0, r.1)
  deadline-Gave Q k w (o, v) r = record {
    answer = some r.answer;
    is_done = ap at_deadline r.is_done;
    holds = r.holds;
    soon = r.soon;
    free = r.free;
  }

  cutoff-Gave :
      {A : Type 0} (Q : A → Type 0) (k : ℕ) (w : World S C) (r : Outcome A × World S C)
      → Gave cost Q k w r
      → Gave cost (InTime Q) k w (at_cutoff r.0, r.1)
  cutoff-Gave Q k w (o, v) r = record {
    answer = some r.answer;
    is_done = ap at_cutoff r.is_done;
    holds = r.holds;
    soon = r.soon;
    free = r.free;
  }

  pub Gives-timeout :
      {A : Type 0} (Q : A → Type 0) (k d : ℕ) (timer : Timer S C) (m : Async S C A) (w : World S C)
      → IsTimer timer
      → k ≤ d
      → Gives cost Q k m w
      → Gives cost (InTime Q) k (timer.timeout d m) w
  Gives-timeout Q k d timer m w law h g = record {
    gives = λ cutoff l. rw law.timeout_lem (elim (Bool-cases (reaches cutoff (w.clock + d))) [
      | inl e ↦ rw e (deadline-Gave Q k w _ (g.gives (some (w.clock + d)) (omega arith)))
      | inr e ↦ rw e (cutoff-Gave Q k w _ (g.gives cutoff l))
    ]);
  }
