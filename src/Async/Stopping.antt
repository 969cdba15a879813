-- ===== src/Async/Stopping.antt =====
-- Computations that are over at their timeout, whatever they wait for.
use mechanics_http_client.Prelude.{
  ℕ, ◌+◌, ◌≤◌, ◌≡◌, ◌≢◌, refl, Option, none, some, List, [], ◌∷◌, arith, leb, Bool-cases, inl, inr,
}
use mechanics_http_client.Async.{
  Async, Future, Outcome, done, cut, hangs, panicked, World, Timer, IsTimer, pure, proceed, ◌>>=◌,
  never, wait, await, at_deadline,
}
use mechanics_http_client.Async.Giving.{Gave, Gives, reaches-Leaves}
use mechanics_http_client.Async.Spends.{total}
use mechanics_http_client.Async.Sync.{Sync}

abbrev pub Anything : {A : Type 0} → A → Type 0
Anything a = Unit

-- Calls are not counted here.
abbrev pub no_cost : {C : Type 0} → C → ℕ
no_cost c = 0

pub quiet : {C : Type 0} (calls others : List C) → total no_cost calls ≡ total no_cost others
quiet [] [] = refl
quiet [] (c ∷ others) = omega (arith, quiet [] others)
quiet (c ∷ calls) others = omega (arith, quiet calls others)

module _ {S C : Type 0} (timer : Timer S C) (law : IsTimer timer) where
  -- A future that never is ready is given up at the timeout.
  pub late-Gives :
      {A : Type 0} (others : List C → S → S) (call : C) (ask : List C → Future A) (d : ℕ)
      (w : World S C)
      → (ask w.trace).delay ≡ none
      → Gives no_cost (λ r. r ≡ none) d (timer.timeout d (await others call ask)) w
  unfolding await wait never
  late-Gives others call ask d w late = record {
    gives = λ cutoff l.
        rw (law.timeout_lem, reaches-Leaves cutoff (w.clock + d) l, late)
          (record {
            answer = none;
            is_done = refl;
            holds = refl;
            soon = ground arith;
            free = omega arith;
          });
  }

  -- A computation that, dropped at any instant, returns or is cut by then.
  abbrev pub Stops : {A : Type 0} → ℕ → World S C → Outcome A × World S C → Type 0
  Stops t w r = (r.0 ≢ hangs) × (r.0 ≢ panicked) × (r.1.clock ≤ t)

  -- It is over at its timeout.
  any_timeout-Gives :
      {A : Type 0} (d : ℕ) (m : Async S C A) (w : World S C)
      → Stops (w.clock + d) w (m (some (w.clock + d)) w)
      → Gives no_cost Anything d (timer.timeout d m) w
  any_timeout-Gives {A} d m w stops = record {
    gives = λ cutoff l.
        rw (law.timeout_lem, reaches-Leaves cutoff (w.clock + d) l)
          (over (m (some (w.clock + d)) w) stops);
  }
    where
      over :
          (r : Outcome A × World S C)
          → Stops (w.clock + d) w r
          → Gave no_cost (Anything {A = Option A}) d w (at_deadline r.0, r.1)
      over (done a, v) (h, k, l) = record {
        answer = some a;
        is_done = refl;
        holds = tt;
        soon = l;
        free = quiet v.trace w.trace;
      }
      over (cut, v) (h, k, l) = record {
        answer = none;
        is_done = refl;
        holds = tt;
        soon = l;
        free = quiet v.trace w.trace;
      }
      over (hangs, v) (h, k, l) = absurd (h refl)
      over (panicked, v) (h, k, l) = absurd (k refl)

  pub await-Stops :
      {A : Type 0} (others : List C → S → S) (call : C) (ask : List C → Future A) (t : ℕ)
      (w : World S C)
      → w.clock ≤ t
      → Stops t w (await others call ask (some t) w)
  unfolding await wait never
  await-Stops others call ask t w h = by_delay (ask w.trace).delay
    where
      by_delay :
          (delay : Option ℕ)
          → Stops t w (
              wait
                (some t)
                delay
                (ask w.trace).value
                (record w { shared = others w.trace w.shared; trace = call ∷ w.trace }))
      by_delay none = ((λ e. cc), (λ e. cc), ground (arith, h))
      by_delay (some e) = elim (Bool-cases (leb (w.clock + e) t)) [
        | inl early ↦ rw early ((λ x. cc), (λ x. cc), ground (arith, early))
        | inr late ↦ rw late ((λ x. cc), (λ x. cc), ground (arith, h))
      ]

  pub any_call-Gives :
      {A : Type 0} (others : List C → S → S) (call : C) (ask : List C → Future A) (d : ℕ)
      (w : World S C)
      → Gives no_cost Anything d (timer.timeout d (await others call ask)) w
  any_call-Gives others call ask d w =
      any_timeout-Gives d (await others call ask) w
        (await-Stops others call ask (w.clock + d) w (omega arith))

  pub any_mapped_call-Gives :
      {A B : Type 0} (others : List C → S → S) (call : C) (ask : List C → Future A) (f : A → B)
      (d : ℕ) (w : World S C)
      → Gives no_cost Anything d (timer.timeout d (await others call ask >>= λ a. pure (f a))) w
  any_mapped_call-Gives {A} {B} others call ask f d w = any_timeout-Gives d _ w (
      mapped (await others call ask (some (w.clock + d)) w)
        (await-Stops others call ask (w.clock + d) w (omega arith)))
    where
      mapped :
          (r : Outcome A × World S C)
          → Stops (w.clock + d) w r
          → Stops (w.clock + d) w (proceed (some (w.clock + d)) (λ a. pure (f a)) r.0 r.1)
      mapped (done a, v) (h, k, l) = ((λ x. cc), (λ x. cc), l)
      mapped (cut, v) (h, k, l) = ((λ x. cc), (λ x. cc), l)
      mapped (hangs, v) (h, k, l) = absurd (h refl)
      mapped (panicked, v) (h, k, l) = absurd (k refl)

-- The code between two awaits gives something at once, if it does not panic.
pub Sync-Gives :
    {S C A : Type 0} (m : Async S C A) (w : World S C)
    → Sync m
    → ((cutoff : Option ℕ) → (m cutoff w).0 ≢ panicked)
    → Gives no_cost Anything 0 m w
Sync-Gives {S} {C} {A} m w sync calm = record {
  gives = λ cutoff l.
      go (m cutoff w) (sync.ends cutoff w) (sync.uncut cutoff w) (calm cutoff)
        (sync.same_clock cutoff w);
}
  where
    go :
        (r : Outcome A × World S C)
        → r.0 ≢ hangs
        → r.0 ≢ cut
        → r.0 ≢ panicked
        → r.1.clock ≡ w.clock
        → Gave no_cost (Anything {A = A}) 0 w r
    go (done a, v) h k p c = record {
      answer = a;
      is_done = refl;
      holds = tt;
      soon = omega (arith, c);
      free = quiet v.trace w.trace;
    }
    go (cut, v) h k p c = absurd (k refl)
    go (hangs, v) h k p c = absurd (h refl)
    go (panicked, v) h k p c = absurd (p refl)
