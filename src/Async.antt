-- ===== src/Async.antt =====
-- The execution model of the asynchronous code: what `.await`, dropping a future, a panic and a
-- timeout do to the state that the tasks of a client share.
--
-- A computation runs against a world: a clock, the shared state `S`, and the calls that were made
-- to the outside so far. What the outside answers may depend on all of them. A future of the
-- outside is its answer and the time until it is ready, or none if it never is. While it is
-- awaited, other tasks may change the shared state. A computation runs up to a cut-off, the
-- instant at which its owner drops it, if it ever does: then it ends at the call that it waits for.
pub mod Spends
pub mod Sync
pub mod Timing
pub mod Elapsing
pub mod Giving
pub mod Stopping
use mechanics_http_client.Prelude.{
  ℕ, ◌+◌, ◌≡◌, refl, Bool, true, Option, none, some, List, [], ◌∷◌, leb, if◌then◌else◌,
}

pub record Future (A : Type 0) : Type 0 where
  pub delay : Option ℕ
  pub value : A

-- `hangs` is a computation that waits for ever and that nobody drops.
pub data Outcome (A : Type 0) : Type 0 where
  done : A → Outcome A
  cut : Outcome A
  hangs : Outcome A
  panicked : Outcome A

pub record World (S C : Type 0) : Type 0 where
  pub clock : ℕ
  pub shared : S
  pub trace : List C

-- The last argument that is not the world is the cut-off.
abbrev pub Async : Type 0 → Type 0 → Type 0 → Type 0
Async S C A = Option ℕ → World S C → Outcome A × World S C

abbrev pub reaches : Option ℕ → ℕ → Bool
reaches none t = true
reaches (some cutoff) t = leb t cutoff

abbrev later : ℕ → ℕ → ℕ
later a b = if leb a b then b else a

module _ {S C : Type 0} where
  abbrev pub pure : {A : Type 0} → A → Async S C A
  pure a cutoff w = (done a, w)

  abbrev pub panic : {A : Type 0} → Async S C A
  panic cutoff w = (panicked, w)

  abbrev pub proceed :
      {A B : Type 0} → Option ℕ → (A → Async S C B) → Outcome A → World S C → Outcome B × World S C
  proceed cutoff f (done a) w = f a cutoff w
  proceed cutoff f cut w = (cut, w)
  proceed cutoff f hangs w = (hangs, w)
  proceed cutoff f panicked w = (panicked, w)

  infixl 5 ◌>>=◌ ◌>>◌
  abbrev pub ◌>>=◌ : {A B : Type 0} → Async S C A → (A → Async S C B) → Async S C B
  ◌>>=◌ m f cutoff w = let r = m cutoff w in proceed cutoff f r.0 r.1

  abbrev pub ◌>>◌ : {B : Type 0} → Async S C (Unit {0}) → Async S C B → Async S C B
  m >> k = m >>= λ _. k

  -- `Instant::now()`
  abbrev pub now : Async S C ℕ
  now cutoff w = (done w.clock, w)

  -- What dropping the computation at its cut-off comes to, when it waits for a future that is not
  -- ready by then.
  unfoldable pub never : {A : Type 0} → Option ℕ → World S C → Outcome A × World S C
  never none w = (hangs, w)
  never (some cutoff) w = (cut, record w { clock = later w.clock cutoff })

  unfoldable pub wait : {A : Type 0} → Option ℕ → Option ℕ → A → World S C → Outcome A × World S C
  unfolding never
  wait cutoff none value w = never cutoff w
  wait cutoff (some d) value w =
      if reaches cutoff (w.clock + d)
      then (done value, record w { clock = w.clock + d })
      else never cutoff w

  -- A call to the outside, awaited; `others` is what other tasks do to the shared state meanwhile.
  unfoldable pub await : {A : Type 0} → (List C → S → S) → C → (List C → Future A) → Async S C A
  unfolding wait
  await others call ask cutoff w =
      let future = ask w.trace in
      wait cutoff future.delay future.value
        (record w { shared = others w.trace w.shared; trace = call ∷ w.trace })

-- `tokio::time::timeout`, which is not part of the sources: `none` stands for `Err(Elapsed)`.
pub record Timer (S C : Type 0) : Type 1 where
  pub timeout : {A : Type 0} → ℕ → Async S C A → Async S C (Option A)

-- What a timeout makes of the outcome of the future inside: by its own deadline, and by the
-- cut-off of its owner.
abbrev pub at_deadline : {A : Type 0} → Outcome A → Outcome (Option A)
at_deadline (done a) = done (some a)
at_deadline cut = done none
at_deadline hangs = hangs
at_deadline panicked = panicked

abbrev pub at_cutoff : {A : Type 0} → Outcome A → Outcome (Option A)
at_cutoff (done a) = done (some a)
at_cutoff cut = cut
at_cutoff hangs = hangs
at_cutoff panicked = panicked

-- The documented behaviour: a future that completes before the deadline gives its value; otherwise
-- it is dropped at the deadline and the result is `Err(Elapsed)`. If the owner's cut-off comes
-- first, the future is dropped with its owner.
abbrev pub within : {S C A : Type 0} → ℕ → Async S C A → Async S C (Option A)
within d m cutoff w =
    let deadline = w.clock + d in
    let own = m (some deadline) w in
    let owner = m cutoff w in
    if reaches cutoff deadline then (at_deadline own.0, own.1) else (at_cutoff owner.0, owner.1)

pub record IsTimer {S C : Type 0} (t : Timer S C) : Type 1 where
  pub timeout_lem :
      {A : Type 0} (d : ℕ) (m : Async S C A) (cutoff : Option ℕ) (w : World S C)
      → t.timeout d m cutoff w ≡ within d m cutoff w

-- A timer that does what is documented.
abbrev pub timer : {S C : Type 0} → Timer S C
timer = record { timeout = within }

pub timer-IsTimer : {S C : Type 0} → IsTimer (timer {S = S} {C = C})
timer-IsTimer = record { timeout_lem = λ d m cutoff w. refl }
