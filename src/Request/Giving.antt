-- ===== src/Request/Giving.antt =====
-- What the guard of an attempt gives.
use mechanics_http_client.Prelude.{ℕ, refl, sym, subst, Option}
use mechanics_http_client.Origin.{Origin}
use mechanics_http_client.Async.{Async, Outcome, World}
use mechanics_http_client.Async.Giving.{Gave, Gives}
use mechanics_http_client.Http.{Shared}
use mechanics_http_client.Request.Fallback.{Settings, arm, leave, guarded}

module _ {C : Type 0} (settings : Settings) {cost : C → ℕ} where
  -- Disarmed, the guard does nothing.
  pub guarded-Gives :
      {A : Type 0} (Q : A → Type 0) (k : ℕ) (origin : Origin) (m : Async Shared C A)
      (w : World Shared C)
      → Gives cost Q k m w
      → Gives cost Q k (guarded settings origin m) w
  unfolding guarded
  guarded-Gives {A} Q k origin m w g = record {
    gives = λ cutoff l. go cutoff (m cutoff w) (g.gives cutoff l);
  }
    where
      go :
          (cutoff : Option ℕ) (r : Outcome A × World Shared C)
          → Gave cost Q k w r
          → Gave cost Q k w (leave settings (arm origin) cutoff r.0 r.1)
      go cutoff (o, v) r =
          subst (λ x. Gave cost Q k w (leave settings (arm origin) cutoff x v)) (sym r.is_done)
            (record {
              answer = r.answer;
              is_done = refl;
              holds = r.holds;
              soon = r.soon;
              free = r.free;
            })
