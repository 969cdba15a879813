-- ===== src/Steps/Sending.antt =====
-- `send` and the requests that a client runs at the same time, as steps of its shared state.
use mechanics_http_client.Prelude.{ℕ, ◌+◌, ◌≡◌, Option, none, some, List, [], ◌∷◌}
use mechanics_http_client.Error.{ok}
use mechanics_http_client.Origin.{Origin, Uri, from_uri}
use mechanics_http_client.Async.{
  Async, Future, World, Outcome, done, cut, hangs, panicked, Timer, IsTimer, ◌>>=◌, await, proceed,
  now, reaches, never, wait,
}
use mechanics_http_client.Http.{Call, ClientInner, Http, Network, Shared}
use mechanics_http_client.Request.Builder.{RequestBuilder}
use mechanics_http_client.Request.Fallback.{
  Settings, Guard, arm, disarm, drop_guard, guarded, leave,
}
use mechanics_http_client.Request.Send.{settings, send}
use mechanics_http_client.Request.Walk.{Rules, Any}
use mechanics_http_client.Request.Walk.Sending.{send-walk}
use mechanics_http_client.Steps.{Steps, here, Steps-trans}
use mechanics_http_client.Steps.Invariants.{IsApart, Keeps, Keeps-refl, Keeps-trans, Steps-Keeps}
use mechanics_http_client.Steps.Sections.{
  Moves, insert_negative-Moves, negative_cache_hit-Moves, alt_svc_entry-Moves, store_lookup-Moves,
  cached_entry-Moves, maybe_update_alt_svc-Moves, endpoint-Moves, connecting-Moves, if-Steps,
}

-- Other tasks of the client change the shared state by steps for these origins.
abbrev pub OthersMove : {M : Type 0} → (Origin → Type 0) → Network M → Type 0
OthersMove {M} IsMine net =
    (calls : List (Call M)) (s : Shared) → Steps IsMine s (net.others calls s)

module _ {C : Type 0} (IsMine : Origin → Type 0) where
  proceed-Steps :
      {A B : Type 0} (f : A → Async Shared C B) (cutoff : Option ℕ) (o : Outcome A)
      (w : World Shared C)
      → ((a : A) → Moves IsMine (f a))
      → Steps IsMine w.shared (proceed cutoff f o w).1.shared
  proceed-Steps f cutoff (done a) w h = (h a).moves cutoff w
  proceed-Steps f cutoff cut w h = here
  proceed-Steps f cutoff hangs w h = here
  proceed-Steps f cutoff panicked w h = here

  Moves-bind :
      {A B : Type 0} (m : Async Shared C A) (f : A → Async Shared C B)
      → Moves IsMine m
      → ((a : A) → Moves IsMine (f a))
      → Moves IsMine (m >>= f)
  Moves-bind m f h k = record {
    moves = λ cutoff w.
        Steps-trans (h.moves cutoff w) (proceed-Steps f cutoff (m cutoff w).0 (m cutoff w).1 k);
  }

  never-Steps :
      (A : Type 0) (cutoff : Option ℕ) (w : World Shared C)
      → Steps IsMine w.shared (never {A = A} cutoff w).1.shared
  unfolding never
  never-Steps A none w = here
  never-Steps A (some cutoff) w = here

  wait-Steps :
      {A : Type 0} (cutoff delay : Option ℕ) (value : A) (w : World Shared C)
      → Steps IsMine w.shared (wait cutoff delay value w).1.shared
  unfolding wait
  wait-Steps cutoff none value w = never-Steps _ cutoff w
  wait-Steps cutoff (some d) value w =
      if-Steps (reaches cutoff (w.clock + d)) _ _ here (never-Steps _ cutoff w)

  Moves-await :
      {A : Type 0} (others : List C → Shared → Shared) (call : C) (ask : List C → Future A)
      → ((calls : List C) (s : Shared) → Steps IsMine s (others calls s))
      → Moves IsMine (await others call ask)
  unfolding await
  Moves-await others call ask h = record {
    moves = λ cutoff w.
        Steps-trans (h w.trace w.shared)
          (wait-Steps cutoff (ask w.trace).delay (ask w.trace).value _);
  }

  Moves-timeout :
      {A : Type 0} (timer : Timer Shared C) (d : ℕ) (m : Async Shared C A)
      → IsTimer timer
      → Moves IsMine m
      → Moves IsMine (timer.timeout d m)
  Moves-timeout timer d m law h = record {
    moves = λ cutoff w. rw law.timeout_lem (
        if-Steps (reaches cutoff (w.clock + d)) _ _ (h.moves (some (w.clock + d)) w)
          (h.moves cutoff w));
  }

module _ {C : Type 0} (s : Settings) (IsMine : Origin → Type 0) where
  drop_guard-Steps :
      (guard : Guard) (cutoff : Option ℕ) (w : World Shared C)
      → IsMine guard.origin
      → Steps IsMine w.shared (drop_guard s guard cutoff w).1.shared
  unfolding drop_guard
  drop_guard-Steps guard cutoff w i =
      if-Steps guard.armed _ _
        ((insert_negative-Moves IsMine s.horizon s.negative_duration guard.origin w.clock i).moves
          cutoff w)
        here

  leave-Steps :
      {A : Type 0} (guard : Guard) (cutoff : Option ℕ) (o : Outcome A) (w : World Shared C)
      → IsMine guard.origin
      → Steps IsMine w.shared (leave s guard cutoff o w).1.shared
  leave-Steps guard cutoff (done a) w i = drop_guard-Steps (disarm guard) cutoff w i
  leave-Steps guard cutoff cut w i = drop_guard-Steps guard cutoff w i
  leave-Steps guard cutoff hangs w i = here
  leave-Steps guard cutoff panicked w i = drop_guard-Steps guard cutoff w i

  guarded-Moves :
      {A : Type 0} (origin : Origin) (m : Async Shared C A)
      → IsMine origin
      → Moves IsMine m
      → Moves IsMine (guarded s origin m)
  unfolding guarded
  guarded-Moves origin m i h = record {
    moves = λ cutoff w.
        Steps-trans (h.moves cutoff w)
          (leave-Steps (arm origin) cutoff (m cutoff w).0 (m cutoff w).1 i);
  }

module _ {M : Type 0} (net : Network M) (timer : Timer Shared (Call M)) (law : IsTimer timer)
    (s : Settings) (IsMine : Origin → Type 0) (others : OthersMove IsMine net) where
  Moves-Rules : Rules net timer s IsMine Any (λ A m. Moves IsMine m)
  Moves-Rules = record {
    on_pure = λ a. record { moves = λ cutoff w. here };
    on_now = λ f h. Moves-bind IsMine now f (record { moves = λ cutoff w. here }) (λ t. h t tt);
    on_bind = Moves-bind IsMine;
    on_await = λ call ask. Moves-await IsMine net.others call ask others;
    on_timeout = λ d m. Moves-timeout IsMine timer d m law;
    on_guarded = λ origin m i. guarded-Moves s IsMine origin m i;
    on_insert_negative =
        λ origin t i p. insert_negative-Moves IsMine s.horizon s.negative_duration origin t i;
    on_negative_cache_hit = λ origin t i p. negative_cache_hit-Moves IsMine origin t i;
    on_alt_svc_entry = λ origin t i p. alt_svc_entry-Moves IsMine origin t i;
    on_cached_entry = λ origin t i p. cached_entry-Moves IsMine origin t i;
    on_store_lookup = λ origin r i. store_lookup-Moves IsMine origin r i;
    on_endpoint = endpoint-Moves net timer IsMine;
    on_connecting = connecting-Moves net timer IsMine;
  }

module _ {M : Type 0} (http : Http M) (net : Network M) (timer : Timer Shared (Call M))
    (law : IsTimer timer) (client : ClientInner M) (horizon : ℕ) where
  -- The origins of a request's URL.
  abbrev pub OriginIn : (Origin → Type 0) → RequestBuilder M → Type 0
  OriginIn IsMine b =
      (uri : Uri) → b.uri ≡ ok uri → (origin : Origin) → from_uri uri ≡ some origin → IsMine origin

  send-Steps :
      (IsMine : Origin → Type 0) (b : RequestBuilder M) (cutoff : Option ℕ)
      (w : World Shared (Call M))
      → OthersMove IsMine net
      → OriginIn IsMine b
      → Steps IsMine w.shared (send http net timer client horizon b cutoff w).1.shared
  send-Steps IsMine b cutoff w others mine = m.moves cutoff w
    where
      m : Moves IsMine (send http net timer client horizon b)
      m =
          send-walk http client horizon
            (Moves-Rules net timer law (settings http net timer client horizon) IsMine others) b
            mine
            (λ uri response e.
              maybe_update_alt_svc-Moves http horizon IsMine uri response (mine uri e))
            (λ uri u full. record { moves = λ cutoff w. here })

  -- Requests one after another, each until it ends or is dropped.
  unfoldable pub send_all :
      List (RequestBuilder M × Option ℕ) → World Shared (Call M) → World Shared (Call M)
  send_all [] w = w
  send_all ((b, cutoff) ∷ requests) w =
      send_all requests (send http net timer client horizon b cutoff w).1

  abbrev pub OriginsIn : (Origin → Type 0) → List (RequestBuilder M × Option ℕ) → Type 0
  OriginsIn IsMine [] = Unit
  OriginsIn IsMine ((b, cutoff) ∷ requests) = OriginIn IsMine b × OriginsIn IsMine requests

  -- With a timer that does what is documented: any number of requests to some origins, one after
  -- another and whether each ends or is dropped, while other tasks take steps for the same origins,
  -- keep what the three caches hold for every other origin. They never replace an endpoint, nor
  -- poison a lock but that of the negative cache.
  pub send_all-Keeps :
      (IsMine : Origin → Type 0) (k : Origin) (requests : List (RequestBuilder M × Option ℕ))
      (w : World Shared (Call M))
      → OthersMove IsMine net
      → OriginsIn IsMine requests
      → IsApart IsMine k
      → Keeps k w.shared (send_all requests w).shared
  unfolding send_all
  send_all-Keeps IsMine k [] w others mine apart = Keeps-refl k w.shared
  send_all-Keeps IsMine k ((b, cutoff) ∷ requests) w others mine apart =
      let v = (send http net timer client horizon b cutoff w).1 in
      Keeps-trans k w.shared v.shared (send_all requests v).shared
        (Steps-Keeps {s = w.shared} {t = v.shared} k apart
          (send-Steps IsMine b cutoff w others mine.0))
        (send_all-Keeps IsMine k requests v others mine.1 apart)
