-- ===== src/Http3/Body/Frames.antt =====
-- What polling the body of an HTTP/3 response to its end comes to.
use mechanics_http_client.Prelude.{
  ℕ, zero, suc, ◌≡◌, refl, ap, ◌∙◌, Bool, true, false, none, some, List, [], ◌∷◌, Run, returns,
  ◌>>=◌,
}
use mechanics_http_client.Text.{Text}
use mechanics_http_client.Error.{Error, cancelled}
use mechanics_http_client.Http.{success, failure, data_frame, Polled, frame, failed}
use mechanics_http_client.Http3.Body.{
  RecvPoll, waiting, gave, RequestStream, H3ResponseBodyState, ready, reading, over, PollFrame,
  pending, item, finished, new, cancels, on_result, poll_frame,
}

module _ {S F : Type 0} (h3 : RequestStream S F) where
  -- What a stream still gives, from a future of it on: the chunks and how they end.
  pub data Gives : F → List (Polled Error) → Type 0 where
    later : {f f' : F} {l : List (Polled Error)} → h3.poll f ≡ waiting f' → Gives f' l → Gives f l
    chunk :
        {f : F} {s : S} {bytes : Text} {l : List (Polled Error)}
        → h3.poll f ≡ gave s (success (some bytes))
        → Gives (h3.recv_data s) l
        → Gives f (frame (data_frame bytes) ∷ l)
    end : {f : F} {s : S} → h3.poll f ≡ gave s (success none) → Gives f []
    broken :
        {f : F} {s : S} {e : Text}
        → h3.poll f ≡ gave s (failure e)
        → Gives f (failed (cancelled e) ∷ [])

  -- What a reader has after `n` polls: the items in order, and the state that is left.
  abbrev pub keep :
      PollFrame
      → List (Polled Error) × H3ResponseBodyState S F
      → List (Polled Error) × H3ResponseBodyState S F
  keep (item i) r = (i ∷ r.0, r.1)
  keep pending r = r
  keep finished r = r

  unfoldable pub polls :
      ℕ → H3ResponseBodyState S F → Run (List (Polled Error) × H3ResponseBodyState S F)
  polls zero state = returns ([], state)
  polls (suc n) state = do
    step ← poll_frame h3 state
    rest ← polls n step.1
    returns (keep step.0 rest)

  poll_frame-over : poll_frame h3 over ≡ returns (finished, over)
  unfolding poll_frame
  poll_frame-over = refl

  -- After the end nothing more comes.
  polls-over : (n : ℕ) → polls n over ≡ returns ([], over)
  unfolding polls
  polls-over zero = refl
  polls-over (suc n) = rw (poll_frame-over, polls-over n) refl

  poll_frame-reading : (f : F) → poll_frame h3 (reading f) ≡ returns (on_result (h3.poll f))
  unfolding poll_frame
  poll_frame-reading f = refl

  poll_frame-ready :
      (s : S) → poll_frame h3 (ready (some s)) ≡ poll_frame h3 (reading (h3.recv_data s))
  unfolding poll_frame
  poll_frame-ready s = refl

  poll_frame-on_result :
      {f : F} {r : RecvPoll S F} → h3.poll f ≡ r → poll_frame h3 (reading f) ≡ returns (on_result r)
  poll_frame-on_result {f} e = poll_frame-reading f ∙ ap (λ r. returns (on_result r)) e

  polls-ready :
      (n : ℕ) (s : S) → polls (suc n) (ready (some s)) ≡ polls (suc n) (reading (h3.recv_data s))
  unfolding polls
  polls-ready n s = rw (poll_frame-ready s) refl

  -- One poll for each chunk, for each time that nothing is there yet, and for the end; `spare` more.
  unfoldable pub polls_for : {f : F} {l : List (Polled Error)} → ℕ → Gives f l → ℕ
  polls_for spare (later e g) = suc (polls_for spare g)
  polls_for spare (chunk e g) = suc (polls_for spare g)
  polls_for spare (end e) = suc spare
  polls_for spare (broken e) = suc spare

  polls_for-suc :
      {f : F} {l : List (Polled Error)} (spare : ℕ) (g : Gives f l)
      → (n : ℕ) × (polls_for spare g ≡ suc n)
  unfolding polls_for
  polls_for-suc spare (later e g) = (polls_for spare g, refl)
  polls_for-suc spare (chunk e g) = (polls_for spare g, refl)
  polls_for-suc spare (end e) = (spare, refl)
  polls_for-suc spare (broken e) = (spare, refl)

  polls-new :
      {s : S} {l : List (Polled Error)} (spare : ℕ) (g : Gives (h3.recv_data s) l)
      → polls (polls_for spare g) (new s) ≡ polls (polls_for spare g) (reading (h3.recv_data s))
  polls-new {s} spare g = let (n, e) = polls_for-suc spare g in rw e (polls-ready n s)

  polls-reading :
      {f : F} {l : List (Polled Error)} (spare : ℕ) (g : Gives f l)
      → polls (polls_for spare g) (reading f) ≡ returns (l, over)
  unfolding polls polls_for on_result
  polls-reading spare (later e g) = rw (poll_frame-on_result e, polls-reading spare g) refl
  polls-reading spare (chunk e g) =
      rw (poll_frame-on_result e, polls-new spare g, polls-reading spare g) refl
  polls-reading spare (end e) = rw (poll_frame-on_result e, polls-over spare) refl
  polls-reading spare (broken e) = rw (poll_frame-on_result e, polls-over spare) refl

  -- Polled as often as its stream needs, or more often, the body of a response gives the chunks of
  -- the stream in order, then its error if it ends in one, and nothing after that.
  pub polls-Gives :
      {s : S} {l : List (Polled Error)} (spare : ℕ) (g : Gives (h3.recv_data s) l)
      → polls (polls_for spare g) (new s) ≡ returns (l, over)
  polls-Gives spare g = polls-new spare g ∙ polls-reading spare g

  abbrev pub is_data : PollFrame → Bool
  is_data (item (frame f)) = true
  is_data _ = false

  cancels-on_result : (r : RecvPoll S F) → cancels (on_result r).1 ≡ is_data (on_result r).0
  unfolding cancels on_result
  cancels-on_result (waiting f) = refl
  cancels-on_result (gave s (success (some bytes))) = refl
  cancels-on_result (gave s (success none)) = refl
  cancels-on_result (gave s (failure e)) = refl

  -- A poll returns from every state, and dropping the body after it cancels the request stream
  -- exactly if the poll gave data: not while a read is pending, and not after the end.
  pub poll_frame-cancels :
      (state : H3ResponseBodyState S F)
      → (step : PollFrame × H3ResponseBodyState S F) × (poll_frame h3 state ≡ returns step)
        × (cancels step.1 ≡ is_data step.0)
  unfolding poll_frame cancels
  poll_frame-cancels (ready none) = ((finished, over), refl, refl)
  poll_frame-cancels (ready (some s)) =
      (on_result (h3.poll (h3.recv_data s)), refl, cancels-on_result _)
  poll_frame-cancels (reading f) = (on_result (h3.poll f), refl, cancels-on_result _)
  poll_frame-cancels over = ((finished, over), refl, refl)
