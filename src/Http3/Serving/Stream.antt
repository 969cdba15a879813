-- ===== src/Http3/Serving/Stream.antt =====
-- The stream of an attempt, step by step: each within its limit, and no call that costs.
use mechanics_http_client.Prelude.{ℕ, ◌+◌, ◌≡◌, false, Option, none, some, List, arith}
use mechanics_http_client.Text.{Text}
use mechanics_http_client.Origin.{Origin}
use mechanics_http_client.Async.{Future, World, Timer, IsTimer, pure, await}
use mechanics_http_client.Async.Giving.{
  Gives, Ready, InTime, Gives-pure, Gives-le, Gives-bind, Gives-await,
}
use mechanics_http_client.Http.{
  Fallible, success, failure, IpAddr, Parts, Response, Call, send_request, send_data, finish,
  recv_response, Shared, Network,
}
use mechanics_http_client.Http3.{
  H3, Attempt, accepted, refused, try, sender_of, opened, phase_result, received,
  h3_stream_open_timeout, h3_stream_upload_timeout, h3_stream_phase, upload, receive, finish_upload,
  send_body, open_stream, request,
}
use mechanics_http_client.Http3.Effects.{Requests}
use mechanics_http_client.Http3.Serving.{IsSuccess, IsAccepted, Responds, Serves, h3_request_time}
use mechanics_http_client.Http3.Serving.Phases.{bounded, connection_time, connection-Gives}

-- The response was accepted.
abbrev pub Accepts : {M : Type 0} → Response M → Attempt (Response M) → Type 0
Accepts response (accepted r) = r ≡ response
Accepts response (refused e) = ⊥

module _ {M : Type 0} (net : Network M) (timer : Timer Shared (Call M)) (law : IsTimer timer)
    {cost : Call M → ℕ} (free : Requests cost 0) (response : Response M) (wait : ℕ)
    (serves : Serves net response wait) where
  try-Gives :
      {A B : Type 0} (Q : Attempt B → Type 0) (k : ℕ) (r : Attempt A) (f : A → H3 M (Attempt B))
      (w : World Shared (Call M))
      → IsAccepted r
      → ((a : A) → Gives cost Q k (f a) w)
      → Gives cost Q k (try r f) w
  try-Gives Q k (accepted a) f w h g = g a
  try-Gives Q k (refused e) f w h g = elim h [ ]

  phase_result-IsAccepted :
      {A : Type 0} (r : Option (Fallible A)) → InTime IsSuccess r → IsAccepted (phase_result r)
  phase_result-IsAccepted none h = h
  phase_result-IsAccepted (some (success a)) h = tt
  phase_result-IsAccepted (some (failure e)) h = h

  opened-IsAccepted : (r : Option (Fallible ℕ)) → InTime IsSuccess r → IsAccepted (opened r)
  opened-IsAccepted none h = h
  opened-IsAccepted (some (success a)) h = tt
  opened-IsAccepted (some (failure e)) h = h

  sender_of-IsAccepted : (r : Fallible ℕ) → IsSuccess r → IsAccepted (sender_of r)
  sender_of-IsAccepted (success a) h = tt
  sender_of-IsAccepted (failure e) h = h

  received-Accepts :
      (r : Fallible (Response M)) → Responds response r → Accepts response (received r)
  received-Accepts (success r) h = h
  received-Accepts (failure e) h = h

  h3_stream_phase-Gives :
      {A : Type 0} (d : ℕ) (call : Call M) (ask : List (Call M) → Future (Fallible A))
      (w : World Shared (Call M))
      → cost call ≡ 0
      → Ready IsSuccess d (ask w.trace)
      → Gives cost IsAccepted (d + 0) (h3_stream_phase net timer d (await net.others call ask)) w
  unfolding h3_stream_phase
  h3_stream_phase-Gives d call ask w c r =
      Gives-bind (InTime IsSuccess) IsAccepted d 0 _ _ w
        (bounded net timer law free response wait serves IsSuccess d call ask w c r)
        (λ x v h. Gives-pure IsAccepted (phase_result x) v (phase_result-IsAccepted x h))

  upload-Gives :
      (stream : ℕ) (body : Option Text) (w : World Shared (Call M))
      → Gives cost IsAccepted (h3_stream_upload_timeout + 0) (upload net timer stream body) w
  upload-Gives stream none w =
      Gives-le 0 _ (pure (accepted tt)) w (omega arith) (Gives-pure IsAccepted (accepted tt) w tt)
  upload-Gives stream (some bytes) w =
      h3_stream_phase-Gives h3_stream_upload_timeout (send_data bytes)
        (λ calls. net.send_data calls stream bytes) w (free.free_data bytes)
        (serves.takes_data w.trace stream bytes)

  receive-Gives :
      (stream : ℕ) (u : Unit) (w : World Shared (Call M))
      → Gives cost (Accepts response) (wait + 0) (receive net timer stream u) w
  unfolding receive
  receive-Gives stream u w =
      Gives-bind (Responds response) (Accepts response) wait 0
        (await net.others recv_response (λ calls. net.recv_response calls stream))
        (λ r. pure (received r)) w
        (Gives-await (Responds response) wait net.others recv_response _ w free.free_response
          (serves.responds w.trace stream))
        (λ r v h. Gives-pure (Accepts response) (received r) v (received-Accepts r h))

  finish_upload-Gives :
      (stream : ℕ) (u : Unit) (w : World Shared (Call M))
      → Gives cost
          (Accepts response)
          (h3_stream_upload_timeout + 0 + (wait + 0))
          (finish_upload net timer stream u)
          w
  unfolding finish_upload
  finish_upload-Gives stream u w =
      Gives-bind IsAccepted (Accepts response) (h3_stream_upload_timeout + 0) (wait + 0) _ _ w
        (h3_stream_phase-Gives h3_stream_upload_timeout finish (λ calls. net.finish calls stream) w
          free.free_finish (serves.takes_end w.trace stream))
        (λ finished v h.
          try-Gives (Accepts response) _ finished (receive net timer stream) v h
            (λ x. receive-Gives stream x v))

  -- What is left once the stream is open.
  abbrev sent_time : ℕ
  sent_time = h3_stream_upload_timeout + 0 + (h3_stream_upload_timeout + 0 + (wait + 0))

  send_body-Gives :
      (body : Option Text) (stream : ℕ) (w : World Shared (Call M))
      → Gives cost (Accepts response) sent_time (send_body net timer body stream) w
  unfolding send_body
  send_body-Gives body stream w =
      Gives-bind IsAccepted (Accepts response) (h3_stream_upload_timeout + 0) _ _ _ w
        (upload-Gives stream body w)
        (λ uploaded v h.
          try-Gives (Accepts response) _ uploaded (finish_upload net timer stream) v h
            (λ x. finish_upload-Gives stream x v))

  open_stream-Gives :
      (parts : Parts M) (body : Option Text) (sender : ℕ) (w : World Shared (Call M))
      → Gives cost
          (Accepts response)
          (h3_stream_open_timeout + sent_time)
          (open_stream net timer parts body sender)
          w
  unfolding open_stream
  open_stream-Gives parts body sender w =
      Gives-bind (InTime IsSuccess) (Accepts response) h3_stream_open_timeout sent_time _ _ w
        (bounded net timer law free response wait serves IsSuccess h3_stream_open_timeout
          (send_request parts) (λ calls. net.send_request calls sender parts) w
          (omega (arith, free.request_cost parts)) (serves.opens w.trace sender parts))
        (λ r v h.
          try-Gives (Accepts response) _ (opened r) (send_body net timer body) v
            (opened-IsAccepted r h) (λ stream. send_body-Gives body stream v))

  -- One attempt gets the response.
  pub request-Gives :
      (target : Origin) (host : Text) (addresses : List IpAddr) (parts : Parts M)
      (body : Option Text) (w : World Shared (Call M))
      → w.shared.endpoint.poisoned ≡ false
      → Gives cost
          (Accepts response)
          (h3_request_time + wait)
          (request net timer target host addresses parts body)
          w
  unfolding request
  request-Gives target host addresses parts body w healthy =
      Gives-le (connection_time + (h3_stream_open_timeout + sent_time)) _ _ w (omega arith) (
        Gives-bind IsSuccess (Accepts response) connection_time _ _ _ w
          (connection-Gives net timer law free response wait serves host target.port addresses w
            healthy)
          (λ r v h.
            try-Gives (Accepts response) _ (sender_of r) (open_stream net timer parts body) v
              (sender_of-IsAccepted r h) (λ sender. open_stream-Gives parts body sender v)))
