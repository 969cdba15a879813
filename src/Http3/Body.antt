-- ===== src/Http3/Body.antt =====
-- src/http3.rs: `H3ResponseBody`, the body of an HTTP/3 response as it is polled and dropped. The
-- request stream of h3 is a parameter: it makes a future that receives the next chunk, and polling
-- that future leaves it pending, or gives the stream back with the result. The sender that the source
-- keeps beside the stream, so that the connection stays open, is part of it.
pub mod Frames
use mechanics_http_client.Prelude.{
  ℕ, zero, suc, Bool, true, false, Option, none, some, Run, returns, out_of_fuel,
}
use mechanics_http_client.Text.{Text}
use mechanics_http_client.Error.{Error, cancelled}
use mechanics_http_client.Http.{Fallible, success, failure, data_frame, Polled, frame, failed}

-- `Poll` of the future of `recv_data`.
pub data RecvPoll (S F : Type 0) : Type 0 where
  waiting : F → RecvPoll S F
  gave : S → Fallible (Option Text) → RecvPoll S F

pub record RequestStream (S F : Type 0) : Type 0 where
  pub recv_data : S → F
  pub poll : F → RecvPoll S F

-- `H3ResponseBodyState`
pub data H3ResponseBodyState (S F : Type 0) : Type 0 where
  ready : Option S → H3ResponseBodyState S F
  reading : F → H3ResponseBodyState S F
  over : H3ResponseBodyState S F

-- `Poll<Option<Result<Frame, Error>>>`
pub data PollFrame : Type 0 where
  pending : PollFrame
  item : Polled Error → PollFrame
  finished : PollFrame

module _ {S F : Type 0} where
  -- `H3ResponseBody::new`
  abbrev pub new : S → H3ResponseBodyState S F
  new stream = ready (some stream)

  -- `Drop::drop`: whether the request stream is cancelled.
  unfoldable pub cancels : H3ResponseBodyState S F → Bool
  cancels (ready (some stream)) = true
  cancels _ = false

  -- The match on what the future gave.
  unfoldable pub on_result : RecvPoll S F → PollFrame × H3ResponseBodyState S F
  on_result (waiting future) = (pending, reading future)
  on_result (gave stream (success (some bytes))) =
      (item (frame (data_frame bytes)), ready (some stream))
  on_result (gave stream (success none)) = (finished, over)
  on_result (gave stream (failure e)) = (item (failed (cancelled e)), over)

  -- The loop of `poll_frame`.
  unfoldable pub poll_loop :
      RequestStream S F → ℕ → H3ResponseBodyState S F → Run (PollFrame × H3ResponseBodyState S F)
  unfolding on_result
  poll_loop h3 zero state = out_of_fuel
  poll_loop h3 (suc fuel) (ready none) = poll_loop h3 fuel over
  poll_loop h3 (suc fuel) (ready (some stream)) = poll_loop h3 fuel (reading (h3.recv_data stream))
  poll_loop h3 (suc fuel) (reading future) = returns (on_result (h3.poll future))
  poll_loop h3 (suc fuel) over = returns (finished, over)

  -- `poll_frame`
  unfoldable pub poll_frame :
      RequestStream S F → H3ResponseBodyState S F → Run (PollFrame × H3ResponseBodyState S F)
  unfolding poll_loop
  poll_frame h3 = poll_loop h3 2
