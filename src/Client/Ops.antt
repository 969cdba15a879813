-- ===== src/Client/Ops.antt =====
-- Chains of calls on a client builder, and what they ask for, call by call.
use mechanics_http_client.Prelude.{ℕ, Bool, Option, none, some, List, [], ◌∷◌, ◌++◌, or}
use mechanics_http_client.Text.{Text, codes}
use mechanics_http_client.Error.{Error, invalid_header}
use mechanics_http_client.Http.{Http}
use mechanics_http_client.Client.{
  ClientBuilder, timeout, pool_max_idle_per_host, pool_idle_timeout, user_agent, default_headers,
  http3, http3_negative_cache_duration, default_header,
}

-- A call, with the values that the caller's conversions gave.
pub data ClientOp (M : Type 0) : Type 0 where
  timeout_op : ℕ → ClientOp M
  pool_max_idle_per_host_op : ℕ → ClientOp M
  pool_idle_timeout_op : ℕ → ClientOp M
  user_agent_op : Option Text → ClientOp M
  default_headers_op : M → ClientOp M
  default_header_op : Option Text → Option Text → ClientOp M
  http3_op : Bool → ClientOp M
  negative_op : ℕ → ClientOp M

module _ {M : Type 0} where
  abbrev pub rejected : ClientOp M → Option Error
  rejected (user_agent_op none) = some (invalid_header (codes "User-Agent value rejected"))
  rejected (default_header_op none value) =
      some (invalid_header (codes "default header name rejected"))
  rejected (default_header_op (some name) none) =
      some (invalid_header (codes "default header `" ++ (name ++ codes "` value rejected")))
  rejected _ = none

  abbrev pub first_rejected : List (ClientOp M) → Option Error
  first_rejected [] = none
  first_rejected (op ∷ ops) = or (rejected op) (first_rejected ops)

  -- What one call sets.
  abbrev pub sets_timeout : ClientOp M → Option ℕ
  sets_timeout (timeout_op d) = some d
  sets_timeout _ = none

  abbrev pub sets_http3 : ClientOp M → Option Bool
  sets_http3 (http3_op enabled) = some enabled
  sets_http3 _ = none

  abbrev pub sets_negative : ClientOp M → Option ℕ
  sets_negative (negative_op d) = some d
  sets_negative _ = none

  abbrev pub sets_user_agent : ClientOp M → Option Text
  sets_user_agent (user_agent_op ua) = ua
  sets_user_agent _ = none

  -- The last call that sets a value wins.
  abbrev pub last_set : {A : Type 0} → (ClientOp M → Option A) → List (ClientOp M) → Option A
  last_set sets [] = none
  last_set sets (op ∷ ops) = or (last_set sets ops) (sets op)

module _ {M : Type 0} (http : Http M) where
  abbrev pub apply : ClientOp M → ClientBuilder M → ClientBuilder M
  apply (timeout_op d) b = timeout d b
  apply (pool_max_idle_per_host_op n) b = pool_max_idle_per_host n b
  apply (pool_idle_timeout_op d) b = pool_idle_timeout d b
  apply (user_agent_op ua) b = user_agent ua b
  apply (default_headers_op headers) b = default_headers headers b
  apply (default_header_op name value) b = default_header http name value b
  apply (http3_op enabled) b = http3 enabled b
  apply (negative_op d) b = http3_negative_cache_duration d b

  abbrev pub chain : List (ClientOp M) → ClientBuilder M → ClientBuilder M
  chain [] b = b
  chain (op ∷ ops) b = chain ops (apply op b)
