-- ===== src/Client/Calls.antt =====
-- What one call on a client builder does to each of its fields.
use mechanics_http_client.Prelude.{◌≡◌, refl, none, some, arith, or, unwrap_or}
use mechanics_http_client.Http.{Http}
use mechanics_http_client.Client.{
  ClientBuilder, timeout, pool_max_idle_per_host, pool_idle_timeout, user_agent, default_headers,
  http3, http3_negative_cache_duration, default_header,
}
use mechanics_http_client.Client.Ops.{
  ClientOp, timeout_op, pool_max_idle_per_host_op, pool_idle_timeout_op, user_agent_op,
  default_headers_op, default_header_op, http3_op, negative_op, rejected, sets_timeout, sets_http3,
  sets_negative, sets_user_agent, apply,
}

module _ {M : Type 0} (http : Http M) where
  pub rejected-apply :
      (op : ClientOp M) (b : ClientBuilder M)
      → (apply http op b).invalid_default_header ≡ or b.invalid_default_header (rejected op)
  unfolding timeout pool_max_idle_per_host pool_idle_timeout user_agent default_headers
      default_header http3 http3_negative_cache_duration
  rejected-apply (timeout_op d) b = ground arith
  rejected-apply (pool_max_idle_per_host_op n) b = ground arith
  rejected-apply (pool_idle_timeout_op d) b = ground arith
  rejected-apply (user_agent_op none) b = refl
  rejected-apply (user_agent_op (some ua)) b = ground arith
  rejected-apply (default_headers_op headers) b = ground arith
  rejected-apply (default_header_op none value) b = refl
  rejected-apply (default_header_op (some name) none) b = refl
  rejected-apply (default_header_op (some name) (some value)) b = ground arith
  rejected-apply (http3_op enabled) b = ground arith
  rejected-apply (negative_op d) b = ground arith

  pub timeout-apply :
      (op : ClientOp M) (b : ClientBuilder M)
      → (apply http op b).timeout ≡ or (sets_timeout op) b.timeout
  unfolding timeout pool_max_idle_per_host pool_idle_timeout user_agent default_headers
      default_header http3 http3_negative_cache_duration
  timeout-apply (timeout_op d) b = refl
  timeout-apply (pool_max_idle_per_host_op n) b = refl
  timeout-apply (pool_idle_timeout_op d) b = refl
  timeout-apply (user_agent_op none) b = refl
  timeout-apply (user_agent_op (some ua)) b = refl
  timeout-apply (default_headers_op headers) b = refl
  timeout-apply (default_header_op none value) b = refl
  timeout-apply (default_header_op (some name) none) b = refl
  timeout-apply (default_header_op (some name) (some value)) b = refl
  timeout-apply (http3_op enabled) b = refl
  timeout-apply (negative_op d) b = refl

  pub negative-apply :
      (op : ClientOp M) (b : ClientBuilder M)
      → (apply http op b).http3_negative_cache_duration
        ≡ or (sets_negative op) b.http3_negative_cache_duration
  unfolding timeout pool_max_idle_per_host pool_idle_timeout user_agent default_headers
      default_header http3 http3_negative_cache_duration
  negative-apply (timeout_op d) b = refl
  negative-apply (pool_max_idle_per_host_op n) b = refl
  negative-apply (pool_idle_timeout_op d) b = refl
  negative-apply (user_agent_op none) b = refl
  negative-apply (user_agent_op (some ua)) b = refl
  negative-apply (default_headers_op headers) b = refl
  negative-apply (default_header_op none value) b = refl
  negative-apply (default_header_op (some name) none) b = refl
  negative-apply (default_header_op (some name) (some value)) b = refl
  negative-apply (http3_op enabled) b = refl
  negative-apply (negative_op d) b = refl

  pub user_agent-apply :
      (op : ClientOp M) (b : ClientBuilder M)
      → (apply http op b).user_agent ≡ or (sets_user_agent op) b.user_agent
  unfolding timeout pool_max_idle_per_host pool_idle_timeout user_agent default_headers
      default_header http3 http3_negative_cache_duration
  user_agent-apply (timeout_op d) b = refl
  user_agent-apply (pool_max_idle_per_host_op n) b = refl
  user_agent-apply (pool_idle_timeout_op d) b = refl
  user_agent-apply (user_agent_op none) b = refl
  user_agent-apply (user_agent_op (some ua)) b = refl
  user_agent-apply (default_headers_op headers) b = refl
  user_agent-apply (default_header_op none value) b = refl
  user_agent-apply (default_header_op (some name) none) b = refl
  user_agent-apply (default_header_op (some name) (some value)) b = refl
  user_agent-apply (http3_op enabled) b = refl
  user_agent-apply (negative_op d) b = refl

  pub http3-apply :
      (op : ClientOp M) (b : ClientBuilder M)
      → (apply http op b).http3_enabled ≡ unwrap_or (sets_http3 op) b.http3_enabled
  unfolding timeout pool_max_idle_per_host pool_idle_timeout user_agent default_headers
      default_header http3 http3_negative_cache_duration
  http3-apply (timeout_op d) b = refl
  http3-apply (pool_max_idle_per_host_op n) b = refl
  http3-apply (pool_idle_timeout_op d) b = refl
  http3-apply (user_agent_op none) b = refl
  http3-apply (user_agent_op (some ua)) b = refl
  http3-apply (default_headers_op headers) b = refl
  http3-apply (default_header_op none value) b = refl
  http3-apply (default_header_op (some name) none) b = refl
  http3-apply (default_header_op (some name) (some value)) b = refl
  http3-apply (http3_op enabled) b = refl
  http3-apply (negative_op d) b = refl
