-- ===== src/Stats/Totals.antt =====
-- What the calls for answers and pushes add to the successes of the program.
use rpc_node_gateway.Prelude.{ℕ, ◌+◌, ◌<◌, ◌≡◌, refl, String, Bool, true, false, arith}
use rpc_node_gateway.Stats.{
  TokenMeta, Collector, inc_method_denied, inc_rate_limited, method_denies, rate_limits, on_all,
  with_token, proxies, notifies, succeeds, record_proxy, record_ws_connect, connects,
  record_ws_notification,
}

pub record_proxy-success_calls :
    (now : ℕ) (meta : TokenMeta) (chain_id : String) (n e : ℕ) (billable : Bool) (c : Collector)
    → (record_proxy now meta chain_id n e false billable c).global.success_calls
      ≡ c.global.success_calls + n
unfolding record_proxy on_all with_token proxies succeeds
record_proxy-success_calls now meta chain_id n e billable c = ground arith

pub record_ws_notification-success_calls :
    (now : ℕ) (meta : TokenMeta) (chain_id : String) (n : ℕ) (billable : Bool) (c : Collector)
    → 0 < n
    → (record_ws_notification now meta chain_id 1 n billable c).global.success_calls
      ≡ c.global.success_calls + n
unfolding record_ws_notification on_all with_token notifies succeeds
record_ws_notification-success_calls now meta chain_id n billable c p = ground arith

pub record_proxy_failed :
    (now : ℕ) (meta : TokenMeta) (chain_id : String) (billable : Bool) (c : Collector)
    → (record_proxy now meta chain_id 0 0 true billable c).global.success_calls
      ≡ c.global.success_calls
unfolding record_proxy on_all with_token proxies succeeds
record_proxy_failed now meta chain_id billable c = ground arith

-- A request of a token that is refused adds no success.
pub refused-success_calls :
    (now : ℕ) (meta : TokenMeta) (c : Collector)
    → ((inc_method_denied now meta c).global.success_calls ≡ c.global.success_calls)
      × ((inc_rate_limited now meta c).global.success_calls ≡ c.global.success_calls)
unfolding inc_method_denied inc_rate_limited with_token method_denies rate_limits
refused-success_calls now meta c = (refl, refl)

-- A connection adds no success.
pub record_ws_connect-success_calls :
    (now : ℕ) (meta : TokenMeta) (chain_id : String) (c : Collector)
    → (record_ws_connect now meta chain_id c).global.success_calls ≡ c.global.success_calls
unfolding record_ws_connect on_all with_token connects
record_ws_connect-success_calls now meta chain_id c = refl
