-- ===== src/Billing/Books.antt =====
-- The three places where a success is counted: the statistics, the daily count of the limiter, and
-- the published billing events.
use rpc_node_gateway.Prelude.{ℕ, ◌+◌, ◌≡◌, String, List}
use rpc_node_gateway.Model.{BillingEvent}
use rpc_node_gateway.Stats.{Collector}
use rpc_node_gateway.RateLimit.{Lib, Limiter}
use rpc_node_gateway.RateLimit.Decision.{used_on}
use rpc_node_gateway.Billing.{successes}

pub record Books (lib : Lib) : Type 0 where
  pub limiter : Limiter lib
  pub stats : Collector
  pub published : List BillingEvent

-- All three have grown by the same number.
pub record Counts {lib : Lib} (day key : String) (n : ℕ) (b b' : Books lib) : Type 0 where
  pub shown : b'.stats.global.success_calls ≡ b.stats.global.success_calls + n
  pub used : used_on lib day b'.limiter key ≡ used_on lib day b.limiter key + n
  pub billed : successes b'.published ≡ successes b.published + n
