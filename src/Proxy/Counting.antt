-- ===== src/Proxy/Counting.antt =====
-- The successes that an HTTP request counts.
use rpc_node_gateway.Prelude.{ℕ, if◌then◌else◌}
use rpc_node_gateway.Model.{Token}
use rpc_node_gateway.RateLimit.{Lib}
use rpc_node_gateway.Billing.Books.{Books, Counts}
use rpc_node_gateway.JsonRpc.{Codec, count_results}
use rpc_node_gateway.Proxy.{Moment, Answer, failed, relayed, World, is_2xx}

-- The successes in an answer to the client.
abbrev pub earned : Codec → Answer → ℕ
earned codec (failed status code message) = 0
earned codec (relayed status body) = if is_2xx status then (count_results codec body).0 else 0

module _ {lib : Lib} where
  abbrev Counted : Codec → Moment → Token → World lib → Answer × World lib → Type 0
  Counted codec m token w (answer, w') =
      Counts m.day token.key (earned codec answer) w.books w'.books
