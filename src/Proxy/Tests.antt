-- ===== src/Proxy/Tests.antt =====
-- A request whose first node fails and whose second one answers.
use rpc_node_gateway.Prelude.{
  ◌≡◌, refl, true, false, none, some, [], ◌∷◌, pos, str_eq, if◌then◌else◌, lookup, insert,
  has_prefix, trim_prefix, decimal,
}
use rpc_node_gateway.Config.{NodeConfig}
use rpc_node_gateway.Balancer.{
  Pool, Registry, build_node, new_pool, next, collect, rotate, total_weight, pick, build_nodes,
  build_from, report_failure, fail, update, report_success, succeed, derive_ws_url,
}
use rpc_node_gateway.Balancer.Tests.{cfg}
use rpc_node_gateway.Balancer.Reload.{pool}
use rpc_node_gateway.Stats.{new_collector}
use rpc_node_gateway.RateLimit.Tests.{counting_lib, limiter, token}
use rpc_node_gateway.JsonRpc.Tests.{codec}
use rpc_node_gateway.Proxy.{
  Request, Moment, World, Client, forward, attempt, retry, report_answer, settle, count_answer,
  bill, send, serve_http,
}
use rpc_node_gateway.Proxy.Pools.{Answered, attempt-Answered}

abbrev other_cfg : NodeConfig
other_cfg = record { name = ""; url = "https://b"; ws_url = ""; weight = pos 1 }

abbrev eth : Pool
eth = new_pool "eth" (cfg ∷ other_cfg ∷ []) (pos 3) (pos 2)

abbrev registry : Registry
registry = record {
  pools = ("eth", eth) ∷ [];
  unhealthy_threshold = pos 3;
  healthy_threshold = pos 2;
}

abbrev pub world : World counting_lib
world = record {
  registry = registry;
  books = record { limiter = limiter; stats = new_collector; published = [] };
}

abbrev pub client : Client
client url body = if str_eq url "https://b" then some (200, some "answer") else none

abbrev pub moment : Moment
moment = record { now = 5; day = "d"; incr_fails = false; event_id = "e"; latency_ms = 3 }

abbrev request : Request
request = record {
  is_post = true;
  token = some token;
  chain_id = "eth";
  methods = "eth_call" ∷ [];
  client_ip = "ip";
  body = some "call";
}

attempt-Answered_example :
    Answered
      (forward client)
      "call"
      (0, build_node 0 cfg)
      (attempt (forward client) "call" eth (0, build_node 0 cfg))
attempt-Answered_example = attempt-Answered (forward client) "call" eth (0, build_node 0 cfg)

-- The pool after the request.
abbrev after : Registry
after = (serve_http codec (forward client) moment request world).1.registry

abbrev eth_after : Pool
eth_after = report_success (next (report_failure (next eth).0 0)).0 1

found_after : pool after "eth" ≡ some eth_after
unfolding serve_http send forward attempt retry report_answer settle count_answer bill pool lookup
    insert new_pool next collect rotate total_weight pick build_nodes build_from build_node
    report_failure fail update report_success succeed derive_ws_url has_prefix trim_prefix decimal
found_after = refl
