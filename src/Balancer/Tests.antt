-- ===== src/Balancer/Tests.antt =====
-- Runs of balancer.go on small pools.
use rpc_node_gateway.Prelude.{
  ◌<◌, ◌≡◌, ◌≢◌, get_elem?, refl, String, true, false, ℕ, Option, str_eq, if◌then◌else◌, none, some,
  List, [], ◌∷◌, pos, Assoc, length, i32_limit, arith, lookup,
}
use rpc_node_gateway.Config.{NodeConfig, Chain}
use rpc_node_gateway.Balancer.{
  Node, Pool, Registry, collect, total_weight, rotate, pick, build_nodes, build_from, build_node,
  update, fail, is_healthy, is_ws_healthy, next, next_ws, new_pool,
}
use rpc_node_gateway.JsonRpc.{RawMessage}
use rpc_node_gateway.Balancer.Health.{
  success, failure, run_reports, run_health, health, IsCounting, run_reports-health,
}
use rpc_node_gateway.Balancer.Rotation.{pointers, count, kept_weight}
use rpc_node_gateway.Balancer.Pointers.{
  Heap, seen, Op, chooses, reports_success, reports_failure, reloads, perform, perform_all, alloc,
}
use rpc_node_gateway.Balancer.Pointers.Stale.{all_calls, perform_all-seen}
use rpc_node_gateway.Balancer.Names.{build_nodes-name}
use rpc_node_gateway.Balancer.Next.{healthy_weight, next_turn}
use rpc_node_gateway.Balancer.NextWs.{ws_weight, next_ws_turn}
use rpc_node_gateway.Balancer.Invariant.{
  nexts, fails, succeeds, replaces, run, Invariant, run-new_pool-Invariant,
}

abbrev a : Node
a = record {
  name = "a";
  url = "https://a";
  ws_url = "wss://a";
  weight = 2;
  healthy = true;
  fail_count = pos 1;
  ok_count = pos 0;
}

abbrev b : Node
b = record {
  name = "b";
  url = "https://b";
  ws_url = "";
  weight = 1;
  healthy = false;
  fail_count = pos 3;
  ok_count = pos 1;
}

abbrev pool_of : List Node → Pool
pool_of ns = record {
  chain_id = "eth";
  nodes = ns;
  rr = 0;
  unhealthy_threshold = pos 3;
  healthy_threshold = pos 2;
}

abbrev two : Pool
two = pool_of (a ∷ b ∷ [])

abbrev one_down : Pool
one_down = pool_of (b ∷ [])

pub three_below : 3 < i32_limit
three_below = omega arith

pub two_below : 2 < i32_limit
two_below = omega arith

two_weigh : 0 < healthy_weight two
unfolding collect total_weight
two_weigh = omega arith

two_ws_weigh : 0 < ws_weight two
unfolding collect total_weight
two_ws_weigh = omega arith

none_up : collect is_healthy 0 one_down.nodes ≡ []
unfolding collect
none_up = refl

next_turn_example :
    count 0 (pointers next (healthy_weight two) two) ≡ kept_weight is_healthy (some a)
next_turn_example = next_turn two 0 two_weigh

next_ws_turn_example :
    count 0 (pointers next_ws (ws_weight two) two) ≡ kept_weight is_ws_healthy (some a)
next_ws_turn_example = next_ws_turn two 0 two_ws_weigh

run_reports-health_example :
    (health (run_reports 3 2 (failure ∷ success ∷ []) a)
      ≡ run_health 3 2 (failure ∷ success ∷ []) (health a))
    × IsCounting 3 2 (run_reports 3 2 (failure ∷ success ∷ []) a)
run_reports-health_example =
    run_reports-health 3 2 (omega arith) (omega arith) three_below two_below
      (failure ∷ success ∷ []) a (omega arith)

abbrev pub cfg : NodeConfig
cfg = record { name = ""; url = "https://a"; ws_url = ""; weight = pos 2 }

run-new_pool-Invariant_example :
    Invariant 3 2 (run (new_pool "eth" (cfg ∷ []) (pos 3) (pos 2)) (nexts ∷ fails 0 ∷ []))
run-new_pool-Invariant_example =
    run-new_pool-Invariant 3 2 (omega arith) (omega arith) three_below two_below "eth" (cfg ∷ [])
      (nexts ∷ fails 0 ∷ [])

abbrev client : String → Option (ℕ × String)
client url = if str_eq url "https://a" then some (200, "ok") else some (503, "")

abbrev decode : String → Option RawMessage
decode body = some none

abbrev chain : Chain
chain = record { name = "Ethereum"; nodes = cfg ∷ [] }

abbrev empty_chain : Chain
empty_chain = record { name = "Polygon"; nodes = [] }

abbrev registry : Registry
registry = record {
  pools = ("eth", two) ∷ ("pol", one_down) ∷ [];
  unhealthy_threshold = pos 3;
  healthy_threshold = pos 2;
}

abbrev good : Assoc Chain
good = ("eth", chain) ∷ []

abbrev bad : Assoc Chain
bad = ("eth", chain) ∷ ("pol", empty_chain) ∷ []

lookup_pol : lookup "pol" bad ≡ some empty_chain
unfolding lookup
lookup_pol = refl

eth_reloads : (c : Chain) → lookup "eth" bad ≡ some c → 0 < length c.nodes
unfolding lookup
eth_reloads c e = ground arith

-- The pool `two` in a heap with a node of another pool.
abbrev heap : Heap
heap = record {
  cells = a ∷ b ∷ a ∷ [];
  chain_id = two.chain_id;
  nodes = 0 ∷ 1 ∷ [];
  rr = 0;
  unhealthy_threshold = pos 3;
  healthy_threshold = pos 2;
}

-- A report that comes after a reload.
abbrev late : List Op
late = chooses ∷ reports_failure 1 ∷ reloads (cfg ∷ []) ∷ reports_failure 0 ∷ reports_success 3 ∷ []

perform_all-seen_example : seen (perform_all heap late) ≡ run (seen heap) (all_calls heap late)
perform_all-seen_example =
    perform_all-seen heap late ((omega arith, (omega arith, tt)), (refl, (refl, tt)))

-- The report on the first node is left out: the reload has replaced it by then.
late_calls : all_calls heap late ≡ nexts ∷ fails 1 ∷ replaces (cfg ∷ []) ∷ succeeds 0 ∷ []
unfolding perform next collect rotate total_weight pick alloc build_nodes build_from build_node
    update fail
late_calls = refl

abbrev unnamed : List NodeConfig
unnamed = cfg ∷ cfg ∷ []

build_nodes-name_example :
    (m : Node) × (n : Node) × (get_elem? (build_nodes unnamed) 0 ≡ some m)
    × (get_elem? (build_nodes unnamed) 1 ≡ some n)
    × (m.name ≢ n.name)
build_nodes-name_example =
    build_nodes-name unnamed 0 1 cfg cfg refl refl refl refl (λ e. omega arith)
