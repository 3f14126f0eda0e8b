-- ===== src/Start/Tests.antt =====
-- A gateway that starts from a file and meets reloads, one of them of a file that is gone.
use rpc_node_gateway.Prelude.{ℕ, ◌≡◌, refl, true, none, some, List, [], ◌∷◌, lookup}
use rpc_node_gateway.Config.{Config}
use rpc_node_gateway.Config.Defaults.{apply_defaults, default_chains, default_node}
use rpc_node_gateway.Config.Validation.{load}
use rpc_node_gateway.Config.Tests.{sample, chain, node, same_char, parse, load-sample}
use rpc_node_gateway.Balancer.{Node, Pool, next}
use rpc_node_gateway.Balancer.Supply.{nexts, fails}
use rpc_node_gateway.Start.{registry_of, reload_upstreams}
use rpc_node_gateway.Start.Reloading.{renewed, reload_upstreams-renewed}
use rpc_node_gateway.Start.Serving.{Event, uses, reloads, run, run-next}

abbrev started : Config
started = apply_defaults same_char sample

abbrev events : List Event
events = uses "eth" nexts ∷ uses "eth" (fails 0) ∷ reloads none ∷ reloads (some "") ∷ []

run-next_example :
    (p : Pool) × (lookup "eth" (run same_char parse (registry_of started) events).pools ≡ some p)
    × ((n : ℕ × Node) × ((next p).1 ≡ some n))
unfolding apply_defaults default_chains lookup
run-next_example =
    run-next same_char parse (some "") started "eth"
      (record chain { nodes = default_node node ∷ [] }) events load-sample refl

reload_upstreams-renewed_example :
    reload_upstreams same_char parse true true none (registry_of started)
    ≡ renewed (load same_char parse none) (registry_of started)
reload_upstreams-renewed_example =
    reload_upstreams-renewed same_char parse none (registry_of started)
