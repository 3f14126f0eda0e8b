-- ===== src/Balancer/Views.antt =====
-- `Snapshot` of a pool and of the registry (internal/balancer/balancer.go).
use rpc_node_gateway.Prelude.{ℕ, String, Bool, List, [], ◌∷◌, Assoc}
use rpc_node_gateway.Balancer.{Node, Pool, Registry}

pub record NodeView : Type 0 where
  pub name : String
  pub url : String
  pub ws_url : String
  pub weight : ℕ
  pub healthy : Bool

unfoldable pub node_views : List Node → List NodeView
node_views [] = []
node_views (n ∷ ns) =
    record { name = n.name; url = n.url; ws_url = n.ws_url; weight = n.weight; healthy = n.healthy }
    ∷ node_views ns

unfoldable pub pool_views : Assoc Pool → Assoc (List NodeView)
pool_views [] = []
pool_views ((id, p) ∷ rest) = (id, node_views p.nodes) ∷ pool_views rest

abbrev pub registry_views : Registry → Assoc (List NodeView)
registry_views r = pool_views r.pools
