-- ===== src/Start/Serving.antt =====
-- A gateway that has started from a loaded configuration, through any use of its pools and any
-- reloads from the file.
use rpc_node_gateway.Prelude.{
  ℕ, ◌<◌, length, ◌≡◌, refl, ◌∙◌, String, Option, some, List, [], ◌∷◌, ℤ, Assoc, lookup, arith,
}
use Prim.Native.Char.{Char}
use rpc_node_gateway.Config.{Config, Chain, NodeConfig}
use rpc_node_gateway.Config.Validation.{loaded, load}
use rpc_node_gateway.Config.Loading.{load-IsReady}
use rpc_node_gateway.Balancer.{Node, Pool, Registry, next, replace_nodes}
use rpc_node_gateway.Balancer.Reload.{HaveNodes, new_pools, new_registry}
use rpc_node_gateway.Balancer.Supply.{
  HasNodes, Use, use_pool, length-use_pool, new_pool-HasNodes, replace_nodes-HasNodes,
  next-HasNodes,
}
use rpc_node_gateway.Start.{registry_of, hang_up}
use rpc_node_gateway.Start.Reloading.{HasNodes-HaveNodes}
use rpc_node_gateway.Start.Pools.{
  on_pool, known, known-on_pool, known-new_pools, known-lookup, AllPools, on_pool-AllPools,
  lookup-AllPools, reload_loaded-AllPools, known-reload_loaded,
}

-- A use of the pool of a chain, or a reload that finds this file.
pub data Event : Type 0 where
  uses : String → Use → Event
  reloads : Option String → Event

use-HasNodes : (a : Use) (p : Pool) → HasNodes p → HasNodes (use_pool a p)
use-HasNodes a p h = omega (arith, length-use_pool a p)

replace-HasNodes :
    (p : Pool) (cfgs : List NodeConfig)
    → 0 < length cfgs
    → HasNodes p
    → HasNodes (replace_nodes p cfgs)
replace-HasNodes p cfgs some_nodes h = replace_nodes-HasNodes p cfgs some_nodes

abbrev Supplied : Assoc Pool → Type 0
Supplied pools = AllPools HasNodes pools

new_pools-Supplied :
    (chains : Assoc Chain) (u h : ℤ) → HaveNodes chains → Supplied (new_pools chains u h)
unfolding new_pools
new_pools-Supplied [] u h v = tt
new_pools-Supplied ((id, c) ∷ rest) u h (v, vs) =
    (new_pool-HasNodes id c.nodes u h v, new_pools-Supplied rest u h vs)

module _ (lower : Char → Char) (decode : String → Option Config) where
  unfoldable pub step : Registry → Event → Registry
  step r (uses id u) = record r { pools = on_pool id (use_pool u) r.pools }
  step r (reloads file) = hang_up lower decode file r

  unfoldable pub run : Registry → List Event → Registry
  run r [] = r
  run r (e ∷ es) = run (step r e) es

  step-Supplied :
      (r : Registry) (e : Event)
      → Supplied r.pools
      → Supplied (step r e).pools × ((id : String) → known id (step r e).pools ≡ known id r.pools)
  unfolding step hang_up
  step-Supplied r (uses id u) h = (
    on_pool-AllPools HasNodes use-HasNodes replace-HasNodes id u r.pools h,
    λ k. known-on_pool id k (use_pool u) r.pools,
  )
  step-Supplied r (reloads file) h = (
    reload_loaded-AllPools HasNodes use-HasNodes replace-HasNodes lower decode file
        (load lower decode file) r refl h,
    known-reload_loaded lower decode file (load lower decode file) r refl,
  )

  run-Supplied :
      (r : Registry) (es : List Event)
      → Supplied r.pools
      → Supplied (run r es).pools × ((id : String) → known id (run r es).pools ≡ known id r.pools)
  unfolding run
  run-Supplied r [] h = (h, λ id. refl)
  run-Supplied r (e ∷ es) h =
      let (now, same) = step-Supplied r e h in
      let (later, same') = run-Supplied (step r e) es now in (later, λ id. same' id ∙ same id)

  -- Once the gateway has started from a file that loads, every chain of that file has a pool that finds
  -- a node, after any choices of nodes, any reports of successes and failures, any health checks and
  -- any reloads, whatever the file holds by then.
  pub run-next :
      (file : Option String) (cfg : Config) (id : String) (c : Chain) (es : List Event)
      → load lower decode file ≡ loaded cfg
      → lookup id cfg.chains ≡ some c
      → (p : Pool) × (lookup id (run (registry_of cfg) es).pools ≡ some p)
        × ((n : ℕ × Node) × ((next p).1 ≡ some n))
  unfolding new_registry
  run-next file cfg id c es started here =
      let nodes =
        HasNodes-HaveNodes cfg.chains (load-IsReady lower decode file cfg started).valid.nodes in
      let (supplied, same) =
        run-Supplied (registry_of cfg) es (new_pools-Supplied cfg.chains _ _ nodes) in
      let (p, found) =
        known-lookup id (run (registry_of cfg) es).pools
          (same id ∙ known-new_pools cfg.chains _ _ id c here) in
      let has =
        lookup-AllPools HasNodes use-HasNodes replace-HasNodes id (run (registry_of cfg) es).pools p
          supplied found in
      (p, found, next-HasNodes p has)
