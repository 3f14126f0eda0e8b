-- ===== src/Server/Running.antt =====
-- A gateway that has started, after any events.
use mathlib.Core.Path.{subst}
use rpc_node_gateway.Prelude.{
  ℕ, zero, suc, ◌<◌, ◌≡◌, sym, ◌∙◌, String, some, List, [], ◌∷◌, ℤ, pos, to_i32, i32_limit, length,
  lookup, Assoc, arith,
}
use rpc_node_gateway.Config.{Config, Chain, NodeConfig}
use rpc_node_gateway.Config.Loading.{IsPositive, load-IsReady}
use rpc_node_gateway.Model.{Token}
use rpc_node_gateway.Balancer.{Node, Pool, next, replace_nodes}
use rpc_node_gateway.Balancer.Invariant.{
  Invariant, step, run, replaces, step-Invariant, run-new_pool-Invariant,
}
use rpc_node_gateway.Balancer.Reload.{HaveNodes, new_pools, new_registry}
use rpc_node_gateway.Balancer.Supply.{
  HasNodes, Use, use_pool, use_pool-Invariant, length-use_pool, new_pool-HasNodes,
  replace_nodes-HasNodes, next-HasNodes,
}
use rpc_node_gateway.RateLimit.{Lib}
use rpc_node_gateway.Stats.{new_collector}
use rpc_node_gateway.Stats.Balance.{IsConsistent}
use rpc_node_gateway.Stats.Calls.{new_collector-IsConsistent}
use rpc_node_gateway.Stats.Keeping.{register_tokens-IsConsistent}
use rpc_node_gateway.TokenStore.{list_meta}
use rpc_node_gateway.WsProxy.Guard.{held, new_conn_guard}
use rpc_node_gateway.AdminJwt.Store.{Store}
use rpc_node_gateway.Start.{registry_of}
use rpc_node_gateway.Start.Reloading.{HasNodes-HaveNodes}
use rpc_node_gateway.Start.Pools.{AllPools, known-lookup, known-new_pools, lookup-AllPools}
use rpc_node_gateway.Server.{Server, Libraries, Outside, runs, new_server, start}
use rpc_node_gateway.Server.Life.{Event}
use rpc_node_gateway.Server.Life as Life
use rpc_node_gateway.Server.Keeping.{run-Keeps}
use rpc_node_gateway.Server.Startup.{start-runs}

-- A pool that has its invariant and some nodes.
abbrev Fit : ℕ → ℕ → Pool → Type 0
Fit u h p = Invariant u h p × HasNodes p

to_i32-pos : (u : ℕ) → u < i32_limit → to_i32 (pos u) ≡ pos u
to_i32-pos u small = ground arith

IsPositive-pos : (z : ℤ) (u : ℕ) → IsPositive z → z ≡ pos u → 0 < u
IsPositive-pos z zero h e = ground arith
IsPositive-pos z (suc u) h e = omega arith

-- The counters are consistent, and every chain of the configuration has a pool with its invariant that
-- finds a node.
pub record IsRunning {lib : Lib} {S : Type 0} (u h : ℕ) (cfg : Config) (s : Server lib S)
    : Type 0 where
  pub consistent : IsConsistent s.books.stats
  pub supplied :
      (id : String) (c : Chain)
      → lookup id cfg.chains ≡ some c
      → (p : Pool) × (lookup id s.registry.pools ≡ some p)
        × Invariant u h p
        × ((n : ℕ × Node) × ((next p).1 ≡ some n))

module _ (u h : ℕ) (u_pos : 0 < u) (h_pos : 0 < h) (u_max : u < i32_limit)
    (h_max : h < i32_limit) where
  use_pool-Fit : (a : Use) (p : Pool) → Fit u h p → Fit u h (use_pool a p)
  use_pool-Fit a p (v, nodes) =
      (use_pool-Invariant u h u_pos h_pos u_max h_max a p v, omega (arith, length-use_pool a p))

  replace_nodes-Fit :
      (p : Pool) (cfgs : List NodeConfig)
      → 0 < length cfgs
      → Fit u h p
      → Fit u h (replace_nodes p cfgs)
  unfolding step
  replace_nodes-Fit p cfgs some_nodes (v, nodes) = (
    step-Invariant u h u_pos h_pos u_max h_max p (replaces cfgs) v,
    replace_nodes-HasNodes p cfgs some_nodes,
  )

  new_pools-Fit :
      (chains : Assoc Chain)
      → HaveNodes chains
      → AllPools (Fit u h) (new_pools chains (pos u) (pos h))
  unfolding new_pools run
  new_pools-Fit [] v = tt
  new_pools-Fit ((id, c) ∷ rest) (v, vs) = (
    (
      run-new_pool-Invariant u h u_pos h_pos u_max h_max id c.nodes [],
      new_pool-HasNodes id c.nodes (pos u) (pos h) v,
    ),
    new_pools-Fit rest vs,
  )

  registry_of-Fit :
      (cfg : Config)
      → HaveNodes cfg.chains
      → cfg.health_check.unhealthy_threshold ≡ pos u
      → cfg.health_check.healthy_threshold ≡ pos h
      → AllPools (Fit u h) (registry_of cfg).pools
  unfolding new_registry
  registry_of-Fit cfg v unhealthy healthy =
      rw (unhealthy, healthy, to_i32-pos u u_max, to_i32-pos h h_max) (new_pools-Fit cfg.chains v)

  module _ (libs : Libraries) {lib : Lib} {S : Type 0} (store : Store S) where
    new_server-IsRunning :
        (o : Outside S) (cfg : Config) (tokens : Assoc Token) (es : List Event)
        → HaveNodes cfg.chains
        → cfg.health_check.unhealthy_threshold ≡ pos u
        → cfg.health_check.healthy_threshold ≡ pos h
        → IsRunning u h cfg
            (Life.run libs store cfg (new_server libs {lib = lib} store cfg o tokens) es)
    unfolding new_server new_registry held new_conn_guard lookup
    new_server-IsRunning o cfg tokens es v unhealthy healthy =
        let s = new_server libs {lib = lib} store cfg o tokens in
        let kept = run-Keeps (Fit u h) use_pool-Fit replace_nodes-Fit libs store cfg s es in
        record {
          consistent = kept.stats (
              register_tokens-IsConsistent new_collector (list_meta tokens)
                new_collector-IsConsistent);
          supplied = λ id c here.
              let (p, found) =
                known-lookup id (Life.run libs store cfg s es).registry.pools
                  (kept.pools.1 id ∙ known-new_pools cfg.chains _ _ id c here) in
              let (inv, nodes) =
                lookup-AllPools (Fit u h) use_pool-Fit replace_nodes-Fit id
                  (Life.run libs store cfg s es).registry.pools p
                  (kept.pools.0 (registry_of-Fit cfg v unhealthy healthy)) found in
              (p, found, inv, next-HasNodes p nodes);
        }

-- Once the gateway has started, with thresholds of the health checks below 2^31, then after any
-- requests, whole WebSocket sessions, SIGHUPs, health checks, readings of the tokens and rotations of
-- the admin token, one after another in any order: the counters of the statistics are consistent, and
-- every chain of the configuration has a pool that has its invariant and finds a node.
pub start-run :
    (libs : Libraries) {lib : Lib} {S : Type 0} (store : Store S) (o : Outside S) (cfg : Config)
    (s : Server lib S) (u h : ℕ) (es : List Event)
    → start libs store o ≡ runs cfg s
    → cfg.health_check.unhealthy_threshold ≡ pos u
    → cfg.health_check.healthy_threshold ≡ pos h
    → u < i32_limit
    → h < i32_limit
    → IsRunning u h cfg (Life.run libs store cfg s es)
start-run libs store o cfg s u h es started unhealthy healthy u_max h_max =
    let (file, (tokens, made)) = start-runs libs store o cfg s started in
    let ready = load-IsReady libs.lower libs.decode_config o.file cfg file in
    subst (λ x. IsRunning u h cfg (Life.run libs store cfg x es)) (sym made)
      (new_server-IsRunning u h
        (IsPositive-pos cfg.health_check.unhealthy_threshold u ready.unhealthy_threshold unhealthy)
        (IsPositive-pos cfg.health_check.healthy_threshold h ready.healthy_threshold healthy) u_max
        h_max libs store o cfg tokens es (HasNodes-HaveNodes cfg.chains ready.valid.nodes) unhealthy
        healthy)
