-- ===== src/Balancer/Reload.antt =====
-- The registry of balancer.go: one pool for each chain, and the hot reload of their nodes. The log
-- lines of `ReloadNodes` are left out. An association list stands for the map, its order for the
-- order in which Go happens to range over it.
use rpc_node_gateway.Prelude.{
  ◌<◌, ◌≡◌, refl, ap, String, Option, none, some, List, [], ◌∷◌, map, ℤ, to_i32, ◌==◌,
  if◌then◌else◌, length, Assoc, lookup, Option-cases, inl, inr, ◌++◌, ◌∙◌, arith,
}
use rpc_node_gateway.Config.{Chain}
use rpc_node_gateway.Balancer.{Pool, Registry, new_pool, replace_nodes}

unfoldable pub new_pools : Assoc Chain → ℤ → ℤ → Assoc Pool
new_pools [] unhealthy healthy = []
new_pools ((id, chain) ∷ rest) unhealthy healthy =
    (id, new_pool id chain.nodes unhealthy healthy) ∷ new_pools rest unhealthy healthy

-- `NewRegistry` on the chains and the thresholds of the configuration.
unfoldable pub new_registry : Assoc Chain → ℤ → ℤ → Registry
unfolding new_pools
new_registry chains unhealthy healthy = record {
  pools = new_pools chains (to_i32 unhealthy) (to_i32 healthy);
  unhealthy_threshold = to_i32 unhealthy;
  healthy_threshold = to_i32 healthy;
}

unfoldable pub pool : Registry → String → Option Pool
pool r chain_id = lookup chain_id r.pools

abbrev keys {ℓ} : {V : Type ℓ} → Assoc V → List String
keys [] = []
keys ((k, v) ∷ m) = k ∷ keys m

unfoldable pub chain_ids : Registry → List String
chain_ids r = keys r.pools

pub data ReloadError : Type 0 where
  no_nodes : String → ReloadError

reload_pools : Assoc Chain → Assoc Pool → Assoc Pool × Option ReloadError
reload_pools chains [] = ([], none)
reload_pools chains ((id, p) ∷ rest) =
    let (rest', e) = reload_pools chains rest in
    elim (lookup id chains) [
      | none ↦ ((id, p) ∷ rest', e)
      | some chain ↦
          if length chain.nodes == 0
          then ((id, p) ∷ rest, some (no_nodes id))
          else ((id, replace_nodes p chain.nodes) ∷ rest', e)
    ]

unfoldable pub reload_nodes : Registry → Assoc Chain → Registry × Option ReloadError
unfolding reload_pools
reload_nodes r chains =
    let (pools, e) = reload_pools chains r.pools in (record r { pools = pools }, e)

-- A reload, whether it fails or not, leaves the chains and their order as they are.
pub reload_nodes-chain_ids :
    (r : Registry) (chains : Assoc Chain) → chain_ids (reload_nodes r chains).0 ≡ chain_ids r
unfolding reload_nodes chain_ids
reload_nodes-chain_ids r chains = reload_keys r.pools
  where
    reload_keys : (ps : Assoc Pool) → keys (reload_pools chains ps).0 ≡ keys ps
    reload_keys [] = refl
    reload_keys ((id, p) ∷ rest) = ground (arith, reload_keys rest)

-- Every chain of the configuration has nodes, as `validate` of config.go asks.
abbrev pub HaveNodes : Assoc Chain → Type 0
HaveNodes [] = Unit {0}
HaveNodes ((id, chain) ∷ rest) = (0 < length chain.nodes) × HaveNodes rest

abbrev pub reloaded : Assoc Chain → String × Pool → String × Pool
reloaded chains (id, p) =
    (id, elim (lookup id chains) [ none ↦ p | some chain ↦ replace_nodes p chain.nodes ])

pub lookup-HaveNodes :
    (chains : Assoc Chain) (id : String) (c : Chain)
    → HaveNodes chains
    → lookup id chains ≡ some c
    → 0 < length c.nodes
unfolding lookup
lookup-HaveNodes [] id c h e = cc
lookup-HaveNodes ((j, d) ∷ rest) id c h e = ground (arith, lookup-HaveNodes rest id c h.1)

reload_pools_total :
    (chains : Assoc Chain)
    → HaveNodes chains
    → (ps : Assoc Pool) → reload_pools chains ps ≡ (map (reloaded chains) ps, none)
unfolding reload_pools
reload_pools_total chains h [] = refl
reload_pools_total chains h ((id, p) ∷ rest) =
    let ih = reload_pools_total chains h rest in
    elim (Option-cases (lookup id chains)) [
      | inl e ↦ ground arith
      | inr (c, e) ↦ let some_nodes = lookup-HaveNodes chains id c h e in ground arith
    ]

-- If every chain of the configuration has nodes, a reload succeeds: a pool whose chain is in the
-- configuration gets its nodes anew, and any other pool is kept.
pub reload_nodes_total :
    (r : Registry) (chains : Assoc Chain)
    → HaveNodes chains
    → reload_nodes r chains ≡ (record r { pools = map (reloaded chains) r.pools }, none)
unfolding reload_nodes
reload_nodes_total r chains h =
    ap (λ x. (record r { pools = x.0 }, x.1)) (reload_pools_total chains h r.pools)

-- No chain of these pools is in the configuration with an empty list of nodes.
abbrev pub Reloadable : Assoc Chain → Assoc Pool → Type 0
Reloadable chains [] = Unit {0}
Reloadable chains ((id, p) ∷ rest) =
    ((c : Chain) → lookup id chains ≡ some c → 0 < length c.nodes) × Reloadable chains rest

reload_pools_partial :
    (chains : Assoc Chain) (done : Assoc Pool) (id : String) (p : Pool) (rest : Assoc Pool)
    (c : Chain)
    → Reloadable chains done
    → lookup id chains ≡ some c
    → length c.nodes ≡ 0
    → reload_pools chains (done ++ (id, p) ∷ rest)
      ≡ (map (reloaded chains) done ++ (id, p) ∷ rest, some (no_nodes id))
unfolding reload_pools
reload_pools_partial chains [] id p rest c h e z = ground arith
reload_pools_partial chains ((j, q) ∷ done) id p rest c h e z =
    let ih = reload_pools_partial chains done id p rest c h.1 e z in
    elim (Option-cases (lookup j chains)) [
      | inl f ↦ ground arith
      | inr (d, f) ↦ let some_nodes = h.0 d f in ground arith
    ]

-- A reload that meets a chain without nodes reports it, and has by then replaced the nodes of the
-- pools that come before it and of none behind it: it is not atomic.
pub reload_nodes_partial :
    (r : Registry) (chains : Assoc Chain) (done : Assoc Pool) (id : String) (p : Pool)
    (rest : Assoc Pool) (c : Chain)
    → r.pools ≡ done ++ (id, p) ∷ rest
    → Reloadable chains done
    → lookup id chains ≡ some c
    → length c.nodes ≡ 0
    → reload_nodes r chains
      ≡ (record r { pools = map (reloaded chains) done ++ (id, p) ∷ rest }, some (no_nodes id))
unfolding reload_nodes
reload_nodes_partial r chains done id p rest c pools h e z =
    ap (λ x. (record r { pools = x.0 }, x.1))
      (ap (reload_pools chains) pools ∙ reload_pools_partial chains done id p rest c h e z)
