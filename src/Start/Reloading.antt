-- ===== src/Start/Reloading.antt =====
-- A reload of the nodes from the file is all or nothing, although `ReloadNodes` by itself is not: what
-- `Load` lets through has nodes for every chain.
use rpc_node_gateway.Prelude.{
  ◌<◌, ◌≡◌, refl, String, true, false, Option, List, [], ◌∷◌, map, length, Assoc, All, arith,
}
use Prim.Native.Char.{Char}
use rpc_node_gateway.Config.{Config, Chain, NodeConfig}
use rpc_node_gateway.Config.Validation.{is_empty, Loaded, loaded, failed, load}
use rpc_node_gateway.Config.Validity.{HasNodes}
use rpc_node_gateway.Config.Loading.{load-IsReady}
use rpc_node_gateway.Balancer.{Registry}
use rpc_node_gateway.Balancer.Reload.{HaveNodes, reloaded, reload_nodes_total}
use rpc_node_gateway.Start.{Reloaded, done, not_loaded, reload_loaded, reload_upstreams}

length-is_empty : (nodes : List NodeConfig) → is_empty nodes ≡ false → 0 < length nodes
length-is_empty [] e = cc
length-is_empty (n ∷ ns) e = omega arith

pub HasNodes-HaveNodes : (chains : Assoc Chain) → All HasNodes chains → HaveNodes chains
HasNodes-HaveNodes [] h = tt
HasNodes-HaveNodes ((id, c) ∷ rest) (h, hs) =
    (length-is_empty c.nodes h, HasNodes-HaveNodes rest hs)

-- The registry with the nodes of the file.
abbrev pub renewed : Loaded → Registry → Registry × Reloaded
renewed (failed e) r = (r, not_loaded e)
renewed (loaded cfg) r = (record r { pools = map (reloaded cfg.chains) r.pools }, done)

module _ (lower : Char → Char) (decode : String → Option Config) where
  pub reload_loaded-renewed :
      (file : Option String) (l : Loaded) (r : Registry)
      → load lower decode file ≡ l
      → reload_loaded l r ≡ renewed l r
  unfolding reload_loaded
  reload_loaded-renewed file (failed e) r same = refl
  reload_loaded-renewed file (loaded cfg) r same =
      rw
        (reload_nodes_total r cfg.chains
          (HasNodes-HaveNodes cfg.chains (load-IsReady lower decode file cfg same).valid.nodes))
        refl

  -- A reload from the file does one of two things. If the file cannot be read or parsed or does not
  -- pass the check, the registry stays as it was and the error is that of the file; else every pool
  -- whose chain is in the file gets its nodes anew, the others stay, and there is no error.
  pub reload_upstreams-renewed :
      (file : Option String) (r : Registry)
      → reload_upstreams lower decode true true file r ≡ renewed (load lower decode file) r
  unfolding reload_upstreams
  reload_upstreams-renewed file r = reload_loaded-renewed file (load lower decode file) r refl
