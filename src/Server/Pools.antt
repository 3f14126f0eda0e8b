-- ===== src/Server/Pools.antt =====
-- What the events of the gateway keep of the pools of the chains.
use Prim.Native.Char.{Char}
use rpc_node_gateway.Prelude.{
  ◌<◌, ◌≡◌, refl, ap, String, Option, some, List, length, ◌⊎◌, Assoc, lookup, insert, inl, inr,
}
use rpc_node_gateway.Config.{Config, NodeConfig}
use rpc_node_gateway.Config.Validation.{load}
use rpc_node_gateway.Balancer.{Pool, Registry, replace_nodes}
use rpc_node_gateway.Balancer.Reload.{pool}
use rpc_node_gateway.Balancer.Supply.{Used, Use, use_pool, Touched}
use rpc_node_gateway.Start.{hang_up}
use rpc_node_gateway.Start.Pools.{
  AllPools, known, known-Touched, Touched-AllPools, reload_loaded-AllPools, known-reload_loaded,
}

module _ (P : Pool → Type 0) (on_use : (a : Use) (p : Pool) → P p → P (use_pool a p))
    (on_replace : (p : Pool) (cfgs : List NodeConfig)
      → 0 < length cfgs
      → P p
      → P (replace_nodes p cfgs)) where
  -- One registry after another.
  abbrev pub KeepsPools : Registry → Registry → Type 0
  KeepsPools r r' =
      (AllPools P r.pools → AllPools P r'.pools)
      × ((id : String) → known id r'.pools ≡ known id r.pools)

  pub Touched-KeepsPools : (r r' : Registry) → Touched r r' → KeepsPools r r'
  Touched-KeepsPools r r' t = (Touched-AllPools P on_use on_replace r r' t, known-Touched r r' t)

  pub same-KeepsPools : (r : Registry) → KeepsPools r r
  same-KeepsPools r = (λ h. h, λ id. refl)

  pub hang_up-KeepsPools :
      (lower : Char → Char) (decode : String → Option Config) (file : Option String) (r : Registry)
      → KeepsPools r (hang_up lower decode file r)
  unfolding hang_up
  hang_up-KeepsPools lower decode file r = (
    reload_loaded-AllPools P on_use on_replace lower decode file (load lower decode file) r refl,
    known-reload_loaded lower decode file (load lower decode file) r refl,
  )

  -- The pools that a connection leaves.
  pub Gate-KeepsPools :
      (r : Registry) (pools : Assoc Pool)
      → (pools ≡ r.pools)
        ⊎ ((id : String) × (p : Pool) × (p' : Pool) × (lookup id r.pools ≡ some p)
            × Used p p'
            × (pools ≡ insert id p' r.pools))
      → KeepsPools r (record r { pools = pools })
  unfolding pool
  Gate-KeepsPools r pools (inl same) =
      Touched-KeepsPools r (record r { pools = pools })
        (inl (ap (λ x. record r { pools = x }) same))
  Gate-KeepsPools r pools (inr (id, p, p', found, used, same)) =
      Touched-KeepsPools r (record r { pools = pools })
        (inr (id, p, p', found, used, ap (λ x. record r { pools = x }) same))
