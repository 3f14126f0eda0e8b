-- ===== src/Start/Pools.antt =====
-- The pools of all chains, through uses and reloads.
use mathlib.Core.Path.{subst}
use rpc_node_gateway.Prelude.{
  ◌<◌, ◌≡◌, refl, sym, ap, ◌∙◌, String, Bool, true, false, Option, none, some, List, [], ◌∷◌, map,
  ℤ, All, length, Option-cases, Bool-cases, inl, inr, Assoc, lookup, insert, lookup-insert, eq_iff,
  str_eq, if◌then◌else◌, arith,
}
use Prim.Native.Char.{Char}
use rpc_node_gateway.Config.{Config, Chain, NodeConfig}
use rpc_node_gateway.Config.Validation.{loaded, failed, load, Loaded}
use rpc_node_gateway.Config.Loading.{load-IsReady}
use rpc_node_gateway.Balancer.{Pool, Registry, replace_nodes}
use rpc_node_gateway.Balancer.Reload.{HaveNodes, lookup-HaveNodes, new_pools, pool, reloaded}
use rpc_node_gateway.Balancer.Supply.{Use, use_pool, use_all, Used, Touched}
use rpc_node_gateway.Start.{reload_loaded}
use rpc_node_gateway.Start.Reloading.{HasNodes-HaveNodes, reload_loaded-renewed}

-- A change of the pool of a chain; a chain without a pool changes nothing.
unfoldable pub on_pool : String → (Pool → Pool) → Assoc Pool → Assoc Pool
on_pool id f [] = []
on_pool id f ((k, p) ∷ rest) =
    let others = on_pool id f rest in if str_eq k id then (k, f p) ∷ others else (k, p) ∷ others

-- Whether a chain has a pool.
abbrev pub known : String → Assoc Pool → Bool
known id pools = elim (lookup id pools) [ none ↦ false | some p ↦ true ]

pub known-on_pool :
    (id k : String) (f : Pool → Pool) (pools : Assoc Pool)
    → known k (on_pool id f pools) ≡ known k pools
unfolding on_pool lookup
known-on_pool id k f [] = refl
known-on_pool id k f ((j, p) ∷ rest) = ground (arith, known-on_pool id k f rest)

known-reloaded :
    (chains : Assoc Chain) (k : String) (pools : Assoc Pool)
    → known k (map (reloaded chains) pools) ≡ known k pools
unfolding lookup
known-reloaded chains k [] = refl
known-reloaded chains k ((j, p) ∷ rest) = ground (arith, known-reloaded chains k rest)

pub known-new_pools :
    (chains : Assoc Chain) (u h : ℤ) (id : String) (c : Chain)
    → lookup id chains ≡ some c
    → known id (new_pools chains u h) ≡ true
unfolding new_pools lookup
known-new_pools [] u h id c e = cc
known-new_pools ((j, d) ∷ rest) u h id c e = ground (arith, known-new_pools rest u h id c)

known-insert :
    (id k : String) (p : Pool) (pools : Assoc Pool)
    → known id pools ≡ true
    → known k (insert id p pools) ≡ known k pools
known-insert id k p pools here = ground (arith, lookup-insert id k p pools, eq_iff id k)

known_here :
    (id : String) (pools : Assoc Pool) (p : Pool) → lookup id pools ≡ some p → known id pools ≡ true
known_here id pools p found = ground arith

pub known-Touched :
    (r r' : Registry) → Touched r r' → (k : String) → known k r'.pools ≡ known k r.pools
unfolding pool
known-Touched r r' (inl same) k = ap (λ (x : Registry). known k x.pools) same
known-Touched r r' (inr (id, p, p', found, used, same)) k =
    ap (λ (x : Registry). known k x.pools) same
    ∙ known-insert id k p' r.pools (known_here id r.pools p found)

pub known-lookup :
    (id : String) (pools : Assoc Pool)
    → known id pools ≡ true
    → (p : Pool) × (lookup id pools ≡ some p)
known-lookup id pools k = elim (Option-cases (lookup id pools)) [
  | inl gone ↦ absurd (ground arith)
  | inr found ↦ found
]

abbrev pub AllPools : (Pool → Type 0) → Assoc Pool → Type 0
AllPools P pools = All (λ (x : String × Pool). P x.1) pools

-- A reload from the file leaves the chains as they are.
pub known-reload_loaded :
    (lower : Char → Char) (decode : String → Option Config) (file : Option String) (l : Loaded)
    (r : Registry)
    → load lower decode file ≡ l
    → (id : String) → known id (reload_loaded l r).0.pools ≡ known id r.pools
known-reload_loaded lower decode file (failed e) r same id =
    rw (reload_loaded-renewed lower decode file (failed e) r same) refl
known-reload_loaded lower decode file (loaded cfg) r same id =
    rw (reload_loaded-renewed lower decode file (loaded cfg) r same)
      (known-reloaded cfg.chains id r.pools)

-- What holds of every pool, where the uses of a pool and a new list of nodes keep it.
module _ (P : Pool → Type 0) (on_use : (a : Use) (p : Pool) → P p → P (use_pool a p))
    (on_replace : (p : Pool) (cfgs : List NodeConfig)
      → 0 < length cfgs
      → P p
      → P (replace_nodes p cfgs)) where
  pub on_pool-AllPools :
      (id : String) (u : Use) (pools : Assoc Pool)
      → AllPools P pools
      → AllPools P (on_pool id (use_pool u) pools)
  unfolding on_pool
  on_pool-AllPools id u [] h = tt
  on_pool-AllPools id u ((k, p) ∷ rest) (h, hs) = elim (Bool-cases (str_eq k id)) [
    | inl same ↦ rw same (on_use u p h, on_pool-AllPools id u rest hs)
    | inr other ↦ rw other (h, on_pool-AllPools id u rest hs)
  ]

  reloaded-P :
      (chains : Assoc Chain) (id : String) (p : Pool)
      → HaveNodes chains
      → P p
      → P (reloaded chains (id, p)).1
  reloaded-P chains id p v h = elim (Option-cases (lookup id chains)) [
    | inl gone ↦ rw (gone, reloaded) h
    | inr (c, here) ↦
        rw (here, reloaded) (on_replace p c.nodes (lookup-HaveNodes chains id c v here) h)
  ]

  reloaded-AllPools :
      (chains : Assoc Chain) (pools : Assoc Pool)
      → HaveNodes chains
      → AllPools P pools
      → AllPools P (map (reloaded chains) pools)
  reloaded-AllPools chains [] v h = tt
  reloaded-AllPools chains ((id, p) ∷ rest) v (h, hs) =
      (reloaded-P chains id p v h, reloaded-AllPools chains rest v hs)

  pub lookup-AllPools :
      (id : String) (pools : Assoc Pool) (p : Pool)
      → AllPools P pools
      → lookup id pools ≡ some p
      → P p
  unfolding lookup
  lookup-AllPools id [] p h e = cc
  lookup-AllPools id ((j, q) ∷ rest) p (h, hs) e = elim (Bool-cases (str_eq j id)) [
    | inl same ↦ let equal : q ≡ p = ground arith in subst P equal h
    | inr other ↦ lookup-AllPools id rest p hs (ground arith)
  ]

  pub insert-AllPools :
      (id : String) (pools : Assoc Pool) (p : Pool)
      → AllPools P pools
      → P p
      → AllPools P (insert id p pools)
  unfolding insert
  insert-AllPools id [] p h v = (v, tt)
  insert-AllPools id ((j, q) ∷ rest) p (h, hs) v = elim (Bool-cases (str_eq j id)) [
    | inl same ↦ rw (same, insert) (v, hs)
    | inr other ↦ rw (other, insert) (h, insert-AllPools id rest p hs v)
  ]

  Used-P : (p p' : Pool) → Used p p' → P p → P p'
  unfolding use_all
  Used-P p p' ([], e) v = subst P (sym e) v
  Used-P p p' (a ∷ us, e) v = Used-P (use_pool a p) p' (us, e) (on_use a p v)

  pub Touched-AllPools : (r r' : Registry) → Touched r r' → AllPools P r.pools → AllPools P r'.pools
  unfolding pool
  Touched-AllPools r r' (inl same) h = subst (λ (x : Registry). AllPools P x.pools) (sym same) h
  Touched-AllPools r r' (inr (id, p, p', found, used, same)) h =
      subst (λ (x : Registry). AllPools P x.pools) (sym same)
        (insert-AllPools id r.pools p' h (Used-P p p' used (lookup-AllPools id r.pools p h found)))

  pub reload_loaded-AllPools :
      (lower : Char → Char) (decode : String → Option Config) (file : Option String) (l : Loaded)
      (r : Registry)
      → load lower decode file ≡ l
      → AllPools P r.pools
      → AllPools P (reload_loaded l r).0.pools
  reload_loaded-AllPools lower decode file (failed e) r same h =
      rw (reload_loaded-renewed lower decode file (failed e) r same) h
  reload_loaded-AllPools lower decode file (loaded cfg) r same h =
      let nodes =
        HasNodes-HaveNodes cfg.chains (load-IsReady lower decode file cfg same).valid.nodes in
      rw (reload_loaded-renewed lower decode file (loaded cfg) r same)
        (reloaded-AllPools cfg.chains r.pools nodes h)
