-- ===== src/Balancer/Supply.antt =====
-- That a pool of balancer.go which once has nodes keeps having some, and `Next` finds one of them.
use rpc_node_gateway.Prelude.{
  ℕ, suc, ◌≡◌, ◌<◌, refl, sym, ap, ◌∙◌, ◌⊎◌, i32_limit, insert, String, Bool, Option, none, some,
  List, [], ◌∷◌, ◌++◌, ℤ, length, length-set, length-map, get_elem?, Option-cases, inl, inr, arith,
}
use mathlib.Core.Path.{subst}
use rpc_node_gateway.Config.{NodeConfig}
use rpc_node_gateway.Balancer.{
  Node, Pool, Registry, succeed, fail, update, build_from, build_nodes, new_pool, next, next_ws,
  report_success, report_failure, check_all, replace_nodes,
}
use rpc_node_gateway.Balancer.Reload.{pool}
use rpc_node_gateway.Balancer.Next.{Chosen, next-Chosen}
use rpc_node_gateway.Balancer.Invariant.{
  Call, step, Invariant, step-Invariant, check_node, check_all-map, next-nodes, next_ws-nodes,
}

abbrev pub HasNodes : Pool → Type 0
HasNodes p = 0 < length p.nodes

-- What the proxies and the health checks do with a pool.
pub data Use : Type 0 where
  nexts next_wss : Use
  succeeds fails : ℕ → Use
  checks : (String → Bool) → Use

unfoldable pub use_pool : Use → Pool → Pool
use_pool nexts p = (next p).0
use_pool next_wss p = (next_ws p).0
use_pool (succeeds i) p = report_success p i
use_pool (fails i) p = report_failure p i
use_pool (checks probe) p = check_all probe p

pub length-update : (f : Node → Node) (i : ℕ) (ns : List Node) → length (update f i ns) ≡ length ns
unfolding update
length-update f i ns = elim (Option-cases (get_elem? ns i)) [
  | inl out ↦ ground arith
  | inr (n, at) ↦ ground (arith, length-set ns i (f n))
]

pub length-use_pool : (u : Use) (p : Pool) → length (use_pool u p).nodes ≡ length p.nodes
unfolding use_pool report_success report_failure
length-use_pool nexts p = let (rr, e) = next-nodes p in rw e refl
length-use_pool next_wss p = let (rr, e) = next_ws-nodes p in rw e refl
length-use_pool (succeeds i) p = length-update (succeed p.healthy_threshold) i p.nodes
length-use_pool (fails i) p = length-update (fail p.unhealthy_threshold) i p.nodes
length-use_pool (checks probe) p =
    rw (check_all-map probe p)
      (length-map p.nodes (check_node probe p.unhealthy_threshold p.healthy_threshold))

length-build_from : (i : ℕ) (cfgs : List NodeConfig) → length (build_from i cfgs) ≡ length cfgs
unfolding build_from
length-build_from i [] = refl
length-build_from i (c ∷ cfgs) = omega (arith, length-build_from (suc i) cfgs)

pub new_pool-HasNodes :
    (id : String) (cfgs : List NodeConfig) (u h : ℤ)
    → 0 < length cfgs
    → HasNodes (new_pool id cfgs u h)
unfolding new_pool build_nodes
new_pool-HasNodes id cfgs u h some_nodes = omega (arith, length-build_from 0 cfgs)

pub replace_nodes-HasNodes :
    (p : Pool) (cfgs : List NodeConfig) → 0 < length cfgs → HasNodes (replace_nodes p cfgs)
unfolding replace_nodes build_nodes
replace_nodes-HasNodes p cfgs some_nodes = omega (arith, length-build_from 0 cfgs)

Chosen-some :
    (ns : List Node) (o : Option (ℕ × Node))
    → Chosen ns o
    → 0 < length ns
    → (c : ℕ × Node) × (o ≡ some c)
Chosen-some ns none c some_nodes = ground (arith, ap (λ (xs : List Node). length xs) c)
Chosen-some ns (some x) c some_nodes = (x, refl)

pub next-HasNodes : (p : Pool) → HasNodes p → (c : ℕ × Node) × ((next p).1 ≡ some c)
next-HasNodes p h = Chosen-some p.nodes (next p).1 (next-Chosen p) h

unfoldable pub use_all : List Use → Pool → Pool
use_all [] p = p
use_all (u ∷ us) p = use_all us (use_pool u p)

-- One pool comes from another by uses.
abbrev pub Used : Pool → Pool → Type 0
Used p p' = (us : List Use) × (p' ≡ use_all us p)

use_all-append : (us vs : List Use) (p : Pool) → use_all (us ++ vs) p ≡ use_all vs (use_all us p)
unfolding use_all
use_all-append [] vs p = refl
use_all-append (u ∷ us) vs p = use_all-append us vs (use_pool u p)

pub Used-trans : (p q r : Pool) → Used p q → Used q r → Used p r
Used-trans p q r (us, e) (vs, f) = (us ++ vs, f ∙ ap (use_all vs) e ∙ sym (use_all-append us vs p))

-- One registry comes from another by uses of the pool of one chain, or it is the same.
abbrev pub Touched : Registry → Registry → Type 0
Touched r r' =
    (r' ≡ r)
    ⊎ ((id : String) × (p : Pool) × (p' : Pool) × (pool r id ≡ some p)
        × Used p p'
        × (r' ≡ record r { pools = insert id p' r.pools }))

pub Used-HasNodes : (p p' : Pool) → Used p p' → HasNodes p → HasNodes p'
unfolding use_all
Used-HasNodes p p' ([], e) h = rw e h
Used-HasNodes p p' (u ∷ us, e) h =
    Used-HasNodes (use_pool u p) p' (us, e) (omega (arith, length-use_pool u p))

module _ (u h : ℕ) (u_pos : 0 < u) (h_pos : 0 < h) (u_max : u < i32_limit)
    (h_max : h < i32_limit) where
  pub use_pool-Invariant : (a : Use) (p : Pool) → Invariant u h p → Invariant u h (use_pool a p)
  unfolding use_pool step
  use_pool-Invariant nexts p v = step-Invariant u h u_pos h_pos u_max h_max p Call.nexts v
  use_pool-Invariant next_wss p v = step-Invariant u h u_pos h_pos u_max h_max p Call.next_wss v
  use_pool-Invariant (succeeds i) p v =
      step-Invariant u h u_pos h_pos u_max h_max p (Call.succeeds i) v
  use_pool-Invariant (fails i) p v = step-Invariant u h u_pos h_pos u_max h_max p (Call.fails i) v
  use_pool-Invariant (checks probe) p v =
      step-Invariant u h u_pos h_pos u_max h_max p (Call.checks probe) v

  pub Used-Invariant : (p p' : Pool) → Used p p' → Invariant u h p → Invariant u h p'
  unfolding use_all
  Used-Invariant p p' ([], e) v = subst (Invariant u h) (sym e) v
  Used-Invariant p p' (a ∷ us, e) v =
      Used-Invariant (use_pool a p) p' (us, e) (use_pool-Invariant a p v)
