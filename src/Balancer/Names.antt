-- ===== src/Balancer/Names.antt =====
-- The names that `buildNodes` makes up.
use rpc_node_gateway.Prelude.{
  ℕ, suc, ◌+◌, ◌≡◌, ◌≢◌, sym, ap, ◌∙◌, String, true, str_eq, trim_prefix, trim_prefix-append,
  decimal, read_digits, read_digits-decimal, List, [], ◌∷◌, some, get_elem?, arith, zero,
}
use rpc_node_gateway.Config.{NodeConfig}
use rpc_node_gateway.Balancer.{Node, build_node, build_from, build_nodes}

-- The number at the end of a name that was made up.
number_of : String → ℕ
number_of name = read_digits 0 (trim_prefix name "node-")

number_of-made_up :
    (i : ℕ) (c : NodeConfig) → str_eq c.name "" ≡ true → number_of (build_node i c).name ≡ i + 1
unfolding build_node number_of
number_of-made_up i c unnamed =
    rw (unnamed, trim_prefix-append "node-" (decimal (i + 1))) (read_digits-decimal (i + 1))

get_elem?-build_from :
    (i j : ℕ) (cfgs : List NodeConfig) (c : NodeConfig)
    → get_elem? cfgs j ≡ some c
    → get_elem? (build_from i cfgs) j ≡ some (build_node (i + j) c)
unfolding build_from
get_elem?-build_from i j [] c e = cc
get_elem?-build_from i zero (d ∷ cfgs) c e =
    let same : d ≡ c = cc in
    ap (λ k. some (build_node k d)) (omega arith) ∙ ap (λ x. some (build_node (i + 0) x)) same
get_elem?-build_from i (suc j) (d ∷ cfgs) c e =
    get_elem?-build_from (suc i) j cfgs c e ∙ ap (λ k. some (build_node k c)) (omega arith)

-- The digits of the made up names suffice: two nodes of a chain at different places, both without a
-- name in the configuration, get different names.
pub build_nodes-name :
    (cfgs : List NodeConfig) (i j : ℕ) (c d : NodeConfig)
    → get_elem? cfgs i ≡ some c
    → get_elem? cfgs j ≡ some d
    → str_eq c.name "" ≡ true
    → str_eq d.name "" ≡ true
    → i ≢ j
    → (m : Node) × (n : Node) × (get_elem? (build_nodes cfgs) i ≡ some m)
      × (get_elem? (build_nodes cfgs) j ≡ some n)
      × (m.name ≢ n.name)
unfolding build_nodes
build_nodes-name cfgs i j c d at_i at_j no_c no_d differ = (
  build_node i c,
  build_node j d,
  get_elem?-build_from 0 i cfgs c at_i ∙ ap (λ k. some (build_node k c)) (omega arith),
  get_elem?-build_from 0 j cfgs d at_j ∙ ap (λ k. some (build_node k d)) (omega arith),
  λ same.
      let numbers : i + 1 ≡ j + 1 =
        sym (number_of-made_up i c no_c) ∙ ap number_of same ∙ number_of-made_up j d no_d in
      differ (omega arith),
)
