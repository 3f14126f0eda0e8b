-- ===== src/Balancer/Next.antt =====
-- `Next`: which node they return, and how often over a turn of the rotation.
use native.Mathlib.Nat.{mod-lt}
use rpc_node_gateway.Prelude.{
  ℕ, suc, ◌+◌, ◌%◌, ◌<◌, ◌≡◌, ◌≢◌, refl, ap, ◌∙◌, ◌⊎◌, inl, inr, Bool, true, false, Option, none,
  some, List, [], ◌∷◌, ◌==◌, length, get_elem?, get_elem?_total, All, Bool-cases, arith,
}
use rpc_node_gateway.Prelude.Sums.{sum_from_single}
use rpc_node_gateway.Balancer.{
  Node, Pool, collect, total_weight, rotate, rotate_all, next, at_index, is_healthy,
}
use rpc_node_gateway.Balancer.Rotation.{
  pointers, count, is_at, kept_weight, Selected, rotate-Selected, rotate_turn, count_turn,
}

-- What the healthy nodes weigh together: the length of a turn of `Next`.
abbrev pub healthy_weight : Pool → ℕ
healthy_weight p = total_weight (collect is_healthy 0 p.nodes)

cons≢nil {ℓ} : {A : Type ℓ} {x : A} {xs : List A} → x ∷ xs ≢ []
cons≢nil e = cc

pub List-cases {ℓ} :
    {A : Type ℓ} (xs : List A) → (xs ≡ []) ⊎ ((x : A) × (r : List A) × (xs ≡ x ∷ r))
List-cases [] = inl refl
List-cases (x ∷ xs) = inr (x, xs, refl)

next_some :
    (p : Pool) (c : ℕ × Node) (cs : List (ℕ × Node))
    → collect is_healthy 0 p.nodes ≡ c ∷ cs
    → next p ≡ rotate p c cs
unfolding next
next_some p c cs e = rw (e, next)

next_empty : (p : Pool) → collect is_healthy 0 p.nodes ≡ [] → next p ≡ rotate_all p
unfolding next
next_empty p e = rw (e, next)

pub total_weight_nil : (cs : List (ℕ × Node)) → cs ≡ [] → total_weight cs ≡ 0
unfolding total_weight
total_weight_nil cs e = rw e

-- While reports change nothing, as many calls of `Next` as the healthy nodes weigh together return
-- each healthy node as often as it weighs, and no other node.
pub next_turn :
    (p : Pool) (i : ℕ)
    → 0 < healthy_weight p
    → count i (pointers next (healthy_weight p) p) ≡ kept_weight is_healthy (get_elem? p.nodes i)
next_turn p i pos = elim (List-cases (collect is_healthy 0 p.nodes)) [
  | inl e ↦ absurd (omega (arith, total_weight_nil (collect is_healthy 0 p.nodes) e))
  | inr (c, cs, e) ↦
      ap (λ l. count i (pointers next (total_weight l) p)) e
      ∙ rotate_turn next is_healthy p c cs (λ rr. next_some (record p { rr = rr }) c cs e) e
          (rw e at pos) i
]

-- The node at an index that is in range.
node_at : Node → List Node → ℕ → ℕ × Node
node_at d ns r = (r, elim (get_elem? ns r) [ none ↦ d | some m ↦ m ])

at_index-some :
    (ns : List Node) (i : ℕ) (m : Node) → get_elem? ns i ≡ some m → at_index ns i ≡ some (i, m)
at_index-some ns i m e = ground arith

at_index-node_at :
    (d : Node) (ns : List Node) (r : ℕ) → r < length ns → at_index ns r ≡ some (node_at d ns r)
unfolding node_at
at_index-node_at d ns r lt = let (m, e) = get_elem?_total ns r lt in ground arith

rotate_all_cons :
    (d : Node) (p : Pool)
    → 0 < length p.nodes
    → rotate_all p ≡ (
      record p { rr = (p.rr + 1) % length p.nodes },
      some (node_at d p.nodes ((p.rr + 1) % length p.nodes)),
    )
unfolding rotate_all
rotate_all_cons d p pos =
    rw (at_index-node_at d p.nodes ((p.rr + 1) % length p.nodes) (mod-lt (p.rr + 1) pos))
      (ground arith)

-- While no node is healthy, as many calls of `Next` as there are nodes return each node once.
pub next_turn_unhealthy :
    (p : Pool) (i : ℕ)
    → collect is_healthy 0 p.nodes ≡ []
    → i < length p.nodes
    → count i (pointers next (length p.nodes) p) ≡ 1
next_turn_unhealthy p i none_up lt =
    let (d, _) = get_elem?_total p.nodes i lt in
    count_turn next p (length p.nodes) (node_at d p.nodes)
      (λ rr.
        next_empty (record p { rr = rr }) none_up
        ∙ rotate_all_cons d (record p { rr = rr }) (omega arith))
      i (omega arith)
    ∙ sum_from_single (λ r. is_at i (node_at d p.nodes r).0) i 0 (length p.nodes)
        (unfold node_at in λ k ne. ground arith) (unfold node_at in ground arith) (omega arith)
        (omega arith)

pub none_kept :
    (keep : Node → Bool) (b : ℕ) (ns : List Node)
    → collect keep b ns ≡ []
    → All (λ n. keep n ≡ false) ns
unfolding collect
none_kept keep b [] e = tt
none_kept keep b (n ∷ ns) e = elim (Bool-cases (keep n)) [
  | inl k ↦ absurd (cons≢nil (rw k at e))
  | inr k ↦ (k, none_kept keep (suc b) ns (rw k at e))
]

-- What a call of `Next` may return over these nodes.
abbrev pub Chosen : List Node → Option (ℕ × Node) → Type 0
Chosen ns none = ns ≡ []
Chosen ns (some (i, n)) =
    (get_elem? ns i ≡ some n) × ((n.healthy ≡ true) ⊎ All (λ m. m.healthy ≡ false) ns)

Selected-Chosen : (ns : List Node) (r : Option (ℕ × Node)) → Selected is_healthy ns r → Chosen ns r
Selected-Chosen ns none s = absurd s
Selected-Chosen ns (some (i, n)) (g, h) = (g, inl h)

length_zero {ℓ} : {A : Type ℓ} (xs : List A) → (length xs == 0) ≡ true → xs ≡ []
length_zero [] h = refl
length_zero (x ∷ xs) h = ground arith

rotate_all-Chosen :
    (p : Pool) → All (λ m. m.healthy ≡ false) p.nodes → Chosen p.nodes (rotate_all p).1
unfolding rotate_all
rotate_all-Chosen p down = elim (Bool-cases (length p.nodes == 0)) [
  | inl e ↦ rw e (length_zero p.nodes e)
  | inr e ↦
      let rr = (p.rr + 1) % length p.nodes in
      let (m, at) = get_elem?_total p.nodes rr (mod-lt (p.rr + 1) (ground arith)) in
      rw (e, at_index-some p.nodes rr m at) (at, inr down)
]

-- `Next` returns no node only if there is none, and otherwise one of the pool's nodes, which is
-- healthy unless none is.
pub next-Chosen : (p : Pool) → Chosen p.nodes (next p).1
next-Chosen p = elim (List-cases (collect is_healthy 0 p.nodes)) [
  | inl e ↦ rw (next_empty p e) (rotate_all-Chosen p (none_kept is_healthy 0 p.nodes e))
  | inr (c, cs, e) ↦
      rw (next_some p c cs e)
        (Selected-Chosen p.nodes (rotate p c cs).1 (rotate-Selected is_healthy p c cs e))
]
