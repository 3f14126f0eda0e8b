-- ===== src/Balancer/Rotation.antt =====
-- The selection loops of `Next` and `NextWS`: what is collected and picked, and how often the
-- rotation comes back to a node.
use native.Mathlib.Nat.{mod-add-mod, add_assoc, zero-add}
use rpc_node_gateway.Prelude.{
  ℕ, zero, suc, ◌+◌, ◌*◌, ◌%◌, ◌≤◌, ◌<◌, ◌≡◌, refl, sym, ap, ◌∙◌, Bool, true, Option, none, some,
  List, [], ◌∷◌, ◌++◌, ltb, ◌==◌, lt→ltb, le→ltb_false, if◌then◌else◌, get_elem?, All, All-map,
  if_elim, Bool-cases, inl, inr, arith,
}
use rpc_node_gateway.Prelude.Sums.{
  sum_from, sum_from-add, sum_from_congr, sum_from_const, sum_from-mod, sum_from_head, suc-add_eq,
}
use rpc_node_gateway.Balancer.{Node, Pool, collect, total_weight, pick, rotate}

abbrev pub pointer_of : Option (ℕ × Node) → List ℕ
pointer_of none = []
pointer_of (some (i, n)) = i ∷ []

-- The pointers that calls in a row return.
pub pointers : (Pool → Pool × Option (ℕ × Node)) → ℕ → Pool → List ℕ
pointers call zero p = []
pointers call (suc k) p = let (p', r) = call p in pointer_of r ++ pointers call k p'

abbrev pub is_at : ℕ → ℕ → ℕ
is_at i j = if j == i then 1 else 0

pub count : ℕ → List ℕ → ℕ
count i [] = 0
count i (j ∷ js) = is_at i j + count i js

-- The weight that the kept nodes give to pointer `i`.
pub weight_of : ℕ → List (ℕ × Node) → ℕ
weight_of i [] = 0
weight_of i ((j, n) ∷ rest) = is_at i j * n.weight + weight_of i rest

pick_first :
    (r c : ℕ) (d : ℕ × Node) (j : ℕ) (n : Node) (rest : List (ℕ × Node))
    → r < c + n.weight
    → pick r c d ((j, n) ∷ rest) ≡ (j, n)
unfolding pick
pick_first r c d j n rest lt = rw (lt→ltb r (c + n.weight) lt)

pick_later :
    (r c : ℕ) (d : ℕ × Node) (j : ℕ) (n : Node) (rest : List (ℕ × Node))
    → c + n.weight ≤ r
    → pick r c d ((j, n) ∷ rest) ≡ pick r (c + n.weight) d rest
unfolding pick
pick_later r c d j n rest le = rw (le→ltb_false r (c + n.weight) le)

-- Over the range of rotation indices that the nodes span, each is picked as often as it weighs.
pick_weight :
    (i : ℕ) (d : ℕ × Node) (c : ℕ) (cs : List (ℕ × Node))
    → sum_from (λ r. is_at i (pick r c d cs).0) c (total_weight cs) ≡ weight_of i cs
unfolding total_weight weight_of
pick_weight i d c [] = unfold sum_from in refl
pick_weight i d c ((j, n) ∷ rest) =
    let f : ℕ → ℕ = λ r. is_at i (pick r c d ((j, n) ∷ rest)).0 in
    let ih = pick_weight i d (c + n.weight) rest in
    let split = sum_from-add f c n.weight (total_weight rest) in
    let here =
      sum_from_const f (is_at i j) c n.weight
        (λ k lt. ap (λ x. is_at i x.0) (pick_first (c + k) c d j n rest (omega arith))) in
    let later =
      sum_from_congr f (λ r. is_at i (pick r (c + n.weight) d rest).0) (c + n.weight) (c + n.weight)
        (total_weight rest)
        (λ k lt.
          ap (λ x. is_at i x.0) (pick_later (c + n.weight + k) c d j n rest (omega arith))) in
    omega (arith, split, here, later, ih)

abbrev pub kept_weight : (Node → Bool) → Option Node → ℕ
kept_weight keep none = 0
kept_weight keep (some n) = if keep n then n.weight else 0

weight_of_below :
    (keep : Node → Bool) (b i : ℕ) (ns : List Node) → i < b → weight_of i (collect keep b ns) ≡ 0
unfolding collect weight_of
weight_of_below keep b i [] lt = refl
weight_of_below keep b i (n ∷ ns) lt = ground (arith, weight_of_below keep (suc b) i ns)

weight_of-collect :
    (keep : Node → Bool) (b j : ℕ) (ns : List Node)
    → weight_of (b + j) (collect keep b ns) ≡ kept_weight keep (get_elem? ns j)
unfolding collect weight_of
weight_of-collect keep b j [] = refl
weight_of-collect keep b zero (n ∷ ns) = ground (arith, weight_of_below keep (suc b) (b + 0) ns)
weight_of-collect keep b (suc j) (n ∷ ns) = ground (
  arith,
  weight_of-collect keep (suc b) j ns,
  ap (λ i. weight_of i (collect keep (suc b) ns)) (suc-add_eq b j),
)

pointers_step :
    (call : Pool → Pool × Option (ℕ × Node)) (k : ℕ) (p p' : Pool) (c : ℕ × Node)
    → call p ≡ (p', some c)
    → pointers call (suc k) p ≡ c.0 ∷ pointers call k p'
unfolding pointers
pointers_step call k p p' (i, n) e = ap (λ x. pointer_of x.1 ++ pointers call k x.0) e

-- The remainder is taken again at each call, which changes nothing.
again-mod : (a b t : ℕ) → (a % t + 1 + b) % t ≡ (suc a + b) % t
again-mod a b t =
    ap (λ m. m % t) (add_assoc (a % t) 1 b)
    ∙ mod-add-mod a t (1 + b)
    ∙ ap (λ m. m % t) (suc_sum a b)
  where
    suc_sum : (a b : ℕ) → a + (1 + b) ≡ suc a + b
    suc_sum a b = omega arith

-- A call that moves the rotation index on by one, modulo `t`, and returns the node at the new index.
module _ (call : Pool → Pool × Option (ℕ × Node)) (p : Pool) (t : ℕ) (at : ℕ → ℕ × Node)
    (turns : (rr : ℕ)
      → call (record p { rr = rr })
        ≡ (record p { rr = (rr + 1) % t }, some (at ((rr + 1) % t)))) where
  count-pointers :
      (i k rr : ℕ)
      → count i (pointers call k (record p { rr = rr }))
        ≡ sum_from (λ m. is_at i (at (m % t)).0) (rr + 1) k
  unfolding pointers count
  count-pointers i zero rr = unfold sum_from in refl
  count-pointers i (suc k) rr =
      let p' : Pool = record p { rr = (rr + 1) % t } in
      let rest = count-pointers i k ((rr + 1) % t) in
      let moved =
        sum_from_congr (λ m. is_at i (at (m % t)).0) (λ m. is_at i (at (m % t)).0)
          ((rr + 1) % t + 1) (suc (rr + 1)) k
          (λ m _. ap (λ r. is_at i (at r).0) (again-mod (rr + 1) m t)) in
      ap (count i) (pointers_step call k (record p { rr = rr }) p' (at ((rr + 1) % t)) (turns rr))
      ∙ ap (λ n. is_at i (at ((rr + 1) % t)).0 + n) (rest ∙ moved)
      ∙ sum_from_head (λ m. is_at i (at (m % t)).0) (rr + 1) k

  -- Over `t` calls each pointer comes as often as over the indices below `t`.
  pub count_turn :
      (i : ℕ) → 0 < t → count i (pointers call t p) ≡ sum_from (λ r. is_at i (at r).0) 0 t
  count_turn i pos = count-pointers i t p.rr ∙ sum_from-mod (λ r. is_at i (at r).0) (p.rr + 1) t pos

-- Pointers and nodes that the selection loop keeps belong together.
abbrev pub Kept : (Node → Bool) → ℕ → List Node → ℕ × Node → Type 0
Kept keep b ns (i, n) = (j : ℕ) × (i ≡ b + j) × (get_elem? ns j ≡ some n) × (keep n ≡ true)

Kept-cons :
    (keep : Node → Bool) (b : ℕ) (m : Node) (ns : List Node) (c : ℕ × Node)
    → Kept keep (suc b) ns c
    → Kept keep b (m ∷ ns) c
Kept-cons keep b m ns (i, n) (j, e, g, h) = (suc j, omega arith, g, h)

pub collect-Kept :
    (keep : Node → Bool) (b : ℕ) (ns : List Node) → All (Kept keep b ns) (collect keep b ns)
unfolding collect
collect-Kept keep b [] = tt
collect-Kept keep b (n ∷ ns) =
    let rest : All (Kept keep b (n ∷ ns)) (collect keep (suc b) ns) =
      All-map (Kept keep (suc b) ns) (Kept keep b (n ∷ ns)) (Kept-cons keep b n ns)
        (collect keep (suc b) ns) (collect-Kept keep (suc b) ns) in
    elim (Bool-cases (keep n)) [
      | inl e ↦ rw e ((zero, omega arith, refl, e), rest)
      | inr e ↦ rw e rest
    ]

pick-All {κ} :
    (P : ℕ × Node → Type κ) (r c : ℕ) (d : ℕ × Node) (cs : List (ℕ × Node))
    → P d
    → All P cs
    → P (pick r c d cs)
unfolding pick
pick-All P r c d [] pd a = pd
pick-All P r c d ((i, n) ∷ cs) pd a =
    if_elim P (ltb r (c + n.weight)) (i, n) (pick r (c + n.weight) d cs) a.0
      (pick-All P r (c + n.weight) d cs pd a.1)

abbrev pub Selected : (Node → Bool) → List Node → Option (ℕ × Node) → Type 0
Selected keep ns none = ⊥
Selected keep ns (some (i, n)) = (get_elem? ns i ≡ some n) × (keep n ≡ true)

Kept-Selected :
    (keep : Node → Bool) (ns : List Node) (c : ℕ × Node)
    → Kept keep 0 ns c
    → Selected keep ns (some c)
Kept-Selected keep ns (i, n) (j, e, g, h) = (rw (e, zero-add) g, h)

pub rotate-Selected :
    (keep : Node → Bool) (p : Pool) (c : ℕ × Node) (cs : List (ℕ × Node))
    → collect keep 0 p.nodes ≡ c ∷ cs
    → Selected keep p.nodes (rotate p c cs).1
unfolding rotate
rotate-Selected keep p c cs e =
    let all : All (Kept keep 0 p.nodes) (c ∷ cs) = rw e at (collect-Kept keep 0 p.nodes) in
    let rr = (p.rr + 1) % total_weight (c ∷ cs) in
    Kept-Selected keep p.nodes (pick rr 0 c (c ∷ cs))
      (pick-All (Kept keep 0 p.nodes) rr 0 c (c ∷ cs) all.0 all)

pub rotate_turn :
    (call : Pool → Pool × Option (ℕ × Node)) (keep : Node → Bool) (p : Pool) (c : ℕ × Node)
    (cs : List (ℕ × Node))
    → ((rr : ℕ) → call (record p { rr = rr }) ≡ rotate (record p { rr = rr }) c cs)
    → collect keep 0 p.nodes ≡ c ∷ cs
    → 0 < total_weight (c ∷ cs)
    → (i : ℕ)
    → count i (pointers call (total_weight (c ∷ cs)) p) ≡ kept_weight keep (get_elem? p.nodes i)
unfolding rotate
rotate_turn call keep p c cs turns e pos i =
    count_turn call p (total_weight (c ∷ cs)) (λ r. pick r 0 c (c ∷ cs)) turns i pos
    ∙ pick_weight i c 0 (c ∷ cs)
    ∙ ap (weight_of i) (sym e)
    ∙ ap (λ j. weight_of j (collect keep 0 p.nodes)) (sym (zero-add i))
    ∙ weight_of-collect keep 0 i p.nodes
