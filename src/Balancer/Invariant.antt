-- ===== src/Balancer/Invariant.antt =====
-- What every operation of a pool keeps, and a round of `checkAll` node by node.
use mathlib.Core.Path.{ap₂}
use mathlib.Core.List
use rpc_node_gateway.Prelude.{
  ℕ, suc, ◌<◌, ◌≡◌, refl, sym, ap, ◌∙◌, String, Bool, List, [], ◌∷◌, ◌++◌, map, ℤ, pos, i32_limit,
  is_nonpos, is_nonpos-to_ℕ, if◌then◌else◌, if_elim, length, length-append, get_elem?, All,
  All-get_elem?, All-set, Option-cases, Bool-cases, inl, inr, arith,
}
use rpc_node_gateway.Config.{NodeConfig}
use rpc_node_gateway.Balancer.{
  Node, Pool, build_node, build_from, build_nodes, next, next_ws, rotate, rotate_all, rotate_ws,
  succeed, fail, update, report_success, report_failure, check_loop, check_all, replace_nodes,
  new_pool,
}
use rpc_node_gateway.Balancer.Health.{IsCounting, success, failure, report, report-health}

-- A node of a pool with thresholds `u` and `h`.
abbrev pub IsSound : ℕ → ℕ → Node → Type 0
IsSound u h n = (0 < n.weight) × IsCounting u h n

pub record Invariant (u h : ℕ) (p : Pool) : Type 0 where
  pub unhealthy_at : p.unhealthy_threshold ≡ pos u
  pub healthy_at : p.healthy_threshold ≡ pos h
  pub sound : All (IsSound u h) p.nodes

-- The calls that a pool gets, with pointers into its present slice of nodes.
pub data Call : Type 0 where
  nexts next_wss : Call
  succeeds fails : ℕ → Call
  checks : (String → Bool) → Call
  replaces : List NodeConfig → Call

unfoldable pub step : Pool → Call → Pool
step p nexts = (next p).0
step p next_wss = (next_ws p).0
step p (succeeds i) = report_success p i
step p (fails i) = report_failure p i
step p (checks probe) = check_all probe p
step p (replaces cfgs) = replace_nodes p cfgs

unfoldable pub run : Pool → List Call → Pool
run p [] = p
run p (c ∷ cs) = run (step p c) cs

-- `next` and `next_ws` touch the rotation index alone.
pub next-nodes : (p : Pool) → (rr : ℕ) × ((next p).0 ≡ record p { rr = rr })
unfolding next rotate rotate_all
next-nodes p = ((next p).0.rr, ground arith)

pub next_ws-nodes : (p : Pool) → (rr : ℕ) × ((next_ws p).0 ≡ record p { rr = rr })
unfolding next_ws rotate rotate_ws
next_ws-nodes p = ((next_ws p).0.rr, ground arith)

update-All {κ} :
    (P : Node → Type κ) (f : Node → Node) (i : ℕ) (ns : List Node)
    → ((n : Node) → P n → P (f n))
    → All P ns
    → All P (update f i ns)
unfolding update
update-All P f i ns keep all = elim (Option-cases (get_elem? ns i)) [
  | inl e ↦ rw (e, update) all
  | inr (n, e) ↦ rw (e, update) (All-set P ns i (f n) all (keep n (All-get_elem? P ns i all e)))
]

build_from-IsSound :
    (u h i : ℕ) (cfgs : List NodeConfig) → 0 < u → All (IsSound u h) (build_from i cfgs)
unfolding build_from build_node
build_from-IsSound u h i [] pu = tt
build_from-IsSound u h i (c ∷ cfgs) pu = (
  (
    elim (Bool-cases (is_nonpos c.weight)) [
      | inl e ↦ rw e (omega arith)
      | inr e ↦ rw e (is_nonpos-to_ℕ c.weight e)
    ],
    pu,
  ),
  build_from-IsSound u h (suc i) cfgs pu,
)

-- What a probe does to a node, by its outcome.
abbrev pub check_node : (String → Bool) → ℤ → ℤ → Node → Node
check_node probe unhealthy healthy n = if probe n.url then succeed healthy n else fail unhealthy n

update_cons :
    (f : Node → Node) (i : ℕ) (m : Node) (ns : List Node)
    → update f (suc i) (m ∷ ns) ≡ m ∷ update f i ns
unfolding update
update_cons f i m ns = ground arith

update_at :
    (f : Node → Node) (pre : List Node) (n : Node) (ns : List Node)
    → update f (length pre) (pre ++ n ∷ ns) ≡ pre ++ f n ∷ ns
unfolding update
update_at f [] n ns = refl
update_at f (m ∷ pre) n ns =
    update_cons f (length pre) m (pre ++ n ∷ ns) ∙ ap (λ l. m ∷ l) (update_at f pre n ns)

report_at :
    (probe : String → Bool) (p : Pool) (pre : List Node) (n : Node) (ns : List Node)
    → (if probe n.url
        then report_success (record p { nodes = pre ++ n ∷ ns }) (length pre)
        else report_failure (record p { nodes = pre ++ n ∷ ns }) (length pre))
      ≡ record p {
        nodes = pre ++ check_node probe p.unhealthy_threshold p.healthy_threshold n ∷ ns;
      }
unfolding report_success report_failure
report_at probe p pre n ns = elim (Bool-cases (probe n.url)) [
  | inl e ↦
      rw e (ap (λ l. record p { nodes = l }) (update_at (succeed p.healthy_threshold) pre n ns))
  | inr e ↦
      rw e (ap (λ l. record p { nodes = l }) (update_at (fail p.unhealthy_threshold) pre n ns))
]

snoc {ℓ} : {A : Type ℓ} (pre : List A) (n : A) (ns : List A) → pre ++ n ∷ ns ≡ (pre ++ n ∷ []) ++ ns
snoc pre n ns = sym (List.append_assoc pre (n ∷ []) ns)

length-snoc {ℓ} : {A : Type ℓ} (pre : List A) (n : A) → suc (length pre) ≡ length (pre ++ n ∷ [])
length-snoc pre n = omega (arith, length-append pre (n ∷ []))

check_loop-map :
    (probe : String → Bool) (p : Pool) (pre ns : List Node)
    → check_loop probe (length pre) ns (record p { nodes = pre ++ ns }) ≡ record p {
      nodes = pre ++ map (check_node probe p.unhealthy_threshold p.healthy_threshold) ns;
    }
unfolding check_loop
check_loop-map probe p pre [] = refl
check_loop-map probe p pre (n ∷ ns) =
    let n' = check_node probe p.unhealthy_threshold p.healthy_threshold n in
    let ms = map (check_node probe p.unhealthy_threshold p.healthy_threshold) ns in
    ap (check_loop probe (suc (length pre)) ns) (report_at probe p pre n ns)
    ∙ ap₂ (λ i l. check_loop probe i ns (record p { nodes = l })) (length-snoc pre n')
        (snoc pre n' ns)
    ∙ check_loop-map probe p (pre ++ n' ∷ []) ns
    ∙ ap (λ l. record p { nodes = l }) (sym (snoc pre n' ms))

-- A round of health checks reports to every node the outcome of its own probe, once.
pub check_all-map :
    (probe : String → Bool) (p : Pool)
    → check_all probe p ≡ record p {
      nodes = map (check_node probe p.unhealthy_threshold p.healthy_threshold) p.nodes;
    }
unfolding check_all
check_all-map probe p = check_loop-map probe p [] p.nodes

abbrev SoundStep : ℕ → ℕ → (Node → Node) → Type 0
SoundStep u h f = (n : Node) → IsSound u h n → IsSound u h (f n)

All-map {κ} :
    (P : Node → Type κ) (f : Node → Node)
    → ((n : Node) → P n → P (f n))
    → (ns : List Node) → All P ns
    → All P (map f ns)
All-map P f keep [] a = tt
All-map P f keep (n ∷ ns) a = (keep n a.0, All-map P f keep ns a.1)

weight-succeed : (t : ℤ) (n : Node) → (succeed t n).weight ≡ n.weight
unfolding succeed
weight-succeed t n = ground arith

weight-fail : (t : ℤ) (n : Node) → (fail t n).weight ≡ n.weight
unfolding fail
weight-fail t n = ground arith

module _ (u h : ℕ) (u_pos : 0 < u) (h_pos : 0 < h) (u_max : u < i32_limit)
    (h_max : h < i32_limit) where
  succeed-IsSound : (n : Node) → IsSound u h n → IsSound u h (succeed (pos h) n)
  unfolding report
  succeed-IsSound n (w, c) =
      (rw weight-succeed w, (report-health u h u_pos h_pos u_max h_max success n c).1)

  fail-IsSound : (n : Node) → IsSound u h n → IsSound u h (fail (pos u) n)
  unfolding report
  fail-IsSound n (w, c) =
      (rw weight-fail w, (report-health u h u_pos h_pos u_max h_max failure n c).1)

  check_node-IsSound :
      (probe : String → Bool) (n : Node)
      → IsSound u h n
      → IsSound u h (check_node probe (pos u) (pos h) n)
  check_node-IsSound probe n s =
      if_elim (IsSound u h) (probe n.url) (succeed (pos h) n) (fail (pos u) n) (succeed-IsSound n s)
        (fail-IsSound n s)

  rewound : (p : Pool) (rr : ℕ) → Invariant u h p → Invariant u h (record p { rr = rr })
  rewound p rr v = record {
    unhealthy_at = v.unhealthy_at;
    healthy_at = v.healthy_at;
    sound = v.sound;
  }

  pub step-Invariant : (p : Pool) (c : Call) → Invariant u h p → Invariant u h (step p c)
  unfolding step report_success report_failure replace_nodes build_nodes
  step-Invariant p nexts v = let (rr, e) = next-nodes p in rw e (rewound p rr v)
  step-Invariant p next_wss v = let (rr, e) = next_ws-nodes p in rw e (rewound p rr v)
  step-Invariant p (succeeds i) v = record {
    unhealthy_at = v.unhealthy_at;
    healthy_at = v.healthy_at;
    sound =
        rw v.healthy_at
          (update-All (IsSound u h) (succeed (pos h)) i p.nodes succeed-IsSound v.sound);
  }
  step-Invariant p (fails i) v = record {
    unhealthy_at = v.unhealthy_at;
    healthy_at = v.healthy_at;
    sound =
        rw v.unhealthy_at (update-All (IsSound u h) (fail (pos u)) i p.nodes fail-IsSound v.sound);
  }
  step-Invariant p (checks probe) v = rw (check_all-map probe p) (record {
    unhealthy_at = v.unhealthy_at;
    healthy_at = v.healthy_at;
    sound =
        rw (v.unhealthy_at, v.healthy_at)
          (All-map (IsSound u h) (check_node probe (pos u) (pos h)) (check_node-IsSound probe)
            p.nodes v.sound);
  })
  step-Invariant p (replaces cfgs) v = record {
    unhealthy_at = v.unhealthy_at;
    healthy_at = v.healthy_at;
    sound = build_from-IsSound u h 0 cfgs u_pos;
  }

  pub run-Invariant : (p : Pool) (cs : List Call) → Invariant u h p → Invariant u h (run p cs)
  unfolding run
  run-Invariant p [] v = v
  run-Invariant p (c ∷ cs) v = run-Invariant (step p c) cs (step-Invariant p c v)

  -- A pool that starts from any configuration, with positive int32 thresholds, has after any calls
  -- positive weights, and in each node the counter that decides next below its threshold.
  pub run-new_pool-Invariant :
      (id : String) (cfgs : List NodeConfig) (cs : List Call)
      → Invariant u h (run (new_pool id cfgs (pos u) (pos h)) cs)
  run-new_pool-Invariant id cfgs cs = run-Invariant (new_pool id cfgs (pos u) (pos h)) cs start
    where
      start : Invariant u h (new_pool id cfgs (pos u) (pos h))
      start =
          unfold new_pool build_nodes in
          record {
            unhealthy_at = refl;
            healthy_at = refl;
            sound = build_from-IsSound u h 0 cfgs u_pos;
          }
