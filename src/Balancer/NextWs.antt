-- ===== src/Balancer/NextWs.antt =====
-- `NextWS`: which node it returns, and how often over a turn of the rotation.
use rpc_node_gateway.Prelude.{
  ℕ, ◌<◌, ◌≡◌, ap, ◌∙◌, ◌⊎◌, inl, inr, Bool, true, false, Option, none, some, List, [], ◌∷◌,
  get_elem?, All, All-get_elem?, lt→ltb, arith,
}
use rpc_node_gateway.Balancer.{
  Node, Pool, collect, total_weight, rotate, next_ws, rotate_ws, is_ws_healthy, has_ws,
}
use rpc_node_gateway.Balancer.Rotation.{
  pointers, count, kept_weight, Selected, collect-Kept, rotate-Selected, rotate_turn,
}
use rpc_node_gateway.Balancer.Next.{List-cases, none_kept, total_weight_nil}

abbrev pub IsWeighted : Pool → Type 0
IsWeighted p = All (λ n. 0 < n.weight) p.nodes

abbrev pub ws_weight : Pool → ℕ
ws_weight p = total_weight (collect is_ws_healthy 0 p.nodes)

-- What a call of `NextWS` may return over these nodes.
abbrev pub ChosenWs : List Node → Option (ℕ × Node) → Type 0
ChosenWs ns none = All (λ m. has_ws m ≡ false) ns
ChosenWs ns (some (i, n)) =
    (get_elem? ns i ≡ some n)
    × (has_ws n ≡ true)
    × ((n.healthy ≡ true) ⊎ All (λ m. is_ws_healthy m ≡ false) ns)

total_pos :
    (keep : Node → Bool) (ns : List Node) (c : ℕ × Node) (cs : List (ℕ × Node))
    → All (λ n. 0 < n.weight) ns
    → collect keep 0 ns ≡ c ∷ cs
    → 0 < total_weight (c ∷ cs)
unfolding total_weight
total_pos keep ns (i, n) cs w e =
    let ((j, _, at, _), _) = rw e at (collect-Kept keep 0 ns) in
    omega (arith, All-get_elem? (λ n. 0 < n.weight) ns j w at)

rotate_ws_cons :
    (p : Pool) (c : ℕ × Node) (cs : List (ℕ × Node))
    → 0 < total_weight (c ∷ cs)
    → rotate_ws p (c ∷ cs) ≡ rotate p c cs
unfolding rotate_ws
rotate_ws_cons p c cs pos = rw (lt→ltb 0 (total_weight (c ∷ cs)) pos)

next_ws_some :
    (p : Pool) (c : ℕ × Node) (cs : List (ℕ × Node))
    → collect is_ws_healthy 0 p.nodes ≡ c ∷ cs
    → 0 < total_weight (c ∷ cs)
    → next_ws p ≡ rotate p c cs
unfolding next_ws
next_ws_some p c cs e pos = rw (e, next_ws) (rotate_ws_cons p c cs pos)

next_ws_empty :
    (p : Pool)
    → collect is_ws_healthy 0 p.nodes ≡ []
    → next_ws p ≡ rotate_ws p (collect has_ws 0 p.nodes)
unfolding next_ws
next_ws_empty p e = rw (e, next_ws)

Selected-healthy :
    (ns : List Node) (r : Option (ℕ × Node)) → Selected is_ws_healthy ns r → ChosenWs ns r
Selected-healthy ns none s = absurd s
Selected-healthy ns (some (i, n)) (g, h) = (g, ground arith, inl (ground arith))

Selected-any :
    (ns : List Node) (r : Option (ℕ × Node))
    → All (λ m. is_ws_healthy m ≡ false) ns
    → Selected has_ws ns r
    → ChosenWs ns r
Selected-any ns none down s = absurd s
Selected-any ns (some (i, n)) down (g, h) = (g, h, inr down)

rotate_ws-ChosenWs :
    (p : Pool)
    → IsWeighted p
    → All (λ m. is_ws_healthy m ≡ false) p.nodes
    → ChosenWs p.nodes (rotate_ws p (collect has_ws 0 p.nodes)).1
rotate_ws-ChosenWs p w down = elim (List-cases (collect has_ws 0 p.nodes)) [
  | inl e ↦ rw e (unfold rotate_ws in none_kept has_ws 0 p.nodes e)
  | inr (c, cs, e) ↦
      rw (e, rotate_ws_cons p c cs (total_pos has_ws p.nodes c cs w e))
        (Selected-any p.nodes (rotate p c cs).1 down (rotate-Selected has_ws p c cs e))
]

-- With positive weights, `NextWS` returns no node only if none has a WebSocket URL, and otherwise
-- one that has, which is healthy unless no such node is.
pub next_ws-ChosenWs : (p : Pool) → IsWeighted p → ChosenWs p.nodes (next_ws p).1
next_ws-ChosenWs p w = elim (List-cases (collect is_ws_healthy 0 p.nodes)) [
  | inl e ↦ rw (next_ws_empty p e) (rotate_ws-ChosenWs p w (none_kept is_ws_healthy 0 p.nodes e))
  | inr (c, cs, e) ↦
      rw (next_ws_some p c cs e (total_pos is_ws_healthy p.nodes c cs w e))
        (Selected-healthy p.nodes (rotate p c cs).1 (rotate-Selected is_ws_healthy p c cs e))
]

-- As many calls of `NextWS` as the healthy nodes with a WebSocket URL weigh together return each of
-- these as often as it weighs, and no other.
pub next_ws_turn :
    (p : Pool) (i : ℕ)
    → 0 < ws_weight p
    → count i (pointers next_ws (ws_weight p) p) ≡ kept_weight is_ws_healthy (get_elem? p.nodes i)
next_ws_turn p i pos = elim (List-cases (collect is_ws_healthy 0 p.nodes)) [
  | inl e ↦ absurd (omega (arith, total_weight_nil (collect is_ws_healthy 0 p.nodes) e))
  | inr (c, cs, e) ↦
      ap (λ l. count i (pointers next_ws (total_weight l) p)) e
      ∙ rotate_turn next_ws is_ws_healthy p c cs
          (λ rr. next_ws_some (record p { rr = rr }) c cs e (rw e at pos)) e (rw e at pos) i
]
