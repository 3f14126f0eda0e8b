-- ===== src/Balancer/Pointers.antt =====
-- The nodes of balancer.go behind their pointers. A `*Node` is an address in a heap that only grows;
-- a request or a round of health checks may hold it while a reload replaces the slice of its pool.
pub mod Stale
use rpc_node_gateway.Prelude.{
  ℕ, zero, suc, ◌+◌, ◌<◌, ◌≤◌, ◌≡◌, ◌≢◌, refl, sym, ap, ◌∙◌, String, Option, none, some, List, [],
  ◌∷◌, ◌++◌, ℤ, ◌==◌, ==_iff, if◌then◌else◌, length, length-append, length-set, get_elem?,
  get_elem?-lt, get_elem?_total, get_elem?-set_self, get_elem?-set_ne, set, All, Bool-cases,
  Option-cases, inl, inr, arith,
}
use rpc_node_gateway.Config.{NodeConfig}
use rpc_node_gateway.Balancer.{
  Node, Pool, succeed, fail, update, build_nodes, next, next_ws, report_success, report_failure,
  replace_nodes,
}
use rpc_node_gateway.Balancer.Invariant.{
  Call, nexts, next_wss, succeeds, fails, replaces, step, next-nodes, next_ws-nodes,
}
use rpc_node_gateway.Balancer.Invariant as Positions

-- The nodes that were ever made, and a pool with its slice of pointers.
pub record Heap : Type 0 where
  pub cells : List Node
  pub chain_id : String
  pub nodes : List ℕ
  pub rr : ℕ
  pub unhealthy_threshold : ℤ
  pub healthy_threshold : ℤ

abbrev pub prepend : Option Node → List Node → List Node
prepend none ns = ns
prepend (some n) ns = n ∷ ns

-- The nodes behind pointers.
unfoldable pub deref : List Node → List ℕ → List Node
deref cells [] = []
deref cells (a ∷ rest) = prepend (get_elem? cells a) (deref cells rest)

-- The pool as the loops over its slice see it.
abbrev pub seen : Heap → Pool
seen h = record {
  chain_id = h.chain_id;
  nodes = deref h.cells h.nodes;
  rr = h.rr;
  unhealthy_threshold = h.unhealthy_threshold;
  healthy_threshold = h.healthy_threshold;
}

-- The addresses of new nodes, from the first free one on.
unfoldable pub alloc : ℕ → List Node → List ℕ
alloc free [] = []
alloc free (n ∷ ns) = free ∷ alloc (suc free) ns

-- A choice of a node, a report on the node at an address, a reload, and nodes that other pools make.
pub data Op : Type 0 where
  chooses chooses_ws : Op
  reports_success reports_failure : ℕ → Op
  reloads : List NodeConfig → Op
  others : List Node → Op

-- `ReportSuccess` and `ReportFailure` write through the pointer, whatever the slice is by then.
unfoldable pub perform : Heap → Op → Heap
perform h chooses = record h { rr = (next (seen h)).0.rr }
perform h chooses_ws = record h { rr = (next_ws (seen h)).0.rr }
perform h (reports_success a) = record h { cells = update (succeed h.healthy_threshold) a h.cells }
perform h (reports_failure a) = record h { cells = update (fail h.unhealthy_threshold) a h.cells }
perform h (reloads cfgs) = record h {
  cells = h.cells ++ build_nodes cfgs;
  nodes = alloc (length h.cells) (build_nodes cfgs);
  rr = 0;
}
perform h (others ns) = record h { cells = h.cells ++ ns }

unfoldable pub perform_all : Heap → List Op → Heap
perform_all h [] = h
perform_all h (o ∷ os) = perform_all (perform h o) os
