-- ===== src/Balancer.antt =====
-- internal/balancer/balancer.go: the upstream nodes of each chain, their health, and the weighted
-- rotation. A `*Node` is the position of the node in its pool's slice, which is never reordered in
-- place: `ReplaceNodes` builds a new slice. Balancer/Pointers.antt has the pointers themselves. Weights
-- add up below 2^63, so sums do not wrap; the int32 counters do wrap.
pub mod Health
mod Rotation
pub mod Names
pub mod Next
pub mod NextWs
pub mod Invariant
pub mod Reload
pub mod Pointers
pub mod Supply
pub mod Views
pub mod WsUrl
pub mod Tests
use rpc_node_gateway.Prelude.{
  ℕ, suc, ◌+◌, ◌%◌, String, Bool, true, false, not, ◌&&◌, Option, none, some, List, [], ◌∷◌, ℤ, pos,
  is_nonpos, to_ℕ, i32_succ, geb_ℤ, ltb, leb, ◌==◌, if◌then◌else◌, str_eq, str_append, has_prefix,
  trim_prefix, decimal, length, get_elem?, set, Assoc,
}
use rpc_node_gateway.Config.{NodeConfig}
use rpc_node_gateway.JsonRpc.{RawMessage, present}

pub record Node : Type 0 where
  pub name : String
  pub url : String
  pub ws_url : String
  pub weight : ℕ
  pub healthy : Bool
  pub fail_count : ℤ
  pub ok_count : ℤ

pub record Pool : Type 0 where
  pub chain_id : String
  pub nodes : List Node
  pub rr : ℕ
  pub unhealthy_threshold : ℤ
  pub healthy_threshold : ℤ

pub record Registry : Type 0 where
  pub pools : Assoc Pool
  pub unhealthy_threshold : ℤ
  pub healthy_threshold : ℤ

unfoldable pub derive_ws_url : String → String → String
derive_ws_url http_url explicit =
    if not (str_eq explicit "")
    then explicit
    else if has_prefix http_url "https://"
    then str_append "wss://" (trim_prefix http_url "https://")
    else if has_prefix http_url "http://"
    then str_append "ws://" (trim_prefix http_url "http://")
    else if has_prefix http_url "wss://"
    then http_url
    else if has_prefix http_url "ws://"
    then http_url
    else ""

-- The body of the loop of `buildNodes`, at index `i`.
unfoldable pub build_node : ℕ → NodeConfig → Node
unfolding derive_ws_url
build_node i n = record {
  name = if str_eq n.name "" then str_append "node-" (decimal (i + 1)) else n.name;
  url = n.url;
  ws_url = derive_ws_url n.url n.ws_url;
  weight = if is_nonpos n.weight then 1 else to_ℕ n.weight;
  healthy = true;
  fail_count = pos 0;
  ok_count = pos 0;
}

unfoldable pub build_from : ℕ → List NodeConfig → List Node
build_from i [] = []
build_from i (n ∷ ns) = build_node i n ∷ build_from (suc i) ns

unfoldable pub build_nodes : List NodeConfig → List Node
unfolding build_from
build_nodes cfgs = build_from 0 cfgs

unfoldable pub new_pool : String → List NodeConfig → ℤ → ℤ → Pool
new_pool chain_id cfgs unhealthy healthy = record {
  chain_id = chain_id;
  nodes = build_nodes cfgs;
  rr = 0;
  unhealthy_threshold = unhealthy;
  healthy_threshold = healthy;
}

-- The nodes that a selection loop keeps, each with its pointer.
unfoldable pub collect : (Node → Bool) → ℕ → List Node → List (ℕ × Node)
collect keep i [] = []
collect keep i (n ∷ ns) =
    let rest = collect keep (suc i) ns in if keep n then (i, n) ∷ rest else rest

unfoldable pub total_weight : List (ℕ × Node) → ℕ
total_weight [] = 0
total_weight ((i, n) ∷ rest) = n.weight + total_weight rest

-- The loop `cursor += n.Weight; if p.rr < cursor { return n }`, with what follows it.
unfoldable pub pick : ℕ → ℕ → ℕ × Node → List (ℕ × Node) → ℕ × Node
pick rr cursor default [] = default
pick rr cursor default ((i, n) ∷ rest) =
    let later = pick rr (cursor + n.weight) default rest in
    if ltb rr (cursor + n.weight) then (i, n) else later

unfoldable pub rotate : Pool → ℕ × Node → List (ℕ × Node) → Pool × Option (ℕ × Node)
unfolding total_weight pick
rotate p c cs =
    let rr = (p.rr + 1) % total_weight (c ∷ cs) in
    (record p { rr = rr }, some (pick rr 0 c (c ∷ cs)))

-- The pointer at an index, which is in range wherever it is used.
abbrev pub at_index : List Node → ℕ → Option (ℕ × Node)
at_index ns i = elim (get_elem? ns i) [ none ↦ none | some n ↦ some (i, n) ]

-- No node is healthy: plain rotation over all of them.
pub rotate_all : Pool → Pool × Option (ℕ × Node)
rotate_all p =
    let rr = (p.rr + 1) % length p.nodes in
    if length p.nodes == 0 then (p, none) else (record p { rr = rr }, at_index p.nodes rr)

abbrev pub is_healthy : Node → Bool
is_healthy n = n.healthy

-- `Next`: the pool with its new rotation index, and the node.
unfoldable pub next : Pool → Pool × Option (ℕ × Node)
unfolding rotate rotate_all
next p = elim (collect is_healthy 0 p.nodes) [ [] ↦ rotate_all p | c ∷ cs ↦ rotate p c cs ]

abbrev pub has_ws : Node → Bool
has_ws n = not (str_eq n.ws_url "")

abbrev pub is_ws_healthy : Node → Bool
is_ws_healthy n = has_ws n && n.healthy

-- The last test of `NextWS`, and what follows.
pub rotate_ws : Pool → List (ℕ × Node) → Pool × Option (ℕ × Node)
unfolding rotate
rotate_ws p [] = (p, none)
rotate_ws p (c ∷ cs) = if ltb 0 (total_weight (c ∷ cs)) then rotate p c cs else (p, none)

unfoldable pub next_ws : Pool → Pool × Option (ℕ × Node)
unfolding rotate_ws
next_ws p = elim (collect is_ws_healthy 0 p.nodes) [
  | [] ↦ rotate_ws p (collect has_ws 0 p.nodes)
  | c ∷ cs ↦ rotate_ws p (c ∷ cs)
]

-- `ReportSuccess` and `ReportFailure` on the node, at a threshold.
unfoldable pub succeed : ℤ → Node → Node
succeed threshold n =
    let ok = i32_succ n.ok_count in
    if not n.healthy && geb_ℤ ok threshold
    then record n { healthy = true; fail_count = pos 0; ok_count = pos 0 }
    else record n { fail_count = pos 0; ok_count = ok }

unfoldable pub fail : ℤ → Node → Node
fail threshold n =
    let fails = i32_succ n.fail_count in
    if n.healthy && geb_ℤ fails threshold
    then record n { healthy = false; fail_count = fails; ok_count = pos 0 }
    else record n { fail_count = fails; ok_count = pos 0 }

-- A write through the pointer.
unfoldable pub update : (Node → Node) → ℕ → List Node → List Node
update f i ns = elim (get_elem? ns i) [ none ↦ ns | some n ↦ set ns i (f n) ]

unfoldable pub report_success : Pool → ℕ → Pool
unfolding succeed update
report_success p i = record p { nodes = update (succeed p.healthy_threshold) i p.nodes }

unfoldable pub report_failure : Pool → ℕ → Pool
unfolding fail update
report_failure p i = record p { nodes = update (fail p.unhealthy_threshold) i p.nodes }

-- The loop of `checkAll` over the copied slice; `ok` says whether the probe of a URL succeeds.
check_loop : (String → Bool) → ℕ → List Node → Pool → Pool
check_loop ok i [] p = p
check_loop ok i (n ∷ ns) p =
    check_loop ok (suc i) ns (if ok n.url then report_success p i else report_failure p i)

unfoldable pub check_all : (String → Bool) → Pool → Pool
unfolding check_loop
check_all ok p = check_loop ok 0 p.nodes p

-- `probe` of a URL. `client` gives the status and the body, or nothing; `decode` gives the field
-- `error` of the JSON object that the body starts with, or nothing.
unfoldable pub probe : (String → Option (ℕ × String)) → (String → Option RawMessage) → String → Bool
probe client decode url = elim (client url) [
  | none ↦ false
  | some (status, body) ↦
      if leb 500 status
      then false
      else elim (decode body) [ none ↦ false | some error ↦ not (present error) ]
]

unfoldable pub replace_nodes : Pool → List NodeConfig → Pool
replace_nodes p cfgs = record p { nodes = build_nodes cfgs; rr = 0 }
