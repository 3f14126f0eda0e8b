-- ===== src/Balancer/Pointers/Stale.antt =====
-- What becomes of reports that come late.
use mathlib.Core.Path.{ap₂, subst}
use rpc_node_gateway.Prelude.{
  ℕ, zero, suc, ◌+◌, ◌<◌, ◌≤◌, ◌≡◌, ◌≢◌, refl, sym, ap, ◌∙◌, Option, none, some, List, [], ◌∷◌,
  ◌++◌, ◌==◌, if◌then◌else◌, length, length-append, get_elem?, get_elem?-lt, get_elem?_total,
  get_elem?-set_self, get_elem?-set_ne, All, Bool-cases, Option-cases, inl, inr, arith,
}
use rpc_node_gateway.Balancer.{
  Node, Pool, succeed, fail, update, build_nodes, report_success, report_failure, replace_nodes,
}
use rpc_node_gateway.Balancer.Invariant.{
  Call, nexts, next_wss, succeeds, fails, replaces, step, next-nodes, next_ws-nodes,
}
use rpc_node_gateway.Balancer.Invariant as Positions
use rpc_node_gateway.Balancer.Supply.{length-update}
use rpc_node_gateway.Balancer.Pointers.{
  Heap, prepend, deref, seen, alloc, Op, chooses, chooses_ws, reports_success, reports_failure,
  reloads, others, perform, perform_all,
}

abbrev shifted : Option ℕ → Option ℕ
shifted none = none
shifted (some i) = some (suc i)

-- Where in a slice an address stands.
abbrev pub position : ℕ → List ℕ → Option ℕ
position a [] = none
position a (b ∷ rest) = let later = position a rest in if a == b then some 0 else shifted later

-- A report as a call on positions; one to a node that is no longer in the slice is no call.
abbrev pub at_position : (ℕ → Call) → Option ℕ → List Call
at_position call none = []
at_position call (some i) = call i ∷ []

abbrev pub calls_of : Heap → Op → List Call
calls_of h chooses = nexts ∷ []
calls_of h chooses_ws = next_wss ∷ []
calls_of h (reports_success a) = at_position succeeds (position a h.nodes)
calls_of h (reports_failure a) = at_position fails (position a h.nodes)
calls_of h (reloads cfgs) = replaces cfgs ∷ []
calls_of h (others ns) = []

abbrev pub all_calls : Heap → List Op → List Call
all_calls h [] = []
all_calls h (o ∷ os) = calls_of h o ++ all_calls (perform h o) os

-- No address stands twice.
abbrev pub AreDistinct : List ℕ → Type 0
AreDistinct [] = Unit {0}
AreDistinct (a ∷ rest) = (position a rest ≡ none) × AreDistinct rest

-- The pointers of the slice are valid and distinct.
abbrev pub IsSlice : Heap → Type 0
IsSlice h = All (λ a. a < length h.cells) h.nodes × AreDistinct h.nodes

get_elem?-update_self :
    (f : Node → Node) (a : ℕ) (cells : List Node) (n : Node)
    → get_elem? cells a ≡ some n
    → get_elem? (update f a cells) a ≡ some (f n)
unfolding update
get_elem?-update_self f a cells n e =
    rw (e, update) (get_elem?-set_self cells a (f n) (get_elem?-lt cells a e))

get_elem?-update_ne :
    (f : Node → Node) (a b : ℕ) (cells : List Node)
    → a ≢ b
    → get_elem? (update f a cells) b ≡ get_elem? cells b
unfolding update
get_elem?-update_ne f a b cells ne = elim (Option-cases (get_elem? cells a)) [
  | inl e ↦ rw (e, update) refl
  | inr (n, e) ↦ rw (e, update) (get_elem?-set_ne cells (f n) ne)
]

update_cons :
    (f : Node → Node) (i : ℕ) (m : Node) (ns : List Node)
    → update f (suc i) (m ∷ ns) ≡ m ∷ update f i ns
unfolding update
update_cons f i m ns = ground arith

update_first : (f : Node → Node) (m : Node) (ns : List Node) → update f 0 (m ∷ ns) ≡ f m ∷ ns
unfolding update
update_first f m ns = refl

-- A write at a position, if there is one.
abbrev update_at : (Node → Node) → Option ℕ → List Node → List Node
update_at f none ns = ns
update_at f (some i) ns = update f i ns

update_at-suc :
    (f : Node → Node) (o : Option ℕ) (m : Node) (ns : List Node)
    → update_at f (shifted o) (m ∷ ns) ≡ m ∷ update_at f o ns
update_at-suc f none m ns = refl
update_at-suc f (some i) m ns = update_cons f i m ns

-- Behind other pointers nothing changes.
deref-update_other :
    (f : Node → Node) (a : ℕ) (cells : List Node) (nodes : List ℕ)
    → position a nodes ≡ none
    → deref (update f a cells) nodes ≡ deref cells nodes
unfolding deref
deref-update_other f a cells [] gone = refl
deref-update_other f a cells (b ∷ rest) gone =
    let ne : a ≢ b = λ e. ground arith in
    let later : position a rest ≡ none = ground arith in
    ap₂ prepend (get_elem?-update_ne f a b cells ne) (deref-update_other f a cells rest later)

deref-update_here :
    (f : Node → Node) (a : ℕ) (cells : List Node) (rest : List ℕ) (n : Node)
    → get_elem? cells a ≡ some n
    → position a rest ≡ none
    → deref (update f a cells) (a ∷ rest) ≡ update f 0 (deref cells (a ∷ rest))
unfolding deref
deref-update_here f a cells rest n e gone =
    ap₂ prepend (get_elem?-update_self f a cells n e) (deref-update_other f a cells rest gone)
    ∙ sym (
        ap (λ o. update f 0 (prepend o (deref cells rest))) e ∙ update_first f n (deref cells rest))

deref-update :
    (f : Node → Node) (a : ℕ) (cells : List Node) (nodes : List ℕ)
    → All (λ b. b < length cells) nodes
    → AreDistinct nodes
    → deref (update f a cells) nodes ≡ update_at f (position a nodes) (deref cells nodes)
unfolding deref
deref-update f a cells [] valid distinct = refl
deref-update f a cells (b ∷ rest) (v, vs) (d, ds) =
    let (n, e) = get_elem?_total cells b v in
    elim (Bool-cases (a == b)) [
      | inl same ↦
          let equal : b ≡ a = ground arith in
          rw same (
            subst (λ c. deref (update f a cells) (c ∷ rest) ≡ update f 0 (deref cells (c ∷ rest)))
              (sym equal)
              (deref-update_here f a cells rest n (ap (get_elem? cells) (sym equal) ∙ e)
                (ap (λ c. position c rest) (sym equal) ∙ d)))
      | inr differs ↦
          let ne : a ≢ b = λ e. ground arith in
          rw differs (
            ap₂ prepend (get_elem?-update_ne f a b cells ne ∙ e) (deref-update f a cells rest vs ds)
            ∙ sym (
                ap (λ o. update_at f (shifted (position a rest)) (prepend o (deref cells rest))) e
                ∙ update_at-suc f (position a rest) n (deref cells rest)))
    ]

get_elem?-append_left :
    (cells ns : List Node) (a : ℕ)
    → a < length cells
    → get_elem? (cells ++ ns) a ≡ get_elem? cells a
get_elem?-append_left [] ns a v = ground arith
get_elem?-append_left (n ∷ cells) ns zero v = refl
get_elem?-append_left (n ∷ cells) ns (suc a) v = get_elem?-append_left cells ns a (omega arith)

get_elem?-append_right :
    (cells ns : List Node) (j : ℕ) → get_elem? (cells ++ ns) (length cells + j) ≡ get_elem? ns j
get_elem?-append_right [] ns j = ap (get_elem? ns) (omega arith)
get_elem?-append_right (n ∷ cells) ns j =
    let next : suc (length cells) + j ≡ suc (length cells + j) = omega arith in
    ap (get_elem? (n ∷ cells ++ ns)) next ∙ get_elem?-append_right cells ns j

-- More nodes in the heap change nothing behind the pointers there are.
deref-append :
    (cells ns : List Node) (nodes : List ℕ)
    → All (λ a. a < length cells) nodes
    → deref (cells ++ ns) nodes ≡ deref cells nodes
unfolding deref
deref-append cells ns [] valid = refl
deref-append cells ns (a ∷ rest) (v, vs) =
    ap₂ prepend (get_elem?-append_left cells ns a v) (deref-append cells ns rest vs)

-- The new pointers of a reload point to the new nodes.
deref-alloc :
    (cells : List Node) (free : ℕ) (ns : List Node)
    → ((j : ℕ) → get_elem? cells (free + j) ≡ get_elem? ns j)
    → deref cells (alloc free ns) ≡ ns
unfolding deref alloc
deref-alloc cells free [] found = refl
deref-alloc cells free (n ∷ ns) found =
    ap₂ prepend (ap (get_elem? cells) (omega arith) ∙ found 0)
      (deref-alloc cells (suc free) ns (λ j. ap (get_elem? cells) (omega arith) ∙ found (suc j)))

alloc-position : (a free : ℕ) (ns : List Node) → a < free → position a (alloc free ns) ≡ none
unfolding alloc
alloc-position a free [] lt = refl
alloc-position a free (n ∷ ns) lt =
    let ih = alloc-position a (suc free) ns (omega arith) in ground arith

alloc-AreDistinct : (free : ℕ) (ns : List Node) → AreDistinct (alloc free ns)
unfolding alloc
alloc-AreDistinct free [] = tt
alloc-AreDistinct free (n ∷ ns) =
    (alloc-position free (suc free) ns (omega arith), alloc-AreDistinct (suc free) ns)

alloc-valid :
    (free limit : ℕ) (ns : List Node)
    → free + length ns ≤ limit
    → All (λ a. a < limit) (alloc free ns)
unfolding alloc
alloc-valid free limit [] le = tt
alloc-valid free limit (n ∷ ns) le = (omega arith, alloc-valid (suc free) limit ns (omega arith))

grown-valid : (nodes : List ℕ) (m n : ℕ) → m ≤ n → All (λ a. a < m) nodes → All (λ a. a < n) nodes
grown-valid [] m n le valid = tt
grown-valid (a ∷ rest) m n le (v, vs) = (omega arith, grown-valid rest m n le vs)

perform-IsSlice : (h : Heap) (o : Op) → IsSlice h → IsSlice (perform h o)
unfolding perform
perform-IsSlice h chooses v = v
perform-IsSlice h chooses_ws v = v
perform-IsSlice h (reports_success a) (valid, distinct) =
    (rw (length-update (succeed h.healthy_threshold) a h.cells) valid, distinct)
perform-IsSlice h (reports_failure a) (valid, distinct) =
    (rw (length-update (fail h.unhealthy_threshold) a h.cells) valid, distinct)
perform-IsSlice h (reloads cfgs) v = (
  alloc-valid (length h.cells) (length (h.cells ++ build_nodes cfgs)) (build_nodes cfgs)
      (omega (arith, length-append h.cells (build_nodes cfgs))),
  alloc-AreDistinct (length h.cells) (build_nodes cfgs),
)
perform-IsSlice h (others ns) (valid, distinct) = (
  grown-valid h.nodes (length h.cells) (length (h.cells ++ ns))
      (omega (arith, length-append h.cells ns)) valid,
  distinct,
)

run-succeeds :
    (p : Pool) (o : Option ℕ)
    → Positions.run p (at_position succeeds o)
      ≡ record p { nodes = update_at (succeed p.healthy_threshold) o p.nodes }
unfolding Positions.run step report_success
run-succeeds p none = refl
run-succeeds p (some i) = refl

run-fails :
    (p : Pool) (o : Option ℕ)
    → Positions.run p (at_position fails o)
      ≡ record p { nodes = update_at (fail p.unhealthy_threshold) o p.nodes }
unfolding Positions.run step report_failure
run-fails p none = refl
run-fails p (some i) = refl

perform-seen :
    (h : Heap) (o : Op) → IsSlice h → seen (perform h o) ≡ Positions.run (seen h) (calls_of h o)
unfolding perform Positions.run step replace_nodes
perform-seen h chooses v =
    let (rr, e) = next-nodes (seen h) in ap (λ p. record (seen h) { rr = p.rr }) e ∙ sym e
perform-seen h chooses_ws v =
    let (rr, e) = next_ws-nodes (seen h) in ap (λ p. record (seen h) { rr = p.rr }) e ∙ sym e
perform-seen h (reports_success a) (valid, distinct) =
    ap (λ ns. record (seen h) { nodes = ns })
      (deref-update (succeed h.healthy_threshold) a h.cells h.nodes valid distinct)
    ∙ sym (run-succeeds (seen h) (position a h.nodes))
perform-seen h (reports_failure a) (valid, distinct) =
    ap (λ ns. record (seen h) { nodes = ns })
      (deref-update (fail h.unhealthy_threshold) a h.cells h.nodes valid distinct)
    ∙ sym (run-fails (seen h) (position a h.nodes))
perform-seen h (reloads cfgs) v =
    ap (λ ns. record (seen h) { nodes = ns; rr = 0 })
      (deref-alloc (h.cells ++ build_nodes cfgs) (length h.cells) (build_nodes cfgs)
        (get_elem?-append_right h.cells (build_nodes cfgs)))
perform-seen h (others ns) (valid, distinct) =
    ap (λ ns. record (seen h) { nodes = ns }) (deref-append h.cells ns h.nodes valid)

run-append :
    (p : Pool) (cs ds : List Call)
    → Positions.run p (cs ++ ds) ≡ Positions.run (Positions.run p cs) ds
unfolding Positions.run
run-append p [] ds = refl
run-append p (c ∷ cs) ds = run-append (step p c) cs ds

-- From a slice of valid and distinct pointers on, whatever requests and health checks do in whatever
-- order, the pool as its loops see it goes as the pool with its nodes in place does: a report through
-- a pointer is a report at the place of the node, and none where a reload has replaced the node.
pub perform_all-seen :
    (h : Heap) (os : List Op)
    → IsSlice h
    → seen (perform_all h os) ≡ Positions.run (seen h) (all_calls h os)
unfolding perform_all Positions.run
perform_all-seen h [] v = refl
perform_all-seen h (o ∷ os) v =
    perform_all-seen (perform h o) os (perform-IsSlice h o v)
    ∙ ap (λ p. Positions.run p (all_calls (perform h o) os)) (perform-seen h o v)
    ∙ sym (run-append (seen h) (calls_of h o) (all_calls (perform h o) os))
