-- ===== src/Proxy/Pools.antt =====
-- What an HTTP request does to the pools.
use rpc_node_gateway.Prelude.{
  ℕ, ◌<◌, i32_limit, ◌≡◌, refl, sym, ap, ◌∙◌, String, [], ◌∷◌, lookup, insert, Option, none, some,
  leb, str_eq, if_elim, lookup-insert, Bool-cases, Option-cases, inl, inr, arith,
}
use mathlib.Core.Path.{subst}
use rpc_node_gateway.Model.{Token}
use rpc_node_gateway.Balancer.{Node, Pool, Registry, next, report_failure, report_success}
use rpc_node_gateway.Balancer.Invariant.{Invariant}
use rpc_node_gateway.Balancer.Supply.{
  nexts, succeeds, fails, use_pool, use_all, Used, Used-trans, Touched, Used-Invariant,
}
use rpc_node_gateway.Balancer.Reload.{pool}
use rpc_node_gateway.RateLimit.{Lib}
use rpc_node_gateway.JsonRpc.{Codec}
use rpc_node_gateway.Proxy.Cases.{serve_http-cases}
use rpc_node_gateway.Proxy.{
  Request, Moment, World, Forward, retry, attempt, report_answer, settle, put_pool, record_failure,
  send, serve_http,
}

-- The node that is taken to have answered gave the answer; where there is none, the first failed.
abbrev pub Answered : Forward → String → ℕ × Node → Pool × (ℕ × Node) × Option (String × ℕ) → Type 0
Answered forward body first (p, c, none) = forward first.1.url body ≡ none
Answered forward body first (p, c, some r) = forward c.1.url body ≡ some r

retry-Answered :
    (forward : Forward) (body : String) (p : Pool) (c : ℕ × Node)
    → forward c.1.url body ≡ none
    → Answered forward body c (retry forward body p c)
unfolding retry
retry-Answered forward body p (i, node) none_yet = elim (Option-cases (next p).1) [
  | inl e ↦ rw (e, retry) none_yet
  | inr ((j, other), e) ↦ elim (Bool-cases (str_eq other.url node.url)) [
    | inl t ↦ rw (e, t, retry) none_yet
    | inr t ↦ elim (Option-cases (forward other.url body)) [
      | inl none_too ↦ rw (e, t, none_too, retry) none_yet
      | inr (r, a) ↦ rw (e, t, a, retry) a
    ]
  ]
]

-- Where the attempts end with an answer, the node that they name gave it; where they end without,
-- the first node had failed.
pub attempt-Answered :
    (forward : Forward) (body : String) (p : Pool) (c : ℕ × Node)
    → Answered forward body c (attempt forward body p c)
unfolding attempt
attempt-Answered forward body p (i, node) = elim (Option-cases (forward node.url body)) [
  | inl none_yet ↦
      rw (none_yet, attempt) (retry-Answered forward body (report_failure p i) (i, node) none_yet)
  | inr (r, a) ↦ rw (a, attempt) a
]

retry-pool :
    (forward : Forward) (body : String) (p : Pool) (c : ℕ × Node)
    → (retry forward body p c).0 ≡ (next p).0
unfolding retry
retry-pool forward body p (i, node) = ground arith

next-Used : (p : Pool) → Used p (next p).0
unfolding use_all use_pool
next-Used p = (nexts ∷ [], refl)

attempt-Used :
    (forward : Forward) (body : String) (p : Pool) (c : ℕ × Node)
    → Used p (attempt forward body p c).0
unfolding attempt use_all use_pool
attempt-Used forward body p (i, node) = elim (Option-cases (forward node.url body)) [
  | inl e ↦
      rw (e, attempt) (fails i ∷ nexts ∷ [], retry-pool forward body (report_failure p i) (i, node))
  | inr (r, e) ↦ rw (e, attempt) ([], refl)
]

report_answer-Used : (p : Pool) (i : ℕ) (o : Option (String × ℕ)) → Used p (report_answer p i o)
unfolding report_answer use_all use_pool
report_answer-Used p i none = ([], refl)
report_answer-Used p i (some (body, status)) =
    if_elim (Used p) (leb 500 status) (report_failure p i) (report_success p i) (fails i ∷ [], refl)
      (succeeds i ∷ [], refl)

module _ {lib : Lib} where
  settle-registry :
      (codec : Codec) (m : Moment) (r : Request) (token : Token) (node : Node)
      (response : Option (String × ℕ)) (w : World lib)
      → (settle codec m r token node response w).1.registry ≡ w.registry
  unfolding settle record_failure
  settle-registry codec m r token node none w = refl
  settle-registry codec m r token node (some (body, status)) w = ground arith

  -- A request leaves the registry with one pool changed.
  send-registry :
      (codec : Codec) (forward : Forward) (m : Moment) (r : Request) (token : Token) (body : String)
      (p : Pool) (w : World lib)
      → (p' : Pool) × Used p p'
        × ((send codec forward m r token body p w).1.registry ≡ (put_pool r.chain_id p' w).registry)
  unfolding send record_failure
  send-registry codec forward m r token body p w = elim (Option-cases (next p).1) [
    | inl e ↦ ((next p).0, next-Used p, rw (e, send) refl)
    | inr (c, e) ↦
        let (p₂, (i, node), response) = attempt forward body (next p).0 c in
        (
          report_answer p₂ i response,
          Used-trans p p₂ (report_answer p₂ i response)
              (Used-trans p (next p).0 p₂ (next-Used p) (attempt-Used forward body (next p).0 c))
              (report_answer-Used p₂ i response),
          rw (e, send)
              (settle-registry codec m r token node response
                (put_pool r.chain_id (report_answer p₂ i response) w)),
        )
  ]

  pub serve_http-Touched :
      (codec : Codec) (forward : Forward) (m : Moment) (r : Request) (w : World lib)
      → Touched w.registry (serve_http codec forward m r w).1.registry
  serve_http-Touched codec forward m r w =
      serve_http-cases (λ x. Touched w.registry x.1.registry) codec forward m r w (λ a. inl refl)
        (λ token body p found.
          let (p', used, same) = send-registry codec forward m r token body p w in
          inr (r.chain_id, p, p', found, used, same))

module _ (u h : ℕ) (u_pos : 0 < u) (h_pos : 0 < h) (u_max : u < i32_limit)
    (h_max : h < i32_limit) where
  Touched-Invariant :
      (g g' : Registry)
      → Touched g g'
      → ((j : String) (q : Pool) → pool g j ≡ some q → Invariant u h q)
      → (j : String) (q : Pool) → pool g' j ≡ some q
      → Invariant u h q
  unfolding pool
  Touched-Invariant g g' (inl same) all j q e = all j q (sym (ap (λ r. pool r j) same) ∙ e)
  Touched-Invariant g g' (inr (id, p, p', found, used, same)) all j q e =
      let found_too : lookup j (insert id p' g.pools) ≡ some q =
        sym (ap (λ r. pool r j) same) ∙ e in
      elim (Bool-cases (str_eq id j)) [
        | inl t ↦
            let here : some p' ≡ some q = sym (lookup-insert id j p' g.pools ∙ rw t) ∙ found_too in
            let equal : p' ≡ q = cc in
            subst (Invariant u h) equal
              (Used-Invariant u h u_pos h_pos u_max h_max p p' used (all id p found))
        | inr f ↦ all j q (sym (lookup-insert id j p' g.pools ∙ rw f) ∙ found_too)
      ]

  module _ {lib : Lib} where
    -- With positive int32 thresholds, if every pool of the registry has the invariant of the pools,
    -- then every pool has it after a request.
    pub serve_http-Invariant :
        (codec : Codec) (forward : Forward) (m : Moment) (r : Request) (w : World lib)
        → ((j : String) (q : Pool) → pool w.registry j ≡ some q → Invariant u h q)
        → (j : String) (q : Pool) → pool (serve_http codec forward m r w).1.registry j ≡ some q
        → Invariant u h q
    serve_http-Invariant codec forward m r w all =
        Touched-Invariant w.registry (serve_http codec forward m r w).1.registry
          (serve_http-Touched codec forward m r w) all
