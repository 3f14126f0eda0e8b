-- ===== src/Proxy/Keeping.antt =====
-- A request to the proxy keeps the counters consistent.
use rpc_node_gateway.Prelude.{
  ℕ, String, Bool, false, not, Option, none, some, leb, ltb, if_elim, Option-cases, inl, inr,
}
use rpc_node_gateway.Model.{Token}
use rpc_node_gateway.Balancer.{Node, Pool, next}
use rpc_node_gateway.RateLimit.{Lib}
use rpc_node_gateway.JsonRpc.{Codec}
use rpc_node_gateway.Billing.Books.{Books}
use rpc_node_gateway.Stats.Keeping.{Kept, record_proxy-Kept}
use rpc_node_gateway.Proxy.{
  Request, Answer, Moment, World, Forward, meta_of, attempt, put_pool, record_failure, bill,
  count_answer, settle, report_answer, send, serve_http,
}
use rpc_node_gateway.Proxy.Cases.{serve_http-cases}

module _ {lib : Lib} where
  record_failure-Kept :
      (m : Moment) (token : Token) (chain_id : String) (billable : Bool) (w : World lib)
      → Kept w.books.stats (record_failure m token chain_id billable w).books.stats
  unfolding record_failure
  record_failure-Kept m token chain_id billable w =
      record_proxy-Kept m.now w.books.stats (meta_of token) chain_id 0 0 _ billable

  count_answer-Kept :
      (m : Moment) (r : Request) (token : Token) (node : Node) (n : ℕ × ℕ) (b : Books lib)
      → Kept b.stats (count_answer m r token node n b).stats
  unfolding count_answer bill
  count_answer-Kept m r token node (n, e) b =
      let kept = record_proxy-Kept m.now b.stats (meta_of token) r.chain_id n e false _ in
      if_elim (λ (x : Books lib). Kept b.stats x.stats) (ltb 0 n) _ _ kept kept

  settle-Kept :
      (codec : Codec) (m : Moment) (r : Request) (token : Token) (node : Node)
      (response : Option (String × ℕ)) (w : World lib)
      → Kept w.books.stats (settle codec m r token node response w).1.books.stats
  unfolding settle
  settle-Kept codec m r token node none w = record_failure-Kept m token r.chain_id false w
  settle-Kept codec m r token node (some (body, status)) w =
      if_elim (λ (x : Answer × World lib). Kept w.books.stats x.1.books.stats) (leb 500 status) _ _
        (record_failure-Kept m token r.chain_id (not token.billing_free) w)
        (count_answer-Kept m r token node _ w.books)

  send-Kept :
      (codec : Codec) (forward : Forward) (m : Moment) (r : Request) (token : Token) (body : String)
      (p : Pool) (w : World lib)
      → Kept w.books.stats (send codec forward m r token body p w).1.books.stats
  unfolding send
  send-Kept codec forward m r token body p w = elim (Option-cases (next p).1) [
    | inl e ↦
        rw (e, send)
          (record_failure-Kept m token r.chain_id false (put_pool r.chain_id (next p).0 w))
    | inr (c, e) ↦
        let (p₂, (i, node), response) = attempt forward body (next p).0 c in
        rw (e, send)
          (settle-Kept codec m r token node response
            (put_pool r.chain_id (report_answer p₂ i response) w))
  ]

  pub serve_http-Kept :
      (codec : Codec) (forward : Forward) (m : Moment) (r : Request) (w : World lib)
      → Kept w.books.stats (serve_http codec forward m r w).1.books.stats
  serve_http-Kept codec forward m r w =
      serve_http-cases (λ x. Kept w.books.stats x.1.books.stats) codec forward m r w (λ a h. h)
        (λ token body p found. send-Kept codec forward m r token body p w)
