-- ===== src/Proxy/Cases.antt =====
-- The ways through `ServeHTTP` of the proxy.
use rpc_node_gateway.Prelude.{◌≡◌, String, not, some, str_eq, if_elim, Option-cases, inl, inr}
use rpc_node_gateway.Model.{Token}
use rpc_node_gateway.Balancer.{Pool}
use rpc_node_gateway.Balancer.Reload.{pool}
use rpc_node_gateway.RateLimit.{Lib}
use rpc_node_gateway.JsonRpc.{Codec}
use rpc_node_gateway.Proxy.{Request, Answer, Moment, World, Forward, send, serve_http}

module _ {lib : Lib} where
  -- What holds of a refusal, which changes nothing, and of what is sent, holds of a request.
  pub serve_http-cases :
      (Q : Answer × World lib → Type 0) (codec : Codec) (forward : Forward) (m : Moment)
      (r : Request) (w : World lib)
      → ((a : Answer) → Q (a, w))
      → ((token : Token) (body : String) (p : Pool)
          → pool w.registry r.chain_id ≡ some p
          → Q (send codec forward m r token body p w))
      → Q (serve_http codec forward m r w)
  unfolding serve_http
  serve_http-cases Q codec forward m r w refuses sends =
      if_elim Q (not r.is_post) _ _ (refuses _) (elim (Option-cases r.token) [
        | inl t ↦ rw t (refuses _)
        | inr (token, t) ↦ rw t (
            if_elim Q (str_eq r.chain_id "") _ _ (refuses _)
              (elim (Option-cases (pool w.registry r.chain_id)) [
                | inl e ↦ rw e (refuses _)
                | inr (p, e) ↦ rw e (elim (Option-cases r.body) [
                  | inl b ↦ rw b (refuses _)
                  | inr (body, b) ↦ rw b (sends token body p e)
                ])
              ]))
      ])
