-- ===== src/WsProxy/Serving/Slots.antt =====
-- That `ServeHTTP` gives back the slot of the guard on every exit.
use rpc_node_gateway.Prelude.{
  ℕ, ◌≡◌, refl, ap, ◌∙◌, String, true, Option, none, some, if_elim, str_eq, eq_refl, eq_iff, lookup,
  insert, Bool-cases, Option-cases, inl, inr, arith,
}
use rpc_node_gateway.Config.{WebSocketConfig}
use rpc_node_gateway.Model.{Token}
use rpc_node_gateway.Balancer.{Node, next_ws}
use rpc_node_gateway.RateLimit.{Lib}
use rpc_node_gateway.JsonRpc.{Codec}
use rpc_node_gateway.WsProxy.Guard.{ConnGuard, held, acquire, release, held-acquire, held-release}
use rpc_node_gateway.WsProxy.Serving.{
  Arrival, Exit, Gate, serve_session, connect, dial_node, serve_token, serve_http,
}

held-release-acquire :
    (g : ConnGuard) (t u : String)
    → (acquire g t).1 ≡ true
    → held (release (acquire g t).0 t) u ≡ held g u
held-release-acquire g t u free = ground (
  arith,
  held-release (acquire g t).0 t u,
  held-acquire g t u,
  held-acquire g t t,
  eq_refl t,
  eq_iff t u,
)

module _ {lib : Lib} (codec : Codec) where
  connect-guard :
      (cfg : WebSocketConfig) (token : Token) (a : Arrival) (o : Option (ℕ × Node)) (g : Gate lib)
      → (connect codec cfg token a o g).1.guard ≡ g.guard
  unfolding connect serve_session
  connect-guard cfg token a none g = refl
  connect-guard cfg token a (some (i, node)) g = ground arith

  dial_node-guard :
      (cfg : WebSocketConfig) (token : Token) (a : Arrival) (g : Gate lib)
      → (dial_node codec cfg token a g).1.guard ≡ g.guard
  unfolding dial_node
  dial_node-guard cfg token a g = elim (Option-cases (lookup a.chain_id g.pools)) [
    | inl unknown ↦ rw (unknown, dial_node) refl
    | inr (p, found) ↦
        rw (found, dial_node)
          (connect-guard cfg token a (next_ws p).1
            (record g { pools = insert a.chain_id (next_ws p).0 g.pools }))
  ]

  serve_token-held :
      (cfg : WebSocketConfig) (token : Token) (a : Arrival) (g : Gate lib) (u : String)
      → held (serve_token codec cfg token a g).1.guard u ≡ held g.guard u
  unfolding serve_token
  serve_token-held cfg token a g u = elim (Bool-cases (acquire g.guard token.key).1) [
    | inr full ↦ rw (full, serve_token) (held-acquire g.guard token.key u ∙ rw full refl)
    | inl free ↦
        rw (free, serve_token)
          (ap (λ guard. held (release guard token.key) u)
              (dial_node-guard cfg token a (record g { guard = (acquire g.guard token.key).0 }))
            ∙ held-release-acquire g.guard token.key u free)
  ]

  -- Whatever a request for a connection brings, and however it ends, the guard counts for every token
  -- as many connections after it as before.
  pub serve_http-held :
      (cfg : WebSocketConfig) (a : Arrival) (g : Gate lib) (u : String)
      → held (serve_http codec cfg a g).1.guard u ≡ held g.guard u
  unfolding serve_http
  serve_http-held cfg a g u = elim (Option-cases a.token) [
    | inl anonymous ↦ rw (anonymous, serve_http) refl
    | inr (token, known) ↦
        rw (known, serve_http)
          (if_elim (λ (x : Exit lib × Gate lib). held x.1.guard u ≡ held g.guard u)
            (str_eq a.chain_id "") _ _ refl (serve_token-held cfg token a g u))
  ]
