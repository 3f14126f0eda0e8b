-- ===== src/WsProxy/Serving/Keeping.antt =====
-- What a request for a connection does to the counters and to the pools.
use rpc_node_gateway.Prelude.{
  ◌≡◌, ◌||◌, refl, ℕ, String, Bool, not, Option, none, some, List, [], ◌∷◌, ◌⊎◌, if_elim, str_eq,
  lookup, insert, Option-cases, inl, inr,
}
use rpc_node_gateway.Config.{WebSocketConfig}
use rpc_node_gateway.Model.{Token}
use rpc_node_gateway.Balancer.{Node, Pool, next_ws}
use rpc_node_gateway.Balancer.Supply.{Used, next_wss, use_pool, use_all}
use rpc_node_gateway.RateLimit.{Lib}
use rpc_node_gateway.JsonRpc.{Codec}
use rpc_node_gateway.Proxy.{meta_of}
use rpc_node_gateway.Stats.Keeping.{Kept, record_ws_connect-Kept}
use rpc_node_gateway.WsProxy.{Session, World, handle_inbound, handle_outbound}
use rpc_node_gateway.WsProxy.Keeping.{handle_inbound-Kept, handle_outbound-Kept}
use rpc_node_gateway.WsProxy.Guard.{acquire}
use rpc_node_gateway.WsProxy.Serving.{
  Frame, from_client, from_node, Arrival, Exit, Gate, Link, write_node, write_client, first_link,
  pump, pump_all, serve_session, connect, dial_node, serve_token, serve_http,
}

module _ {lib : Lib} where
  write_node-stats :
      (text : String) (fails : Bool) (r : Bool × Session × World lib) (l : Link lib)
      → (write_node text fails r l).world.stats ≡ r.2.stats
  unfolding write_node
  write_node-stats text fails (passes, s, w) l =
      if_elim (λ (x : Link lib). x.world.stats ≡ w.stats) (not passes) _ _ refl
        (if_elim (λ (x : Link lib). x.world.stats ≡ w.stats) (fails || l.closed) _ _ refl refl)

  write_client-stats :
      (text : String) (fails : Bool) (r : Session × World lib) (l : Link lib)
      → (write_client text fails r l).world.stats ≡ r.1.stats
  unfolding write_client
  write_client-stats text fails (s, w) l =
      if_elim (λ (x : Link lib). x.world.stats ≡ w.stats) (fails || l.closed) _ _ refl refl

  module _ (codec : Codec) where
    pump-Kept : (l : Link lib) (f : Frame) → Kept l.world.stats (pump codec l f).world.stats
    unfolding pump
    pump-Kept l (from_client m none fails) =
        if_elim (λ (x : Link lib). Kept l.world.stats x.world.stats) l.inbound_done _ _ (λ h. h)
          (λ h. h)
    pump-Kept l (from_client m (some text) fails) =
        if_elim (λ (x : Link lib). Kept l.world.stats x.world.stats) l.inbound_done _ _ (λ h. h)
          (rw (write_node-stats text fails (handle_inbound codec m text l.session l.world) l)
            (handle_inbound-Kept codec m text l.session l.world))
    pump-Kept l (from_node m none fails) =
        if_elim (λ (x : Link lib). Kept l.world.stats x.world.stats) l.outbound_done _ _ (λ h. h)
          (λ h. h)
    pump-Kept l (from_node m (some text) fails) =
        if_elim (λ (x : Link lib). Kept l.world.stats x.world.stats) l.outbound_done _ _ (λ h. h)
          (rw (write_client-stats text fails (handle_outbound codec m text l.session l.world) l)
            (handle_outbound-Kept codec m text l.session l.world))

    pump_all-Kept :
        (l : Link lib) (fs : List Frame) → Kept l.world.stats (pump_all codec l fs).world.stats
    unfolding pump_all
    pump_all-Kept l [] h = h
    pump_all-Kept l (f ∷ fs) h = pump_all-Kept (pump codec l f) fs (pump-Kept l f h)

    -- The counters are kept consistent and the pools are the same, or one has met a `NextWS`.
    abbrev pub Goes : Gate lib → Gate lib → Type 0
    Goes g g' =
        Kept g.stats g'.stats
        × ((g'.pools ≡ g.pools)
            ⊎ ((id : String) × (p : Pool) × (p' : Pool) × (lookup id g.pools ≡ some p)
                × Used p p'
                × (g'.pools ≡ insert id p' g.pools)))

    abbrev Stays : Gate lib → Exit lib × Gate lib → Type 0
    Stays g x = Kept g.stats x.1.stats × (x.1.pools ≡ g.pools)

    connect-Stays :
        (cfg : WebSocketConfig) (token : Token) (a : Arrival) (o : Option (ℕ × Node)) (g : Gate lib)
        → Stays g (connect codec cfg token a o g)
    unfolding connect serve_session
    connect-Stays cfg token a none g = (λ h. h, refl)
    connect-Stays cfg token a (some (i, node)) g =
        if_elim (Stays g) (str_eq node.ws_url "") _ _ (λ h. h, refl)
          (if_elim (Stays g) a.upgrade_fails _ _ (λ h. h, refl)
            (if_elim (Stays g) a.dial_fails _ _ (λ h. h, refl)
              (
                λ h.
                    pump_all-Kept (first_link cfg token a node.ws_url g) a.frames
                      (record_ws_connect-Kept a.now g.stats (meta_of token) a.chain_id h),
                refl,
              )))

    dial_node-Goes :
        (cfg : WebSocketConfig) (token : Token) (a : Arrival) (g : Gate lib)
        → Goes g (dial_node codec cfg token a g).1
    unfolding dial_node use_all use_pool
    dial_node-Goes cfg token a g = elim (Option-cases (lookup a.chain_id g.pools)) [
      | inl unknown ↦ rw (unknown, dial_node) (λ h. h, inl refl)
      | inr (p, found) ↦
          let (kept, same) =
            connect-Stays cfg token a (next_ws p).1
              (record g { pools = insert a.chain_id (next_ws p).0 g.pools }) in
          rw (found, dial_node)
            (kept, inr (a.chain_id, p, (next_ws p).0, found, (next_wss ∷ [], refl), same))
    ]

    serve_token-Goes :
        (cfg : WebSocketConfig) (token : Token) (a : Arrival) (g : Gate lib)
        → Goes g (serve_token codec cfg token a g).1
    unfolding serve_token
    serve_token-Goes cfg token a g =
        if_elim (λ (x : Exit lib × Gate lib). Goes g x.1) (not (acquire g.guard token.key).1) _ _
          (λ h. h, inl refl)
          (dial_node-Goes cfg token a (record g { guard = (acquire g.guard token.key).0 }))

    pub serve_http-Goes :
        (cfg : WebSocketConfig) (a : Arrival) (g : Gate lib) → Goes g (serve_http codec cfg a g).1
    unfolding serve_http
    serve_http-Goes cfg a g = elim (Option-cases a.token) [
      | inl anonymous ↦ rw (anonymous, serve_http) (λ h. h, inl refl)
      | inr (token, known) ↦
          rw (known, serve_http)
            (if_elim (λ (x : Exit lib × Gate lib). Goes g x.1) (str_eq a.chain_id "") _ _
              (λ h. h, inl refl) (serve_token-Goes cfg token a g))
    ]
