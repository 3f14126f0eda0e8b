-- ===== src/Gateway/Keeping.antt =====
-- What a request on the route does to the counters and to the pools.
use rpc_node_gateway.Prelude.{ℕ, refl, String, Option, List, Assoc, inl, if_elim}
use Prim.Native.Char.{Char}
use rpc_node_gateway.Config.Hosts.{host_allowed}
use rpc_node_gateway.Model.{Token}
use rpc_node_gateway.Balancer.Supply.{Touched}
use rpc_node_gateway.RateLimit.{Lib, Env}
use rpc_node_gateway.JsonRpc.{Codec}
use rpc_node_gateway.Stats.Keeping.{
  Kept, inc_domain_rejected-Kept, inc_auth_failed-Kept, inc_method_denied-Kept,
  inc_rate_limited-Kept,
}
use rpc_node_gateway.Proxy.{Moment, World, Client, forward, meta_of}
use rpc_node_gateway.Proxy.Pools.{serve_http-Touched}
use rpc_node_gateway.Proxy.Keeping.{serve_http-Kept}
use rpc_node_gateway.Gateway.{
  Hit, Outcome, answered, Next, path_auth, method_filter, rate_limit, proxied, handle,
}
use rpc_node_gateway.Gateway.Cases.{path_auth-cases, method_filter-cases, rate_limit-cases}
use rpc_node_gateway.Gateway.Entry.{Incoming, hit_of, domain, enter}

-- The counters are kept consistent, and of the pools one is used at most.
abbrev pub Goes : {A : Type 0} {lib : Lib} → World lib → Outcome A × World lib → Type 0
Goes w (o, w') = Kept w.books.stats w'.books.stats × Touched w.registry w'.registry

module _ {lib : Lib} where
  handle-Goes :
      (codec : Codec) (client : Client) (env : Env) (m : Moment) (tokens : Assoc Token) (hit : Hit)
      (w : World lib)
      → Goes w (handle codec client env m tokens hit w)
  unfolding handle proxied
  handle-Goes codec client env m tokens hit w =
      path_auth-cases (Goes w) env.now tokens hit.path_token
        (λ token. method_filter codec env.now token hit.body (λ body methods.
          rate_limit env token hit.chain_id hit.client_ip
            (proxied codec client m hit token body methods)))
        w (inc_auth_failed-Kept env.now w.books.stats, inl refl)
        (λ token known.
          method_filter-cases (Goes w) codec env.now token hit.body
            (λ body methods.
              rate_limit env token hit.chain_id hit.client_ip
                (proxied codec client m hit token body methods))
            w (λ h. h, inl refl) (λ h. h, inl refl)
            (inc_method_denied-Kept env.now w.books.stats (meta_of token), inl refl)
            (λ body methods read parsed allowed.
              rate_limit-cases (Goes w) env token hit.chain_id hit.client_ip
                (proxied codec client m hit token body methods) w
                (λ l. (inc_rate_limited-Kept env.now w.books.stats (meta_of token), inl refl))
                (λ l. (
                  serve_http-Kept codec (forward client) m _ _,
                  serve_http-Touched codec (forward client) m _ _,
                ))))

  pub domain-Goes :
      {A : Type 0} (lower : Char → Char) (now : ℕ) (domains : List String) (host : String)
      (next : Next A lib) (w : World lib)
      → Goes w (next w)
      → Goes w (domain lower now domains host next w)
  unfolding domain
  domain-Goes lower now domains host next w h =
      if_elim (Goes w) (host_allowed lower domains host) _ _ h
        (inc_domain_rejected-Kept now w.books.stats, inl refl)

  pub identify-Goes :
      (now : ℕ) (tokens : Assoc Token) (key : String) (w : World lib)
      → Goes w (path_auth now tokens key (λ token w'. (answered token, w')) w)
  identify-Goes now tokens key w =
      path_auth-cases (Goes w) now tokens key (λ token w'. (answered token, w')) w
        (inc_auth_failed-Kept now w.books.stats, inl refl) (λ token known. (λ h. h, inl refl))

  pub enter-Goes :
      (lower : Char → Char) (split_host : String → Option String) (domains : List String)
      (codec : Codec) (client : Client) (env : Env) (m : Moment) (tokens : Assoc Token)
      (r : Incoming) (w : World lib)
      → Goes w (enter lower split_host domains codec client env m tokens r w)
  unfolding enter
  enter-Goes lower split_host domains codec client env m tokens r w =
      domain-Goes lower env.now domains r.host
        (handle codec client env m tokens (hit_of split_host r)) w
        (handle-Goes codec client env m tokens (hit_of split_host r) w)
