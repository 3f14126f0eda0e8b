-- ===== src/Server/Keeping.antt =====
-- What every event of the gateway keeps: consistent counters, what holds of every pool, the chains
-- that have one, and the connections that the guard counts.
use rpc_node_gateway.Prelude.{◌<◌, ◌≡◌, refl, ◌∙◌, ◌&&◌, String, List, [], ◌∷◌, length, if_elim}
use rpc_node_gateway.Config.{Config, NodeConfig}
use rpc_node_gateway.Model.{Token}
use rpc_node_gateway.Balancer.{Pool, replace_nodes, probe}
use rpc_node_gateway.Balancer.Supply.{Use, checks, use_pool}
use rpc_node_gateway.RateLimit.{Lib, Env}
use rpc_node_gateway.Stats.Keeping.{Kept}
use rpc_node_gateway.Proxy.{Client}
use rpc_node_gateway.Proxy as Proxy
use rpc_node_gateway.Gateway.{Outcome, refused, answered, path_auth}
use rpc_node_gateway.Gateway.Entry.{Incoming, enter}
use rpc_node_gateway.Gateway.Keeping.{Goes, domain-Goes, identify-Goes, enter-Goes}
use rpc_node_gateway.WsProxy.Guard.{held}
use rpc_node_gateway.WsProxy.Serving.Keeping as Sessions
use rpc_node_gateway.WsProxy.Serving.Slots.{serve_http-held}
use rpc_node_gateway.AdminJwt.Store.{Store}
use rpc_node_gateway.Admin.{PageRequest}
use rpc_node_gateway.Start.Pools.{known-on_pool, on_pool-AllPools}
use rpc_node_gateway.Server.{Server, Libraries}
use rpc_node_gateway.Server.Routing.{
  Upgrade, Request, health, asks, posts, upgrades, Served, is_routed, validator, world_of,
  put_world, gate_of, upgrade, identify, get_ws, post_rpc, show, serve,
}
use rpc_node_gateway.Server.Life.{
  Event, requested, hung_up, checked, refreshed, rotated, check_chain, refreshes, rotates, step,
  run,
}
use rpc_node_gateway.Server.Pools.{
  KeepsPools, Touched-KeepsPools, same-KeepsPools, hang_up-KeepsPools, Gate-KeepsPools,
}
use rpc_node_gateway.Server.Pages.{serve_page-KeepsDesk}

module _ (P : Pool → Type 0) (on_use : (a : Use) (p : Pool) → P p → P (use_pool a p))
    (on_replace : (p : Pool) (cfgs : List NodeConfig)
      → 0 < length cfgs
      → P p
      → P (replace_nodes p cfgs)) where
  module _ (libs : Libraries) {lib : Lib} {S : Type 0} (store : Store S) where
    pub record Keeps (s s' : Server lib S) : Type 0 where
      pub stats : Kept s.books.stats s'.books.stats
      pub pools : KeepsPools P on_use on_replace s.registry s'.registry
      pub guard : (t : String) → held s'.guard t ≡ held s.guard t

    same-Keeps : (s : Server lib S) → Keeps s s
    same-Keeps s = record {
      stats = λ h. h;
      pools = same-KeepsPools P on_use on_replace s.registry;
      guard = λ t. refl;
    }

    show-Keeps :
        (cfg : Config) (r : PageRequest) (s : Server lib S) → Keeps s (show libs store cfg r s).1
    unfolding show
    show-Keeps cfg r s =
        let (stats, pools) =
          serve_page-KeepsDesk P on_use on_replace libs.lower libs.decode_config store libs.jwt
            (validator cfg) s.tokens s.jwts r
            (record { stats = s.books.stats; registry = s.registry }) in
        record { stats = stats; pools = pools; guard = λ t. refl }

    Keeps-trans : (a b c : Server lib S) → Keeps a b → Keeps b c → Keeps a c
    Keeps-trans a b c ab bc = record {
      stats = λ h. bc.stats (ab.stats h);
      pools = (λ h. bc.pools.0 (ab.pools.0 h), λ id. bc.pools.1 id ∙ ab.pools.1 id);
      guard = λ t. bc.guard t ∙ ab.guard t;
    }

    Goes-Keeps :
        {A : Type 0} (s : Server lib S) (x : Outcome A × Proxy.World lib)
        → Goes (world_of s) x
        → Keeps s (put_world x.1 s)
    Goes-Keeps s x (kept, touched) = record {
      stats = kept;
      pools = Touched-KeepsPools P on_use on_replace s.registry x.1.registry touched;
      guard = λ t. refl;
    }

    upgrade-Keeps :
        (cfg : Config) (r : Incoming) (u : Upgrade) (o : Outcome Token) (s : Server lib S)
        → Keeps s (upgrade libs store cfg r u o s).1
    unfolding upgrade
    upgrade-Keeps cfg r u (refused status code) s = same-Keeps s
    upgrade-Keeps cfg r u (answered token) s =
        let (kept, pools) = Sessions.serve_http-Goes libs.codec cfg.web_socket _ (gate_of s) in
        record {
          stats = kept;
          pools = Gate-KeepsPools P on_use on_replace s.registry _ pools;
          guard = serve_http-held libs.codec cfg.web_socket _ (gate_of s);
        }

    get_ws-Keeps :
        (cfg : Config) (r : Incoming) (u : Upgrade) (s : Server lib S)
        → Keeps s (get_ws libs store cfg r u s).1
    unfolding get_ws identify
    get_ws-Keeps cfg r u s =
        let found = identify libs store cfg u.now r s in
        Keeps-trans s (put_world found.1 s) (get_ws libs store cfg r u s).1
          (Goes-Keeps s found (
            domain-Goes libs.lower u.now cfg.server.domains r.host
              (path_auth u.now s.tokens r.path_token (λ token w. (answered token, w))) (world_of s)
              (identify-Goes u.now s.tokens r.path_token (world_of s))))
          (upgrade-Keeps cfg r u found.0 (put_world found.1 s))

    post_rpc-Keeps :
        (cfg : Config) (r : Incoming) (client : Client) (env : Env) (m : Proxy.Moment)
        (s : Server lib S)
        → Keeps s (post_rpc libs store cfg r client env m s).1
    unfolding post_rpc
    post_rpc-Keeps cfg r client env m s =
        Goes-Keeps s
          (enter libs.lower libs.split_host cfg.server.domains libs.codec client env m s.tokens r
            (world_of s))
          (enter-Goes libs.lower libs.split_host cfg.server.domains libs.codec client env m s.tokens
            r (world_of s))

    pub serve-Keeps :
        (cfg : Config) (r : Request) (s : Server lib S) → Keeps s (serve libs store cfg r s).1
    unfolding serve
    serve-Keeps cfg health s = same-Keeps s
    serve-Keeps cfg (asks r) s =
        if_elim (λ (x : Served lib × Server lib S). Keeps s x.1) cfg.admin.enabled _ _
          (show-Keeps cfg r s) (same-Keeps s)
    serve-Keeps cfg (posts r client env m) s =
        if_elim (λ (x : Served lib × Server lib S). Keeps s x.1) (is_routed cfg r.chain_id) _ _
          (post_rpc-Keeps cfg r client env m s) (same-Keeps s)
    serve-Keeps cfg (upgrades r u) s =
        if_elim (λ (x : Served lib × Server lib S). Keeps s x.1)
          (is_routed cfg r.chain_id && cfg.web_socket.enabled) _ _ (get_ws-Keeps cfg r u s)
          (same-Keeps s)

    step-Keeps : (cfg : Config) (s : Server lib S) (e : Event) → Keeps s (step libs store cfg s e)
    unfolding step check_chain use_pool
    step-Keeps cfg s (requested r) = serve-Keeps cfg r s
    step-Keeps cfg s (hung_up file) = record {
      stats = λ h. h;
      pools = hang_up-KeepsPools P on_use on_replace libs.lower libs.decode_config file s.registry;
      guard = λ t. refl;
    }
    step-Keeps cfg s (checked id client) = record {
      stats = λ h. h;
      pools = (
        on_pool-AllPools P on_use on_replace id (checks (probe client libs.decode_error))
            s.registry.pools,
        λ k.
            known-on_pool id k (use_pool (checks (probe client libs.decode_error)))
              s.registry.pools,
      );
      guard = λ t. refl;
    }
    step-Keeps cfg s (refreshed t) =
        if_elim (Keeps s) (refreshes cfg) _ _
          (record {
            stats = λ h. h;
            pools = same-KeepsPools P on_use on_replace s.registry;
            guard = λ t. refl;
          })
          (same-Keeps s)
    step-Keeps cfg s (rotated turn) =
        if_elim (Keeps s) (rotates cfg) _ _
          (record {
            stats = λ h. h;
            pools = same-KeepsPools P on_use on_replace s.registry;
            guard = λ t. refl;
          })
          (same-Keeps s)

    pub run-Keeps :
        (cfg : Config) (s : Server lib S) (es : List Event) → Keeps s (run libs store cfg s es)
    unfolding run
    run-Keeps cfg s [] = same-Keeps s
    run-Keeps cfg s (e ∷ es) =
        Keeps-trans s (step libs store cfg s e) (run libs store cfg (step libs store cfg s e) es)
          (step-Keeps cfg s e) (run-Keeps cfg (step libs store cfg s e) es)
