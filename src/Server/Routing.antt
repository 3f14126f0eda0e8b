-- ===== src/Server/Routing.antt =====
-- The routes of cmd/gateway/main.go with what stands behind each. chi finds the route: a path with a
-- chain that is not configured, or a method without a route, gets the answer of chi.
use rpc_node_gateway.Prelude.{
  ℕ, String, Bool, true, false, ◌&&◌, Option, none, some, List, [], if◌then◌else◌, lookup,
}
use rpc_node_gateway.Config.{Config}
use rpc_node_gateway.Model.{Token}
use rpc_node_gateway.RateLimit.{Lib, Env}
use rpc_node_gateway.Proxy.{Answer, Client}
use rpc_node_gateway.Proxy as Proxy
use rpc_node_gateway.Gateway.{Outcome, refused, answered, path_auth}
use rpc_node_gateway.Gateway.Context.{with_token, with_chain_id, context_token, context_chain_id}
use rpc_node_gateway.Gateway.ClientIp.{client_ip}
use rpc_node_gateway.Gateway.Entry.{Incoming, domain, enter}
use rpc_node_gateway.WsProxy.Serving.{Frame, Arrival, Exit, Gate}
use rpc_node_gateway.WsProxy.Serving as Serving
use rpc_node_gateway.AdminJwt.Store.{Store}
use rpc_node_gateway.AdminJwt.Rotator.{Validator}
use rpc_node_gateway.Admin.{PageRequest, PageReply, serve_page}
use rpc_node_gateway.Start.{validator_of_config}
use rpc_node_gateway.Server.{Server, Libraries}

-- What a WebSocket upgrade meets.
pub record Upgrade : Type 0 where
  pub upgrade_fails : Bool
  pub dial_fails : Bool
  pub now : ℕ
  pub frames : List Frame

pub data Request : Type 0 where
  health : Request
  asks : PageRequest → Request
  posts : Incoming → Client → Env → Proxy.Moment → Request
  upgrades : Incoming → Upgrade → Request

pub data Served (lib : Lib) : Type 0 where
  is_up no_route : Served lib
  shows : PageReply → Served lib
  replies : Outcome Answer → Served lib
  upgraded : Outcome (Exit lib) → Served lib

-- What the admin routes are given, if there are any.
abbrev pub validator : Config → Option Validator
validator cfg = if cfg.admin.enabled then some (validator_of_config cfg) else none

-- Whether the chain has a route.
abbrev pub is_routed : Config → String → Bool
is_routed cfg id = elim (lookup id cfg.chains) [ none ↦ false | some chain ↦ true ]

module _ {lib : Lib} {S : Type 0} where
  abbrev pub world_of : Server lib S → Proxy.World lib
  world_of s = record { registry = s.registry; books = s.books }

  abbrev pub put_world : Proxy.World lib → Server lib S → Server lib S
  put_world w s = record s { registry = w.registry; books = w.books }

  abbrev pub gate_of : Server lib S → Gate lib
  gate_of s = record {
    pools = s.registry.pools;
    guard = s.guard;
    limiter = s.books.limiter;
    stats = s.books.stats;
    published = s.books.published;
  }

  abbrev pub put_gate : Gate lib → Server lib S → Server lib S
  put_gate g s = record s {
    registry = record s.registry { pools = g.pools };
    books = record { limiter = g.limiter; stats = g.stats; published = g.published };
    guard = g.guard;
  }

module _ (libs : Libraries) {lib : Lib} {S : Type 0} (store : Store S) where
  -- The GET route, from what its middlewares say on.
  unfoldable pub upgrade :
      Config → Incoming → Upgrade → Outcome Token → Server lib S → Served lib × Server lib S
  upgrade cfg r u (refused status code) s = (upgraded (refused status code), s)
  upgrade cfg r u (answered token) s =
      let ctx = with_chain_id r.chain_id (with_token token []) in
      let a : Arrival = record {
        token = context_token ctx;
        chain_id = context_chain_id ctx;
        client_ip = client_ip libs.split_host r.origin;
        upgrade_fails = u.upgrade_fails;
        dial_fails = u.dial_fails;
        now = u.now;
        frames = u.frames;
      } in
      let (exit, g) = Serving.serve_http libs.codec cfg.web_socket a (gate_of s) in
      (upgraded (answered exit), put_gate g s)

  -- The middlewares of the GET route, up to the token that they find.
  unfoldable pub identify : Config → ℕ → Incoming → Server lib S → Outcome Token × Proxy.World lib
  identify cfg now r s =
      domain libs.lower now cfg.server.domains r.host
        (path_auth now s.tokens r.path_token (λ token w. (answered token, w))) (world_of s)

  unfoldable pub get_ws : Config → Incoming → Upgrade → Server lib S → Served lib × Server lib S
  get_ws cfg r u s =
      let (found, w) = identify cfg u.now r s in upgrade cfg r u found (put_world w s)

  unfoldable pub post_rpc :
      Config → Incoming → Client → Env → Proxy.Moment → Server lib S → Served lib × Server lib S
  post_rpc cfg r client env m s =
      let (outcome, w) =
        enter libs.lower libs.split_host cfg.server.domains libs.codec client env m s.tokens r
          (world_of s) in
      (replies outcome, put_world w s)

  unfoldable pub show : Config → PageRequest → Server lib S → Served lib × Server lib S
  show cfg r s =
      let (page, d) =
        serve_page libs.lower libs.decode_config store libs.jwt (validator cfg) true s.tokens s.jwts
          r (record { stats = s.books.stats; registry = s.registry }) in
      (shows page, record s { registry = d.registry; books = record s.books { stats = d.stats } })

  -- The router.
  unfoldable pub serve : Config → Request → Server lib S → Served lib × Server lib S
  serve cfg health s = (is_up, s)
  serve cfg (asks r) s = if cfg.admin.enabled then show cfg r s else (no_route, s)
  serve cfg (posts r client env m) s =
      if is_routed cfg r.chain_id then post_rpc cfg r client env m s else (no_route, s)
  serve cfg (upgrades r u) s =
      if is_routed cfg r.chain_id && cfg.web_socket.enabled then get_ws cfg r u s else (no_route, s)
