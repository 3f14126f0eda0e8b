-- ===== src/Server.antt =====
-- cmd/gateway/main.go as a whole: what it makes when it starts. The publisher of billing events is a
-- list of the events; the sinks are in Billing/Publisher.antt.
pub mod Routing
pub mod Keeping
pub mod Life
pub mod Lockout
mod Pages
pub mod Running
pub mod Startup
mod Pools
pub mod Tests
use rpc_node_gateway.Prelude.{
  ℕ, String, Bool, true, false, not, ◌&&◌, str_append, Option, none, some, List, [], ◌∷◌, ℤ,
  is_nonpos, if◌then◌else◌, Assoc, lookup,
}
use Prim.Native.Char.{Char}
use rpc_node_gateway.Config.{Config, Chain}
use rpc_node_gateway.Config.Validation.{LoadError, Loaded, loaded, failed, load}
use rpc_node_gateway.Model.{Token, BillingEvent}
use rpc_node_gateway.Balancer.{Pool, Registry, check_all, probe}
use rpc_node_gateway.Stats.{Collector, new_collector, register_tokens}
use rpc_node_gateway.RateLimit.{Lib, Env, Cell, Limiter}
use rpc_node_gateway.JsonRpc.{Codec, RawMessage}
use rpc_node_gateway.Billing.Books.{Books}
use rpc_node_gateway.Proxy.{Answer, Client}
use rpc_node_gateway.Proxy as Proxy
use rpc_node_gateway.Gateway.ClientIp.{client_ip}
use rpc_node_gateway.Gateway.Entry.{Incoming, domain, enter}
use rpc_node_gateway.WsProxy.Guard.{ConnGuard, new_conn_guard}
use rpc_node_gateway.WsProxy.Serving.{Frame, Arrival, Exit, Gate}
use rpc_node_gateway.WsProxy.Serving as Serving
use rpc_node_gateway.TokenStore.{Tick, list_meta, reload}
use rpc_node_gateway.AdminJwt.{Jwt}
use rpc_node_gateway.AdminJwt.Store.{Store}
use rpc_node_gateway.AdminJwt.Rotator.{Turn, Validator, rotate}
use rpc_node_gateway.AdminJwt.Rotator as Rotator
use rpc_node_gateway.Admin.{PageRequest, PageReply, Desk, serve_page}
use rpc_node_gateway.Start.{
  init_token_store, registry_of, issuer_of, validator_of_config, rotator_config_of, hang_up,
}
use rpc_node_gateway.Start.Clients.{
  PoolConfig, ConnectError, Connected, connected, not_enabled, refused, new_redis, connect,
}
use rpc_node_gateway.Start.Pools.{on_pool}

-- The objects that main.go makes and that the handlers share. `jwts` is the store of the admin tokens.
pub record Server (lib : Lib) (S : Type 0) : Type 0 where
  pub registry : Registry
  pub books : Books lib
  pub guard : ConnGuard
  pub tokens : Assoc Token
  pub jwts : S

-- What the gateway finds when it starts: the file, whether Redis answers and what it holds, whether
-- Postgres connects and answers, the first reading of the tokens and the first rotation.
pub record Outside (S : Type 0) : Type 0 where
  pub file : Option String
  pub redis_pings : Bool
  pub buckets : String → Option Cell
  pub counters : String → Option ℕ
  pub pg_connects : Bool
  pub pg_pings : Bool
  pub first : Tick
  pub turn : Turn
  pub jwts : S

-- The exits and the crashes of `main` before it listens.
pub data StartError : Type 0 where
  not_loaded : LoadError → StartError
  not_connected : ConnectError → StartError
  no_tokens ticker_panics route_panics : StartError

pub data Started (lib : Lib) (S : Type 0) : Type 0 where
  exits : StartError → Started lib S
  runs : Config → Server lib S → Started lib S

-- `ratelimit.New` on a Redis that holds this.
abbrev pub new_limiter :
    (lib : Lib) → Bool → (String → Option Cell) → (String → Option ℕ) → Limiter lib
new_limiter lib available buckets counters = record {
  available = available;
  buckets = buckets;
  counters = counters;
  local = λ key. none;
  daily = λ key. 0;
  log = [];
}

-- What is not of this repository: the patterns that chi takes (it panics on others), golang-jwt, the case table of Unicode, `net.SplitHostPort`, the
-- configuration of pgx, and the decoders of YAML and JSON.
pub record Libraries : Type 0 where
  pub takes_route : String → Bool
  pub codec : Codec
  pub jwt : Jwt
  pub lower : Char → Char
  pub split_host : String → Option String
  pub parse_dsn : String → Option PoolConfig
  pub decode_config : String → Option Config
  pub decode_methods : String → Option (List String)
  pub decode_error : String → Option RawMessage

-- Whether `StartHealthChecks` and its loops get their tickers: in each pool `time.NewTicker` panics for
-- an interval that is not positive, and the panic of a goroutine ends the process.
unfoldable pub start_health_checks : ℤ → Assoc Pool → Bool
start_health_checks interval [] = true
start_health_checks interval (p ∷ rest) =
    not (is_nonpos interval) && start_health_checks interval rest

-- Whether chi takes the route of every chain.
unfoldable pub takes_routes : (String → Bool) → Assoc Chain → Bool
takes_routes takes [] = true
takes_routes takes ((id, c) ∷ rest) = takes (str_append "/{token}/" id) && takes_routes takes rest

-- The store of the admin tokens after `rotator.Start`.
abbrev pub rotated_first : {S : Type 0} → Store S → Jwt → Config → Turn → S → S
rotated_first store jwt cfg turn jwts =
    if cfg.admin.enabled
    then Rotator.start store jwt (issuer_of cfg) (rotator_config_of cfg) turn [] jwts
    else jwts

module _ (libs : Libraries) {lib : Lib} {S : Type 0} (store : Store S) where
  -- What `main` makes from the configuration and the tokens.
  unfoldable pub new_server : Config → Outside S → Assoc Token → Server lib S
  new_server cfg o tokens = record {
    registry = registry_of cfg;
    books = record {
      limiter = new_limiter lib (new_redis cfg.redis o.redis_pings) o.buckets o.counters;
      stats = register_tokens new_collector (list_meta tokens);
      published = [];
    };
    guard = new_conn_guard cfg.web_socket.max_connections_per_token;
    tokens = tokens;
    jwts = rotated_first store libs.jwt cfg o.turn o.jwts;
  }

  -- From the health checks on.
  unfoldable pub launch : Config → Outside S → Assoc Token → Started lib S
  launch cfg o tokens =
      if not (start_health_checks cfg.health_check.interval (registry_of cfg).pools)
      then exits ticker_panics
      else if not (takes_routes libs.takes_route cfg.chains)
      then exits route_panics
      else runs cfg (new_server cfg o tokens)

  unfoldable pub with_tokens : Bool → Config → Outside S → Started lib S
  with_tokens has_pg cfg o = elim (init_token_store libs.decode_methods has_pg cfg o.first []) [
    | none ↦ exits no_tokens
    | some tokens ↦ launch cfg o tokens
  ]

  -- From the database on.
  unfoldable pub with_database : Connected → Config → Outside S → Started lib S
  with_database (refused e) cfg o = exits (not_connected e)
  with_database not_enabled cfg o = with_tokens false cfg o
  with_database (connected c) cfg o = with_tokens true cfg o

  unfoldable pub start_loaded : Loaded → Outside S → Started lib S
  start_loaded (failed e) o = exits (not_loaded e)
  start_loaded (loaded cfg) o =
      with_database (connect libs.parse_dsn cfg.database o.pg_connects o.pg_pings) cfg o

  -- `main`, up to the point where it listens.
  unfoldable pub start : Outside S → Started lib S
  start o = start_loaded (load libs.lower libs.decode_config o.file) o
