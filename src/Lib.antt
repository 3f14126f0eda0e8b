-- ===== src/Lib.antt =====
-- rpc-node-gateway: a gateway for the JSON-RPC nodes of several chains. A client names its token and
-- a chain in the path of a request, over HTTP or over a WebSocket. The gateway authenticates the
-- token, checks the methods, limits the rate, chooses a node by weight and health, passes the
-- message on, and counts and bills the successes.
--
-- The parts, and where they stand:
--   * internal/balancer/balancer.go: `Balancer`. `Node`, `Pool`, `Registry` are its structs; `next`,
--     `next_ws`, `report_success`, `report_failure`, `check_all`, `replace_nodes` its methods;
--     `Balancer.Reload` holds the registry with `reload_nodes`, `Balancer.Health` the abstract view
--     of a node's health, `Balancer.Rotation` the counting behind the turns of the rotation,
--     `Balancer.Pointers` the nodes behind their pointers.
--   * internal/ratelimit/limiter.go, and the keys of internal/store/redis.go: `RateLimit`. `allow`
--     and `incr_success` are the methods; `script` is the Lua script of a bucket.
--   * internal/stats/collector.go: `Stats`. One function for each method that counts; `Stats.Views`
--     has the views that are shown.
--   * internal/jsonrpc: `JsonRpc`, over the decoder of encoding/json as a parameter.
--   * internal/filter/method.go: `Filter`.
--   * internal/proxy/handler.go: `Proxy`. `serve_http` is `ServeHTTP`, on the balancer, the limiter,
--     the statistics and the list of published billing events.
--   * internal/wsproxy/handler.go: `WsProxy`. `handle_inbound` and `handle_outbound` are the two
--     handlers of a session; `WsProxy.Guard` is `ConnGuard`, `WsProxy.Serving` has `ServeHTTP` with
--     the two pumps.
--   * the HTTP route of cmd/gateway/main.go with internal/middleware/middleware.go and `Lookup` of
--     internal/auth/store.go: `Gateway`. `handle` is the route, one function for each middleware;
--     `Gateway.Context` is internal/gatewayctx/context.go.
--     `Gateway.Entry` is the check of the host before it, `Gateway.ClientIp` is
--     internal/httputil/clientip.go.
--   * internal/config/config.go: `Config`, with `Config.Hosts` for the bound domains,
--     `Config.Defaults` for `applyDefaults` and `Config.Validation` for `validate` and `Load`.
--   * internal/auth/store.go and internal/db/token_repo.go: `TokenStore`, from the file
--     (`new_store_from_config`) and from the database (`reload`).
--   * internal/adminjwt: `AdminJwt`. `AdminJwt.Store` is the interface of the stores with its
--     contract, `MemoryStore` and `PostgresStore` its two implementations, `Latest` is about the
--     latest active token, `Rotator` holds `rotate` and `validate`, over any store. Times are in
--     nanoseconds, which the database cuts to microseconds (`micros`).
--   * internal/billing/publisher.go and internal/db/billing_repo.go: `Billing.Publisher` and
--     `Billing.Ledger`; `Billing.Books` is for the three places that count successes.
--   * cmd/gateway/main.go and the reload of internal/admin/handler.go: `Start`, with
--     internal/store/redis.go and internal/db/postgres.go in `Start.Clients`; the other pages:
--     `Admin`. `Server` puts all of it together: `start` is `main` up to the point where it
--     listens, `Server.Routing.serve` the router, and `Server.Life.run` the life of the gateway.
--   * internal/model/model.go: `Model`.
--   * `Prelude`: numbers, lists, maps and texts that the parts share.
--
-- How the code is read. An operation is one step, a function of the state, as its lock makes it; the
-- atomic counters of the health reports and of the statistics are read the same way. Interleavings
-- are sequences of calls (`Balancer.Invariant.Call`, `Stats.Calls.Call`, `Start.Serving.Event`), of
-- events of the gateway (`Server.Life.Event`), of frames (`WsProxy.Serving.Frame`) and, for
-- connections, the steps of `WsProxy.Guard.Limit.Step`. A pointer to a node is its index in the slice
-- of its pool, and in `Balancer.Pointers` its index in a heap.
-- Go's int is a number below 2^63 that does not overflow; the health counters are int32 values that
-- wrap. A map is an association list or a function. Every loop is a recursion on a list; only the
-- decimal print of a number has fuel, one more than the number, which has no more digits. Redis, the
-- clock, the library limiter, the HTTP client, `net.SplitHostPort`, the decoders of JSON and YAML,
-- golang-jwt and the case table of Unicode are parameters or inputs of a call. A statement of SQL is a
-- function of the rows of its tables that is done as a whole or not at all; which statements fail is
-- an input.
--
-- One life of the gateway takes its events one after another, a WebSocket session as a whole. The
-- WebSocket frames that the code writes are text; the type of a frame that is read is dropped, as in
-- the code, and a reply of the gateway's own whose write fails is lost.
-- A panic that ends the process is an exit: the ticker of the health checks, and a route that chi, a
-- parameter here, does not take.
--
-- Not modelled: listening and shutdown in cmd/gateway/main.go, the time limit of the HTTP route, chi
-- with its own middlewares, the closing of Redis and Postgres, and the encoding of the answers. A
-- ticker is a list of its ticks.
pub mod Prelude
pub mod Config
pub mod Model
pub mod Balancer
pub mod RateLimit
pub mod Stats
pub mod JsonRpc
pub mod Filter
pub mod Billing
pub mod Proxy
pub mod Gateway
pub mod WsProxy
pub mod TokenStore
pub mod AdminJwt
pub mod Start
pub mod Admin
pub mod Server
