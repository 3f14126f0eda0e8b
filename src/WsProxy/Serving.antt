-- ===== src/WsProxy/Serving.antt =====
-- `ServeHTTP` of internal/wsproxy/handler.go with the two pumps of a session. The frames that the
-- pumps read come in the order in which they are handled; a frame without text is a read that fails,
-- and a flag lets the write of a frame fail. The type of a frame that is read, text or binary, is
-- dropped, as the code drops it. A pump that has returned reads no more.
-- The address of the client comes with the request, as `client_ip` of Gateway/ClientIp.antt finds it.
pub mod Counting
pub mod Keeping
pub mod Pumps
pub mod Slots
pub mod Sessions
use rpc_node_gateway.Prelude.{
  ℕ, String, Bool, true, false, not, ◌||◌, Option, none, some, List, [], ◌∷◌, ◌++◌, if◌then◌else◌,
  str_eq, Assoc, lookup, insert,
}
use rpc_node_gateway.Config.{WebSocketConfig}
use rpc_node_gateway.Model.{Token, BillingEvent}
use rpc_node_gateway.Balancer.{Node, Pool, Registry, next_ws}
use rpc_node_gateway.Stats.{TokenMeta, Collector, record_ws_connect}
use rpc_node_gateway.RateLimit.{Lib, Limiter}
use rpc_node_gateway.JsonRpc.{Codec}
use rpc_node_gateway.Proxy.{meta_of}
use rpc_node_gateway.WsProxy.{
  Session, Moment, Sent, relayed, World, handle_inbound, handle_outbound,
}
use rpc_node_gateway.WsProxy.Guard.{ConnGuard, acquire, release}

pub data Frame : Type 0 where
  from_client from_node : Moment → Option String → Bool → Frame

-- What a request for a connection brings with it.
pub record Arrival : Type 0 where
  pub token : Option Token
  pub chain_id : String
  pub client_ip : String
  pub upgrade_fails : Bool
  pub dial_fails : Bool
  pub now : ℕ
  pub frames : List Frame

-- The two connections of a session, with what was written to the node, and its pumps. What was written
-- to the client is in the world.
pub record Link (lib : Lib) : Type 0 where
  pub session : Session
  pub world : World lib
  pub to_node : List String
  pub inbound_done : Bool
  pub outbound_done : Bool
  pub closed : Bool

-- How `ServeHTTP` ends; behind a session, with its two connections.
pub data Exit (lib : Lib) : Type 0 where
  unauthorized too_many_connections unknown_chain no_upstream upgrade_failed dial_failed : Exit lib
  served : Link lib → Exit lib

-- What the handler shares with others.
pub record Gate (lib : Lib) : Type 0 where
  pub pools : Assoc Pool
  pub guard : ConnGuard
  pub limiter : Limiter lib
  pub stats : Collector
  pub published : List BillingEvent

abbrev pub new_session : WebSocketConfig → Token → Arrival → String → Session
new_session cfg token a url = record {
  token = token;
  meta = meta_of token;
  chain_id = a.chain_id;
  client_ip = a.client_ip;
  upstream = url;
  pending = [];
  subs = [];
  sub_n = 0;
  bill_units = cfg.notification_bill_units;
  max_subs = cfg.max_subscriptions_per_conn;
}

module _ {lib : Lib} where
  -- A reply whose write fails, as on a connection that is closed, is lost; the code drops the error.
  abbrev pub on_socket : Bool → Link lib → World lib → World lib
  on_socket fails l w = record w {
    to_client = if fails || l.closed then l.world.to_client else w.to_client;
  }

  -- `pumpClientToUpstream`, from what `handleInbound` says on.
  unfoldable pub write_node : String → Bool → Bool × Session × World lib → Link lib → Link lib
  write_node text fails (passes, s, w) l =
      if not passes
      then record l { session = s; world = on_socket fails l w }
      else if fails || l.closed
      then record l { session = s; world = w; inbound_done = true; closed = true }
      else record l { session = s; world = w; to_node = l.to_node ++ text ∷ [] }

  -- `pumpUpstreamToClient`, from `handleOutbound` on.
  unfoldable pub write_client : String → Bool → Session × World lib → Link lib → Link lib
  write_client text fails (s, w) l =
      if fails || l.closed
      then record l { session = s; world = w; outbound_done = true; closed = true }
      else record l { session = s; world = record w { to_client = relayed text ∷ w.to_client } }

  abbrev pub first_link : WebSocketConfig → Token → Arrival → String → Gate lib → Link lib
  first_link cfg token a url g = record {
    session = new_session cfg token a url;
    world = record {
      limiter = g.limiter;
      stats = record_ws_connect a.now (meta_of token) a.chain_id g.stats;
      published = g.published;
      to_client = [];
    };
    to_node = [];
    inbound_done = false;
    outbound_done = false;
    closed = false;
  }

module _ {lib : Lib} (codec : Codec) where
  unfoldable pub pump : Link lib → Frame → Link lib
  pump l (from_client m none fails) =
      if l.inbound_done then l else record l { inbound_done = true; closed = true }
  pump l (from_client m (some text) fails) =
      if l.inbound_done
      then l
      else write_node text fails (handle_inbound codec m text l.session l.world) l
  pump l (from_node m none fails) =
      if l.outbound_done then l else record l { outbound_done = true; closed = true }
  pump l (from_node m (some text) fails) =
      if l.outbound_done
      then l
      else write_client text fails (handle_outbound codec m text l.session l.world) l

  unfoldable pub pump_all : Link lib → List Frame → Link lib
  pump_all l [] = l
  pump_all l (f ∷ fs) = pump_all (pump l f) fs

  -- The session, once both connections stand.
  unfoldable pub serve_session :
      WebSocketConfig → Token → Arrival → String → Gate lib → Exit lib × Gate lib
  serve_session cfg token a url g =
      let l = pump_all (first_link cfg token a url g) a.frames in
      (
        served l,
        record g {
          limiter = l.world.limiter;
          stats = l.world.stats;
          published = l.world.published;
        },
      )

  -- From the choice of the node on.
  unfoldable pub connect :
      WebSocketConfig → Token → Arrival → Option (ℕ × Node) → Gate lib → Exit lib × Gate lib
  connect cfg token a none g = (no_upstream, g)
  connect cfg token a (some (i, node)) g =
      if str_eq node.ws_url ""
      then (no_upstream, g)
      else if a.upgrade_fails
      then (upgrade_failed, g)
      else if a.dial_fails
      then (dial_failed, g)
      else serve_session cfg token a node.ws_url g

  -- What stands between `Acquire` and the deferred `Release`.
  unfoldable pub dial_node : WebSocketConfig → Token → Arrival → Gate lib → Exit lib × Gate lib
  dial_node cfg token a g = elim (lookup a.chain_id g.pools) [
    | none ↦ (unknown_chain, g)
    | some p ↦
        connect cfg token a (next_ws p).1
          (record g { pools = insert a.chain_id (next_ws p).0 g.pools })
  ]

  unfoldable pub serve_token : WebSocketConfig → Token → Arrival → Gate lib → Exit lib × Gate lib
  serve_token cfg token a g =
      let result = acquire g.guard token.key in
      if not result.1
      then (too_many_connections, record g { guard = result.0 })
      else (let (exit, g') = dial_node cfg token a (record g { guard = result.0 }) in
          (exit, record g' { guard = release g'.guard token.key }))

  unfoldable pub serve_http : WebSocketConfig → Arrival → Gate lib → Exit lib × Gate lib
  serve_http cfg a g = elim a.token [
    | none ↦ (unauthorized, g)
    | some token ↦ if str_eq a.chain_id "" then (unauthorized, g) else serve_token cfg token a g
  ]
