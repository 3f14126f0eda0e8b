-- ===== src/Server/Life.antt =====
-- The life of the gateway once it has started: a list of events, each done before the next one comes.
-- A WebSocket session is one event, from its connection to its end.
use rpc_node_gateway.Prelude.{
  ℕ, String, Bool, not, ◌&&◌, Option, List, [], ◌∷◌, is_nonpos, if◌then◌else◌,
}
use rpc_node_gateway.Config.{Config}
use rpc_node_gateway.Balancer.{Registry, check_all, probe}
use rpc_node_gateway.RateLimit.{Lib}
use rpc_node_gateway.JsonRpc.{RawMessage}
use rpc_node_gateway.TokenStore.{Tick, reload}
use rpc_node_gateway.AdminJwt.Store.{Store}
use rpc_node_gateway.AdminJwt.Rotator.{Turn, rotate}
use rpc_node_gateway.Start.{issuer_of, rotator_config_of, hang_up}
use rpc_node_gateway.Start.Pools.{on_pool}
use rpc_node_gateway.Server.{Server, Libraries}
use rpc_node_gateway.Server.Routing.{Request, serve}

-- A request, a SIGHUP that finds this file, a round of health checks on the nodes of a chain, a
-- reading of the tokens from the database, and a rotation of the admin token.
pub data Event : Type 0 where
  requested : Request → Event
  hung_up : Option String → Event
  checked : String → (String → Option (ℕ × String)) → Event
  refreshed : Tick → Event
  rotated : Turn → Event

-- One round of the loop over the pool of a chain.
unfoldable pub check_chain :
    (String → Option RawMessage) → String → (String → Option (ℕ × String)) → Registry → Registry
check_chain decode_error id client r = record r {
  pools = on_pool id (check_all (probe client decode_error)) r.pools;
}

-- `refresh` and `rotate` have a ticker if their interval is positive.
abbrev pub refreshes : Config → Bool
refreshes cfg = cfg.database.enabled && not (is_nonpos cfg.database.token_refresh)

abbrev pub rotates : Config → Bool
rotates cfg = cfg.admin.enabled && not (is_nonpos cfg.admin.jwt.rotate_every)

module _ (libs : Libraries) {lib : Lib} {S : Type 0} (store : Store S) where
  unfoldable pub step : Config → Server lib S → Event → Server lib S
  step cfg s (requested r) = (serve libs store cfg r s).1
  step cfg s (hung_up file) = record s {
    registry = hang_up libs.lower libs.decode_config file s.registry;
  }
  step cfg s (checked id client) = record s {
    registry = check_chain libs.decode_error id client s.registry;
  }
  step cfg s (refreshed t) =
      if refreshes cfg
      then record s { tokens = (reload libs.decode_methods t.fails t.tokens t.plans s.tokens).0 }
      else s
  step cfg s (rotated turn) =
      if rotates cfg
      then record s {
        jwts = (rotate store libs.jwt (issuer_of cfg) (rotator_config_of cfg) turn s.jwts).0;
      }
      else s

  -- The gateway after these events, in their order.
  unfoldable pub run : Config → Server lib S → List Event → Server lib S
  run cfg s [] = s
  run cfg s (e ∷ es) = run cfg (step cfg s e) es
