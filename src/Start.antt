-- ===== src/Start.antt =====
-- cmd/gateway/main.go and the reload of internal/admin/handler.go: what is built from the
-- configuration, and how the nodes are reloaded. Signals and listening are left out.
pub mod Clients
pub mod Reloading
pub mod Pools
pub mod Serving
pub mod Tests
use rpc_node_gateway.Prelude.{
  String, Bool, true, false, ◌&&◌, Option, none, some, List, if◌then◌else◌, Assoc,
}
use Prim.Native.Char.{Char}
use rpc_node_gateway.Config.{Config}
use rpc_node_gateway.Config.Validation.{LoadError, Loaded, loaded, failed, load}
use rpc_node_gateway.Model.{Token}
use rpc_node_gateway.Balancer.{Registry}
use rpc_node_gateway.Balancer.Reload.{ReloadError, new_registry, reload_nodes}
use rpc_node_gateway.TokenStore.{Tick, new_store_from_config, new_store_from_db}
use rpc_node_gateway.AdminJwt.{Issuer}
use rpc_node_gateway.AdminJwt.Rotator.{RotatorConfig, Validator}

-- `initTokenStore`; `connected` says that there is a Postgres client.
unfoldable pub init_token_store :
    (String → Option (List String)) → Bool → Config → Tick → List Tick → Option (Assoc Token)
init_token_store decode connected cfg first ticks =
    if cfg.database.enabled && connected
    then new_store_from_db decode cfg.database.token_refresh first ticks
    else new_store_from_config cfg

-- The registry of the configuration.
abbrev pub registry_of : Config → Registry
registry_of cfg =
    new_registry cfg.chains cfg.health_check.unhealthy_threshold cfg.health_check.healthy_threshold

-- What the admin pages are given.
abbrev pub issuer_of : Config → Issuer
issuer_of cfg = record {
  secret = cfg.admin.jwt.secret;
  issuer = cfg.admin.jwt.issuer;
  subject = cfg.admin.jwt.subject;
  ttl = cfg.admin.jwt.ttl;
}

abbrev pub validator_of_config : Config → Validator
validator_of_config cfg = record {
  secret = cfg.admin.jwt.secret;
  issuer = cfg.admin.jwt.issuer;
  subject = cfg.admin.jwt.subject;
}

abbrev pub rotator_config_of : Config → RotatorConfig
rotator_config_of cfg = record {
  every = cfg.admin.jwt.rotate_every;
  on_start = cfg.admin.jwt.rotate_on_start;
  revoke_previous = cfg.admin.jwt.revoke_previous;
  cleanup_retention = cfg.admin.jwt.cleanup_retention;
}

-- The answer of `reloadUpstreams`: a status, with the error.
pub data Reloaded : Type 0 where
  done unavailable : Reloaded
  not_loaded : LoadError → Reloaded
  not_reloaded : ReloadError → Reloaded

-- Both reloads, from the file on: a SIGHUP logs what the admin page answers.
unfoldable pub reload_loaded : Loaded → Registry → Registry × Reloaded
reload_loaded (failed e) r = (r, not_loaded e)
reload_loaded (loaded cfg) r =
    let result = reload_nodes r cfg.chains in
    (result.0, elim result.1 [ none ↦ done | some e ↦ not_reloaded e ])

module _ (lower : Char → Char) (decode : String → Option Config) where
  -- The loop over the signals, on a SIGHUP that finds this file.
  unfoldable pub hang_up : Option String → Registry → Registry
  hang_up file r = (reload_loaded (load lower decode file) r).0

  -- `reloadUpstreams`; `has_registry` and `has_path` are its first test.
  unfoldable pub reload_upstreams : Bool → Bool → Option String → Registry → Registry × Reloaded
  reload_upstreams has_registry has_path file r =
      if has_registry && has_path
      then reload_loaded (load lower decode file) r
      else (r, unavailable)
