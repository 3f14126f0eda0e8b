-- ===== src/Config/Defaults.antt =====
-- `applyDefaults` of internal/config/config.go.
use rpc_node_gateway.Prelude.{
  ℕ, ◌*◌, String, [], ◌∷◌, map, ℤ, pos, negsuc, zero, suc, is_nonpos, if◌then◌else◌, str_eq, Assoc,
}
use Prim.Native.Char.{Char}
use rpc_node_gateway.Config.{Config, Plan, Chain, NodeConfig, AdminJwtConfig}
use rpc_node_gateway.Config.Hosts.{normalize_loop}

-- `if x == 0`, `if x <= 0` and `if x == ""`, each with the default that it sets.
abbrev pub or_if_zero : ℤ → ℤ → ℤ
or_if_zero (pos zero) fallback = fallback
or_if_zero (pos (suc n)) fallback = pos (suc n)
or_if_zero (negsuc n) fallback = negsuc n

abbrev pub or_if_nonpos : ℤ → ℤ → ℤ
or_if_nonpos x fallback = if is_nonpos x then fallback else x

abbrev pub or_if_empty : String → String → String
or_if_empty x fallback = if str_eq x "" then fallback else x

-- A second, in nanoseconds.
abbrev seconds : ℕ → ℤ
seconds n = pos (n * 1000000000)

unfoldable pub default_burst : ℤ → ℤ → ℤ
default_burst rps burst = if is_nonpos burst then (if is_nonpos rps then pos 1 else rps) else burst

abbrev pub default_plan : Plan → Plan
default_plan plan = record plan {
  token_ip_rate_limit_burst =
      default_burst plan.token_ip_rate_limit_per_second plan.token_ip_rate_limit_burst;
  token_rate_limit_burst =
      default_burst plan.token_rate_limit_per_second plan.token_rate_limit_burst;
}

unfoldable pub default_plans : Assoc Plan → Assoc Plan
default_plans [] = []
default_plans ((name, plan) ∷ rest) = (name, default_plan plan) ∷ default_plans rest

abbrev pub default_node : NodeConfig → NodeConfig
default_node node = record node { weight = or_if_nonpos node.weight (pos 1) }

unfoldable pub default_chains : Assoc Chain → Assoc Chain
default_chains [] = []
default_chains ((id, chain) ∷ rest) =
    (id, record chain { nodes = map default_node chain.nodes }) ∷ default_chains rest

abbrev pub default_jwt : AdminJwtConfig → AdminJwtConfig
default_jwt c = record c {
  issuer = or_if_empty c.issuer "rpc-node-gateway";
  subject = or_if_empty c.subject "admin-stats";
  ttl = or_if_zero c.ttl (seconds 86400);
  rotate_every = or_if_zero c.rotate_every (seconds 3600);
  cleanup_retention = or_if_zero c.cleanup_retention (seconds 604800);
}

unfoldable pub apply_defaults : (Char → Char) → Config → Config
apply_defaults lower c = record c {
  server = record c.server {
    addr = or_if_empty c.server.addr ":8080";
    read_timeout = or_if_zero c.server.read_timeout (seconds 30);
    write_timeout = or_if_zero c.server.write_timeout (seconds 60);
    domains = normalize_loop lower [] c.server.domains;
  };
  database = record c.database {
    token_refresh = or_if_zero c.database.token_refresh (seconds 30);
    max_conns = or_if_zero c.database.max_conns (pos 10);
  };
  plans = default_plans c.plans;
  chains = default_chains c.chains;
  health_check = record {
    interval = or_if_zero c.health_check.interval (seconds 30);
    timeout = or_if_zero c.health_check.timeout (seconds 5);
    unhealthy_threshold = or_if_nonpos c.health_check.unhealthy_threshold (pos 3);
    healthy_threshold = or_if_nonpos c.health_check.healthy_threshold (pos 2);
  };
  billing = record {
    publisher = or_if_empty c.billing.publisher "log";
    stream_key = or_if_empty c.billing.stream_key "rpc:billing:events";
  };
  admin = record c.admin { jwt = default_jwt c.admin.jwt };
  web_socket = record c.web_socket {
    max_connections_per_token = or_if_nonpos c.web_socket.max_connections_per_token (pos 5);
    max_subscriptions_per_conn = or_if_nonpos c.web_socket.max_subscriptions_per_conn (pos 20);
    notification_bill_units = or_if_nonpos c.web_socket.notification_bill_units (pos 1);
  };
}
