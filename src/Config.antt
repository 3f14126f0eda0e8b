-- ===== src/Config.antt =====
-- internal/config/config.go: the configuration, its check, its defaults and the file that it comes
-- from. A duration is a number of nanoseconds. The fields of maps are association lists.
pub mod Hosts
pub mod Defaults
pub mod Validation
pub mod Validity
pub mod Loading
pub mod Tests
use rpc_node_gateway.Prelude.{String, Bool, List, ℤ, Assoc}

pub record NodeConfig : Type 0 where
  pub name : String
  pub url : String
  pub ws_url : String
  pub weight : ℤ

pub record Chain : Type 0 where
  pub name : String
  pub nodes : List NodeConfig

pub record ServerConfig : Type 0 where
  pub addr : String
  pub read_timeout : ℤ
  pub write_timeout : ℤ
  pub domains : List String

pub record RedisConfig : Type 0 where
  pub enabled : Bool
  pub addr : String
  pub password : String
  pub db : ℤ

pub record DatabaseConfig : Type 0 where
  pub enabled : Bool
  pub dsn : String
  pub max_conns : ℤ
  pub min_conns : ℤ
  pub token_refresh : ℤ

pub record Plan : Type 0 where
  pub token_ip_rate_limit_per_second : ℤ
  pub token_ip_rate_limit_burst : ℤ
  pub token_rate_limit_per_second : ℤ
  pub token_rate_limit_burst : ℤ
  pub daily_quota : ℤ
  pub denied_methods : List String

pub record TokenConfig : Type 0 where
  pub key : String
  pub plan : String
  pub name : String
  pub enabled : Bool
  pub billing_free : Bool

pub record HealthCheckConfig : Type 0 where
  pub interval : ℤ
  pub timeout : ℤ
  pub unhealthy_threshold : ℤ
  pub healthy_threshold : ℤ

pub record BillingConfig : Type 0 where
  pub publisher : String
  pub stream_key : String

pub record AdminJwtConfig : Type 0 where
  pub secret : String
  pub issuer : String
  pub subject : String
  pub ttl : ℤ
  pub rotate_every : ℤ
  pub rotate_on_start : Bool
  pub revoke_previous : Bool
  pub cleanup_retention : ℤ
  pub log_token : Bool

pub record AdminConfig : Type 0 where
  pub enabled : Bool
  pub jwt : AdminJwtConfig

pub record WebSocketConfig : Type 0 where
  pub enabled : Bool
  pub max_connections_per_token : ℤ
  pub max_subscriptions_per_conn : ℤ
  pub notification_bill_units : ℤ

pub record Config : Type 0 where
  pub server : ServerConfig
  pub redis : RedisConfig
  pub database : DatabaseConfig
  pub plans : Assoc Plan
  pub tokens : List TokenConfig
  pub chains : Assoc Chain
  pub health_check : HealthCheckConfig
  pub billing : BillingConfig
  pub admin : AdminConfig
  pub web_socket : WebSocketConfig
