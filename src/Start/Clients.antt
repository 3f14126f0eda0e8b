-- ===== src/Start/Clients.antt =====
-- internal/store/redis.go and internal/db/postgres.go: the clients that main.go starts with. What
-- go-redis and pgx do is an input: whether they answer, and `parse`, which is `pgxpool.ParseConfig`.
use rpc_node_gateway.Prelude.{
  String, Bool, true, false, not, Option, none, some, ℤ, is_nonpos, to_i32, if◌then◌else◌, str_eq,
}
use rpc_node_gateway.Config.{RedisConfig, DatabaseConfig}

-- Whether `NewRedis` sets the client, which is what `Available` says; it never fails.
unfoldable pub new_redis : RedisConfig → Bool → Bool
new_redis cfg pings = if not cfg.enabled then false else if not pings then false else true

-- The limits of a pool of connections, int32 numbers.
pub record PoolConfig : Type 0 where
  pub max_conns : ℤ
  pub min_conns : ℤ

pub data ConnectError : Type 0 where
  no_dsn bad_dsn no_connection no_ping : ConnectError

pub data Connected : Type 0 where
  not_enabled : Connected
  refused : ConnectError → Connected
  connected : PoolConfig → Connected

-- A limit of the configuration in place of that of the DSN.
abbrev pub limit_or : ℤ → ℤ → ℤ
limit_or given parsed = if is_nonpos given then parsed else to_i32 given

abbrev pub pool_config : DatabaseConfig → PoolConfig → PoolConfig
pool_config cfg c = record {
  max_conns = limit_or cfg.max_conns c.max_conns;
  min_conns = limit_or cfg.min_conns c.min_conns;
}

-- `Connect`; the flags say whether the pool can be made and whether it answers.
unfoldable pub connect : (String → Option PoolConfig) → DatabaseConfig → Bool → Bool → Connected
connect parse cfg connects pings =
    if not cfg.enabled
    then not_enabled
    else if str_eq cfg.dsn ""
    then refused no_dsn
    else elim (parse cfg.dsn) [
      | none ↦ refused bad_dsn
      | some c ↦
          if not connects
          then refused no_connection
          else if not pings
          then refused no_ping
          else connected (pool_config cfg c)
    ]
