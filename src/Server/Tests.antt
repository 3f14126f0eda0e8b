-- ===== src/Server/Tests.antt =====
-- A gateway that starts from a file, one that meets events, and one whose database drops a token.
use rpc_node_gateway.Prelude.{
  ◌≡◌, refl, String, true, false, none, some, List, [], ◌∷◌, pos, trim_space,
}
use rpc_node_gateway.Config.{Config}
use rpc_node_gateway.Config.Defaults.{apply_defaults, default_chains}
use rpc_node_gateway.Config.Tests.{sample, same_char, parse, load-sample}
use rpc_node_gateway.Balancer.Tests.{three_below, two_below}
use rpc_node_gateway.RateLimit.Tests.{counting_lib, env}
use rpc_node_gateway.JsonRpc.Tests.{codec}
use rpc_node_gateway.Proxy.Tests.{client, moment}
use rpc_node_gateway.Gateway.{find_token}
use rpc_node_gateway.Gateway.Tests.{split_host, incoming}
use rpc_node_gateway.TokenStore.{
  Tick, enabled_rows, join_plans, to_model, to_models, list_enabled_tokens, reload,
}
use rpc_node_gateway.TokenStore.Yaml.{granted}
use rpc_node_gateway.TokenStore.Tests.{api_token, plan_rows, decode}
use rpc_node_gateway.AdminJwt.MemoryStore.{MemoryStore, memory}
use rpc_node_gateway.AdminJwt.MemoryStore.Tests.{jwt, turn, holding}
use rpc_node_gateway.Server.{Server, Libraries, Outside, runs, new_server, takes_routes, start}
use rpc_node_gateway.Server.Routing.{health, posts, serve}
use rpc_node_gateway.Server.Life.{Event, requested, hung_up, checked, refreshed, rotated, run}
use rpc_node_gateway.Server.Startup.{start-without_database}
use rpc_node_gateway.Server.Running.{IsRunning, start-run}
use rpc_node_gateway.Server.Lockout.{turns_away, run-serve}

abbrev libs : Libraries
libs = record {
  takes_route = λ pattern. true;
  codec = codec;
  jwt = jwt;
  lower = same_char;
  split_host = split_host;
  parse_dsn = λ dsn. none;
  decode_config = parse;
  decode_methods = decode;
  decode_error = λ body. none;
}

-- A reading of a database that holds one token as enabled and one as not.
abbrev tick : Tick
tick = record {
  fails = false;
  tokens = api_token "a" true ∷ api_token "k" false ∷ [];
  plans = plan_rows;
}

abbrev outside : Outside MemoryStore
outside = record {
  file = some "";
  redis_pings = false;
  buckets = λ key. none;
  counters = λ key. none;
  pg_connects = false;
  pg_pings = false;
  first = tick;
  turn = turn;
  jwts = holding;
}

abbrev cfg : Config
cfg = apply_defaults same_char sample

start-without_database_example :
    (s : Server counting_lib MemoryStore) × (start libs memory outside ≡ runs cfg s)
    × ((key : String) → find_token s.tokens key ≡ granted cfg key)
unfolding apply_defaults takes_routes default_chains
start-without_database_example =
    start-without_database libs memory outside cfg load-sample refl refl refl

sample_starts :
    (s : Server counting_lib MemoryStore) × (start libs memory outside ≡ runs cfg s)
    × ((key : String) → find_token s.tokens key ≡ granted cfg key)
unfolding apply_defaults takes_routes default_chains
sample_starts = start-without_database libs memory outside cfg load-sample refl refl refl

abbrev started : Server counting_lib MemoryStore
started = sample_starts.0

abbrev events : List Event
events =
    requested (posts incoming client env moment)
    ∷ checked "eth" (λ url. none)
    ∷ hung_up none
    ∷ refreshed tick
    ∷ rotated turn
    ∷ requested health
    ∷ []

start-run_example : IsRunning 3 2 cfg (run libs memory cfg started events)
unfolding apply_defaults
start-run_example =
    start-run libs memory outside cfg started 3 2 events sample_starts.1 refl refl three_below
      two_below

-- The configuration with a database that is read once a second.
abbrev refreshing : Config
refreshing = record cfg {
  database = record {
    enabled = true;
    dsn = "d";
    max_conns = pos 4;
    min_conns = pos 1;
    token_refresh = pos 1000000000;
  };
}

abbrev server : Server counting_lib MemoryStore
server = new_server libs memory refreshing outside []

abbrev later : Server counting_lib MemoryStore
later = run libs memory refreshing server (refreshed tick ∷ requested health ∷ [])

run-serve_example :
    (turns_away (serve libs memory refreshing (posts incoming client env moment) later).0 ≡ true)
    × ((serve libs memory refreshing (posts incoming client env moment) later).1.registry
        ≡ later.registry)
unfolding reload list_enabled_tokens to_models to_model enabled_rows join_plans trim_space
run-serve_example =
    run-serve libs memory refreshing server tick (requested health ∷ [])
      (posts incoming client env moment) "k" refl refl (refl, tt) refl refl
