-- ===== src/Server/Startup.antt =====
-- What a start that succeeds has made, and that a start without a database succeeds.
use rpc_node_gateway.Prelude.{
  List, some, Option, ◌≡◌, refl, ap, ◌∙◌, String, Bool, true, false, [], Assoc, ◌∷◌, ℤ, is_nonpos,
  Bool-cases, Option-cases, inl, inr, arith,
}
use rpc_node_gateway.Config.{Config}
use rpc_node_gateway.Config.Validation.{Loaded, loaded, failed, load}
use rpc_node_gateway.Config.Loading.{load-IsReady}
use rpc_node_gateway.Model.{Token}
use rpc_node_gateway.Balancer.{Pool}
use rpc_node_gateway.RateLimit.{Lib}
use rpc_node_gateway.Gateway.{find_token}
use rpc_node_gateway.TokenStore.{Tick, new_store_from_config}
use rpc_node_gateway.TokenStore.Yaml.{granted, new_store_from_config-find_token}
use rpc_node_gateway.AdminJwt.Store.{Store}
use rpc_node_gateway.Start.{init_token_store, registry_of}
use rpc_node_gateway.Start.Clients.{Connected, connected, not_enabled, refused, connect}
use rpc_node_gateway.Server.{
  Server, Libraries, Outside, runs, new_server, start_health_checks, takes_routes, launch,
  with_tokens, with_database, start_loaded, start,
}

init_token_store_off :
    (decode : String → Option (List String)) (first : Tick) (c : Config)
    → c.database.enabled ≡ false
    → init_token_store decode false c first [] ≡ new_store_from_config c
unfolding init_token_store
init_token_store_off decode first c off = rw off refl

start_health_checks-ticks :
    (interval : ℤ) (pools : Assoc Pool)
    → is_nonpos interval ≡ false
    → start_health_checks interval pools ≡ true
unfolding start_health_checks
start_health_checks-ticks interval [] ticks = refl
start_health_checks-ticks interval (p ∷ rest) ticks =
    rw (ticks, start_health_checks-ticks interval rest ticks) refl

module _ (libs : Libraries) {lib : Lib} {S : Type 0} (store : Store S) where
  -- The server that runs is the one of the configuration, with some tokens.
  abbrev Made : Config → Outside S → Config → Server lib S → Type 0
  Made c o cfg s = (c ≡ cfg) × ((tokens : Assoc Token) × (s ≡ new_server libs store c o tokens))

  launch-Made :
      (c : Config) (o : Outside S) (cfg : Config) (s : Server lib S) (tokens : Assoc Token)
      → launch libs store c o tokens ≡ runs cfg s
      → Made c o cfg s
  unfolding launch
  launch-Made c o cfg s tokens e =
      elim (Bool-cases (start_health_checks c.health_check.interval (registry_of c).pools)) [
        | inr panics ↦ absurd (ground arith)
        | inl ticking ↦ elim (Bool-cases (takes_routes libs.takes_route c.chains)) [
          | inr panics ↦ absurd (ground arith)
          | inl routed ↦ (ground arith, (tokens, ground arith))
        ]
      ]

  with_tokens-Made :
      (has_pg : Bool) (c : Config) (o : Outside S) (cfg : Config) (s : Server lib S)
      → with_tokens libs store has_pg c o ≡ runs cfg s
      → Made c o cfg s
  unfolding with_tokens
  with_tokens-Made has_pg c o cfg s e =
      elim (Option-cases (init_token_store libs.decode_methods has_pg c o.first [])) [
        | inl fails ↦ absurd (ground arith)
        | inr (tokens, built) ↦ launch-Made c o cfg s tokens (rw (built, with_tokens) at e)
      ]

  with_database-Made :
      (d : Connected) (c : Config) (o : Outside S) (cfg : Config) (s : Server lib S)
      → with_database libs store d c o ≡ runs cfg s
      → Made c o cfg s
  unfolding with_database
  with_database-Made (refused x) c o cfg s e = cc
  with_database-Made not_enabled c o cfg s e = with_tokens-Made false c o cfg s e
  with_database-Made (connected p) c o cfg s e = with_tokens-Made true c o cfg s e

  start_loaded-Made :
      (l : Loaded) (o : Outside S) (cfg : Config) (s : Server lib S)
      → start_loaded libs store l o ≡ runs cfg s
      → (l ≡ loaded cfg) × ((tokens : Assoc Token) × (s ≡ new_server libs store cfg o tokens))
  unfolding start_loaded
  start_loaded-Made (failed x) o cfg s e = cc
  start_loaded-Made (loaded c) o cfg s e =
      let (same, (tokens, made)) =
        with_database-Made (connect libs.parse_dsn c.database o.pg_connects o.pg_pings) c o cfg s
          e in
      (ap loaded same, (tokens, made ∙ ap (λ x. new_server libs store x o tokens) same))

  pub start-runs :
      (o : Outside S) (cfg : Config) (s : Server lib S)
      → start libs store o ≡ runs cfg s
      → (load libs.lower libs.decode_config o.file ≡ loaded cfg)
        × ((tokens : Assoc Token) × (s ≡ new_server libs store cfg o tokens))
  unfolding start
  start-runs o cfg s e = start_loaded-Made (load libs.lower libs.decode_config o.file) o cfg s e

  with_tokens_built :
      (has_pg : Bool) (c : Config) (o : Outside S) (tokens : Assoc Token)
      → init_token_store libs.decode_methods has_pg c o.first [] ≡ some tokens
      → with_tokens libs {lib = lib} store has_pg c o ≡ launch libs store c o tokens
  unfolding with_tokens
  with_tokens_built has_pg c o tokens e = rw (e, with_tokens) refl

  launch-runs :
      (c : Config) (o : Outside S) (tokens : Assoc Token)
      → is_nonpos c.health_check.interval ≡ false
      → takes_routes libs.takes_route c.chains ≡ true
      → launch libs {lib = lib} store c o tokens ≡ runs c (new_server libs store c o tokens)
  unfolding launch
  launch-runs c o tokens ticks routed =
      rw (start_health_checks-ticks c.health_check.interval (registry_of c).pools ticks, routed)
        refl

  start_off :
      (o : Outside S) (c : Config)
      → load libs.lower libs.decode_config o.file ≡ loaded c
      → c.database.enabled ≡ false
      → start libs {lib = lib} store o ≡ with_tokens libs store false c o
  unfolding start start_loaded connect with_database
  start_off o c file off = rw (file, start_loaded) (rw (off, connect) refl)

  -- A file that loads and has no database, with a positive interval of the health checks and chains
  -- whose routes chi takes, starts the gateway, whatever Redis, the admin tokens and the rest of the
  -- surroundings do, and it then knows the enabled tokens of the file.
  pub start-without_database :
      (o : Outside S) (cfg : Config)
      → load libs.lower libs.decode_config o.file ≡ loaded cfg
      → cfg.database.enabled ≡ false
      → is_nonpos cfg.health_check.interval ≡ false
      → takes_routes libs.takes_route cfg.chains ≡ true
      → (s : Server lib S) × (start libs store o ≡ runs cfg s)
        × ((key : String) → find_token s.tokens key ≡ granted cfg key)
  unfolding new_server
  start-without_database o cfg file off ticks routed =
      let ready = load-IsReady libs.lower libs.decode_config o.file cfg file in
      let (tokens, built, found) = new_store_from_config-find_token cfg ready.valid off in
      (
        new_server libs store cfg o tokens,
        start_off o cfg file off
            ∙ with_tokens_built false cfg o tokens
                (init_token_store_off libs.decode_methods o.first cfg off ∙ built)
            ∙ launch-runs cfg o tokens ticks routed,
        found,
      )
