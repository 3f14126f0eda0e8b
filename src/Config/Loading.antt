-- ===== src/Config/Loading.antt =====
-- What a configuration that `Load` of internal/config/config.go returns is fit for.
use rpc_node_gateway.Prelude.{
  ◌≡◌, refl, ◌∙◌, String, Bool, true, false, ◌||◌, Option, none, some, List, [], ◌∷◌, ◌++◌, map, ℤ,
  pos, is_nonpos, str_eq, Assoc, lookup, All, Bool-cases, Option-cases, inl, inr, arith,
}
use mathlib.Core.Path.{subst}
use Prim.Native.Char.{Char}
use rpc_node_gateway.Config.{Config, Plan, Chain, NodeConfig, TokenConfig}
use rpc_node_gateway.Config.Hosts.{contains, normalize_host, normalize_loop}
use rpc_node_gateway.Config.Defaults.{
  or_if_nonpos, default_burst, default_plans, default_node, default_chains, apply_defaults,
}
use rpc_node_gateway.Config.Validation.{is_empty, validate, loaded, load}
use rpc_node_gateway.Config.Validity.{HasNodes, IsValidToken, IsValid, validate-none}

abbrev pub IsPositive : ℤ → Type 0
IsPositive z = is_nonpos z ≡ false

abbrev pub IsReadyChain : String × Chain → Type 0
IsReadyChain (id, chain) = All (λ n. IsPositive n.weight) chain.nodes

abbrev pub IsReadyPlan : String × Plan → Type 0
IsReadyPlan (name, plan) =
    IsPositive plan.token_rate_limit_burst × IsPositive plan.token_ip_rate_limit_burst

pub record IsReady (c : Config) : Type 0 where
  pub valid : IsValid c
  pub chains : All IsReadyChain c.chains
  pub plans : All IsReadyPlan c.plans
  pub domains : All (λ d. str_eq d "" ≡ false) c.server.domains
  pub unhealthy_threshold : IsPositive c.health_check.unhealthy_threshold
  pub healthy_threshold : IsPositive c.health_check.healthy_threshold
  pub max_connections_per_token : IsPositive c.web_socket.max_connections_per_token
  pub max_subscriptions_per_conn : IsPositive c.web_socket.max_subscriptions_per_conn
  pub notification_bill_units : IsPositive c.web_socket.notification_bill_units

or_if_nonpos-IsPositive :
    (x fallback : ℤ) → IsPositive fallback → IsPositive (or_if_nonpos x fallback)
or_if_nonpos-IsPositive x fallback h = ground arith

default_burst-IsPositive : (rps burst : ℤ) → IsPositive (default_burst rps burst)
unfolding default_burst
default_burst-IsPositive rps burst = ground arith

default_plans-IsReadyPlan : (plans : Assoc Plan) → All IsReadyPlan (default_plans plans)
unfolding default_plans
default_plans-IsReadyPlan [] = tt
default_plans-IsReadyPlan ((name, p) ∷ rest) = (
  (
    default_burst-IsPositive p.token_rate_limit_per_second p.token_rate_limit_burst,
    default_burst-IsPositive p.token_ip_rate_limit_per_second p.token_ip_rate_limit_burst,
  ),
  default_plans-IsReadyPlan rest,
)

map-default_node :
    (nodes : List NodeConfig) → All (λ n. IsPositive n.weight) (map default_node nodes)
map-default_node [] = tt
map-default_node (n ∷ ns) = (or_if_nonpos-IsPositive n.weight (pos 1) refl, map-default_node ns)

default_chains-IsReadyChain : (chains : Assoc Chain) → All IsReadyChain (default_chains chains)
unfolding default_chains
default_chains-IsReadyChain [] = tt
default_chains-IsReadyChain ((id, c) ∷ rest) =
    (map-default_node c.nodes, default_chains-IsReadyChain rest)

is_empty-default_chains :
    (chains : Assoc Chain) → is_empty (default_chains chains) ≡ is_empty chains
unfolding default_chains
is_empty-default_chains [] = refl
is_empty-default_chains ((id, c) ∷ rest) = refl

is_empty-map : (nodes : List NodeConfig) → is_empty (map default_node nodes) ≡ is_empty nodes
is_empty-map [] = refl
is_empty-map (n ∷ ns) = refl

default_chains-HasNodes :
    (chains : Assoc Chain) → All HasNodes chains → All HasNodes (default_chains chains)
unfolding default_chains
default_chains-HasNodes [] h = tt
default_chains-HasNodes ((id, c) ∷ rest) (h, hs) =
    (is_empty-map c.nodes ∙ h, default_chains-HasNodes rest hs)

is_empty-default_plans : (plans : Assoc Plan) → is_empty (default_plans plans) ≡ is_empty plans
unfolding default_plans
is_empty-default_plans [] = refl
is_empty-default_plans ((id, c) ∷ rest) = refl

abbrev found : Option Plan → Bool
found none = false
found (some p) = true

found-default_plans :
    (key : String) (plans : Assoc Plan)
    → found (lookup key (default_plans plans)) ≡ found (lookup key plans)
unfolding default_plans lookup
found-default_plans key [] = refl
found-default_plans key ((name, p) ∷ rest) = ground (arith, found-default_plans key rest)

default_plans-IsValidToken :
    (plans : Assoc Plan) (ts : List TokenConfig)
    → All (IsValidToken plans) ts
    → All (IsValidToken (default_plans plans)) ts
default_plans-IsValidToken plans [] h = tt
default_plans-IsValidToken plans (t ∷ ts) ((key, slash, plan), hs) = (
  (key, slash, ground (arith, is_empty-default_plans plans, found-default_plans t.plan plans)),
  default_plans-IsValidToken plans ts hs,
)

module _ (lower : Char → Char) where
  All-append_one :
      (seen : List String) (d : String)
      → All (λ x. str_eq x "" ≡ false) seen
      → str_eq d "" ≡ false
      → All (λ x. str_eq x "" ≡ false) (seen ++ d ∷ [])
  All-append_one [] d h e = (e, tt)
  All-append_one (x ∷ xs) d (h, hs) e = (h, All-append_one xs d hs e)

  normalize_loop-named :
      (seen ds : List String)
      → All (λ d. str_eq d "" ≡ false) seen
      → All (λ d. str_eq d "" ≡ false) (normalize_loop lower seen ds)
  unfolding normalize_loop
  normalize_loop-named seen [] h = h
  normalize_loop-named seen (d ∷ ds) h =
      elim (Bool-cases
        (str_eq (normalize_host lower d) "" || contains seen (normalize_host lower d))) [
          | inl skip ↦ rw skip (normalize_loop-named seen ds h)
          | inr add ↦ rw add (
              normalize_loop-named (seen ++ normalize_host lower d ∷ []) ds
                (All-append_one seen (normalize_host lower d) h (ground arith)))
        ]

  apply_defaults-IsValid : (c : Config) → IsValid c → IsValid (apply_defaults lower c)
  unfolding apply_defaults
  apply_defaults-IsValid c v = record {
    chains = is_empty-default_chains c.chains ∙ v.chains;
    nodes = default_chains-HasNodes c.chains v.nodes;
    from_file = rw (is_empty-default_plans c.plans) v.from_file;
    dsn = v.dsn;
    secret = v.secret;
    tokens = default_plans-IsValidToken c.plans c.tokens v.tokens;
  }

  apply_defaults-IsReady : (c : Config) → IsValid c → IsReady (apply_defaults lower c)
  unfolding apply_defaults
  apply_defaults-IsReady c v = record {
    valid = apply_defaults-IsValid c v;
    chains = default_chains-IsReadyChain c.chains;
    plans = default_plans-IsReadyPlan c.plans;
    domains = normalize_loop-named [] c.server.domains tt;
    unhealthy_threshold = or_if_nonpos-IsPositive c.health_check.unhealthy_threshold (pos 3) refl;
    healthy_threshold = or_if_nonpos-IsPositive c.health_check.healthy_threshold (pos 2) refl;
    max_connections_per_token =
        or_if_nonpos-IsPositive c.web_socket.max_connections_per_token (pos 5) refl;
    max_subscriptions_per_conn =
        or_if_nonpos-IsPositive c.web_socket.max_subscriptions_per_conn (pos 20) refl;
    notification_bill_units =
        or_if_nonpos-IsPositive c.web_socket.notification_bill_units (pos 1) refl;
  }

  load_inv :
      (decode : String → Option Config) (file : Option String) (c : Config)
      → load lower decode file ≡ loaded c
      → (d : Config) × (validate d ≡ none) × (apply_defaults lower d ≡ c)
  unfolding load
  load_inv decode none c e = ground arith
  load_inv decode (some text) c e = elim (Option-cases (decode text)) [
    | inl garbage ↦ ground arith
    | inr (d, parsed) ↦ elim (Option-cases (validate d)) [
      | inl fine ↦ (d, fine, ground arith)
      | inr (p, problem) ↦ ground arith
    ]
  ]

  -- A configuration that is loaded passes its own check, and is fit for the parts that read it: each
  -- node has a positive weight, each plan positive bursts, the thresholds of the health checks and the
  -- limits of WebSockets are positive, and no bound domain is empty.
  pub load-IsReady :
      (decode : String → Option Config) (file : Option String) (c : Config)
      → load lower decode file ≡ loaded c
      → IsReady c
  load-IsReady decode file c e =
      let (d, fine, same) = load_inv decode file c e in
      subst IsReady same (apply_defaults-IsReady d (validate-none d fine))
