-- ===== src/Config/Validity.antt =====
-- What `validate` of internal/config/config.go accepts, said without the order of its tests.
use rpc_node_gateway.Prelude.{
  ◌≡◌, ◌↔◌, refl, String, true, false, not, ◌&&◌, ◌||◌, Option, none, some, List, [], ◌∷◌, str_eq,
  trim_space, Assoc, lookup, All, arith,
}
use rpc_node_gateway.Config.{Config, Plan, Chain, TokenConfig}
use rpc_node_gateway.Config.Validation.{
  Problem, has_slash, is_empty, or_else, check_chains, check_token, check_tokens, check_switches,
  validate,
}

abbrev pub HasNodes : String × Chain → Type 0
HasNodes (id, chain) = is_empty chain.nodes ≡ false

-- Where there are plans at all, the plan of the token is one of them.
abbrev pub IsValidToken : Assoc Plan → TokenConfig → Type 0
IsValidToken plans t =
    (str_eq t.key "" ≡ false)
    × (has_slash t.key ≡ false)
    × (is_empty plans || elim (lookup t.plan plans) [ none ↦ false | some p ↦ true ] ≡ true)

pub record IsValid (c : Config) : Type 0 where
  pub chains : is_empty c.chains ≡ false
  pub nodes : All HasNodes c.chains
  pub from_file : c.database.enabled || (not (is_empty c.plans) && not (is_empty c.tokens)) ≡ true
  pub dsn : not c.database.enabled || not (str_eq c.database.dsn "") ≡ true
  pub secret : not c.admin.enabled || not (str_eq (trim_space c.admin.jwt.secret) "") ≡ true
  pub tokens : All (IsValidToken c.plans) c.tokens

or_else-none : (a b : Option Problem) → or_else a b ≡ none → (a ≡ none) × (b ≡ none)
or_else-none none b e = (refl, e)
or_else-none (some p) b e = cc

check_chains-none : (chains : Assoc Chain) → check_chains chains ≡ none → All HasNodes chains
unfolding check_chains
check_chains-none [] e = tt
check_chains-none ((id, chain) ∷ rest) e = ground (arith, check_chains-none rest)

check_chains-HasNodes : (chains : Assoc Chain) → All HasNodes chains → check_chains chains ≡ none
unfolding check_chains
check_chains-HasNodes [] h = refl
check_chains-HasNodes ((id, chain) ∷ rest) (h, hs) = ground (arith, check_chains-HasNodes rest hs)

check_token-none :
    (plans : Assoc Plan) (t : TokenConfig) → check_token plans t ≡ none → IsValidToken plans t
unfolding check_token
check_token-none plans t e = ground arith

check_token-IsValidToken :
    (plans : Assoc Plan) (t : TokenConfig) → IsValidToken plans t → check_token plans t ≡ none
unfolding check_token
check_token-IsValidToken plans t h = ground arith

check_tokens-none :
    (plans : Assoc Plan) (ts : List TokenConfig)
    → check_tokens plans ts ≡ none
    → All (IsValidToken plans) ts
unfolding check_tokens
check_tokens-none plans [] e = tt
check_tokens-none plans (t ∷ ts) e =
    let (first, others) = or_else-none (check_token plans t) (check_tokens plans ts) e in
    (check_token-none plans t first, check_tokens-none plans ts others)

check_tokens-IsValidToken :
    (plans : Assoc Plan) (ts : List TokenConfig)
    → All (IsValidToken plans) ts
    → check_tokens plans ts ≡ none
unfolding check_tokens
check_tokens-IsValidToken plans [] h = refl
check_tokens-IsValidToken plans (t ∷ ts) (h, hs) =
    ground (arith, check_token-IsValidToken plans t h, check_tokens-IsValidToken plans ts hs)

-- The answers of `validate` part by part.
validate_parts :
    (c : Config)
    → validate c ≡ none
    → (is_empty c.chains ≡ false)
      × (check_chains c.chains ≡ none)
      × (check_switches c ≡ none)
      × (check_tokens c.plans c.tokens ≡ none)
unfolding validate
validate_parts c e = ground arith

switches_none :
    (c : Config)
    → check_switches c ≡ none
    → (c.database.enabled || (not (is_empty c.plans) && not (is_empty c.tokens)) ≡ true)
      × (not c.database.enabled || not (str_eq c.database.dsn "") ≡ true)
      × (not c.admin.enabled || not (str_eq (trim_space c.admin.jwt.secret) "") ≡ true)
unfolding check_switches
switches_none c e = (ground arith, ground arith, ground arith)

switches-IsValid : (c : Config) → IsValid c → check_switches c ≡ none
unfolding check_switches
switches-IsValid c v =
    let from_file = v.from_file in let dsn = v.dsn in let secret = v.secret in ground arith

pub validate-none : (c : Config) → validate c ≡ none → IsValid c
validate-none c e =
    let (chains, nodes, switches, tokens) = validate_parts c e in
    let (from_file, dsn, secret) = switches_none c switches in
    record {
      chains = chains;
      nodes = check_chains-none c.chains nodes;
      from_file = from_file;
      dsn = dsn;
      secret = secret;
      tokens = check_tokens-none c.plans c.tokens tokens;
    }

pub validate-IsValid : (c : Config) → IsValid c → validate c ≡ none
unfolding validate
validate-IsValid c v =
    rw (v.chains, check_chains-HasNodes c.chains v.nodes, switches-IsValid c v)
      (check_tokens-IsValidToken c.plans c.tokens v.tokens)

-- `validate` finds no problem exactly if there are chains and each has nodes, a gateway without
-- database has plans and tokens, one with a database has a DSN and one with admin pages a secret, and
-- each token has a key, without slashes, and a known plan where there are plans.
pub validate_iff : (c : Config) → (validate c ≡ none) ↔ IsValid c
validate_iff c = (validate-none c, validate-IsValid c)
