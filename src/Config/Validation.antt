-- ===== src/Config/Validation.antt =====
-- `validate` and `Load` of internal/config/config.go. The order of a map is the order of its list.
use rpc_node_gateway.Prelude.{
  String, Bool, true, false, not, ◌&&◌, ◌||◌, Option, none, some, List, [], ◌∷◌, ◌==◌,
  if◌then◌else◌, str_eq, trim_space, Assoc, lookup,
}
use Prim.Native.Char.{Char, code}
use rpc_node_gateway.Config.{Config, Plan, Chain, TokenConfig}
use rpc_node_gateway.Config.Defaults.{apply_defaults}

-- What `validate` can object to, in the order of its tests.
pub data Problem : Type 0 where
  no_chain : Problem
  no_nodes : String → Problem
  no_plan no_token no_dsn no_secret empty_key : Problem
  slash_in_key : String → Problem
  unknown_plan : String → String → Problem

-- `strings.Contains` of a slash.
unfoldable pub has_slash : String → Bool
has_slash String.[] = false
has_slash (String.◌∷◌ c s) = code c == 47 || has_slash s

abbrev pub is_empty {ℓ} : {A : Type ℓ} → List A → Bool
is_empty [] = true
is_empty (x ∷ xs) = false

-- The first objection, of two tests in a row.
abbrev pub or_else : Option Problem → Option Problem → Option Problem
or_else none later = later
or_else (some p) later = some p

unfoldable pub check_chains : Assoc Chain → Option Problem
check_chains [] = none
check_chains ((id, chain) ∷ rest) =
    or_else (if is_empty chain.nodes then some (no_nodes id) else none) (check_chains rest)

unfoldable pub check_token : Assoc Plan → TokenConfig → Option Problem
check_token plans t =
    if str_eq t.key ""
    then some empty_key
    else if has_slash t.key
    then some (slash_in_key t.key)
    else if is_empty plans
    then none
    else elim (lookup t.plan plans) [ none ↦ some (unknown_plan t.key t.plan) | some p ↦ none ]

unfoldable pub check_tokens : Assoc Plan → List TokenConfig → Option Problem
check_tokens plans [] = none
check_tokens plans (t ∷ ts) = or_else (check_token plans t) (check_tokens plans ts)

-- The tests between those of the chains and those of the tokens.
unfoldable pub check_switches : Config → Option Problem
check_switches c =
    if not c.database.enabled && is_empty c.plans
    then some no_plan
    else if not c.database.enabled && is_empty c.tokens
    then some no_token
    else if c.database.enabled && str_eq c.database.dsn ""
    then some no_dsn
    else if c.admin.enabled && str_eq (trim_space c.admin.jwt.secret) ""
    then some no_secret
    else none

unfoldable pub validate : Config → Option Problem
validate c =
    if is_empty c.chains
    then some no_chain
    else or_else (check_chains c.chains)
        (or_else (check_switches c) (check_tokens c.plans c.tokens))

pub data LoadError : Type 0 where
  read_failed parse_failed : LoadError
  invalid : Problem → LoadError

pub data Loaded : Type 0 where
  loaded : Config → Loaded
  failed : LoadError → Loaded

-- `Load`, from what reading the file gives; `decode` is `yaml.Unmarshal`.
unfoldable pub load : (Char → Char) → (String → Option Config) → Option String → Loaded
load lower decode none = failed read_failed
load lower decode (some text) = elim (decode text) [
  | none ↦ failed parse_failed
  | some c ↦ elim (validate c) [
    | some p ↦ failed (invalid p)
    | none ↦ loaded (apply_defaults lower c)
  ]
]
