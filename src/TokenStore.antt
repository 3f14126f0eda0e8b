-- ===== src/TokenStore.antt =====
-- internal/auth/store.go (its `Lookup` is with the route that uses it) and internal/db/token_repo.go:
-- the tokens of the gateway, from the configuration or from the tables `api_tokens` and `plans`. The
-- lock is left out: a reload sets the whole map at once. `decode` is `json.Unmarshal` into a list.
pub mod Reloads
pub mod Yaml
pub mod Tests
use rpc_node_gateway.Prelude.{
  String, Bool, true, false, Option, none, some, List, [], ◌∷◌, ◌++◌, ℤ, pos, is_nonpos,
  if◌then◌else◌, str_eq, Assoc, lookup, insert,
}
use rpc_node_gateway.Config.{Config, Plan, TokenConfig}
use rpc_node_gateway.Model.{Token}
use rpc_node_gateway.Stats.{TokenMeta}

-- `tokenFromYAML`; the set of methods is a list.
abbrev pub token_from_yaml : TokenConfig → Plan → Token
token_from_yaml t plan = record {
  key = t.key;
  name = t.name;
  plan = t.plan;
  user_id = "";
  price_per_success_cents = pos 0;
  enabled = t.enabled;
  billing_free = t.billing_free;
  token_rate_limit_per_second = plan.token_rate_limit_per_second;
  token_rate_limit_burst = plan.token_rate_limit_burst;
  token_ip_rate_limit_per_second = plan.token_ip_rate_limit_per_second;
  token_ip_rate_limit_burst = plan.token_ip_rate_limit_burst;
  daily_quota = plan.daily_quota;
  denied_methods = plan.denied_methods;
}

-- The loop of `NewStoreFromConfig`, on the map so far; `none` is the error.
unfoldable pub yaml_loop : Assoc Plan → List TokenConfig → Assoc Token → Option (Assoc Token)
yaml_loop plans [] tokens = some tokens
yaml_loop plans (t ∷ ts) tokens = elim (lookup t.plan plans) [
  | none ↦ none
  | some plan ↦ yaml_loop plans ts (insert t.key (token_from_yaml t plan) tokens)
]

unfoldable pub new_store_from_config : Config → Option (Assoc Token)
new_store_from_config cfg = yaml_loop cfg.plans cfg.tokens []

abbrev pub meta_of_token : Token → TokenMeta
meta_of_token t = record {
  key = t.key;
  name = t.name;
  plan = t.plan;
  billing_free = t.billing_free;
  enabled = t.enabled;
}

unfoldable pub list_meta : Assoc Token → List TokenMeta
list_meta [] = []
list_meta ((k, t) ∷ rest) = meta_of_token t ∷ list_meta rest

-- A row of `api_tokens`, and one of `plans`.
pub record ApiToken : Type 0 where
  pub user_id : String
  pub token_key : String
  pub name : String
  pub plan_code : String
  pub enabled : Bool
  pub billing_free : Bool

pub record PlanRow : Type 0 where
  pub code : String
  pub token_ip_rate_limit_per_second : ℤ
  pub token_ip_rate_limit_burst : ℤ
  pub token_rate_limit_per_second : ℤ
  pub token_rate_limit_burst : ℤ
  pub daily_quota : ℤ
  pub denied_methods : String
  pub price_per_success_cents : ℤ

-- `TokenRow`: a row of the join.
pub record TokenRow : Type 0 where
  pub token_key : String
  pub name : String
  pub plan_code : String
  pub enabled : Bool
  pub billing_free : Bool
  pub user_id : String
  pub token_ip_rate_limit_per_second : ℤ
  pub token_ip_rate_limit_burst : ℤ
  pub token_rate_limit_per_second : ℤ
  pub token_rate_limit_burst : ℤ
  pub daily_quota : ℤ
  pub denied_methods_json : String
  pub price_per_success_cents : ℤ

abbrev pub join : ApiToken → PlanRow → TokenRow
join t p = record {
  token_key = t.token_key;
  name = t.name;
  plan_code = t.plan_code;
  enabled = t.enabled;
  billing_free = t.billing_free;
  user_id = t.user_id;
  token_ip_rate_limit_per_second = p.token_ip_rate_limit_per_second;
  token_ip_rate_limit_burst = p.token_ip_rate_limit_burst;
  token_rate_limit_per_second = p.token_rate_limit_per_second;
  token_rate_limit_burst = p.token_rate_limit_burst;
  daily_quota = p.daily_quota;
  denied_methods_json = p.denied_methods;
  price_per_success_cents = p.price_per_success_cents;
}

-- `JOIN plans p ON p.code = t.plan_code`, for one token.
unfoldable pub join_plans : ApiToken → List PlanRow → List TokenRow
join_plans t [] = []
join_plans t (p ∷ ps) =
    let rest = join_plans t ps in if str_eq p.code t.plan_code then join t p ∷ rest else rest

-- The query of `ListEnabledTokens`.
unfoldable pub enabled_rows : List ApiToken → List PlanRow → List TokenRow
enabled_rows [] plans = []
enabled_rows (t ∷ ts) plans =
    let rest = enabled_rows ts plans in if t.enabled then join_plans t plans ++ rest else rest

-- The new map of `reload`.
unfoldable pub index_loop : List Token → Assoc Token → Assoc Token
index_loop [] next = next
index_loop (t ∷ ts) next = index_loop ts (insert t.key t next)

-- What one tick of the refresh loop finds.
pub record Tick : Type 0 where
  pub fails : Bool
  pub tokens : List ApiToken
  pub plans : List PlanRow

module _ (decode : String → Option (List String)) where
  -- The list of `ToModel`, which an empty text leaves empty.
  abbrev pub denied_of : String → Option (List String)
  denied_of json = if str_eq json "" then some [] else decode json

  unfoldable pub to_model : TokenRow → Option Token
  to_model r = elim (denied_of r.denied_methods_json) [
    | none ↦ none
    | some denied ↦ some (record {
      key = r.token_key;
      name = r.name;
      plan = r.plan_code;
      user_id = r.user_id;
      price_per_success_cents = r.price_per_success_cents;
      enabled = r.enabled;
      billing_free = r.billing_free;
      token_rate_limit_per_second = r.token_rate_limit_per_second;
      token_rate_limit_burst = r.token_rate_limit_burst;
      token_ip_rate_limit_per_second = r.token_ip_rate_limit_per_second;
      token_ip_rate_limit_burst = r.token_ip_rate_limit_burst;
      daily_quota = r.daily_quota;
      denied_methods = denied;
    })
  ]

  -- The loop over the rows: one row that is not a model fails the whole.
  unfoldable pub to_models : List TokenRow → Option (List Token)
  to_models [] = some []
  to_models (r ∷ rs) = elim (to_model r) [
    | none ↦ none
    | some t ↦ elim (to_models rs) [ none ↦ none | some ts ↦ some (t ∷ ts) ]
  ]

  unfoldable pub list_enabled_tokens : Bool → List ApiToken → List PlanRow → Option (List Token)
  list_enabled_tokens fails tokens plans =
      if fails then none else to_models (enabled_rows tokens plans)

  -- `reload`, with whether it succeeds.
  unfoldable pub reload : Bool → List ApiToken → List PlanRow → Assoc Token → Assoc Token × Bool
  reload fails tokens plans s = elim (list_enabled_tokens fails tokens plans) [
    | none ↦ (s, false)
    | some list ↦ (index_loop list [], true)
  ]

  -- `loopRefresh`, up to the last of the ticks; a failure is only logged.
  unfoldable pub refresh_ticks : List Tick → Assoc Token → Assoc Token
  refresh_ticks [] s = s
  refresh_ticks (x ∷ xs) s = refresh_ticks xs (reload x.fails x.tokens x.plans s).0

  -- `NewStoreFromDB`, with the ticks of its loop.
  unfoldable pub new_store_from_db : ℤ → Tick → List Tick → Option (Assoc Token)
  new_store_from_db refresh_every first ticks =
      let result = reload first.fails first.tokens first.plans [] in
      if result.1
      then some (if is_nonpos refresh_every then result.0 else refresh_ticks ticks result.0)
      else none
