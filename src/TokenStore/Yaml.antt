-- ===== src/TokenStore/Yaml.antt =====
-- What `Lookup` finds in a store that is built from the configuration.
use rpc_node_gateway.Prelude.{
  ◌≡◌, refl, ap, ◌∙◌, String, false, Option, none, some, List, [], ◌∷◌, if◌then◌else◌, str_eq,
  Assoc, lookup, insert, lookup-insert, All, Option-cases, inl, inr, arith,
}
use rpc_node_gateway.Config.{Config, Plan, TokenConfig}
use rpc_node_gateway.Config.Validation.{is_empty}
use rpc_node_gateway.Config.Validity.{IsValidToken, IsValid}
use rpc_node_gateway.Model.{Token}
use rpc_node_gateway.Gateway.{find_token}
use rpc_node_gateway.TokenStore.{token_from_yaml, yaml_loop, new_store_from_config}

-- The token with a key that stands last in the file.
abbrev pub last_config : String → List TokenConfig → Option TokenConfig
last_config key [] = none
last_config key (t ∷ ts) = elim (last_config key ts) [
  | some u ↦ some u
  | none ↦ if str_eq t.key key then some t else none
]

abbrev pub with_plan : Assoc Plan → TokenConfig → Option Token
with_plan plans t = elim (lookup t.plan plans) [ none ↦ none | some p ↦ some (token_from_yaml t p) ]

yaml_loop-lookup :
    (plans : Assoc Plan) (ts : List TokenConfig) (acc store : Assoc Token) (key : String)
    → yaml_loop plans ts acc ≡ some store
    → lookup key store
      ≡ elim (last_config key ts) [ none ↦ lookup key acc | some t ↦ with_plan plans t ]
unfolding yaml_loop
yaml_loop-lookup plans [] acc store key e = ground arith
yaml_loop-lookup plans (t ∷ ts) acc store key e = elim (Option-cases (lookup t.plan plans)) [
  | inl missing ↦ ground arith
  | inr (p, found) ↦
      let ih = yaml_loop-lookup plans ts (insert t.key (token_from_yaml t p) acc) store key in
      ground (arith, lookup-insert t.key key (token_from_yaml t p) acc)
]

yaml_loop_total :
    (plans : Assoc Plan) (ts : List TokenConfig) (acc : Assoc Token)
    → is_empty plans ≡ false
    → All (IsValidToken plans) ts
    → (store : Assoc Token) × (yaml_loop plans ts acc ≡ some store)
unfolding yaml_loop
yaml_loop_total plans [] acc e h = (acc, refl)
yaml_loop_total plans (t ∷ ts) acc e ((key, slash, plan), hs) =
    elim (Option-cases (lookup t.plan plans)) [
      | inl missing ↦ ground arith
      | inr (p, found) ↦
          let (store, built) =
            yaml_loop_total plans ts (insert t.key (token_from_yaml t p) acc) e hs in
          (store, ground arith)
    ]

-- The token with this key, if it may be used.
abbrev pub granted : Config → String → Option Token
granted c key = elim (last_config key c.tokens) [
  | none ↦ none
  | some t ↦ if t.enabled then with_plan c.plans t else none
]

-- The test of `Lookup` on what the map holds.
abbrev usable : Option Token → Option Token
usable none = none
usable (some t) = if t.enabled then some t else none

usable-with_plan :
    (plans : Assoc Plan) (t : TokenConfig)
    → usable (with_plan plans t) ≡ (if t.enabled then with_plan plans t else none)
usable-with_plan plans t = ground arith

usable-granted :
    (plans : Assoc Plan) (o : Option TokenConfig)
    → usable (elim o [ none ↦ none | some t ↦ with_plan plans t ])
      ≡ elim o [ none ↦ none | some t ↦ if t.enabled then with_plan plans t else none ]
usable-granted plans none = refl
usable-granted plans (some t) = usable-with_plan plans t

find_token-usable :
    (store : Assoc Token) (key : String) → find_token store key ≡ usable (lookup key store)
unfolding find_token
find_token-usable store key = ground arith

find_token-granted :
    (c : Config) (store : Assoc Token) (key : String)
    → new_store_from_config c ≡ some store
    → find_token store key ≡ granted c key
unfolding new_store_from_config lookup
find_token-granted c store key e =
    find_token-usable store key
    ∙ ap usable (yaml_loop-lookup c.plans c.tokens [] store key e)
    ∙ usable-granted c.plans (last_config key c.tokens)

-- From a valid configuration without a database a token store can be built, and a look-up in it finds,
-- for each key, the token that stands last in the file with that key, with the limits of its plan, if
-- that token is enabled, and nothing otherwise.
pub new_store_from_config-find_token :
    (c : Config)
    → IsValid c
    → c.database.enabled ≡ false
    → (store : Assoc Token) × (new_store_from_config c ≡ some store)
      × ((key : String) → find_token store key ≡ granted c key)
unfolding new_store_from_config
new_store_from_config-find_token c v off =
    let from_file = v.from_file in
    let (store, e) = yaml_loop_total c.plans c.tokens [] (ground arith) v.tokens in
    (store, e, λ key. find_token-granted c store key e)
