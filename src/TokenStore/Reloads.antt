-- ===== src/TokenStore/Reloads.antt =====
-- What `Lookup` finds after a reload from the database.
use rpc_node_gateway.Prelude.{
  ◌≡◌, refl, ap, ◌∙◌, String, Bool, true, false, ◌&&◌, Option, none, some, List, [], ◌∷◌, ◌++◌,
  if◌then◌else◌, str_eq, Assoc, lookup, insert, lookup-insert, Option-cases, inl, inr, arith,
}
use rpc_node_gateway.Model.{Token}
use rpc_node_gateway.Gateway.{find_token}
use rpc_node_gateway.TokenStore.{
  ApiToken, PlanRow, TokenRow, join, join_plans, enabled_rows, to_model, to_models,
  list_enabled_tokens, index_loop, reload,
}

-- The row of the plan with a code, and that of the token with a key, the last where there are several,
-- which the constraints of the tables exclude.
abbrev pub plan_row : String → List PlanRow → Option PlanRow
plan_row code [] = none
plan_row code (p ∷ ps) = elim (plan_row code ps) [
  | some q ↦ some q
  | none ↦ if str_eq p.code code then some p else none
]

-- The key is that of a token that is enabled and has a plan.
abbrev pub active_row : String → List ApiToken → List PlanRow → Option TokenRow
active_row key [] plans = none
active_row key (t ∷ ts) plans = elim (active_row key ts plans) [
  | some r ↦ some r
  | none ↦
      if t.enabled && str_eq t.token_key key
      then elim (plan_row t.plan_code plans) [ none ↦ none | some p ↦ some (join t p) ]
      else none
]

abbrev last_row : String → List TokenRow → Option TokenRow
last_row key [] = none
last_row key (r ∷ rs) = elim (last_row key rs) [
  | some q ↦ some q
  | none ↦ if str_eq r.token_key key then some r else none
]

abbrev or_row : Option TokenRow → Option TokenRow → Option TokenRow
or_row (some r) earlier = some r
or_row none earlier = earlier

last_row-append :
    (key : String) (xs ys : List TokenRow)
    → last_row key (xs ++ ys) ≡ or_row (last_row key ys) (last_row key xs)
last_row-append key [] ys = ground arith
last_row-append key (x ∷ xs) ys = ground (arith, last_row-append key xs ys)

last_row-join_plans :
    (key : String) (t : ApiToken) (ps : List PlanRow)
    → last_row key (join_plans t ps) ≡ (
        if str_eq t.token_key key
        then elim (plan_row t.plan_code ps) [ none ↦ none | some p ↦ some (join t p) ]
        else none)
unfolding join_plans
last_row-join_plans key t [] = ground arith
last_row-join_plans key t (p ∷ ps) = ground (arith, last_row-join_plans key t ps)

last_row-enabled_rows :
    (key : String) (ts : List ApiToken) (ps : List PlanRow)
    → last_row key (enabled_rows ts ps) ≡ active_row key ts ps
unfolding enabled_rows
last_row-enabled_rows key [] ps = refl
last_row-enabled_rows key (t ∷ ts) ps = ground (
  arith,
  last_row-enabled_rows key ts ps,
  last_row-append key (join_plans t ps) (enabled_rows ts ps),
  last_row-join_plans key t ps,
)

active_row-enabled :
    (key : String) (ts : List ApiToken) (ps : List PlanRow) (r : TokenRow)
    → active_row key ts ps ≡ some r
    → r.enabled ≡ true
active_row-enabled key [] ps r e = cc
active_row-enabled key (t ∷ ts) ps r e = elim (Option-cases (active_row key ts ps)) [
  | inl nothing ↦ ground arith
  | inr (q, found) ↦ ground (arith, active_row-enabled key ts ps q)
]

abbrev last_token : String → List Token → Option Token
last_token key [] = none
last_token key (t ∷ ts) = elim (last_token key ts) [
  | some u ↦ some u
  | none ↦ if str_eq t.key key then some t else none
]

index_loop-lookup :
    (ts : List Token) (acc : Assoc Token) (key : String)
    → lookup key (index_loop ts acc)
      ≡ elim (last_token key ts) [ none ↦ lookup key acc | some t ↦ some t ]
unfolding index_loop
index_loop-lookup [] acc key = refl
index_loop-lookup (t ∷ ts) acc key =
    ground (arith, index_loop-lookup ts (insert t.key t acc) key, lookup-insert t.key key t acc)

index_loop-last_token :
    (ts : List Token) (key : String) → lookup key (index_loop ts []) ≡ last_token key ts
unfolding lookup
index_loop-last_token ts key = ground (arith, index_loop-lookup ts [] key)

module _ (decode : String → Option (List String)) where
  to_model-some :
      (r : TokenRow) (t : Token)
      → to_model decode r ≡ some t
      → (t.key ≡ r.token_key) × (t.enabled ≡ r.enabled)
  unfolding to_model
  to_model-some r t e = ground arith

  abbrev pub model_of : Option TokenRow → Option Token
  model_of none = none
  model_of (some r) = to_model decode r

  to_models_cons :
      (r : TokenRow) (rs : List TokenRow) (ts : List Token)
      → to_models decode (r ∷ rs) ≡ some ts
      → (t : Token) × (ts' : List Token) × (to_model decode r ≡ some t)
        × (to_models decode rs ≡ some ts')
        × (ts ≡ t ∷ ts')
  unfolding to_models
  to_models_cons r rs ts e = elim (Option-cases (to_model decode r)) [
    | inl fails ↦ ground arith
    | inr (t, one) ↦ elim (Option-cases (to_models decode rs)) [
      | inl fails ↦ ground arith
      | inr (ts', others) ↦ (t, ts', one, others, ground arith)
    ]
  ]

  -- The same choice between the last row and the first.
  last_token-model_of :
      (key : String) (r : TokenRow) (t : Token) (ts : List Token) (o : Option TokenRow)
      → to_model decode r ≡ some t
      → last_token key ts ≡ model_of o
      → ((q : TokenRow) → o ≡ some q → (u : Token) × (to_model decode q ≡ some u))
      → last_token key (t ∷ ts)
        ≡ model_of
            (elim o [ some q ↦ some q | none ↦ if str_eq r.token_key key then some r else none ])
  last_token-model_of key r t ts none e ih total =
      let (same, _) = to_model-some r t e in ground arith
  last_token-model_of key r t ts (some q) e ih total = let (u, found) = total q refl in ground arith

  last_row-to_models :
      (rs : List TokenRow) (ts : List Token) (key : String) (q : TokenRow)
      → to_models decode rs ≡ some ts
      → last_row key rs ≡ some q
      → (u : Token) × (to_model decode q ≡ some u)
  last_row-to_models [] ts key q e found = cc
  last_row-to_models (r ∷ rs) ts key q e found =
      let (t, ts', one, others, same) = to_models_cons r rs ts e in
      elim (Option-cases (last_row key rs)) [
        | inl nothing ↦ (t, ground arith)
        | inr (x, later) ↦
            let (u, model) = last_row-to_models rs ts' key x others later in (u, ground arith)
      ]

  last_token-to_models :
      (rs : List TokenRow) (ts : List Token) (key : String)
      → to_models decode rs ≡ some ts
      → last_token key ts ≡ model_of (last_row key rs)
  unfolding to_models
  last_token-to_models [] ts key e = ground arith
  last_token-to_models (r ∷ rs) ts key e =
      let (t, ts', one, others, same) = to_models_cons r rs ts e in
      rw same (
        last_token-model_of key r t ts' (last_row key rs) one
          (last_token-to_models rs ts' key others)
          (λ q found. last_row-to_models rs ts' key q others found))

  find_token-model_of :
      (key : String) (tokens : List ApiToken) (plans : List PlanRow) (store : Assoc Token)
      → lookup key store ≡ model_of (active_row key tokens plans)
      → find_token store key ≡ model_of (active_row key tokens plans)
  unfolding find_token
  find_token-model_of key tokens plans store e = elim (Option-cases (active_row key tokens plans)) [
    | inl nothing ↦ ground arith
    | inr (r, found) ↦
        let on = active_row-enabled key tokens plans r found in
        elim (Option-cases (to_model decode r)) [
          | inl fails ↦ ground arith
          | inr (t, model) ↦ let (_, same) = to_model-some r t model in ground arith
        ]
  ]

  reload_listed :
      (fails : Bool) (tokens : List ApiToken) (plans : List PlanRow) (s : Assoc Token)
      → (reload decode fails tokens plans s).1 ≡ true
      → (list : List Token) × (to_models decode (enabled_rows tokens plans) ≡ some list)
        × ((reload decode fails tokens plans s).0 ≡ index_loop list [])
  unfolding reload list_enabled_tokens
  reload_listed true tokens plans s e = ground arith
  reload_listed false tokens plans s e =
      elim (Option-cases (to_models decode (enabled_rows tokens plans))) [
        | inl failed ↦ ground arith
        | inr (list, listed) ↦ (list, listed, ground arith)
      ]

  pub reload-find_token :
      (fails : Bool) (tokens : List ApiToken) (plans : List PlanRow) (s : Assoc Token)
      (key : String)
      → (reload decode fails tokens plans s).1 ≡ true
      → find_token (reload decode fails tokens plans s).0 key
        ≡ model_of (active_row key tokens plans)
  reload-find_token fails tokens plans s key e =
      let (list, listed, same) = reload_listed fails tokens plans s e in
      rw same (
        find_token-model_of key tokens plans (index_loop list []) (
          index_loop-last_token list key
          ∙ last_token-to_models (enabled_rows tokens plans) list key listed
          ∙ ap model_of (last_row-enabled_rows key tokens plans)))
