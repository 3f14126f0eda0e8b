-- ===== src/Gateway/Context.antt =====
-- internal/gatewayctx/context.go: what the middlewares put into the context of a request. A context
-- of Go holds its values with the newest first, and `Value` finds the newest one of a key.
use rpc_node_gateway.Prelude.{String, Option, none, some, List, [], ◌∷◌}
use rpc_node_gateway.Model.{Token}

pub data ContextValue : Type 0 where
  token_entry : Token → ContextValue
  chain_entry : String → ContextValue
  methods_entry : List String → ContextValue

abbrev pub Context : Type 0
Context = List ContextValue

abbrev pub with_token : Token → Context → Context
with_token t c = token_entry t ∷ c

abbrev pub with_chain_id : String → Context → Context
with_chain_id chain_id c = chain_entry chain_id ∷ c

abbrev pub with_methods : List String → Context → Context
with_methods ms c = methods_entry ms ∷ c

-- `Token`, with `none` for nil.
abbrev pub context_token : Context → Option Token
context_token [] = none
context_token (token_entry t ∷ c) = some t
context_token (chain_entry chain_id ∷ c) = context_token c
context_token (methods_entry ms ∷ c) = context_token c

-- `ChainID`
abbrev pub context_chain_id : Context → String
context_chain_id [] = ""
context_chain_id (token_entry t ∷ c) = context_chain_id c
context_chain_id (chain_entry chain_id ∷ c) = chain_id
context_chain_id (methods_entry ms ∷ c) = context_chain_id c

-- `Methods`
abbrev pub context_methods : Context → List String
context_methods [] = []
context_methods (token_entry t ∷ c) = context_methods c
context_methods (chain_entry chain_id ∷ c) = context_methods c
context_methods (methods_entry ms ∷ c) = ms
