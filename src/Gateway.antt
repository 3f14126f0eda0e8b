-- ===== src/Gateway.antt =====
-- The HTTP route of cmd/gateway/main.go behind the check of the host: the middlewares of
-- internal/middleware/middleware.go, in their order, before the proxy, with `Lookup` of
-- internal/auth/store.go. `Stats` is set, as main.go sets it. The texts of the errors, the time
-- limit of the route and the log are left out.
pub mod Cases
pub mod ClientIp
pub mod Context
pub mod Entry
pub mod Keeping
pub mod Screening
pub mod Tests
use rpc_node_gateway.Prelude.{
  ℕ, String, Bool, true, false, Option, none, some, List, [], ◌∷◌, ℤ, negsuc, if◌then◌else◌, str_eq,
  trim_space, Assoc, lookup,
}
use rpc_node_gateway.Model.{Token}
use rpc_node_gateway.Stats.{inc_auth_failed, inc_method_denied, inc_rate_limited}
use rpc_node_gateway.RateLimit.{Lib, Env, Verdict, allowed, denied, allow}
use rpc_node_gateway.JsonRpc.{Codec, Result, ok, err, parse_methods}
use rpc_node_gateway.Filter.{check_methods}
use rpc_node_gateway.Billing.Books.{Books}
use rpc_node_gateway.Gateway.Context.{
  with_token, with_chain_id, with_methods, context_token, context_chain_id, context_methods,
}
use rpc_node_gateway.Proxy.{Request, Moment, Answer, World, Client, forward, meta_of, serve_http}

-- A POST to `/{token}/{chain}`; `body` is `none` if reading it fails.
pub record Hit : Type 0 where
  pub path_token : String
  pub chain_id : String
  pub client_ip : String
  pub body : Option String

-- A middleware refuses, with a status and a code, or the handler behind it answers.
pub data Outcome (A : Type 0) : Type 0 where
  refused : ℕ → ℤ → Outcome A
  answered : A → Outcome A

-- `Store.Lookup`; the copy that it makes is the same value.
unfoldable pub find_token : Assoc Token → String → Option Token
find_token tokens key = elim (lookup key tokens) [
  | none ↦ none
  | some t ↦ if t.enabled then some t else none
]

-- What a middleware calls.
abbrev pub Next : Type 0 → Lib → Type 0
Next A lib = World lib → Outcome A × World lib

module _ {A : Type 0} {lib : Lib} where
  -- `PathAuth`
  unfoldable pub path_auth : ℕ → Assoc Token → String → (Token → Next A lib) → Next A lib
  path_auth now tokens path_token next w =
      let fails : Outcome A × World lib = (
        refused 401 (negsuc 32000),
        record w { books = record w.books { stats = inc_auth_failed now w.books.stats } },
      ) in
      if str_eq (trim_space path_token) ""
      then fails
      else elim (find_token tokens (trim_space path_token)) [ none ↦ fails | some t ↦ next t w ]

  -- `MethodFilter`, from the methods of the body on.
  unfoldable pub filter_methods :
      ℕ → Token → Result (List String) → (List String → Next A lib) → Next A lib
  filter_methods now token (err e) next w = (refused 400 (negsuc 32599), w)
  filter_methods now token (ok methods) next w = elim (check_methods token methods) [
    | some names ↦ (
      refused 403 (negsuc 32600),
      record w {
        books = record w.books { stats = inc_method_denied now (meta_of token) w.books.stats };
      },
    )
    | none ↦ next methods w
  ]

  unfoldable pub method_filter :
      Codec → ℕ → Token → Option String → (String → List String → Next A lib) → Next A lib
  method_filter codec now token none next w = (refused 400 (negsuc 32699), w)
  method_filter codec now token (some body) next w =
      filter_methods now token (parse_methods codec body) (next body) w

  -- `RateLimit`, from the verdict on.
  unfoldable pub apply_verdict : ℕ → Token → Verdict → Next A lib → Next A lib
  apply_verdict now token (denied reason) next w = (
    refused 429 (negsuc 32004),
    record w {
      books = record w.books { stats = inc_rate_limited now (meta_of token) w.books.stats };
    },
  )
  apply_verdict now token allowed next w = next w

  unfoldable pub rate_limit : Env → Token → String → String → Next A lib → Next A lib
  rate_limit env token chain_id client_ip next w =
      let (verdict, l) = allow lib env w.books.limiter token chain_id client_ip in
      apply_verdict env.now token verdict next (record w { books = record w.books { limiter = l } })

module _ {lib : Lib} where
  -- The proxy, with the request that the middlewares hand on.
  unfoldable pub proxied :
      Codec → Client → Moment → Hit → Token → String → List String → Next Answer lib
  proxied codec client m hit token body methods w =
      let ctx = with_methods methods (with_chain_id hit.chain_id (with_token token [])) in
      let r : Request = record {
        is_post = true;
        token = context_token ctx;
        chain_id = context_chain_id ctx;
        methods = context_methods ctx;
        client_ip = hit.client_ip;
        body = some body;
      } in
      let (answer, w') = serve_http codec (forward client) m r w in (answered answer, w')

  -- The route.
  unfoldable pub handle : Codec → Client → Env → Moment → Assoc Token → Hit → Next Answer lib
  handle codec client env m tokens hit w =
      path_auth env.now tokens hit.path_token
        (λ token. method_filter codec env.now token hit.body (λ body methods.
          rate_limit env token hit.chain_id hit.client_ip
            (proxied codec client m hit token body methods)))
        w
