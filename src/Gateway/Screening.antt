-- ===== src/Gateway/Screening.antt =====
-- What a request must pass before the proxy sees it, and what a refusal leaves alone.
use rpc_node_gateway.Prelude.{
  lookup, All, arith, inl, inr, Bool-cases, true, false, ◌≡◌, refl, String, some, List, trim_space,
  Assoc, Option-cases,
}
use rpc_node_gateway.Model.{Token}
use rpc_node_gateway.Stats.{inc_auth_failed}
use rpc_node_gateway.Stats.Totals.{refused-success_calls}
use rpc_node_gateway.RateLimit.{Lib, Env}
use rpc_node_gateway.JsonRpc.{Codec, ok, parse_methods}
use rpc_node_gateway.Filter.{is_denied, check_methods-none}
use rpc_node_gateway.Proxy.{Moment, Answer, World, Client, meta_of}
use rpc_node_gateway.Gateway.Cases.{path_auth-cases, method_filter-cases, rate_limit-cases}
use rpc_node_gateway.Gateway.{
  Hit, Outcome, refused, answered, find_token, method_filter, rate_limit, proxied, handle,
}

-- A request that the proxy answers named an enabled token and a body whose methods are all allowed.
abbrev pub Admitted : Codec → Assoc Token → Hit → Type 0
Admitted codec tokens hit =
    (token : Token) × (body : String) × (methods : List String) × (lookup
        (trim_space hit.path_token) tokens
      ≡ some token)
    × (token.enabled ≡ true)
    × (hit.body ≡ some body)
    × (parse_methods codec body ≡ ok methods)
    × All (λ d. is_denied token.denied_methods d ≡ false) methods

pub find_token_lem :
    (tokens : Assoc Token) (key : String) (t : Token)
    → find_token tokens key ≡ some t
    → (lookup key tokens ≡ some t) × (t.enabled ≡ true)
unfolding find_token
find_token_lem tokens key t e = elim (Option-cases (lookup key tokens)) [
  | inl n ↦ absurd (ground arith)
  | inr (u, f) ↦ elim (Bool-cases u.enabled) [
    | inl g ↦ let same : u ≡ t = ground arith in (rw same at f, rw same at g)
    | inr g ↦ absurd (ground arith)
  ]
]

module _ {A : Type 0} {lib : Lib} where
  -- A refusal changes no pool, publishes nothing and leaves the global number of successes.
  abbrev pub Screened : Type 0 → World lib → Outcome A × World lib → Type 0
  Screened P w (answered a, w') = P
  Screened P w (refused status code, w') =
      (w'.registry ≡ w.registry)
      × (w'.books.published ≡ w.books.published)
      × (w'.books.stats.global.success_calls ≡ w.books.stats.global.success_calls)

module _ {lib : Lib} where
  proxied-Screened :
      (P : Type 0) (codec : Codec) (client : Client) (m : Moment) (hit : Hit) (token : Token)
      (body : String) (methods : List String) (w w' : World lib)
      → P
      → Screened P w (proxied codec client m hit token body methods w')
  unfolding proxied
  proxied-Screened P codec client m hit token body methods w w' p = p

  -- If the proxy answers a request, then its token is known and enabled, its body was read and
  -- parsed, and none of its methods is denied to the token. Otherwise the refusal changes no pool,
  -- publishes no billing event and adds nothing to the global number of successes.
  pub handle-Screened :
      (codec : Codec) (client : Client) (env : Env) (m : Moment) (tokens : Assoc Token) (hit : Hit)
      (w : World lib)
      → Screened (Admitted codec tokens hit) w (handle codec client env m tokens hit w)
  unfolding handle inc_auth_failed
  handle-Screened codec client env m tokens hit w =
      let Q : Outcome Answer × World lib → Type 0 = Screened (Admitted codec tokens hit) w in
      path_auth-cases Q env.now tokens hit.path_token
        (λ token. method_filter codec env.now token hit.body (λ body methods.
          rate_limit env token hit.chain_id hit.client_ip
            (proxied codec client m hit token body methods)))
        w (refl, refl, refl)
        (λ token known.
          let denied = refused-success_calls env.now (meta_of token) w.books.stats in
          method_filter-cases Q codec env.now token hit.body
            (λ body methods.
              rate_limit env token hit.chain_id hit.client_ip
                (proxied codec client m hit token body methods))
            w (refl, refl, refl) (refl, refl, refl) (refl, refl, denied.0)
            (λ body methods read parsed allowed.
              rate_limit-cases Q env token hit.chain_id hit.client_ip
                (proxied codec client m hit token body methods) w (λ l. (refl, refl, denied.1))
                (λ l.
                  proxied-Screened (Admitted codec tokens hit) codec client m hit token body methods
                    w (record w { books = record w.books { limiter = l } })
                    (let (found, on) =
                        find_token_lem tokens (trim_space hit.path_token) token known in
                      (
                        token,
                        body,
                        methods,
                        found,
                        on,
                        read,
                        parsed,
                        check_methods-none token methods allowed,
                      )))))
