-- ===== src/Gateway/Cases.antt =====
-- The ways through each middleware: its refusal, and what it hands on.
use rpc_node_gateway.Prelude.{
  ℕ, ◌≡◌, refl, String, Option, none, some, List, str_eq, trim_space, Assoc, negsuc, if_elim,
  Option-cases, inl, inr,
}
use rpc_node_gateway.Model.{Token}
use rpc_node_gateway.Stats.{inc_auth_failed, inc_method_denied, inc_rate_limited}
use rpc_node_gateway.RateLimit.{Lib, Env, Limiter, Verdict, allowed, denied, allow}
use rpc_node_gateway.JsonRpc.{Codec, Result, ok, err, parse_methods}
use rpc_node_gateway.Filter.{check_methods}
use rpc_node_gateway.Proxy.{World, meta_of}
use rpc_node_gateway.Gateway.{
  Outcome, refused, find_token, Next, path_auth, filter_methods, method_filter, apply_verdict,
  rate_limit,
}

module _ {A : Type 0} {lib : Lib} (Q : Outcome A × World lib → Type 0) where
  pub path_auth-cases :
      (now : ℕ) (tokens : Assoc Token) (key : String) (next : Token → Next A lib) (w : World lib)
      → Q (
        refused 401 (negsuc 32000),
        record w { books = record w.books { stats = inc_auth_failed now w.books.stats } },
      )
      → ((token : Token) → find_token tokens (trim_space key) ≡ some token → Q (next token w))
      → Q (path_auth now tokens key next w)
  unfolding path_auth
  path_auth-cases now tokens key next w fails passes =
      if_elim Q (str_eq (trim_space key) "") _ _ fails
        (elim (Option-cases (find_token tokens (trim_space key))) [
          | inl e ↦ rw e fails
          | inr (token, e) ↦ rw e (passes token e)
        ])

  filter_methods-cases :
      (now : ℕ) (token : Token) (r : Result (List String)) (next : List String → Next A lib)
      (w : World lib)
      → Q (refused 400 (negsuc 32599), w)
      → Q (
        refused 403 (negsuc 32600),
        record w {
          books = record w.books { stats = inc_method_denied now (meta_of token) w.books.stats };
        },
      )
      → ((methods : List String)
          → r ≡ ok methods
          → check_methods token methods ≡ none
          → Q (next methods w))
      → Q (filter_methods now token r next w)
  unfolding filter_methods
  filter_methods-cases now token (err e) next w bad fails passes = bad
  filter_methods-cases now token (ok methods) next w bad fails passes =
      elim (Option-cases (check_methods token methods)) [
        | inl e ↦ rw (e, filter_methods) (passes methods refl e)
        | inr (names, e) ↦ rw (e, filter_methods) fails
      ]

  pub method_filter-cases :
      (codec : Codec) (now : ℕ) (token : Token) (body : Option String)
      (next : String → List String → Next A lib) (w : World lib)
      → Q (refused 400 (negsuc 32699), w)
      → Q (refused 400 (negsuc 32599), w)
      → Q (
        refused 403 (negsuc 32600),
        record w {
          books = record w.books { stats = inc_method_denied now (meta_of token) w.books.stats };
        },
      )
      → ((text : String) (methods : List String)
          → body ≡ some text
          → parse_methods codec text ≡ ok methods
          → check_methods token methods ≡ none
          → Q (next text methods w))
      → Q (method_filter codec now token body next w)
  unfolding method_filter
  method_filter-cases codec now token none next w unread bad fails passes = unread
  method_filter-cases codec now token (some text) next w unread bad fails passes =
      filter_methods-cases now token (parse_methods codec text) (next text) w bad fails
        (λ methods p c. passes text methods refl p c)

  apply_verdict-cases :
      (now : ℕ) (token : Token) (v : Verdict) (next : Next A lib) (w : World lib)
      → Q (
        refused 429 (negsuc 32004),
        record w {
          books = record w.books { stats = inc_rate_limited now (meta_of token) w.books.stats };
        },
      )
      → Q (next w)
      → Q (apply_verdict now token v next w)
  unfolding apply_verdict
  apply_verdict-cases now token (denied reason) next w fails passes = fails
  apply_verdict-cases now token allowed next w fails passes = passes

  pub rate_limit-cases :
      (env : Env) (token : Token) (chain_id client_ip : String) (next : Next A lib) (w : World lib)
      → ((l : Limiter lib)
          → Q (
            refused 429 (negsuc 32004),
            record w {
              books = record w.books {
                limiter = l;
                stats = inc_rate_limited env.now (meta_of token) w.books.stats;
              };
            },
          ))
      → ((l : Limiter lib) → Q (next (record w { books = record w.books { limiter = l } })))
      → Q (rate_limit env token chain_id client_ip next w)
  unfolding rate_limit
  rate_limit-cases env token chain_id client_ip next w fails passes =
      let (v, l) = allow lib env w.books.limiter token chain_id client_ip in
      apply_verdict-cases env.now token v next (record w { books = record w.books { limiter = l } })
        (fails l) (passes l)
