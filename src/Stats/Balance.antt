-- ===== src/Stats/Balance.antt =====
-- What makes the counters of the collector consistent.
use rpc_node_gateway.Prelude.{◌+◌, ◌≤◌, ◌≡◌, refl, [], arith}
use rpc_node_gateway.Stats.{Metrics, no_metrics, TokenMeta, TokenState, Collector}
use rpc_node_gateway.Stats.Fields.{
  Field, get, Delta, requests, proxied, success_calls, upstream_errors, auth_failed, method_denied,
  rate_limited, domain_rejected, billable_calls, free_calls,
}
use rpc_node_gateway.Stats.Sums.{sum_of, Every}

abbrev pub counts : Metrics → Delta
counts m k = get k m

-- What the global counter of a field holds besides the tokens' counters.
unfoldable pub own : Delta → Delta
own g requests = g auth_failed
own g auth_failed = g auth_failed
own g domain_rejected = g domain_rejected
own g k = 0

-- What the counter of a token holds besides the chains' counters.
unfoldable pub direct : Delta → Delta
direct g requests = g method_denied + g rate_limited
direct g method_denied = g method_denied
direct g rate_limited = g rate_limited
direct g k = 0

abbrev pub Sum : Delta → Delta → Delta → Type 0
Sum a b d = (k : Field) → a k ≡ b k + d k

pub own-add : (a b d : Delta) → Sum a b d → Sum (own a) (own b) (own d)
unfolding own
own-add a b d h requests = h auth_failed
own-add a b d h auth_failed = h auth_failed
own-add a b d h domain_rejected = h domain_rejected
own-add a b d h k = omega arith

pub direct-add : (a b d : Delta) → Sum a b d → Sum (direct a) (direct b) (direct d)
unfolding direct
direct-add a b d h requests = omega (arith, h method_denied, h rate_limited)
direct-add a b d h method_denied = h method_denied
direct-add a b d h rate_limited = h rate_limited
direct-add a b d h k = omega arith

-- Every request is either refused for one reason or sent on, every success is either billable or
-- free, and only what is sent on can fail upstream.
pub record IsBalanced (g : Delta) : Type 0 where
  pub requests_split : g requests ≡ g proxied + g auth_failed + g method_denied + g rate_limited
  pub successes_split : g success_calls ≡ g billable_calls + g free_calls
  pub upstream_within : g upstream_errors ≤ g proxied

pub IsBalanced-add : (a b d : Delta) → Sum a b d → IsBalanced b → IsBalanced d → IsBalanced a
IsBalanced-add a b d h hb hd = record {
  requests_split = omega (
    arith,
    hb.requests_split,
    hd.requests_split,
    h requests,
    h proxied,
    h auth_failed,
    h method_denied,
    h rate_limited,
  );
  successes_split = omega (
    arith,
    hb.successes_split,
    hd.successes_split,
    h success_calls,
    h billable_calls,
    h free_calls,
  );
  upstream_within =
      omega (arith, hb.upstream_within, hd.upstream_within, h upstream_errors, h proxied);
}

pub no_metrics-zero : (k : Field) → get k no_metrics ≡ 0
unfolding get
no_metrics-zero requests = refl
no_metrics-zero k = refl

pub no_metrics-IsBalanced : IsBalanced (counts no_metrics)
unfolding get
no_metrics-IsBalanced = record {
  requests_split = refl;
  successes_split = refl;
  upstream_within = omega arith;
}

-- A token's counters are what its chains hold, with what was refused before a chain was at hand.
pub record IsConsistentToken (st : TokenState) : Type 0 where
  pub by_chain :
      (k : Field) → get k st.metrics ≡ direct (counts st.metrics) k + sum_of (get k) st.chains
  pub balanced : IsBalanced (counts st.metrics)
  pub chains_balanced : Every (λ m. IsBalanced (counts m)) st.chains

-- The global counters are what the tokens hold, with what was refused before a token was known.
pub record IsConsistent (c : Collector) : Type 0 where
  pub by_token :
      (k : Field)
      → get k c.global ≡ own (counts c.global) k + sum_of (λ st. get k st.metrics) c.tokens
  pub balanced : IsBalanced (counts c.global)
  pub tokens : Every IsConsistentToken c.tokens

fresh_by_chain : (k : Field) → get k no_metrics ≡ direct (counts no_metrics) k + sum_of (get k) []
unfolding get direct sum_of
fresh_by_chain requests = refl
fresh_by_chain k = refl

pub fresh-IsConsistentToken :
    (meta : TokenMeta)
    → IsConsistentToken (record { meta = meta; metrics = no_metrics; chains = [] })
fresh-IsConsistentToken meta = record {
  by_chain = fresh_by_chain;
  balanced = no_metrics-IsBalanced;
  chains_balanced = tt;
}

pub new_by_token :
    (k : Field)
    → get k no_metrics
      ≡ own (counts no_metrics) k + sum_of {V = TokenState} (λ st. get k st.metrics) []
unfolding get own sum_of
new_by_token requests = refl
new_by_token k = refl
