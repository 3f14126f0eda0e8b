-- ===== src/Stats/Deltas.antt =====
-- What each call adds splits the way the counters do.
use rpc_node_gateway.Prelude.{ℕ, ◌≡◌, refl, Bool, arith}
use rpc_node_gateway.Stats.Fields.{
  Field, Delta, Adds, requests, auth_failed, method_denied, rate_limited, domain_rejected,
  ws_connections, refused, sent, pushed, succeeded,
}
use rpc_node_gateway.Stats.Balance.{own, direct, IsBalanced}

pub sent-IsBalanced : (s e : ℕ) (up b : Bool) → IsBalanced (sent s e up b)
unfolding sent succeeded
sent-IsBalanced s e up b = ground arith

pub pushed-IsBalanced : (raw units : ℕ) (b : Bool) → IsBalanced (pushed raw units b)
unfolding pushed succeeded
pushed-IsBalanced raw units b = ground arith

pub sent-own : (s e : ℕ) (up b : Bool) (k : Field) → own (sent s e up b) k ≡ 0
unfolding sent succeeded own
sent-own s e up b requests = ground arith
sent-own s e up b k = ground arith

pub sent-direct : (s e : ℕ) (up b : Bool) (k : Field) → direct (sent s e up b) k ≡ 0
unfolding sent succeeded direct
sent-direct s e up b requests = ground arith
sent-direct s e up b k = ground arith

pub pushed-own : (raw units : ℕ) (b : Bool) (k : Field) → own (pushed raw units b) k ≡ 0
unfolding pushed succeeded own
pushed-own raw units b requests = refl
pushed-own raw units b k = refl

pub pushed-direct : (raw units : ℕ) (b : Bool) (k : Field) → direct (pushed raw units b) k ≡ 0
unfolding pushed succeeded direct
pushed-direct raw units b requests = refl
pushed-direct raw units b k = refl

pub auth_failed-IsBalanced : IsBalanced (refused auth_failed)
unfolding refused
auth_failed-IsBalanced = record {
  requests_split = refl;
  successes_split = refl;
  upstream_within = omega arith;
}

pub domain_rejected-IsBalanced : IsBalanced (refused domain_rejected)
unfolding refused
domain_rejected-IsBalanced = record {
  requests_split = refl;
  successes_split = refl;
  upstream_within = omega arith;
}

pub method_denied-IsBalanced : IsBalanced (refused method_denied)
unfolding refused
method_denied-IsBalanced = record {
  requests_split = refl;
  successes_split = refl;
  upstream_within = omega arith;
}

pub rate_limited-IsBalanced : IsBalanced (refused rate_limited)
unfolding refused
rate_limited-IsBalanced = record {
  requests_split = refl;
  successes_split = refl;
  upstream_within = omega arith;
}

pub ws_connections-IsBalanced : IsBalanced (refused ws_connections)
unfolding refused
ws_connections-IsBalanced = record {
  requests_split = refl;
  successes_split = refl;
  upstream_within = omega arith;
}

pub auth_failed-own : (k : Field) → refused auth_failed k ≡ own (refused auth_failed) k
unfolding refused own
auth_failed-own requests = refl
auth_failed-own k = refl

pub domain_rejected-own : (k : Field) → refused domain_rejected k ≡ own (refused domain_rejected) k
unfolding refused own
domain_rejected-own requests = refl
domain_rejected-own k = refl

pub method_denied-own : (k : Field) → own (refused method_denied) k ≡ 0
unfolding refused own
method_denied-own requests = refl
method_denied-own k = refl

pub rate_limited-own : (k : Field) → own (refused rate_limited) k ≡ 0
unfolding refused own
rate_limited-own requests = refl
rate_limited-own k = refl

pub ws_connections-own : (k : Field) → own (refused ws_connections) k ≡ 0
unfolding refused own
ws_connections-own requests = refl
ws_connections-own k = refl

pub method_denied-direct : (k : Field) → refused method_denied k ≡ direct (refused method_denied) k
unfolding refused direct
method_denied-direct requests = refl
method_denied-direct k = refl

pub rate_limited-direct : (k : Field) → refused rate_limited k ≡ direct (refused rate_limited) k
unfolding refused direct
rate_limited-direct requests = refl
rate_limited-direct k = refl

pub ws_connections-direct : (k : Field) → direct (refused ws_connections) k ≡ 0
unfolding refused direct
ws_connections-direct requests = refl
ws_connections-direct k = refl

pub nothing : Delta
nothing k = 0

pub nothing-IsBalanced : IsBalanced nothing
unfolding nothing
nothing-IsBalanced = record {
  requests_split = refl;
  successes_split = refl;
  upstream_within = omega arith;
}

pub nothing-Adds : Adds (λ m. m) nothing
unfolding nothing
nothing-Adds k m = omega arith

pub nothing-own : (k : Field) → own nothing k ≡ 0
unfolding nothing own
nothing-own requests = refl
nothing-own k = refl
