-- ===== src/Stats/Consistency.antt =====
-- Each kind of call keeps the counters of the collector consistent.
use rpc_node_gateway.Prelude.{
  ℕ, ◌+◌, ◌≡◌, refl, String, Option, none, some, if◌then◌else◌, str_eq, Assoc, lookup, Option-cases,
  inl, inr, arith,
}
use rpc_node_gateway.Stats.{
  Metrics, no_metrics, TokenMeta, TokenState, Collector, token_state, with_token, with_chain,
  on_global, on_metrics,
}
use rpc_node_gateway.Stats.Fields.{Field, get, Delta, Adds}
use rpc_node_gateway.Stats.Sums.{sum_of, at_key, sum_of-insert, Every, Every-insert, Every-lookup}
use rpc_node_gateway.Stats.Balance.{
  counts, own, direct, own-add, direct-add, IsBalanced, IsBalanced-add, no_metrics-zero,
  no_metrics-IsBalanced, IsConsistentToken, IsConsistent, fresh-IsConsistentToken,
}

token_state-IsConsistentToken :
    (c : Collector) (meta : TokenMeta)
    → Every IsConsistentToken c.tokens
    → IsConsistentToken (token_state c meta)
unfolding token_state
token_state-IsConsistentToken c meta h = elim (Option-cases (lookup meta.key c.tokens)) [
  | inl e ↦ rw (e, token_state) (fresh-IsConsistentToken meta)
  | inr (st, e) ↦
      let old = Every-lookup IsConsistentToken meta.key c.tokens h e in
      rw (e, token_state)
        (record {
          by_chain = old.by_chain;
          balanced = old.balanced;
          chains_balanced = old.chains_balanced;
        })
]

token_state-count :
    (k : Field) (c : Collector) (meta : TokenMeta)
    → get k (token_state c meta).metrics
      ≡ at_key (λ st. get k st.metrics) (lookup meta.key c.tokens)
unfolding token_state
token_state-count k c meta = elim (Option-cases (lookup meta.key c.tokens)) [
  | inl e ↦ rw (e, token_state) (no_metrics-zero k)
  | inr (st, e) ↦ rw (e, token_state)
]

sum_of-with_token :
    (k : Field) (d : ℕ) (meta : TokenMeta) (g : TokenState → TokenState) (c : Collector)
    → ((st : TokenState) → get k (g st).metrics ≡ get k st.metrics + d)
    → sum_of (λ st. get k st.metrics) (with_token meta g c).tokens
      ≡ sum_of (λ st. get k st.metrics) c.tokens + d
unfolding with_token
sum_of-with_token k d meta g c adds =
    let st = token_state c meta in
    omega (
      arith,
      sum_of-insert (λ t. get k t.metrics) meta.key (g st) c.tokens,
      token_state-count k c meta,
      adds st,
    )

with_token-Every :
    (meta : TokenMeta) (g : TokenState → TokenState) (c : Collector)
    → ((st : TokenState) → IsConsistentToken st → IsConsistentToken (g st))
    → Every IsConsistentToken c.tokens
    → Every IsConsistentToken (with_token meta g c).tokens
unfolding with_token
with_token-Every meta g c keep h =
    Every-insert IsConsistentToken meta.key (g (token_state c meta)) c.tokens h
      (keep (token_state c meta) (token_state-IsConsistentToken c meta h))

-- A call that reaches the global counters alone.
pub on_global-IsConsistent :
    (f : Metrics → Metrics) (d : Delta) (c : Collector)
    → Adds f d
    → IsBalanced d
    → ((k : Field) → d k ≡ own d k)
    → IsConsistent c
    → IsConsistent (on_global f c)
on_global-IsConsistent f d c adds bal owns h = record {
  by_token = λ k. omega (
    arith,
    adds k c.global,
    owns k,
    h.by_token k,
    own-add (counts (f c.global)) (counts c.global) d (λ j. adds j c.global) k,
  );
  balanced =
      IsBalanced-add (counts (f c.global)) (counts c.global) d (λ j. adds j c.global) h.balanced
        bal;
  tokens = h.tokens;
}

-- A call that reaches the global counters and those of a token, whose state it changes by `g`.
pub on_token-IsConsistent :
    (f : Metrics → Metrics) (d : Delta) (meta : TokenMeta) (g : TokenState → TokenState)
    (c : Collector)
    → Adds f d
    → IsBalanced d
    → ((k : Field) → own d k ≡ 0)
    → ((k : Field) (st : TokenState) → get k (g st).metrics ≡ get k st.metrics + d k)
    → ((st : TokenState) → IsConsistentToken st → IsConsistentToken (g st))
    → IsConsistent c
    → IsConsistent (with_token meta g (on_global f c))
unfolding with_token
on_token-IsConsistent f d meta g c adds bal owns token keep h = record {
  by_token = λ k. omega (
    arith,
    adds k c.global,
    owns k,
    h.by_token k,
    own-add (counts (f c.global)) (counts c.global) d (λ j. adds j c.global) k,
    sum_of-with_token k (d k) meta g (on_global f c) (token k),
  );
  balanced =
      IsBalanced-add (counts (f c.global)) (counts c.global) d (λ j. adds j c.global) h.balanced
        bal;
  tokens = with_token-Every meta g (on_global f c) keep h.tokens;
}

-- What is refused for a token counts for no chain.
pub on_metrics-IsConsistentToken :
    (f : Metrics → Metrics) (d : Delta) (st : TokenState)
    → Adds f d
    → IsBalanced d
    → ((k : Field) → d k ≡ direct d k)
    → IsConsistentToken st
    → IsConsistentToken (on_metrics f st)
on_metrics-IsConsistentToken f d st adds bal refuses h = record {
  by_chain = λ k. omega (
    arith,
    adds k st.metrics,
    refuses k,
    h.by_chain k,
    direct-add (counts (f st.metrics)) (counts st.metrics) d (λ j. adds j st.metrics) k,
  );
  balanced =
      IsBalanced-add (counts (f st.metrics)) (counts st.metrics) d (λ j. adds j st.metrics)
        h.balanced bal;
  chains_balanced = h.chains_balanced;
}

abbrev chain_metrics : Option Metrics → Metrics
chain_metrics o = elim o [ none ↦ no_metrics | some m ↦ m ]

chain_metrics-IsBalanced :
    (id : String) (m : Assoc Metrics)
    → Every (λ c. IsBalanced (counts c)) m
    → IsBalanced (counts (chain_metrics (lookup id m)))
chain_metrics-IsBalanced id m h = elim (Option-cases (lookup id m)) [
  | inl e ↦ rw e no_metrics-IsBalanced
  | inr (c, e) ↦ rw e (Every-lookup (λ c. IsBalanced (counts c)) id m h e)
]

chain_metrics-count : (k : Field) (o : Option Metrics) → get k (chain_metrics o) ≡ at_key (get k) o
chain_metrics-count k none = no_metrics-zero k
chain_metrics-count k (some m) = refl

-- What is sent on counts for the token and for one of its chains.
pub with_chain-IsConsistentToken :
    (chain_id : String) (f : Metrics → Metrics) (d : Delta) (st : TokenState)
    → Adds f d
    → IsBalanced d
    → ((k : Field) → direct d k ≡ 0)
    → IsConsistentToken st
    → IsConsistentToken (with_chain chain_id f (on_metrics f st))
unfolding with_chain
with_chain-IsConsistentToken chain_id f d st adds bal sends h =
    let id = if str_eq chain_id "" then "_" else chain_id in
    let old = chain_metrics (lookup id st.chains) in
    record {
      by_chain = λ k. omega (
        arith,
        adds k st.metrics,
        adds k old,
        sends k,
        h.by_chain k,
        direct-add (counts (f st.metrics)) (counts st.metrics) d (λ j. adds j st.metrics) k,
        sum_of-insert (get k) id (f old) st.chains,
        chain_metrics-count k (lookup id st.chains),
      );
      balanced =
          IsBalanced-add (counts (f st.metrics)) (counts st.metrics) d (λ j. adds j st.metrics)
            h.balanced bal;
      chains_balanced =
          Every-insert (λ c. IsBalanced (counts c)) id (f old) st.chains h.chains_balanced
            (IsBalanced-add (counts (f old)) (counts old) d (λ j. adds j old)
              (chain_metrics-IsBalanced id st.chains h.chains_balanced) bal);
    }
