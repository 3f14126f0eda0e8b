-- ===== src/WsProxy/Outbound.antt =====
-- `handleOutbound`: the successes that a message from the node counts, and where they go.
use rpc_node_gateway.Prelude.{
  ℕ, ◌≡◌, refl, String, Bool, none, some, to_ℕ, is_nonpos, lookup, remove, str_eq, if◌then◌else◌,
  Option-cases, if_elim, inl, inr, arith,
}
use rpc_node_gateway.RateLimit.{Lib}
use rpc_node_gateway.Billing.Books.{Books}
use rpc_node_gateway.JsonRpc.{
  Codec, Result, ok, err, parse_response_meta, parse_notification, count_results,
}
use rpc_node_gateway.WsProxy.{PendingReq, Session, World, resolve, track}

track-token :
    (pr : PendingReq) (b : Bool) (result : String) (s : Session)
    → (track pr b result s).token ≡ s.token
unfolding track
track-token pr b result s = ground arith

pub resolve-token :
    (r : Result (String × Bool × String)) (n : ℕ × ℕ) (s : Session)
    → (resolve r n s).1.token ≡ s.token
unfolding resolve
resolve-token (err e) n s = refl
resolve-token (ok (id, b, result)) n s =
    if_elim (λ (r : (ℕ × ℕ) × Session). r.1.token ≡ s.token) (str_eq id "") (n, s) _ refl
      (elim (Option-cases (lookup id s.pending)) [
        | inl e ↦ rw e refl
        | inr (pr, e) ↦ rw e (track-token pr b result (record s { pending = remove id s.pending }))
      ])

-- What `handleOutbound` makes of a response.
abbrev pub resolved : Codec → String → Session → (ℕ × ℕ) × Session
resolved codec data_ s = resolve (parse_response_meta codec data_) (count_results codec data_) s

-- The units of a push.
abbrev pub push_units : Session → ℕ
push_units s = if is_nonpos s.bill_units then 1 else to_ℕ s.bill_units

-- The successes that a message from the node is worth to its session.
abbrev pub earned : Codec → String → Session → ℕ
earned codec data_ s = elim (parse_notification codec data_) [
  | some p ↦ push_units s
  | none ↦ (resolved codec data_ s).0.0
]

module _ {lib : Lib} where
  -- What the session shares with the rest of the program.
  abbrev pub books : World lib → Books lib
  books w = record { limiter = w.limiter; stats = w.stats; published = w.published }
