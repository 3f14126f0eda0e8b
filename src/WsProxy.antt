-- ===== src/WsProxy.antt =====
-- internal/wsproxy/handler.go: the two directions of a session, message by message. `Stats` is set,
-- as main.go sets it. What the limiter's and the billing's surroundings bring to a message (time,
-- day, failing Redis commands, the event's id) is its `Moment`. The two
-- handlers write to open sockets; WsProxy/Serving.antt has the writes that fail.
pub mod Guard
pub mod Inbound
pub mod Keeping
pub mod Serving
pub mod Outbound
pub mod Tests
use rpc_node_gateway.Prelude.{
  ℕ, zero, suc, ◌+◌, ◌-◌, String, Bool, true, false, not, ◌&&◌, ◌||◌, Option, none, some, List, [],
  ◌∷◌, ℤ, is_nonpos, to_ℕ, ltb, leb, ◌==◌, if◌then◌else◌, str_eq, str_append, Assoc, lookup, insert,
  remove, length, trim_quotes,
}
use rpc_node_gateway.Model.{Token, BillingEvent}
use rpc_node_gateway.Stats.{
  TokenMeta, Collector, inc_rate_limited, inc_method_denied, record_proxy, record_ws_notification,
}
use rpc_node_gateway.RateLimit.{
  Lib, Env, Limiter, Verdict, allowed, denied, reason_text, allow, incr_success,
}
use rpc_node_gateway.JsonRpc.{
  Codec, Result, ok, err, MessageKind, request, response, notification, unknown, classify,
  parse_methods, parse_request_meta, parse_response_meta, parse_notification, count_results,
}
use rpc_node_gateway.Filter.{check_methods}
use rpc_node_gateway.Billing.{amount_of}

pub record PendingReq : Type 0 where
  pub method : String
  pub sub_kind : String

pub record Session : Type 0 where
  pub token : Token
  pub meta : TokenMeta
  pub chain_id : String
  pub client_ip : String
  pub upstream : String
  pub pending : Assoc PendingReq
  pub subs : Assoc String
  pub sub_n : ℕ
  pub bill_units : ℤ
  pub max_subs : ℤ

pub record Moment : Type 0 where
  pub env : Env
  pub incr_fails : Bool
  pub event_id : String

-- What the gateway tells the client itself.
pub data Reply : Type 0 where
  rate_limited : String → Reply
  invalid_request : Reply
  method_denied : List String → Reply
  too_many_subscriptions : Reply

-- What is written to the socket of the client: a reply of the gateway's, or a message of the node. The
-- code writes both as text frames.
pub data Sent : Type 0 where
  replied : Reply → Sent
  relayed : String → Sent

-- What the sessions share, and what was written to the client of this one, the newest first.
pub record World (lib : Lib) : Type 0 where
  pub limiter : Limiter lib
  pub stats : Collector
  pub published : List BillingEvent
  pub to_client : List Sent

-- `len(methods) == 1`
abbrev pub is_single : List String → Bool
is_single methods = length methods == 1

-- The response's counts, where the request is known and the batch counter saw nothing.
abbrev pub settled : Bool → ℕ × ℕ → ℕ × ℕ
settled ok_succ (success, errors) =
    if success == 0 && errors == 0 then (if ok_succ then (1, 0) else (0, 1)) else (success, errors)

-- What the answer to a registered request does to the subscriptions.
unfoldable pub track : PendingReq → Bool → String → Session → Session
track pr ok_succ result s =
    let sid = trim_quotes result in
    let s₁ : Session =
      if ok_succ && str_eq pr.method "eth_subscribe" && not (str_eq sid "")
      then record s { subs = insert sid pr.sub_kind s.subs; sub_n = s.sub_n + 1 }
      else s in
    if ok_succ && str_eq pr.method "eth_unsubscribe" then record s₁ { sub_n = s₁.sub_n - 1 } else s₁

-- The lookup of the request that a response answers; the new counts and session.
unfoldable pub resolve : Result (String × Bool × String) → ℕ × ℕ → Session → (ℕ × ℕ) × Session
resolve (err e) n s = (n, s)
resolve (ok (id, ok_succ, result)) n s =
    if str_eq id ""
    then (n, s)
    else (let s₁ : Session = record s { pending = remove id s.pending } in
        elim (lookup id s.pending) [
          | none ↦ (n, s₁)
          | some pr ↦ (settled ok_succ n, track pr ok_succ result s₁)
        ])

-- `kind == jsonrpc.KindRequest`
abbrev pub is_request : MessageKind → Bool
is_request request = true
is_request kind = false

module _ {lib : Lib} where
  abbrev pub reply : Reply → World lib → World lib
  reply r w = record w { to_client = replied r ∷ w.to_client }

  -- The registration of a single request, and the limit on subscriptions before it.
  unfoldable pub register :
      Result (String × String × String) → Session → World lib → Bool × Session × World lib
  register (err e) s w = (true, s, w)
  register (ok (id, method, sub_kind)) s w =
      if str_eq id ""
      then (true, s, w)
      else if str_eq method "eth_subscribe"
          && not (is_nonpos s.max_subs)
          && leb (to_ℕ s.max_subs) s.sub_n
      then (false, s, reply too_many_subscriptions w)
      else (
        true,
        record s {
          pending = insert id (record { method = method; sub_kind = sub_kind }) s.pending;
        },
        w,
      )

  unfoldable pub inspect :
      Codec → ℕ → String → Result (List String) → Session → World lib → Bool × Session × World lib
  inspect codec now data_ (err e) s w = (false, s, reply invalid_request w)
  inspect codec now data_ (ok methods) s w = elim (check_methods s.token methods) [
    | some names ↦ (
      false,
      s,
      reply (method_denied names) (record w { stats = inc_method_denied now s.meta w.stats }),
    )
    | none ↦
        if is_single methods then register (parse_request_meta codec data_) s w else (true, s, w)
  ]

  unfoldable pub admit :
      Codec → ℕ → String → Verdict → Session → World lib → Bool × Session × World lib
  admit codec now data_ (denied reason) s w = (
    false,
    s,
    reply (rate_limited (reason_text reason))
        (record w { stats = inc_rate_limited now s.meta w.stats }),
  )
  admit codec now data_ allowed s w =
      if is_request (classify codec data_)
      then inspect codec now data_ (parse_methods codec data_) s w
      else (true, s, w)

  -- `handleInbound`: whether the message goes on to the upstream node.
  unfoldable pub handle_inbound :
      Codec → Moment → String → Session → World lib → Bool × Session × World lib
  handle_inbound codec m data_ s w =
      let (verdict, limiter) = allow lib m.env w.limiter s.token s.chain_id s.client_ip in
      admit codec m.env.now data_ verdict s (record w { limiter = limiter })

  unfoldable pub publish :
      Moment → Session → ℕ → Bool → List String → String → World lib → World lib
  publish m s success_n billable methods kind w =
      if success_n == 0 then w else record w { published = event ∷ w.published }
    where
      event : BillingEvent
      event = record {
        event_id = m.event_id;
        token_key = s.token.key;
        token_name = s.token.name;
        user_id = s.token.user_id;
        plan = s.token.plan;
        chain_id = s.chain_id;
        methods = methods;
        success_n = success_n;
        billable = billable;
        amount_cents = amount_of s.token billable success_n;
        transport = "ws";
        event_kind = kind;
        upstream = s.upstream;
        latency_ms = 0;
        client_ip = s.client_ip;
        at_ms = m.env.now;
      }

  abbrev pub count_success : Moment → Session → ℕ → World lib → World lib
  count_success m s n w = record w {
    limiter = incr_success lib m.env.day m.incr_fails w.limiter s.token.key n;
  }

  -- The branch of `handleOutbound` for a push.
  unfoldable pub handle_push : Moment → String → String → Session → World lib → World lib
  handle_push m method sub_id s w =
      let units = if is_nonpos s.bill_units then 1 else to_ℕ s.bill_units in
      let kind : String = elim (lookup sub_id s.subs) [
        | none ↦ method
        | some k ↦ if str_eq k "" then method else k
      ] in
      let sub_kind = if str_eq sub_id "" then method else kind in
      let billable = not s.token.billing_free in
      publish m s units billable (sub_kind ∷ []) "ws_notification" (
        count_success m s units (record w {
          stats = record_ws_notification m.env.now s.meta s.chain_id 1 units billable w.stats;
        }))

  -- What `handleOutbound` does with the counts of a response.
  unfoldable pub settle : Moment → ℕ × ℕ → Session → World lib → World lib
  settle m (success, errors) s w =
      let billable = not s.token.billing_free in
      let w₁ : World lib = record w {
        stats = record_proxy m.env.now s.meta s.chain_id success errors false billable w.stats;
      } in
      if success == 0 && errors == 0
      then w
      else if success == 0
      then w₁
      else publish m s success billable [] "rpc" (count_success m s success w₁)

  -- `handleOutbound`; the message itself goes on to the client in any case.
  unfoldable pub handle_outbound :
      Codec → Moment → String → Session → World lib → Session × World lib
  handle_outbound codec m data_ s w = elim (parse_notification codec data_) [
    | some (method, sub_id) ↦ (s, handle_push m method sub_id s w)
    | none ↦
        let (n, s') = resolve (parse_response_meta codec data_) (count_results codec data_) s in
        (s', settle m n s' w)
  ]
