-- ===== src/Proxy.antt =====
-- internal/proxy/handler.go: one HTTP request, from the balancer to the answer. The HTTP client is a
-- parameter (`Client`); the handler is written over what `forward` makes of it, for each URL the
-- body and the status, or nothing. The handler tries a URL once. `Stats` is set, as main.go sets it. No reload
-- and no other request comes between the steps of a request.
mod Cases
pub mod Keeping
pub mod Pools
pub mod Counting
pub mod Tests
use rpc_node_gateway.Prelude.{
  ℕ, String, Bool, true, false, not, ◌&&◌, Option, none, some, List, [], ◌∷◌, ℤ, negsuc, ltb, leb,
  ◌==◌, if◌then◌else◌, str_eq, insert,
}
use rpc_node_gateway.Model.{Token, BillingEvent}
use rpc_node_gateway.Balancer.{Node, Pool, Registry, next, report_success, report_failure}
use rpc_node_gateway.Balancer.Reload.{pool}
use rpc_node_gateway.Stats.{TokenMeta, record_proxy}
use rpc_node_gateway.RateLimit.{Lib, incr_success}
use rpc_node_gateway.JsonRpc.{Codec, count_results}
use rpc_node_gateway.Billing.{amount_of}
use rpc_node_gateway.Billing.Books.{Books}

-- `r` with what the middlewares put into its context; `body` is `none` if reading it fails.
pub record Request : Type 0 where
  pub is_post : Bool
  pub token : Option Token
  pub chain_id : String
  pub methods : List String
  pub client_ip : String
  pub body : Option String

-- What the surroundings bring to a request.
pub record Moment : Type 0 where
  pub now : ℕ
  pub day : String
  pub incr_fails : Bool
  pub event_id : String
  pub latency_ms : ℕ

-- What the client gets: an error of the gateway's, with its status, its code and its message, or a
-- node's answer.
pub data Answer : Type 0 where
  failed : ℕ → ℤ → String → Answer
  relayed : ℕ → String → Answer

pub record World (lib : Lib) : Type 0 where
  pub registry : Registry
  pub books : Books lib

-- `forward` for the body of a request
abbrev pub Forward : Type 0
Forward = String → String → Option (String × ℕ)

abbrev pub meta_of : Token → TokenMeta
meta_of token = record {
  key = token.key;
  name = token.name;
  plan = token.plan;
  billing_free = token.billing_free;
  enabled = token.enabled;
}

-- `Client.Do` for a body at a URL: nothing if it fails, or else the status and the body of the
-- response, which is `none` where reading it fails. The headers are left out.
abbrev pub Client : Type 0
Client = String → String → Option (ℕ × Option String)

unfoldable pub forward : Client → Forward
forward client upstream body = elim (client upstream body) [
  | none ↦ none
  | some (status, read) ↦ elim read [ none ↦ none | some resp_body ↦ some (resp_body, status) ]
]

-- The second attempt, at another node. The pool, the node that is taken to have answered, and the
-- answer.
unfoldable pub retry : Forward → String → Pool → ℕ × Node → Pool × (ℕ × Node) × Option (String × ℕ)
retry forward body p (i, node) =
    let (p', alt) = next p in
    elim alt [
      | none ↦ (p', (i, node), none)
      | some (j, other) ↦
          if str_eq other.url node.url
          then (p', (i, node), none)
          else elim (forward other.url body) [
            | none ↦ (p', (i, node), none)
            | some r ↦ (p', (j, other), some r)
          ]
    ]

unfoldable pub attempt :
    Forward → String → Pool → ℕ × Node → Pool × (ℕ × Node) × Option (String × ℕ)
attempt forward body p (i, node) = elim (forward node.url body) [
  | some r ↦ (p, (i, node), some r)
  | none ↦ retry forward body (report_failure p i) (i, node)
]

abbrev pub report_status : Pool → ℕ → ℕ → Pool
report_status p i status = if leb 500 status then report_failure p i else report_success p i

-- The report on the node that answered.
unfoldable pub report_answer : Pool → ℕ → Option (String × ℕ) → Pool
report_answer p i none = p
report_answer p i (some (body, status)) = report_status p i status

-- `status >= 200 && status < 300`
abbrev pub is_2xx : ℕ → Bool
is_2xx status = leb 200 status && ltb status 300

module _ {lib : Lib} where
  -- The write through the pointer that `Registry.Pool` returns.
  abbrev pub put_pool : String → Pool → World lib → World lib
  put_pool id p w = record w {
    registry = record w.registry { pools = insert id p w.registry.pools };
  }

  unfoldable pub record_failure : Moment → Token → String → Bool → World lib → World lib
  record_failure m token chain_id billable w = record w {
    books = record w.books {
      stats = record_proxy m.now (meta_of token) chain_id 0 0 true billable w.books.stats;
    };
  }

  -- The successes of an answer, in the daily count and in an event of the bill.
  unfoldable pub bill : Moment → Request → Token → Node → ℕ → Books lib → Books lib
  bill m r token node success_n b = record b {
    limiter = incr_success lib m.day m.incr_fails b.limiter token.key success_n;
    published = event ∷ b.published;
  }
    where
      event : BillingEvent
      event = record {
        event_id = m.event_id;
        token_key = token.key;
        token_name = token.name;
        user_id = token.user_id;
        plan = token.plan;
        chain_id = r.chain_id;
        methods = r.methods;
        success_n = success_n;
        billable = not token.billing_free;
        amount_cents = amount_of token (not token.billing_free) success_n;
        transport = "http";
        event_kind = "rpc";
        upstream = node.url;
        latency_ms = m.latency_ms;
        client_ip = r.client_ip;
        at_ms = m.now;
      }

  unfoldable pub count_answer : Moment → Request → Token → Node → ℕ × ℕ → Books lib → Books lib
  count_answer m r token node (success_n, rpc_err_n) b =
      let billable = not token.billing_free in
      let b₁ : Books lib = record b {
        stats =
            record_proxy m.now (meta_of token) r.chain_id success_n rpc_err_n false billable
              b.stats;
      } in
      if ltb 0 success_n then bill m r token node success_n b₁ else b₁

  -- What follows the attempts.
  unfoldable pub settle :
      Codec → Moment → Request → Token → Node → Option (String × ℕ) → World lib → Answer × World lib
  settle codec m r token node none w =
      (failed 502 (negsuc 32003) "upstream unavailable", record_failure m token r.chain_id false w)
  settle codec m r token node (some (body, status)) w =
      let n = if is_2xx status then count_results codec body else (0, 0) in
      if leb 500 status
      then (relayed status body, record_failure m token r.chain_id (not token.billing_free) w)
      else (relayed status body, record w { books = count_answer m r token node n w.books })

  unfoldable pub send :
      Codec → Forward → Moment → Request → Token → String → Pool → World lib → Answer × World lib
  send codec forward m r token body p w =
      let (p₁, found) = next p in
      elim found [
        | none ↦ (
          failed 502 (negsuc 32002) "no upstream available",
          record_failure m token r.chain_id false (put_pool r.chain_id p₁ w),
        )
        | some c ↦
            let (p₂, (i, node), response) = attempt forward body p₁ c in
            settle codec m r token node response
              (put_pool r.chain_id (report_answer p₂ i response) w)
      ]

  unfoldable pub serve_http : Codec → Forward → Moment → Request → World lib → Answer × World lib
  serve_http codec forward m r w =
      if not r.is_post
      then (failed 405 (negsuc 32599) "only POST is allowed", w)
      else elim r.token [
        | none ↦ (failed 401 (negsuc 32000) "unauthorized", w)
        | some token ↦
            if str_eq r.chain_id ""
            then (failed 401 (negsuc 32000) "unauthorized", w)
            else elim (pool w.registry r.chain_id) [
              | none ↦ (failed 404 (negsuc 32001) "unknown chain", w)
              | some p ↦ elim r.body [
                | none ↦ (failed 400 (negsuc 32699) "failed to read body", w)
                | some body ↦ send codec forward m r token body p w
              ]
            ]
      ]
