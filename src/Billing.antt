-- ===== src/Billing.antt =====
-- The billing events that internal/proxy/handler.go and internal/wsproxy/handler.go publish. An
-- event is published by a goroutine of its own: here it joins the list of published events at once.
pub mod Books
pub mod Ledger
pub mod Publisher
pub mod Tests
use rpc_node_gateway.Prelude.{
  ℕ, ◌+◌, ◌*◌, String, Bool, true, false, ◌&&◌, not, List, [], ◌∷◌, is_nonpos, to_ℕ, if◌then◌else◌,
}
use rpc_node_gateway.Model.{Token, BillingEvent}

-- `amount`
abbrev pub amount_of : Token → Bool → ℕ → ℕ
amount_of token billable success_n =
    if billable && not (is_nonpos token.price_per_success_cents)
    then to_ℕ token.price_per_success_cents * success_n
    else 0

-- The successes of the events of a list.
unfoldable pub successes : List BillingEvent → ℕ
successes [] = 0
successes (e ∷ es) = e.success_n + successes es
