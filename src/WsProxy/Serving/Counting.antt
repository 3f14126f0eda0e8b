-- ===== src/WsProxy/Serving/Counting.antt =====
-- The successes that a whole session counts.
use rpc_node_gateway.Prelude.{ℕ, ◌+◌, ◌≡◌, String, false, none, some, List, [], ◌∷◌, if◌then◌else◌}
use rpc_node_gateway.Model.{Token}
use rpc_node_gateway.RateLimit.{Lib}
use rpc_node_gateway.JsonRpc.{Codec}
use rpc_node_gateway.Billing.Books.{Books, Counts}
use rpc_node_gateway.WsProxy.{World}
use rpc_node_gateway.WsProxy.Outbound.{books, earned}
use rpc_node_gateway.WsProxy.Serving.{Frame, from_client, from_node, Gate, Link, pump}

-- What the handler shares with the rest of the program.
abbrev pub gate_books : {lib : Lib} → Gate lib → Books lib
gate_books g = record { limiter = g.limiter; stats = g.stats; published = g.published }

-- A message of the client changes no number of successes.
record IsQuiet {lib : Lib} (w w' : World lib) : Type 0 where
  pub limiter : w'.limiter ≡ w.limiter
  pub shown : w'.stats.global.success_calls ≡ w.stats.global.success_calls
  pub published : w'.published ≡ w.published

-- The frame comes on this day, and Redis counts its successes.
abbrev pub IsCountable : String → Frame → Type 0
IsCountable day (from_client m text fails) = Unit {0}
IsCountable day (from_node m text fails) = (m.incr_fails ≡ false) × (m.env.day ≡ day)

module _ {lib : Lib} (codec : Codec) where
  -- The successes that a frame is worth to a session, and those of all frames.
  abbrev pub earned_by : Link lib → Frame → ℕ
  earned_by l (from_client m text fails) = 0
  earned_by l (from_node m none fails) = 0
  earned_by l (from_node m (some text) fails) =
      if l.outbound_done then 0 else earned codec text l.session

  abbrev pub earned_all : Link lib → List Frame → ℕ
  earned_all l [] = 0
  earned_all l (f ∷ fs) = earned_by l f + earned_all (pump codec l f) fs

  -- A session of a token that has come to count a number of successes more.
  abbrev Counted : String → Token → ℕ → Link lib → Link lib → Type 0
  Counted day token n l l' =
      (l'.session.token ≡ token) × Counts day token.key n (books l.world) (books l'.world)
