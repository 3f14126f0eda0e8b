-- ===== src/Balancer/Health.antt =====
-- The health of a node (`ReportSuccess`, `ReportFailure`) against a counter without wrap-around.
use rpc_node_gateway.Prelude.{
  ℕ, zero, suc, ◌+◌, ◌<◌, ◌≡◌, refl, sym, ap, ◌∙◌, Bool, true, false, List, [], ◌∷◌, ℤ, pos, negsuc,
  to_ℕ, leb, ltb, i32_limit, if◌then◌else◌, arith,
}
use rpc_node_gateway.Balancer.{Node, succeed, fail}

-- A node is up, with the failures in a row so far, or down, with the successes in a row so far.
pub data Health : Type 0 where
  up : ℕ → Health
  down : ℕ → Health

pub data Report : Type 0 where
  success failure : Report

-- One report, at the thresholds `u` for going down and `h` for coming back.
pub next_health : ℕ → ℕ → Report → Health → Health
next_health u h success (up k) = up 0
next_health u h failure (up k) = if leb u (k + 1) then down 0 else up (k + 1)
next_health u h success (down k) = if leb h (k + 1) then up 0 else down (k + 1)
next_health u h failure (down k) = down 0

pub run_health : ℕ → ℕ → List Report → Health → Health
run_health u h [] s = s
run_health u h (r ∷ rs) s = run_health u h rs (next_health u h r s)

pub is_up : Health → Bool
is_up (up k) = true
is_up (down k) = false

-- The code, at the same thresholds.
unfoldable pub report : ℕ → ℕ → Report → Node → Node
report u h success n = succeed (pos h) n
report u h failure n = fail (pos u) n

unfoldable pub run_reports : ℕ → ℕ → List Report → Node → Node
run_reports u h [] n = n
run_reports u h (r ∷ rs) n = run_reports u h rs (report u h r n)

abbrev health_of : Bool → ℤ → ℤ → Health
health_of true fails oks = up (to_ℕ fails)
health_of false fails oks = down (to_ℕ oks)

pub health : Node → Health
health n = health_of n.healthy n.fail_count n.ok_count

-- The counter that decides next is a number below its threshold; the other one is free.
abbrev CounterBelow : ℤ → ℕ → Type 0
CounterBelow (pos k) t = k < t
CounterBelow (negsuc k) t = ⊥

abbrev Counts : ℕ → ℕ → Bool → ℤ → ℤ → Type 0
Counts u h true fails oks = CounterBelow fails u
Counts u h false fails oks = CounterBelow oks h

abbrev pub IsCounting : ℕ → ℕ → Node → Type 0
IsCounting u h n = Counts u h n.healthy n.fail_count n.ok_count

abbrev with_counts : Node → Bool → ℤ → ℤ → Node
with_counts n b fails oks = record n { healthy = b; fail_count = fails; ok_count = oks }

abbrev pub repeat : ℕ → Report → List Report
repeat zero r = []
repeat (suc k) r = r ∷ repeat k r

stays_up : (u h k j : ℕ) → is_up (run_health u h (repeat j success) (up k)) ≡ true
unfolding run_health next_health is_up
stays_up u h k zero = refl
stays_up u h k (suc j) = stays_up u h 0 j

successes_in_a_row :
    (u h k j : ℕ) → k < h → is_up (run_health u h (repeat j success) (down k)) ≡ leb h (k + j)
unfolding run_health next_health is_up
successes_in_a_row u h k zero lt = ground arith
successes_in_a_row u h k (suc j) lt =
    ground (arith, successes_in_a_row u h (k + 1) j, stays_up u h 0 j)

stays_down : (u h k j : ℕ) → is_up (run_health u h (repeat j failure) (down k)) ≡ false
unfolding run_health next_health is_up
stays_down u h k zero = refl
stays_down u h k (suc j) = stays_down u h 0 j

failures_in_a_row :
    (u h k j : ℕ) → k < u → is_up (run_health u h (repeat j failure) (up k)) ≡ ltb (k + j) u
unfolding run_health next_health is_up
failures_in_a_row u h k zero lt = ground arith
failures_in_a_row u h k (suc j) lt =
    ground (arith, failures_in_a_row u h (k + 1) j, stays_down u h 0 j)

is_up-health_of : (b : Bool) (fails oks : ℤ) → is_up (health_of b fails oks) ≡ b
unfolding is_up
is_up-health_of true fails oks = refl
is_up-health_of false fails oks = refl

is_up-health : (n : Node) → is_up (health n) ≡ n.healthy
unfolding health
is_up-health n = is_up-health_of n.healthy n.fail_count n.ok_count

health_up : (n : Node) (k : ℕ) → n.healthy ≡ true → n.fail_count ≡ pos k → health n ≡ up k
unfolding health
health_up n k b c = rw (b, c)

health_down : (n : Node) (k : ℕ) → n.healthy ≡ false → n.ok_count ≡ pos k → health n ≡ down k
unfolding health
health_down n k b c = rw (b, c)

module _ (u h : ℕ) (u_pos : 0 < u) (h_pos : 0 < h) (u_max : u < i32_limit)
    (h_max : h < i32_limit) where
  report_at :
      (r : Report) (n : Node) (b : Bool) (fails oks : ℤ)
      → Counts u h b fails oks
      → (health (report u h r (with_counts n b fails oks))
          ≡ next_health u h r (health_of b fails oks))
        × IsCounting u h (report u h r (with_counts n b fails oks))
  unfolding report health next_health succeed fail
  report_at success n true (pos k) oks v = (ground arith, ground arith)
  report_at success n true (negsuc k) oks v = absurd v
  report_at failure n true (pos k) oks v = (ground arith, ground arith)
  report_at failure n true (negsuc k) oks v = absurd v
  report_at success n false fails (pos k) v = (ground arith, ground arith)
  report_at success n false fails (negsuc k) v = absurd v
  report_at failure n false fails (pos k) v = (ground arith, ground arith)
  report_at failure n false fails (negsuc k) v = absurd v

  pub report-health :
      (r : Report) (n : Node)
      → IsCounting u h n
      → (health (report u h r n) ≡ next_health u h r (health n)) × IsCounting u h (report u h r n)
  unfolding health
  report-health r n v = report_at r n n.healthy n.fail_count n.ok_count v

  -- With positive int32 thresholds, and from a node whose deciding counter is below its threshold,
  -- any reports lead to the health that the counters without wrap-around give, and the deciding
  -- counter is again below its threshold.
  pub run_reports-health :
      (rs : List Report) (n : Node)
      → IsCounting u h n
      → (health (run_reports u h rs n) ≡ run_health u h rs (health n))
        × IsCounting u h (run_reports u h rs n)
  unfolding run_reports run_health
  run_reports-health [] n v = (refl, v)
  run_reports-health (r ∷ rs) n v =
      let step = report-health r n v in
      let rest = run_reports-health rs (report u h r n) step.1 in
      (rest.0 ∙ ap (run_health u h rs) step.0, rest.1)

  pub run_reports-healthy :
      (rs : List Report) (n : Node)
      → IsCounting u h n
      → (run_reports u h rs n).healthy ≡ is_up (run_health u h rs (health n))
  run_reports-healthy rs n v =
      sym (is_up-health (run_reports u h rs n)) ∙ ap is_up (run_reports-health rs n v).0

  -- With positive int32 thresholds, a healthy node with `k` failures in a row behind it, below the
  -- threshold, is healthy after `j` more in a row exactly while k + j stays below the threshold.
  pub run_reports_failures :
      (n : Node) (k j : ℕ)
      → n.healthy ≡ true
      → n.fail_count ≡ pos k
      → k < u
      → (run_reports u h (repeat j failure) n).healthy ≡ ltb (k + j) u
  run_reports_failures n k j b c lt =
      run_reports-healthy (repeat j failure) n (rw (b, c) lt)
      ∙ rw (health_up n k b c) (failures_in_a_row u h k j lt)

  -- With positive int32 thresholds, an unhealthy node with `k` successes in a row behind it, below
  -- the threshold, is healthy after `j` more in a row exactly when k + j has reached the threshold.
  pub run_reports_successes :
      (n : Node) (k j : ℕ)
      → n.healthy ≡ false
      → n.ok_count ≡ pos k
      → k < h
      → (run_reports u h (repeat j success) n).healthy ≡ leb h (k + j)
  run_reports_successes n k j b c lt =
      run_reports-healthy (repeat j success) n (rw (b, c) lt)
      ∙ rw (health_down n k b c) (successes_in_a_row u h k j lt)
