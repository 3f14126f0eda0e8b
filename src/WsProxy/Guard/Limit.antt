-- ===== src/WsProxy/Guard/Limit.antt =====
-- The connections of the handlers that are open, against the guard's limit.
use rpc_node_gateway.Prelude.{
  ℕ, suc, ◌+◌, ◌≤◌, ◌<◌, ◌≡◌, refl, ap, ◌∙◌, String, true, false, not, List, [], ◌∷◌, ◌++◌, pos,
  leb, if◌then◌else◌, str_eq, eq_iff, lookup, arith,
}
use rpc_node_gateway.WsProxy.Guard.{
  ConnGuard, new_conn_guard, held, acquire, release, held-acquire, held-release,
}

-- The guard, and the token of each connection that is open.
pub record State : Type 0 where
  pub guard : ConnGuard
  pub open_conns : List String

pub data Step (s u : State) : Type 0 where
  accept :
      (t : String)
      → (acquire s.guard t).1 ≡ true
      → u ≡ record { guard = (acquire s.guard t).0; open_conns = t ∷ s.open_conns }
      → Step s u
  refuse :
      (t : String)
      → (acquire s.guard t).1 ≡ false
      → u ≡ record { guard = (acquire s.guard t).0; open_conns = s.open_conns }
      → Step s u
  finish :
      (t : String) (before after : List String)
      → s.open_conns ≡ before ++ t ∷ after
      → u ≡ record { guard = release s.guard t; open_conns = before ++ after }
      → Step s u

pub data Reach (s : State) : State → Type 0 where
  here : Reach s s
  next : {t u : State} → Reach s t → Step t u → Reach s u

unfoldable pub occurrences : String → List String → ℕ
occurrences t [] = 0
occurrences t (u ∷ us) = (if str_eq u t then 1 else 0) + occurrences t us

occurrences-append :
    (t : String) (us vs : List String)
    → occurrences t (us ++ vs) ≡ occurrences t us + occurrences t vs
unfolding occurrences
occurrences-append t [] vs = omega arith
occurrences-append t (u ∷ us) vs = omega (arith, occurrences-append t us vs)

-- The guard knows how many connections each token has open, and none has more than the limit.
pub record IsCounted (max : ℕ) (s : State) : Type 0 where
  pub at_most : s.guard.max ≡ pos max
  pub counts : (t : String) → held s.guard t ≡ occurrences t s.open_conns
  pub within : (t : String) → occurrences t s.open_conns ≤ max

max-acquire : (g : ConnGuard) (t : String) → (acquire g t).0.max ≡ g.max
unfolding acquire
max-acquire g t = ground arith

max-release : (g : ConnGuard) (t : String) → (release g t).max ≡ g.max
unfolding release
max-release g t = ground arith

acquire_below :
    (g : ConnGuard) (t : String) (max : ℕ)
    → g.max ≡ pos (suc max)
    → (acquire g t).1 ≡ true
    → held g t < suc max
unfolding acquire
acquire_below g t max e h = ground arith

accept-IsCounted :
    (max : ℕ) (s : State) (t : String)
    → (acquire s.guard t).1 ≡ true
    → IsCounted (suc max) s
    → IsCounted (suc max) (record { guard = (acquire s.guard t).0; open_conns = t ∷ s.open_conns })
unfolding occurrences
accept-IsCounted max s t a v = record {
  at_most = max-acquire s.guard t ∙ v.at_most;
  counts = λ u. held-acquire s.guard t u ∙ ground (arith, a, v.counts u, v.counts t, eq_iff t u);
  within = λ u.
      ground (arith, acquire_below s.guard t max v.at_most a, v.counts t, v.within u, eq_iff t u);
}

refuse-IsCounted :
    (max : ℕ) (s : State) (t : String)
    → (acquire s.guard t).1 ≡ false
    → IsCounted max s
    → IsCounted max (record { guard = (acquire s.guard t).0; open_conns = s.open_conns })
refuse-IsCounted max s t a v = record {
  at_most = max-acquire s.guard t ∙ v.at_most;
  counts = λ u. held-acquire s.guard t u ∙ ground (arith, a, v.counts u);
  within = v.within;
}

occurrences_at :
    (t u : String) (before after : List String)
    → occurrences u (before ++ t ∷ after)
      ≡ (if str_eq t u then 1 else 0) + occurrences u (before ++ after)
unfolding occurrences
occurrences_at t u before after =
    omega (arith, occurrences-append u before (t ∷ after), occurrences-append u before after)

finish-IsCounted :
    (max : ℕ) (s : State) (t : String) (before after : List String)
    → s.open_conns ≡ before ++ t ∷ after
    → IsCounted max s
    → IsCounted max (record { guard = release s.guard t; open_conns = before ++ after })
finish-IsCounted max s t before after e v = record {
  at_most = max-release s.guard t ∙ v.at_most;
  counts = λ u.
      held-release s.guard t u
      ∙ ground
          (arith, v.counts u, ap (occurrences u) e, occurrences_at t u before after, eq_iff t u);
  within = λ u. omega (arith, v.within u, ap (occurrences u) e, occurrences_at t u before after);
}

Step-IsCounted : (max : ℕ) {s u : State} → Step s u → IsCounted (suc max) s → IsCounted (suc max) u
Step-IsCounted max {s} (accept t a e) v = rw e (accept-IsCounted max s t a v)
Step-IsCounted max {s} (refuse t a e) v = rw e (refuse-IsCounted (suc max) s t a v)
Step-IsCounted max {s} (finish t before after o e) v =
    rw e (finish-IsCounted (suc max) s t before after o v)

Reach-IsCounted :
    (max : ℕ) {s u : State} → Reach s u → IsCounted (suc max) s → IsCounted (suc max) u
Reach-IsCounted max here v = v
Reach-IsCounted max (next r st) v = Step-IsCounted max st (Reach-IsCounted max r v)

abbrev pub initial : ℕ → State
initial max = record { guard = new_conn_guard (pos max); open_conns = [] }

initial-IsCounted : (max : ℕ) → IsCounted max (initial max)
initial-IsCounted max =
    unfold new_conn_guard held lookup occurrences in
    record { at_most = refl; counts = λ t. refl; within = λ t. omega arith }

-- However connections come, are refused and end, the guard with a positive limit counts for each
-- token the connections that it has open, and these never pass the limit.
pub Reach_initial-IsCounted :
    (max : ℕ) {s : State} → Reach (initial (suc max)) s → IsCounted (suc max) s
Reach_initial-IsCounted max r = Reach-IsCounted max r (initial-IsCounted (suc max))

-- A token is refused exactly while it has as many connections open as the limit allows.
pub acquire_refused :
    (max : ℕ) {s : State} (t : String)
    → Reach (initial (suc max)) s
    → (acquire s.guard t).1 ≡ not (leb (suc max) (occurrences t s.open_conns))
unfolding acquire
acquire_refused max {s} t r =
    let v = Reach_initial-IsCounted max r in ground (arith, v.at_most, v.counts t)
