-- ===== src/AdminJwt/Agreement.antt =====
-- The two implementations of `Store` (internal/adminjwt), of which cmd/gateway takes one: a sequence
-- of calls that do not fail has the same answers in both.
use rpc_node_gateway.Prelude.{
  ℕ, ◌≡◌, refl, ◌∙◌, ap, sym, String, Bool, false, none, some, List, [], ◌∷◌,
}
use rpc_node_gateway.AdminJwt.{Record}
use rpc_node_gateway.AdminJwt.Store.{
  Table, stored, saved, revoke_if_any, revoked_all, drop_expired, cleaned, live_if_any, Implements,
  Store,
}
use rpc_node_gateway.AdminJwt.MemoryStore.{
  new_memory_store, memory, memory-cut, memory-stored, new_memory_store-IsValid,
  new_memory_store-table,
}
use rpc_node_gateway.AdminJwt.PostgresStore.{
  micros, postgres, postgres-cut, empty_table, empty_table-IsValid, empty_table-none,
}

-- A call that changes the store, with the time at which it is made.
pub data Call : Type 0 where
  save_call : Record → Call
  revoke_call : ℕ → Call
  cleanup_call : ℕ → Call

-- The call with its times cut.
abbrev cut_call : (ℕ → ℕ) → Call → Call
cut_call cut (save_call r) = save_call (stored cut r)
cut_call cut (revoke_call now) = revoke_call now
cut_call cut (cleanup_call before) = cleanup_call (cut before)

unfoldable pub cut_calls : (ℕ → ℕ) → List Call → List Call
cut_calls cut [] = []
cut_calls cut (c ∷ calls) = cut_call cut c ∷ cut_calls cut calls

cut_calls-memory : (calls : List Call) → cut_calls memory.cut calls ≡ calls
unfolding cut_calls
cut_calls-memory [] = refl
cut_calls-memory (save_call r ∷ calls) =
    ap (λ x. save_call x ∷ cut_calls memory.cut calls) (memory-stored r)
    ∙ ap (λ cs. save_call r ∷ cs) (cut_calls-memory calls)
cut_calls-memory (revoke_call now ∷ calls) =
    ap (λ cs. revoke_call now ∷ cs) (cut_calls-memory calls)
cut_calls-memory (cleanup_call before ∷ calls) =
    ap (λ x. cleanup_call x ∷ cut_calls memory.cut calls) (memory-cut before)
    ∙ ap (λ cs. cleanup_call before ∷ cs) (cut_calls-memory calls)

abbrev effect : Call → Table → Table
effect (save_call r) = saved r
effect (revoke_call now) = revoked_all now
effect (cleanup_call before) = cleaned before

-- The calls on a table alone.
unfoldable pub run_table : List Call → Table → Table
run_table [] t = t
run_table (c ∷ calls) t = run_table calls (effect c t)

effect_ext :
    (c : Call) (t u : Table)
    → ((j : String) → t j ≡ u j)
    → (j : String) → effect c t j ≡ effect c u j
effect_ext (save_call r) t u same j = rw (same j) refl
effect_ext (revoke_call now) t u same j = ap (revoke_if_any now) (same j)
effect_ext (cleanup_call before) t u same j = ap (drop_expired before) (same j)

module _ {S : Type 0} (store : Store S) where
  abbrev pub apply : Call → S → S
  apply (save_call r) s = (store.save r false s).0
  apply (revoke_call now) s = (store.revoke_all_active now false s).0
  apply (cleanup_call before) s = (store.cleanup_expired before false s).0

  unfoldable pub run : List Call → S → S
  run [] s = s
  run (c ∷ calls) s = run calls (apply c s)

  apply-IsValid : (c : Call) (s : S) → store.IsValid s → store.IsValid (apply c s)
  apply-IsValid (save_call r) s v = (store.save_lem r).valid false s v
  apply-IsValid (revoke_call now) s v = (store.revoke_all_active_lem now).valid false s v
  apply-IsValid (cleanup_call before) s v = (store.cleanup_expired_lem before).valid false s v

  done-effect :
      {op : Bool → S → S × Bool} {f : Table → Table} (s : S)
      → Implements store.IsValid store.table op f
      → store.IsValid s
      → (j : String) → store.table (op false s).0 j ≡ f (store.table s) j
  done-effect s imp v j = imp.changes false s v (imp.works s) j

  apply-effect :
      (c : Call) (s : S)
      → store.IsValid s
      → (j : String) → store.table (apply c s) j ≡ effect (cut_call store.cut c) (store.table s) j
  apply-effect (save_call r) s v = done-effect s (store.save_lem r) v
  apply-effect (revoke_call now) s v = done-effect s (store.revoke_all_active_lem now) v
  apply-effect (cleanup_call before) s v = done-effect s (store.cleanup_expired_lem before) v

  pub run-run_table :
      (calls : List Call) (s : S) (t : Table)
      → store.IsValid s
      → ((j : String) → store.table s j ≡ t j)
      → store.IsValid (run calls s)
        × ((j : String) → store.table (run calls s) j ≡ run_table (cut_calls store.cut calls) t j)
  unfolding run run_table cut_calls
  run-run_table [] s t v same = (v, same)
  run-run_table (c ∷ calls) s t v same =
      run-run_table calls (apply c s) (effect (cut_call store.cut c) t) (apply-IsValid c s v)
        (λ j. apply-effect c s v j ∙ effect_ext (cut_call store.cut c) (store.table s) t same j)

-- The table that the calls give, with their times cut to microseconds.
abbrev pub final_table : List Call → Table
final_table calls = run_table (cut_calls micros calls) (λ _. none)

pub run-memory :
    (calls : List Call)
    → memory.IsValid (run memory (cut_calls micros calls) new_memory_store)
      × ((j : String)
          → memory.table (run memory (cut_calls micros calls) new_memory_store) j
            ≡ final_table calls j)
run-memory calls =
    let (valid, shown) =
      run-run_table memory (cut_calls micros calls) new_memory_store (λ _. none)
        new_memory_store-IsValid new_memory_store-table in
    (
      valid,
      λ j.
          shown j
          ∙ ap (λ cs. run_table cs (λ _. none) j) (cut_calls-memory (cut_calls micros calls)),
    )

pub run-postgres :
    (calls : List Call)
    → postgres.IsValid (run postgres calls empty_table)
      × ((j : String) → postgres.table (run postgres calls empty_table) j ≡ final_table calls j)
run-postgres calls =
    let (valid, shown) =
      run-run_table postgres calls empty_table (λ _. none) empty_table-IsValid empty_table-none in
    (valid, λ j. shown j ∙ ap (λ cut. run_table (cut_calls cut calls) (λ _. none) j) postgres-cut)

-- After any sequence of calls that change the store, with none that fails, a store in the database
-- that started with an empty table answers for each jti and time as one in memory that started empty
-- and met the same calls with their times cut to microseconds.
pub run-memory-postgres :
    (calls : List Call) (now : ℕ) (j : String)
    → memory.is_active false now j (run memory (cut_calls micros calls) new_memory_store)
      ≡ postgres.is_active false now j (run postgres calls empty_table)
run-memory-postgres calls now j =
    let (ok, shown) = run-memory calls in
    let (fine, listed) = run-postgres calls in
    memory.is_active_lem now j (run memory (cut_calls micros calls) new_memory_store) ok
    ∙ ap (λ e. some (live_if_any now e)) (shown j ∙ sym (listed j))
    ∙ sym (postgres.is_active_lem now j (run postgres calls empty_table) fine)
