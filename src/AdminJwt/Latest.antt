-- ===== src/AdminJwt/Latest.antt =====
-- `LatestActive` of both stores (internal/adminjwt/memory_store.go, postgres_store.go) against the
-- table that a store shows.
pub mod Best
use rpc_node_gateway.Prelude.{
  ℕ, ◌≡◌, ◌≤◌, ◌⊎◌, inl, inr, refl, ◌∙◌, ap, sym, String, Bool, true, false, not, ◌&&◌, Option,
  none, some, List, [], ◌∷◌, ltb, leb, if◌then◌else◌, Bool-cases, str_eq, eq_iff, Assoc, lookup,
  arith,
}
use rpc_node_gateway.AdminJwt.{Record, is_live}
use rpc_node_gateway.AdminJwt.Store.{Table, Entry, entry, live}
use rpc_node_gateway.AdminJwt.MemoryStore.{
  MemoryStore, UniqueKeys, memory-lookup, memory-UniqueKeys, latest_loop, latest_active,
  new_memory_store, memory, new_memory_store-IsValid, new_memory_store-table,
}
use rpc_node_gateway.AdminJwt.PostgresStore.{
  micros, PostgresStore, find, UniqueJtis, postgres-find, postgres-UniqueJtis, latest_row, postgres,
  empty_table, empty_table-IsValid, empty_table-none,
}
use rpc_node_gateway.AdminJwt.Agreement.{
  Call, run, run_table, run-run_table, cut_calls, final_table, run-memory, run-postgres,
  run-memory-postgres,
}
use rpc_node_gateway.AdminJwt.Latest.Best.{
  reaches, latest_loop-last, latest_loop-held, latest_row-last, latest_row-held,
}

abbrev pub issue_time : Option Record → Option ℕ
issue_time none = none
issue_time (some b) = some b.issued_at

-- A live entry of the table that no live entry was issued after, if there is a live one.
pub record IsLatest (now : ℕ) (t : Table) (o : Option Record) : Type 0 where
  pub held :
      (b : Record)
      → o ≡ some b
      → (j : String) × (t j ≡ some (entry b)) × (live now (entry b) ≡ true)
  pub last :
      (j : String) (e : Entry) → t j ≡ some e → live now e ≡ true → reaches e.issued_at o ≡ true

reaches-le : (n : ℕ) (b : Record) → reaches n (some b) ≡ true → n ≤ b.issued_at
reaches-le n b e = ground arith

IsLatest-issue_time :
    (now : ℕ) (t : Table) (o p : Option Record)
    → IsLatest now t o
    → IsLatest now t p
    → issue_time o ≡ issue_time p
IsLatest-issue_time now t none none at_o at_p = refl
IsLatest-issue_time now t none (some b) at_o at_p =
    let (j, shown, alive) = at_p.held b refl in
    let wrong = at_o.last j (entry b) shown alive in ground arith
IsLatest-issue_time now t (some b) none at_o at_p =
    let (j, shown, alive) = at_o.held b refl in
    let wrong = at_p.last j (entry b) shown alive in ground arith
IsLatest-issue_time now t (some b) (some c) at_o at_p =
    let (i, shown_b, alive_b) = at_o.held b refl in
    let (j, shown_c, alive_c) = at_p.held c refl in
    let up : b.issued_at ≤ c.issued_at =
      reaches-le b.issued_at c (at_p.last i (entry b) shown_b alive_b) in
    let down : c.issued_at ≤ b.issued_at =
      reaches-le c.issued_at b (at_o.last j (entry c) shown_c alive_c) in
    ap some (omega arith)

memory_last :
    (now : ℕ) (s : MemoryStore) (j : String) (x : Entry)
    → elim (lookup j s.by_jti) [ none ↦ none | some r ↦ some (entry r) ] ≡ some x
    → live now x ≡ true
    → reaches x.issued_at (latest_loop now none s.by_jti) ≡ true
memory_last now s j x e alive = go (lookup j s.by_jti) refl e
  where
    go :
        (o : Option Record)
        → lookup j s.by_jti ≡ o
        → elim o [ none ↦ none | some r ↦ some (entry r) ] ≡ some x
        → reaches x.issued_at (latest_loop now none s.by_jti) ≡ true
    go none at_j shown = ground arith
    go (some r) at_j shown =
        let found : entry r ≡ x = cc in
        ap (λ y. reaches y.issued_at (latest_loop now none s.by_jti)) (sym found)
        ∙ latest_loop-last now j r none s.by_jti at_j (ap (live now) found ∙ alive)

memory-IsLatest :
    (now : ℕ) (s : MemoryStore)
    → memory.IsValid s
    → IsLatest now (memory.table s) (latest_active now s)
unfolding latest_active
memory-IsLatest now s u = record {
  held = λ b e. elim (latest_loop-held now none s.by_jti b (memory-UniqueKeys s u) e) [
    | inl absent ↦ ground arith
    | inr (j, there, alive) ↦ (j, memory-lookup s j ∙ rw there refl, alive)
  ];
  last = λ j x e alive. memory_last now s j x (sym (memory-lookup s j) ∙ e) alive;
}

postgres-IsLatest :
    (now : ℕ) (s : PostgresStore)
    → postgres.IsValid s
    → IsLatest now (postgres.table s) (latest_row now s.rows)
postgres-IsLatest now s u = record {
  held = λ b e.
      let (j, there, alive) = latest_row-held now s.rows b (postgres-UniqueJtis s u) e in
      (j, postgres-find s j ∙ there, alive);
  last = λ j x e alive. latest_row-last now j x s.rows (sym (postgres-find s j) ∙ e) alive;
}

IsLatest-ext :
    (now : ℕ) (t u : Table) (o : Option Record)
    → ((j : String) → t j ≡ u j)
    → IsLatest now t o
    → IsLatest now u o
IsLatest-ext now t u o same at_o = record {
  held = λ b e. let (j, shown, alive) = at_o.held b e in (j, sym (same j) ∙ shown, alive);
  last = λ j e shown alive. at_o.last j e (same j ∙ shown) alive;
}

-- After any sequence of calls that change the store, with none that fails, take a store in the
-- database that started with an empty table, and one in memory that started empty and met the same
-- calls with their times cut to microseconds. They answer alike for each jti whether its token is
-- active. The latest active token of each is a live one of the table that the cut calls give, and no
-- live one was issued after it; it is missing only where none is live, and both have the same time of
-- issue.
pub run-latest_active :
    (calls : List Call) (now : ℕ)
    → ((j : String)
        → memory.is_active false now j (run memory (cut_calls micros calls) new_memory_store)
          ≡ postgres.is_active false now j (run postgres calls empty_table))
      × IsLatest now
          (final_table calls)
          (latest_active now (run memory (cut_calls micros calls) new_memory_store))
      × IsLatest now (final_table calls) (latest_row now (run postgres calls empty_table).rows)
      × (issue_time (latest_active now (run memory (cut_calls micros calls) new_memory_store))
          ≡ issue_time (latest_row now (run postgres calls empty_table).rows))
run-latest_active calls now =
    let m = run memory (cut_calls micros calls) new_memory_store in
    let p = run postgres calls empty_table in
    let t = final_table calls in
    let (ok, shown) = run-memory calls in
    let (fine, listed) = run-postgres calls in
    let in_memory : IsLatest now t (latest_active now m) =
      IsLatest-ext now (memory.table m) t (latest_active now m) shown (memory-IsLatest now m ok) in
    let in_rows : IsLatest now t (latest_row now p.rows) =
      IsLatest-ext now (postgres.table p) t (latest_row now p.rows) listed
        (postgres-IsLatest now p fine) in
    (
      λ j. run-memory-postgres calls now j,
      in_memory,
      in_rows,
      IsLatest-issue_time now t (latest_active now m) (latest_row now p.rows) in_memory in_rows,
    )
