-- ===== src/Flow/Table/Running.antt =====
-- flow/table.go: Run, over the times that its ticker gives until the context is done. It keeps nothing of its own, so that
-- its sweeps and its Close are calls among the others.
use go_netx.Base.{
  ℕ, ◌/◌, ◌≤◌, ◌≡◌, refl, ap, true, List, [], ◌∷◌, ◌++◌, append-nil, subst, arith, if◌then◌else◌,
}
use go_netx.Base.Int.{ℤ, pos, leb_ℤ, ltb_ℤ, pos_part}
use go_netx.Flow.Table.{Table, entries, sweep, close_table}
use go_netx.Flow.Table.Shards.{IsValid}
use go_netx.Flow.Table.Ledger.{Act, sweeps, closes, acts, act, tally, acts_balance, tally-emptied}

-- The ticker's period, in nanoseconds: a quarter of IdleTimeout from 10 ms to 1 s.
unfoldable pub tick_of : ℤ → ℤ
tick_of idle =
    if ltb_ℤ (pos 0) idle
    then (let quarter = pos (pos_part idle / 4) in
        let raised = if leb_ℤ quarter (pos 10000000) then pos 10000000 else quarter in
        if leb_ℤ raised (pos 1000000000) then raised else pos 1000000000)
    else pos 1000000000

-- What Run calls.
abbrev pub run_acts : {K V : Type 0} → List ℤ → List (Act K V)
run_acts [] = closes ∷ []
run_acts (now ∷ ticks) = sweeps now ∷ run_acts ticks

-- `Run`: the table at the end, and all that was given to OnClose.
unfoldable pub run_table : {K V : Type 0} → List ℤ → Table K V → Table K V × List (K × ℕ)
run_table [] t = close_table t
run_table (now ∷ ticks) t =
    let (t', n, calls) = sweep now t in
    let (t'', calls') = run_table ticks t' in (t'', calls ++ calls')

tick_bounds :
    (idle : ℤ) → (10000000 ≤ pos_part (tick_of idle)) × (pos_part (tick_of idle) ≤ 1000000000)
unfolding tick_of
tick_bounds idle = ground arith

module _ {K V : Type 0} (dec : Discrete K) (hash : K → ℕ) (zero_value : V) where
  acts-run_acts :
      (ticks : List ℤ) (t : Table K V)
      → let (t', made, gone) = acts dec hash zero_value (run_acts ticks) t in
        (t' ≡ (run_table ticks t).0) × (made ≡ []) × (gone ≡ (run_table ticks t).1)
  unfolding acts act run_table
  acts-run_acts [] t = (refl, refl, append-nil (close_table t).1)
  acts-run_acts (now ∷ ticks) t =
      let (table, made, gone) = acts-run_acts ticks (sweep now t).0 in
      (table, made, ap (◌++◌ (sweep now t).2) gone)

  run_table-entries :
      (ticks : List ℤ) (t : Table K V) (id : ℕ)
      → tally id (entries (run_table ticks t).0.shards) ≡ 0
  unfolding run_table close_table
  run_table-entries [] t id = tally-emptied id t.shards
  run_table-entries (now ∷ ticks) t id = run_table-entries ticks (sweep now t).0 id

  -- Run gives every flow of the table to OnClose: whatever times the ticker gives, and however many, until the context
  -- is done, each flow that was in the table at the start is given to OnClose once for each entry it had, by a
  -- sweep or at the end, and then the table is empty and still valid.
  pub run_table_lem :
      (ticks : List ℤ) (t : Table K V)
      → IsValid dec hash t
      → t.has_hook ≡ true
      → IsValid dec hash (run_table ticks t).0
        × ((id : ℕ)
            → (tally id (entries (run_table ticks t).0.shards) ≡ 0)
              × (tally id (run_table ticks t).1 ≡ tally id (entries t.shards)))
  run_table_lem ticks t valid hook =
      let (table, made, gone) = acts-run_acts ticks t in
      let (valid', hook', balance) =
        acts_balance dec hash zero_value (run_acts ticks) t valid hook in
      (
        subst (IsValid dec hash) table valid',
        λ id.
            let left = run_table-entries ticks t id in
            (
              left,
              omega (
                arith,
                balance id,
                left,
                ap (tally id) made,
                ap (tally id) gone,
                ap (λ (u : Table K V). tally id (entries u.shards)) table,
              ),
            ),
      )
