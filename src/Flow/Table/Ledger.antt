-- ===== src/Flow/Table/Ledger.antt =====
-- flow/table.go: each flow that a table creates leaves it by one call of OnClose.
use go_netx.Base.{
  ℕ, zero, suc, ◌+◌, ◌<◌, ◌≡◌, ◌≢◌, refl, ap, ◌∙◌, inl, inr, Bool, true, false, List, [], ◌∷◌, ◌++◌,
  none, some, Outcome, returns, panics, runs_on, arith, length, get_or, set, ◌==◌, if◌then◌else◌,
  inc64, ℕ_discrete, Bool-cases, Option-cases,
}
use go_netx.Base.Assoc.{get, put, del}
use go_netx.Base.Int.{ℤ, pos, ◌-ℤ◌, leb_ℤ, wrap64}
use go_netx.Flow.Life.{Flow}
use go_netx.Flow.Table.{
  Table, slot, shard, lookup, entries, emptied, sweep, close_table, get_or_open, remove,
}
use go_netx.Flow.Table.Shards.{
  IsValid, slot_in_range, get_or_open-new, remove-current, remove-stale,
}
use go_netx.Flow.Table.Evict.{
  evicted, staying, staying_each, evicted-append, sweep_shards_lem, sweep_lem,
}

module _ {K : Type 0} where
  -- How many of the entries name the flow.
  abbrev pub tally : ℕ → List (K × ℕ) → ℕ
  tally id [] = 0
  tally id ((k, i) ∷ m) = (if id == i then 1 else 0) + tally id m

  tally-append : (id : ℕ) (m n : List (K × ℕ)) → tally id (m ++ n) ≡ tally id m + tally id n
  tally-append id [] n = omega arith
  tally-append id ((k, i) ∷ m) n = ground (arith, tally-append id m n)

  tally-set :
      (id : ℕ) (ms : List (List (K × ℕ))) (i : ℕ) (m : List (K × ℕ))
      → i < length ms
      → tally id (entries (set ms i m)) + tally id (get_or ms i [])
        ≡ tally id (entries ms) + tally id m
  tally-set id [] i m h = absurd (omega arith)
  tally-set id (n ∷ ms) zero m h =
      omega (arith, tally-append id m (entries ms), tally-append id n (entries ms))
  tally-set id (n ∷ ms) (suc i) m h = omega (
    arith,
    tally-append id n (entries (set ms i m)),
    tally-append id n (entries ms),
    tally-set id ms i m (omega arith),
  )

  tally-put :
      (dec : Discrete K) (id : ℕ) (k : K) (i : ℕ) (m : List (K × ℕ))
      → get dec k m ≡ none
      → tally id (put dec k i m) ≡ tally id m + (if id == i then 1 else 0)
  tally-put dec id k i [] e = ground arith
  tally-put dec id k i ((j, v) ∷ m) e = ground (arith, tally-put dec id k i m)

  tally-del :
      (dec : Discrete K) (id : ℕ) (k : K) (i : ℕ) (m : List (K × ℕ))
      → get dec k m ≡ some i
      → tally id (del dec k m) + (if id == i then 1 else 0) ≡ tally id m
  tally-del dec id k i [] e = cc
  tally-del dec id k i ((j, v) ∷ m) e = ground (arith, tally-del dec id k i m)

  tally-staying :
      (id : ℕ) (cutoff : ℤ) (g : ℕ → Flow) (m : List (K × ℕ))
      → tally id (staying cutoff g m) + tally id (evicted cutoff g m) ≡ tally id m
  tally-staying id cutoff g [] = refl
  tally-staying id cutoff g ((k, i) ∷ m) = ground (arith, tally-staying id cutoff g m)

  tally-staying_each :
      (id : ℕ) (cutoff : ℤ) (g : ℕ → Flow) (ms : List (List (K × ℕ)))
      → tally id (entries (staying_each cutoff g ms)) + tally id (evicted cutoff g (entries ms))
        ≡ tally id (entries ms)
  tally-staying_each id cutoff g [] = refl
  tally-staying_each id cutoff g (m ∷ ms) = omega (
    arith,
    tally-append id (staying cutoff g m) (entries (staying_each cutoff g ms)),
    tally-append id (evicted cutoff g m) (evicted cutoff g (entries ms)),
    tally-append id m (entries ms),
    tally-staying id cutoff g m,
    tally-staying_each id cutoff g ms,
    ap (tally id) (evicted-append cutoff g m (entries ms)),
  )

  pub tally-emptied : (id : ℕ) (ms : List (List (K × ℕ))) → tally id (entries (emptied ms)) ≡ 0
  tally-emptied id [] = refl
  tally-emptied id (m ∷ ms) = tally-emptied id ms

  length-emptied : (ms : List (List (K × ℕ))) → length (emptied ms) ≡ length ms
  length-emptied [] = refl
  length-emptied (m ∷ ms) = ap suc (length-emptied ms)

  get_or-emptied : (ms : List (List (K × ℕ))) (i : ℕ) → get_or (emptied ms) i [] ≡ []
  get_or-emptied [] i = refl
  get_or-emptied (m ∷ ms) zero = refl
  get_or-emptied (m ∷ ms) (suc i) = get_or-emptied ms i

-- The entry that GetOrOpen made, by its answer.
abbrev pub made_by : {K : Type 0} → K → Outcome (ℕ × Bool) → List (K × ℕ)
made_by k (returns (id, true)) = (k, id) ∷ []
made_by k (returns (id, false)) = []
made_by k panics = []
made_by k runs_on = []

-- A call that changes the table; newValue is given, and returns a value.
pub data Act (K V : Type 0) : Type 0 where
  opens : K → V → Act K V
  removes : K → ℕ → Act K V
  sweeps : ℤ → Act K V
  closes : Act K V

module _ {K V : Type 0} (dec : Discrete K) (hash : K → ℕ) (zero_value : V) where
  -- The table after a call, the entry that the call made, and the entries that it gave to OnClose.
  unfoldable pub act : Act K V → Table K V → Table K V × List (K × ℕ) × List (K × ℕ)
  act (opens k v) t =
      let (t', r) = get_or_open dec hash zero_value k (some (returns v)) t in (t', made_by k r, [])
  act (removes k id) t = let (t', done, calls) = remove dec hash k id t in (t', [], calls)
  act (sweeps now) t = let (t', n, calls) = sweep now t in (t', [], calls)
  act closes t = let (t', calls) = close_table t in (t', [], calls)

  -- A run of calls, with all that were made and all that were given to OnClose.
  unfoldable pub acts : List (Act K V) → Table K V → Table K V × List (K × ℕ) × List (K × ℕ)
  unfolding act
  acts [] t = (t, [], [])
  acts (c ∷ cs) t =
      let (t', made, gone) = act c t in
      let (t'', made', gone') = acts cs t' in (t'', made ++ made', gone ++ gone')

  -- A valid table with an OnClose, whose books balance after some calls.
  abbrev Kept : Table K V → Table K V × List (K × ℕ) × List (K × ℕ) → Type 0
  Kept t (t', made, gone) =
      IsValid dec hash t'
      × (t'.has_hook ≡ true)
      × ((id : ℕ)
          → tally id (entries t.shards) + tally id made
            ≡ tally id (entries t'.shards) + tally id gone)

  sweep-Kept :
      (now : ℤ) (t : Table K V)
      → IsValid dec hash t
      → t.has_hook ≡ true
      → let (t', n, calls) = sweep now t in Kept t (t', [], calls)
  unfolding sweep
  sweep-Kept now t valid hook = elim (Bool-cases (leb_ℤ t.idle (pos 0))) [
    | inl e ↦ rw (e, sweep) (valid, hook, λ id. omega arith)
    | inr e ↦
        let (valid', look, count, calls, shut, rest) = sweep_lem dec hash now t valid e in
        let (swept, kept, victims) =
          sweep_shards_lem (wrap64 (now -ℤ t.idle)) t.flows t.shards t.flows
            (λ i. (refl, λ e. refl)) in
        (
          valid',
          rw (e, sweep) hook,
          λ id.
              rw (e, victims, kept, hook, sweep)
                (omega (arith, tally-staying_each id (wrap64 (now -ℤ t.idle)) t.flows t.shards)),
        )
  ]

  get_or_open-Kept :
      (k : K) (v : V) (t : Table K V)
      → IsValid dec hash t
      → t.has_hook ≡ true
      → let (t', r) = get_or_open dec hash zero_value k (some (returns v)) t in
        Kept t (t', made_by k r, [])
  unfolding get_or_open lookup
  get_or_open-Kept k v t valid hook = elim (Option-cases (lookup dec hash k t)) [
    | inl e ↦
        let (r, valid', looked, opened, seen, holds, rest) =
          get_or_open-new dec hash zero_value v k t valid e in
        let m = shard dec hash t k in
        (
          valid',
          rw (e, get_or_open) hook,
          λ id.
              rw (e, get_or_open)
                (ground (
                  arith,
                  tally-set id t.shards (slot dec hash t k) (put dec k (inc64 t.last_id) m)
                      (slot_in_range dec hash k t valid),
                  tally-put dec id k (inc64 t.last_id) m,
                )),
        )
    | inr (found, e) ↦ rw (e, get_or_open) (valid, hook, λ id. omega arith)
  ]

  remove-Kept :
      (k : K) (id : ℕ) (t : Table K V)
      → IsValid dec hash t
      → t.has_hook ≡ true
      → let (t', done, calls) = remove dec hash k id t in Kept t (t', [], calls)
  unfolding remove lookup
  remove-Kept k id t valid hook = elim (Option-cases (lookup dec hash k t)) [
    | inl e ↦ nothing (λ e'. cc)
    | inr (found, e) ↦ elim (ℕ_discrete found id) [
      | no apart ↦ nothing (λ e'. apart (ground arith))
      | yes same ↦
          let e' : lookup dec hash k t ≡ some id = e ∙ ap some same in
          let (done, calls, valid', looked, shut, froze, seen, rest) =
            remove-current dec hash k id t valid e' in
          let test : (id == id) ≡ true = ground arith in
          let m = shard dec hash t k in
          (
            valid',
            rw (e', test, remove) hook,
            λ i.
                rw (e', test, remove)
                  (ground (
                    arith,
                    hook,
                    tally-set i t.shards (slot dec hash t k) (del dec k m)
                        (slot_in_range dec hash k t valid),
                    tally-del dec i k id m e',
                  )),
          )
    ]
  ]
    where
      nothing :
          lookup dec hash k t ≢ some id
          → let (t', done, calls) = remove dec hash k id t in Kept t (t', [], calls)
      nothing ne = rw (remove-stale dec hash k id t ne) (valid, hook, λ id. omega arith)

  close_table-Kept :
      (t : Table K V)
      → IsValid dec hash t
      → t.has_hook ≡ true
      → let (t', calls) = close_table t in Kept t (t', [], calls)
  unfolding close_table
  close_table-Kept t (s, mask, size, d) hook = (
    (s, mask, length-emptied t.shards ∙ size, λ i. rw (get_or-emptied t.shards i) tt),
    hook,
    λ id. rw hook (omega (arith, tally-emptied id t.shards)),
  )

  act-Kept :
      (c : Act K V) (t : Table K V) → IsValid dec hash t → t.has_hook ≡ true → Kept t (act c t)
  unfolding act
  act-Kept (opens k v) t valid hook = get_or_open-Kept k v t valid hook
  act-Kept (removes k id) t valid hook = remove-Kept k id t valid hook
  act-Kept (sweeps now) t valid hook = sweep-Kept now t valid hook
  act-Kept closes t valid hook = close_table-Kept t valid hook

  -- Over any run of calls on a valid table with an OnClose, each flow's entries are accounted for: those
  -- that were there and those made by GetOrOpen are those still there and those given to OnClose. So OnClose
  -- gets a flow once for each time that it was put in and left, whether by Remove, by Sweep or by Close.
  -- The table is still valid at the end.
  pub acts_balance :
      (cs : List (Act K V)) (t : Table K V)
      → IsValid dec hash t
      → t.has_hook ≡ true
      → let (t', made, gone) = acts cs t in
        IsValid dec hash t'
        × (t'.has_hook ≡ true)
        × ((id : ℕ)
            → tally id (entries t.shards) + tally id made
              ≡ tally id (entries t'.shards) + tally id gone)
  unfolding acts
  acts_balance [] t valid hook = (valid, hook, λ id. refl)
  acts_balance (c ∷ cs) t valid hook =
      let (t', made, gone) = act c t in
      let (valid', hook', sum) = act-Kept c t valid hook in
      let (t'', made', gone') = acts cs t' in
      let (valid'', hook'', sum') = acts_balance cs t' valid' hook' in
      (
        valid'',
        hook'',
        λ id.
            omega (arith, sum id, sum' id, tally-append id made made', tally-append id gone gone'),
      )
