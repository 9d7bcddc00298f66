-- ===== src/Flow/Tests.antt =====
-- A flow under two goroutines, and a table of two shards.
use go_netx.Base.{
  ℕ, zero, suc, ◌+◌, ◌≡◌, ◌⊎◌, refl, inl, true, false, List, [], ◌∷◌, some, returns, panics, All,
  length, get_or, ◌==◌, if◌then◌else◌, ℕ_discrete,
}
use go_netx.Base.Int.{pos, ◌-ℤ◌, wrap64}
use go_netx.Base.Assoc.{Distinct}
use go_netx.Interleaving.{move, run, events, total}
use go_netx.Flow.Seen.{frozen}
use go_netx.Flow.Life.{open_state, closed, Flow, Call, begin_close, close, touch, step}
use go_netx.Flow.Life.Race.{Onward, start, flow-Onward}
use go_netx.Flow.Life.Once.{closed_level, count_closed, closed_once}
use go_netx.Flow.Life.Frozen.{count_touched, touch_after_close}
use go_netx.Flow.Table.{Table, lookup, get_or_open, hooked, sweep, entries}
use go_netx.Flow.Table.Shards.{IsValid, get_or_open-found}
use go_netx.Flow.Table.Evict.{stale, evicted, surviving, sweep_lem}
use go_netx.Flow.Table.Ledger.{Act, opens, removes, sweeps, closes, acts, tally, acts_balance}

abbrev fresh_flow : Flow
fresh_flow = record { state = open_state; seen = pos 100 }

-- One goroutine closes the flow while another, which has loaded the word, touches it.
abbrev racing : List (ℕ × Call)
racing =
    (2, touch (pos 120))
    ∷ (1, close)
    ∷ (2, touch (pos 120))
    ∷ (1, close)
    ∷ (1, close)
    ∷ (2, touch (pos 120))
    ∷ (2, touch (pos 120))
    ∷ []

flow-Onward_example : Onward fresh_flow (run step (start fresh_flow) racing).shared
flow-Onward_example = flow-Onward fresh_flow racing

closed_once_example :
    closed_level (run step (start fresh_flow) racing).shared
    ≡ closed_level fresh_flow + total step count_closed (events step (start fresh_flow) racing)
closed_once_example = closed_once fresh_flow racing

abbrev about_to_freeze : List (ℕ × Call)
about_to_freeze = (2, touch (pos 120)) ∷ (1, begin_close) ∷ (2, touch (pos 120)) ∷ []

touch_after_close_example :
    let sys = run step (start fresh_flow) about_to_freeze in
    let sys' = move step sys (1, begin_close) in
    ((run step sys' ((2, touch (pos 120)) ∷ [])).shared.seen ≡ frozen sys.shared.seen)
    × (total step count_touched (events step sys' ((2, touch (pos 120)) ∷ [])) ≡ 0)
unfolding run move step
touch_after_close_example =
    touch_after_close fresh_flow about_to_freeze ((2, touch (pos 120)) ∷ []) 1 begin_close
      (inl refl)

-- Keys 4 and 7, in the shards 0 and 1; the flow of key 7 is idle.
abbrev two_flows : Table ℕ ℕ
two_flows = record {
  shards = ((4, 1) ∷ []) ∷ ((7, 2) ∷ []) ∷ [];
  mask = 1;
  idle = pos 30;
  has_hook = true;
  now = pos 200;
  last_id = 2;
  flows = λ id. record { state = open_state; seen = if id == 1 then pos 190 else pos 100 };
  value = λ id. id;
}

abbrev hash : ℕ → ℕ
hash k = k

two_flows-IsValid : IsValid ℕ_discrete hash two_flows
two_flows-IsValid = (1, refl, refl, each)
  where
    each : (i : ℕ) → Distinct ℕ_discrete (get_or two_flows.shards i [])
    each zero = (refl, tt)
    each (suc zero) = (refl, tt)
    each (suc (suc i)) = tt

get_or_open-found_example :
    get_or_open ℕ_discrete hash 0 4 (some panics) two_flows ≡ (two_flows, returns (1, false))
unfolding lookup ℕ_discrete
get_or_open-found_example = get_or_open-found ℕ_discrete hash 0 4 (some panics) two_flows 1 refl

sweep_lem_example :
    let cutoff = wrap64 (pos 210 -ℤ pos 30) in
    let (t', n, calls) = sweep (pos 210) two_flows in
    let idle = evicted cutoff two_flows.flows (entries two_flows.shards) in
    IsValid ℕ_discrete hash t'
    × ((k : ℕ)
        → lookup ℕ_discrete hash k t'
          ≡ surviving cutoff two_flows.flows (lookup ℕ_discrete hash k two_flows))
    × (n ≡ length idle)
    × (calls ≡ hooked two_flows idle)
    × All (λ e. (t'.flows e.1).state ≡ closed) idle
    × ((i : ℕ) → (stale cutoff (two_flows.flows i) ≡ true) ⊎ (t'.flows i ≡ two_flows.flows i))
sweep_lem_example = sweep_lem ℕ_discrete hash (pos 210) two_flows two_flows-IsValid refl

abbrev busy : List (Act ℕ ℕ)
busy = opens 6 9 ∷ opens 6 8 ∷ removes 7 1 ∷ removes 4 1 ∷ sweeps (pos 210) ∷ closes ∷ []

acts_balance_example :
    let (t', made, gone) = acts ℕ_discrete hash 0 busy two_flows in
    IsValid ℕ_discrete hash t'
    × (t'.has_hook ≡ true)
    × ((id : ℕ)
        → tally id (entries two_flows.shards) + tally id made
          ≡ tally id (entries t'.shards) + tally id gone)
acts_balance_example = acts_balance ℕ_discrete hash 0 busy two_flows two_flows-IsValid refl
