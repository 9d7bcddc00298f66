-- ===== src/Limit/Budget.antt =====
-- limit.Budget, each atomic operation of Reserve and Release a step of its own.
pub mod Safe
pub mod Alone
use go_netx.Base.{ℕ, ◌+◌, ◌-◌, Outcome, returns, panics, if◌then◌else◌}
use go_netx.Base.Int.{ℤ, pos, ◌+ℤ◌, ◌-ℤ◌, pos_part, ltb_ℤ, leb_ℤ, eqb_ℤ, wrap64}

-- `used` is the atomic counter. `held` is not in the code: what the callers hold of the budget.
pub record Budget : Type 0 where
  pub max : ℤ
  pub used : ℤ
  pub held : ℕ

unfoldable pub new_budget : ℤ → Outcome Budget
new_budget max =
    if leb_ℤ max (pos 0) then panics else returns (record { max = max; used = pos 0; held = 0 })

pub data Call : Type 0 where
  reserve release : ℤ → Call

-- Where a goroutine stands: outside, at the head of Reserve's loop, or with `used` loaded and checked.
pub data Pc : Type 0 where
  outside : Pc
  reserving : ℤ → Pc
  loaded : ℤ → ℤ → Pc

pub data Event : Type 0 where
  nothing granted refused freed panicked : Event

-- `b.used.CompareAndSwap(used, used+n)`
abbrev pub swap : Budget → ℤ → ℤ → Pc × Budget × Event
swap b used n =
    if eqb_ℤ b.used used
    then (outside, record b { used = wrap64 (used +ℤ n); held = b.held + pos_part n }, granted)
    else (reserving n, b, nothing)

-- `b.used.Add(-n) < 0`
abbrev pub give_back : Budget → ℤ → Pc × Budget × Event
give_back b n =
    let used = wrap64 (b.used -ℤ n) in
    if ltb_ℤ used (pos 0)
    then (outside, record b { used = used }, panicked)
    else (outside, record b { used = used; held = b.held - pos_part n }, freed)

-- A goroutine outside starts the call; any other goes on with its own.
unfoldable pub step : Call → Pc → Budget → Pc × Budget × Event
step (reserve n) outside b =
    if ltb_ℤ n (pos 0) then (outside, b, refused) else (reserving n, b, nothing)
step (release n) outside b = if ltb_ℤ n (pos 0) then (outside, b, panicked) else give_back b n
step c (reserving n) b =
    if ltb_ℤ (wrap64 (b.max -ℤ b.used)) n
    then (outside, b, refused)
    else (loaded n b.used, b, nothing)
step c (loaded n used) b = swap b used n
