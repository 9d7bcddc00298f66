-- ===== src/Limit/Concurrency.antt =====
-- limit.Concurrency, each atomic operation of TryAcquire and Release a step of its own.
pub mod Safe
use go_netx.Base.{ℕ, ◌+◌, ◌-◌, Outcome, returns, panics, if◌then◌else◌}
use go_netx.Base.Int.{ℤ, pos, negsuc, ◌+ℤ◌, ltb_ℤ, leb_ℤ, eqb_ℤ, wrap64}

-- `in_use` is the atomic counter. `held` is not in the code: how many permits the callers hold.
pub record Concurrency : Type 0 where
  pub max : ℤ
  pub in_use : ℤ
  pub held : ℕ

unfoldable pub new_concurrency : ℤ → Outcome Concurrency
new_concurrency max =
    if leb_ℤ max (pos 0) then panics else returns (record { max = max; in_use = pos 0; held = 0 })

pub data Call : Type 0 where
  try_acquire release : Call

-- Where a goroutine stands: outside, in TryAcquire's loop with `n` loaded and checked, or in Release
-- between the two additions of its failing branch.
pub data Pc : Type 0 where
  outside trying : Pc
  loaded : ℤ → Pc
  restoring : Pc

pub data Event : Type 0 where
  nothing acquired refused released panicked : Event

-- `n := c.inUse.Load()` and the test after it.
abbrev pub load : Concurrency → Pc × Concurrency × Event
load c = if leb_ℤ c.max c.in_use then (outside, c, refused) else (loaded c.in_use, c, nothing)

-- `c.inUse.CompareAndSwap(n, n+1)`
abbrev pub swap : Concurrency → ℤ → Pc × Concurrency × Event
swap c n =
    if eqb_ℤ c.in_use n
    then (outside, record c { in_use = wrap64 (n +ℤ pos 1); held = c.held + 1 }, acquired)
    else (trying, c, nothing)

-- `c.inUse.Add(-1) < 0`
abbrev pub take_down : Concurrency → Pc × Concurrency × Event
take_down c =
    let n = wrap64 (c.in_use +ℤ negsuc 0) in
    if ltb_ℤ n (pos 0)
    then (restoring, record c { in_use = n }, nothing)
    else (outside, record c { in_use = n; held = c.held - 1 }, released)

-- A goroutine outside starts the call; any other goes on with its own.
unfoldable pub step : Call → Pc → Concurrency → Pc × Concurrency × Event
step try_acquire outside c = load c
step release outside c = take_down c
step call trying c = load c
step call (loaded n) c = swap c n
step call restoring c = (outside, record c { in_use = wrap64 (c.in_use +ℤ pos 1) }, panicked)
