-- ===== src/Buf/Tests.antt =====
-- A pool with a budget of a kilobyte.
use go_netx.Base.{
  ℕ, ◌*◌, ◌^◌, ◌≤◌, ◌<◌, ◌≡◌, refl, max, true, List, none, some, returns, arith, replicate,
}
use go_netx.Base.Int.{pos, ◌-ℤ◌}
use go_netx.Limit.Budget.{Budget}
use go_netx.Buf.{min_size, Buf, Pool, capacity, on_get, made, get, copy}
use go_netx.Buf.Classes.{capacity-least}

abbrev kilobyte : Budget
kilobyte = record { max = pos 1024; used = pos 512; held = 512 }

abbrev pool : Pool
pool = record { debug = true; budget = some kilobyte; outstanding = pos 3 }

abbrev zeros : ℕ → List ℕ
zeros n = replicate n 0

capacity-least_example :
    (c : ℕ) × (capacity 100 ≡ min_size * 2 ^ c)
    × (c ≤ 10)
    × (100 ≤ capacity 100)
    × (c ≤ 1)
    × (capacity 100 < max 65 (2 * 100))
capacity-least_example = capacity-least 100 1 (omega arith) (omega arith)

-- 600 bytes need a kilobyte, and half of it is in use.
no_room : get zeros (pos 600) pool ≡ returns (pool, none)
unfolding get capacity go_netx.Limit.Budget.Alone.reserve_units go_netx.Buf.class_of
    go_netx.Buf.bit_length ◌-ℤ◌
no_room = refl
