-- ===== src/Queue/Valid.antt =====
-- The representation invariant of the ring.
use go_netx.Base.{ℕ, ◌-◌, ◌^◌, ◌≤◌, ◌<◌, ◌≡◌, length}
use go_netx.Queue.{Ring}

-- The backing slice has 2 ^ k slots.
pub record IsValid {ℓ} {A : Type ℓ} (k : ℕ) (r : Ring A) : Type 0 where
  pub slots : length r.items ≡ 2 ^ k
  pub masked : r.mask ≡ 2 ^ k - 1
  pub small : k ≤ 62
  pub head_in : r.head < 2 ^ k
  pub count_in : r.n ≤ 2 ^ k
