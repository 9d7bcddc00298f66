-- ===== src/Flow/Seen.antt =====
-- The word Flow.seen: an int64 of nanoseconds, whose lowest bit is the frozen flag.
use go_netx.Base.{◌+◌, ◌-◌, ◌%◌, ◌≡◌, Bool, true, false, arith, ◌==◌}
use go_netx.Base.Int.{ℤ, pos, negsuc, ◌≤ℤ◌}

-- `v & frozen != 0`
abbrev pub is_frozen : ℤ → Bool
is_frozen (pos n) = n % 2 == 1
is_frozen (negsuc n) = n % 2 == 0

-- `v &^ frozen`
unfoldable pub thawed : ℤ → ℤ
thawed (pos n) = pos (n - n % 2)
thawed (negsuc n) = negsuc (n - n % 2 + 1)

-- `v | frozen`
unfoldable pub frozen : ℤ → ℤ
frozen (pos n) = pos (n - n % 2 + 1)
frozen (negsuc n) = negsuc (n - n % 2)

pub is_frozen-frozen : (v : ℤ) → is_frozen (frozen v) ≡ true
unfolding frozen
is_frozen-frozen (pos n) = ground arith
is_frozen-frozen (negsuc n) = ground arith

pub is_frozen-thawed : (v : ℤ) → is_frozen (thawed v) ≡ false
unfolding thawed
is_frozen-thawed (pos n) = ground arith
is_frozen-thawed (negsuc n) = ground arith

pub thawed-frozen : (v : ℤ) → thawed (frozen v) ≡ thawed v
unfolding thawed frozen
thawed-frozen (pos n) = ground arith
thawed-frozen (negsuc n) = ground arith

pub thawed-thawed : (v : ℤ) → thawed (thawed v) ≡ thawed v
unfolding thawed
thawed-thawed (pos n) = ground arith
thawed-thawed (negsuc n) = ground arith

pub frozen_same : (v : ℤ) → is_frozen v ≡ true → frozen v ≡ v
unfolding frozen
frozen_same (pos n) e = ground arith
frozen_same (negsuc n) e = ground arith

pub thawed_same : (v : ℤ) → is_frozen v ≡ false → thawed v ≡ v
unfolding thawed
thawed_same (pos n) e = ground arith
thawed_same (negsuc n) e = ground arith

-- The flag costs at most the last nanosecond, downwards.
pub thawed-le : (v : ℤ) → thawed v ≤ℤ v
unfolding thawed
thawed-le (pos n) = ground arith
thawed-le (negsuc n) = ground arith
