-- ===== src/Backoff/Tests.antt =====
-- The delays before the first retries.
use go_netx.Base.{◌≡◌, refl}
use go_netx.Base.Int.{pos, ◌+ℤ◌}
use go_netx.Backoff.{delay}

third_delay : delay 3 ≡ pos 20000000
unfolding delay ◌+ℤ◌
third_delay = refl
