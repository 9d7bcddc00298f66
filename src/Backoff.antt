-- ===== src/Backoff.antt =====
-- internal/backoff/backoff.go: the delays between retries, in nanoseconds over int64.
mod Tests
use native.Mathlib.Nat.{pow-suc, one-le-pow}
use go_netx.Base.{
  ℕ, zero, suc, ◌+◌, ◌*◌, ◌^◌, ◌≤◌, ◌≡◌, refl, ap, ◌∙◌, min, max, arith, if◌then◌else◌,
}
use go_netx.Base.Int.{ℤ, pos, ◌+ℤ◌, leb_ℤ, wrap64}

abbrev min_delay : ℕ
min_delay = 5000000

abbrev max_delay : ℕ
max_delay = 1000000000

-- `min(max(d*2, Min), Max)`
unfoldable pub next : ℤ → ℤ
next d =
    let twice = wrap64 (d +ℤ d) in
    let raised = if leb_ℤ twice (pos min_delay) then pos min_delay else twice in
    if leb_ℤ raised (pos max_delay) then raised else pos max_delay

-- The delay before the n-th retry in a row; acceptLoop starts with 0.
unfoldable pub delay : ℕ → ℤ
unfolding next
delay zero = pos 0
delay (suc n) = next (delay n)

next_lem : (d : ℕ) → d ≤ max_delay → next (pos d) ≡ pos (min (max (2 * d) min_delay) max_delay)
unfolding next ◌+ℤ◌
next_lem d h = ground arith

-- The delays double from 5 ms and stay at one second once they have reached it.
pub delay_doubles : (n : ℕ) → delay (suc n) ≡ pos (min (5000000 * 2 ^ n) 1000000000)
unfolding delay
delay_doubles zero = next_lem 0 (omega arith)
delay_doubles (suc n) =
    ap next (delay_doubles n)
    ∙ next_lem (min (5000000 * 2 ^ n) 1000000000) (omega arith)
    ∙ ap pos (omega (arith, pow-suc 2 n, one-le-pow n 2 (omega arith)))
