-- ===== src/Raising/Tests.antt =====
-- Two goroutines that raise a counter at the same time.
use go_netx.Base.{ℕ, ◌≡◌, refl, List, [], ◌∷◌, leb, ◌==◌}
use go_netx.Base.Int.{pos, leb_ℤ, eqb_ℤ}
use go_netx.Interleaving.{run, move}
use go_netx.Raising.{Raised, run-Raised, nat-IsOrder, start, max_step, advance_step, step}

-- Both load 3; the second swaps first, and the first tries again and finds 9.
abbrev racing : List (ℕ × ℕ)
racing = (1, 5) ∷ (2, 9) ∷ (2, 9) ∷ (1, 5) ∷ (1, 5) ∷ []

raced : (run max_step (start leb ◌==◌ 3) racing).shared.value ≡ 9
unfolding run move step
raced = refl

advanced : (run advance_step (start leb_ℤ eqb_ℤ (pos 3)) ((1, pos 2) ∷ [])).shared.value ≡ pos 3
unfolding run move step
advanced = refl

run-Raised_example : Raised leb ◌==◌ nat-IsOrder 3 (run max_step (start leb ◌==◌ 3) racing).shared
run-Raised_example = run-Raised leb ◌==◌ nat-IsOrder 3 racing
