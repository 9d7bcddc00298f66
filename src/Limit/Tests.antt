-- ===== src/Limit/Tests.antt =====
-- Two goroutines at a budget and at a counter, a key with slots, and a pair of limiters.
use go_netx.Base.{
  ℕ, ◌+◌, ◌-◌, ◌≤◌, ◌<◌, ◌≡◌, refl, true, false, List, [], ◌∷◌, returns, panics, arith, ltb,
  if◌then◌else◌, ℕ_discrete, some,
}
use go_netx.Base.Assoc.{get}
use go_netx.Base.Int.{pos, negsuc, ◌+ℤ◌, ◌-ℤ◌, ◌≤ℤ◌}
use go_netx.Interleaving.{move, run, events, total}
use go_netx.Limit.Budget
use go_netx.Limit.Budget.{Budget, new_budget, reserve, reserving, outside}
use go_netx.Limit.Budget.Safe.{
  Inv, start, count_panics, never_over, new_budget-Inv, reserve_fits, reserve_over, reserve_alone,
  over_release,
}
use go_netx.Limit.Concurrency
use go_netx.Limit.Concurrency.{Concurrency, try_acquire}
use go_netx.Limit.Concurrency.Safe as Counter
use go_netx.Limit.Concurrency.Safe.{never_above_max}
use go_netx.Limit.PerKey as Keyed
use go_netx.Limit.PerKey.{PerKey, in_use, keys}
use go_netx.Limit.PerKey.Slots.{IsValid, release-unheld}
use go_netx.Limit.All.{Limiter, all, logged, admissions, releases, one_below, all_balance}

abbrev ten : Budget
ten = record { max = pos 10; used = pos 4; held = 4 }

ten-Inv : Inv ten
ten-Inv = record {
  positive = omega arith;
  in_range = (omega arith, omega arith);
  exact = refl;
  fits = omega arith;
}

-- Both load 4, the second swap fails, and its next check refuses.
abbrev both_reserve : List (ℕ × Budget.Call)
both_reserve =
    (1, reserve (pos 6))
    ∷ (2, reserve (pos 3))
    ∷ (1, reserve (pos 6))
    ∷ (2, reserve (pos 3))
    ∷ (1, reserve (pos 6))
    ∷ (2, reserve (pos 3))
    ∷ (2, reserve (pos 3))
    ∷ (1, Budget.release (pos 6))
    ∷ []

never_over_example :
    let b' = (run Budget.step (start ten) both_reserve).shared in
    (b'.used ≡ pos b'.held)
    × (pos b'.held ≤ℤ ten.max)
    × (total Budget.step count_panics (events Budget.step (start ten) both_reserve) ≡ 0)
unfolding move Budget.step ◌-ℤ◌ ◌+ℤ◌
never_over_example = never_over ten both_reserve ten-Inv (
  (omega arith, omega arith),
  (
    (omega arith, omega arith),
    (
      (omega arith, omega arith),
      (
        (omega arith, omega arith),
        (
          (omega arith, omega arith),
          (
            (omega arith, omega arith),
            ((omega arith, omega arith), ((omega arith, omega arith), tt)),
          ),
        ),
      ),
    ),
  ),
)

new_budget-Inv_example :
    (b : Budget) × (new_budget (pos 10) ≡ returns b) × Inv b × (b.max ≡ pos 10) × (b.held ≡ 0)
new_budget-Inv_example = new_budget-Inv (pos 10) (omega arith, omega arith) (omega arith)

reserve_fits_example :
    reserve_alone ten (pos 6) ≡ (record ten { used = pos 10; held = 10 }, Budget.granted)
reserve_fits_example = reserve_fits 10 4 6 (omega arith) (omega arith)

reserve_over_example :
    let (p, b', e) = Budget.step (reserve (pos 7)) outside ten in
    Budget.step (reserve (pos 7)) p b' ≡ (outside, ten, Budget.refused)
reserve_over_example = reserve_over 10 4 7 (omega arith) (omega arith) (omega arith)

over_release_example :
    let b' : Budget = record ten { used = negsuc 2 } in
    (Budget.step (Budget.release (pos 7)) outside ten ≡ (outside, b', Budget.panicked))
    × ((reserve_alone b' (pos 13)).1 ≡ Budget.granted)
over_release_example = over_release 10 4 3 (omega arith) (omega arith) (omega arith) (omega arith)

abbrev nearly : Concurrency
nearly = record { max = pos 3; in_use = pos 2; held = 2 }

nearly-Inv : Counter.Inv nearly
nearly-Inv = record {
  positive = omega arith;
  in_range = (omega arith, omega arith);
  exact = refl;
  fits = omega arith;
}

-- Both load 2, one of the swaps wins, the loser is refused, and a permit is released.
abbrev both_acquire : List (ℕ × Concurrency.Call)
both_acquire =
    (1, try_acquire)
    ∷ (2, try_acquire)
    ∷ (1, try_acquire)
    ∷ (2, try_acquire)
    ∷ (2, try_acquire)
    ∷ (1, Concurrency.release)
    ∷ []

never_above_max_example :
    let c' = (run Concurrency.step (Counter.start nearly) both_acquire).shared in
    (c'.in_use ≡ pos c'.held)
    × (c'.held
          + total Concurrency.step Counter.count_released
              (events Concurrency.step (Counter.start nearly) both_acquire)
        ≡ nearly.held
          + total Concurrency.step Counter.count_acquired
              (events Concurrency.step (Counter.start nearly) both_acquire))
    × (c'.in_use ≤ℤ nearly.max)
    × (total Concurrency.step Counter.count_panics
          (events Concurrency.step (Counter.start nearly) both_acquire)
        ≡ 0)
unfolding move Concurrency.step ◌+ℤ◌
never_above_max_example =
    never_above_max nearly both_acquire nearly-Inv (tt, (tt, (tt, (tt, (tt, (omega arith, tt))))))

abbrev slots : PerKey ℕ
slots = record { max = 2; n = (7, 2) ∷ (8, 1) ∷ [] }

slots-IsValid : IsValid ℕ_discrete slots
unfolding ℕ_discrete
slots-IsValid = record { distinct = (refl, (refl, tt)); counted = λ k n e. counts k n e }
  where
    counts : (k n : ℕ) → get ℕ_discrete k slots.n ≡ some n → (0 < n) × (n ≤ 2)
    counts k n e = ground arith

release-unheld_example : Keyed.release ℕ_discrete 9 slots ≡ panics
unfolding ℕ_discrete
release-unheld_example = release-unheld ℕ_discrete 9 slots slots-IsValid (unfold in_use in refl)

-- A counter to `max`, as a limiter on a shared number.
abbrev counter : ℕ → Limiter ℕ
counter max = record {
  try_acquire = λ s. if ltb s max then (s + 1, true) else (s, false);
  release = λ s. s - 1;
}

-- The first counter has room for one more, and the second has none.
abbrev pair : List (Limiter ℕ)
pair = counter 5 ∷ counter 4 ∷ []

all_balance_example :
    let a = all (logged 0 pair) in
    let (t, ok) = a.try_acquire (4, []) in
    let log = (if ok then a.release t else t).1 in
    ((t.0, ok) ≡ (all pair).try_acquire 4)
    × (admissions 0 t.1 ≡ releases 0 t.1 + (if ok then one_below 0 2 else 0))
    × (admissions 0 log ≡ releases 0 log)
unfolding all
all_balance_example = all_balance pair 4 0
