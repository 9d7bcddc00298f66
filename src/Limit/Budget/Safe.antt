-- ===== src/Limit/Budget/Safe.antt =====
-- What a budget guarantees to callers that run at the same time.
use go_netx.Base.{ℕ, ◌+◌, ◌-◌, ◌^◌, ◌≤◌, ◌<◌, ◌≡◌, refl, subst, ◌∙◌, List, returns, arith}
use go_netx.Base.Int.{ℤ, pos, negsuc, ◌+ℤ◌, ◌-ℤ◌, ◌≤ℤ◌, ◌<ℤ◌, pos_part, IsInt64, neg_part_of_pos}
use go_netx.Interleaving.{System, run, events, total, AllAllowed, run-Inv, run-none}
use go_netx.Limit.Budget.{
  Budget, new_budget, Call, reserve, release, Pc, outside, reserving, loaded, Event, granted,
  refused, panicked, step,
}

-- What is in use is what the callers hold, and it fits.
pub record Inv (b : Budget) : Type 0 where
  pub positive : pos 0 <ℤ b.max
  pub in_range : IsInt64 b.max
  pub exact : b.used ≡ pos b.held
  pub fits : b.held ≤ pos_part b.max

-- A goroutine that is past the check has a sum that fits.
abbrev pub Ok : Budget → Pc → Type 0
Ok b outside = Unit {0}
Ok b (reserving n) = (pos 0 ≤ℤ n) × IsInt64 n
Ok b (loaded n used) =
    (pos 0 ≤ℤ n) × (pos 0 ≤ℤ used) × (pos_part used + pos_part n ≤ pos_part b.max)

abbrev pub SameMax : Budget → Budget → Type 0
SameMax b b' = b'.max ≡ b.max

-- Amounts are int64, and nobody gives back what is not held.
abbrev pub Paired : Call → Pc → Budget → Type 0
Paired (reserve n) p b = IsInt64 n
Paired (release n) outside b = (pos 0 ≤ℤ n) × (pos_part n ≤ b.held)
Paired (release n) p b = Unit {0}

step-Inv :
    (c : Call) (p : Pc) (b : Budget)
    → Inv b
    → Ok b p
    → Paired c p b
    → let (p', b', e) = step c p b in Inv b' × Ok b' p' × SameMax b b'
unfolding step ◌+ℤ◌ ◌-ℤ◌
step-Inv (reserve (pos n)) outside b inv ok paired = ground arith
step-Inv (reserve (negsuc n)) outside b inv ok paired = ground arith
step-Inv (release (pos n)) outside b inv ok paired = ground arith
step-Inv (release (negsuc n)) outside b inv ok paired = ground arith
step-Inv c (reserving (pos n)) b inv ok paired = ground arith
step-Inv c (reserving (negsuc n)) b inv ok paired = ground arith
step-Inv c (loaded (pos n) (pos u)) b inv ok paired = ground arith
step-Inv c (loaded (negsuc n) u) b inv ok paired = ground arith
step-Inv c (loaded (pos n) (negsuc u)) b inv ok paired = ground arith

SameMax-trans : (s t u : Budget) → SameMax s t → SameMax t u → SameMax s u
SameMax-trans s t u p q = q ∙ p

stable : (b b' : Budget) (p : Pc) → SameMax b b' → Ok b p → Ok b' p
stable b b' outside e ok = tt
stable b b' (reserving n) e ok = ok
stable b b' (loaded n used) e ok = rw e ok

-- A budget at the start, with every goroutine outside.
abbrev pub start : Budget → System step
start b = record { shared = b; local = λ i. outside }

abbrev pub count_panics : Event → ℕ
count_panics panicked = 1
count_panics e = 0

step-quiet :
    (c : Call) (p : Pc) (b : Budget)
    → Inv b
    → Ok b p
    → Paired c p b
    → let (p', b', e) = step c p b in count_panics e ≡ 0
unfolding step ◌+ℤ◌ ◌-ℤ◌
step-quiet (reserve (pos n)) outside b inv ok paired = ground arith
step-quiet (reserve (negsuc n)) outside b inv ok paired = ground arith
step-quiet (release (pos n)) outside b inv ok paired = ground arith
step-quiet (release (negsuc n)) outside b inv ok paired = ground arith
step-quiet c (reserving n) b inv ok paired = ground arith
step-quiet c (loaded n used) b inv ok paired = ground arith

-- In any interleaving of the atomic steps of any number of goroutines, on a budget whose use is what the
-- callers hold: if no caller gives back more than is held, then the use is what the callers hold and is
-- never above the maximum, and no call panics.
pub never_over :
    (b : Budget) (ms : List (ℕ × Call))
    → Inv b
    → AllAllowed step Paired (start b) ms
    → let b' = (run step (start b) ms).shared in
      (b'.used ≡ pos b'.held)
      × (pos b'.held ≤ℤ b.max)
      × (total step count_panics (events step (start b) ms) ≡ 0)
never_over b ms inv paired =
    let (inv', oks, same) =
      run-Inv step Paired Inv Ok SameMax step-Inv stable (λ s. refl) SameMax-trans ms (start b) inv
        (λ j. tt) paired in
    let quiet =
      run-none step Paired Inv Ok SameMax step-Inv stable (λ s. refl) SameMax-trans count_panics
        step-quiet ms (start b) inv (λ j. tt) paired in
    (
      inv'.exact,
      subst (λ m. pos (run step (start b) ms).shared.held ≤ℤ m) same
          (omega (arith, inv'.fits, neg_part_of_pos _ inv'.positive)),
      omega (arith, quiet),
    )

-- NewBudget gives such a budget, with nothing held, for a positive maximum.
pub new_budget-Inv :
    (max : ℤ)
    → IsInt64 max
    → pos 0 <ℤ max
    → (b : Budget) × (new_budget max ≡ returns b) × Inv b × (b.max ≡ max) × (b.held ≡ 0)
unfolding new_budget
new_budget-Inv max ok h =
    (record { max = max; used = pos 0; held = 0 }, ground arith, begins, refl, refl)
  where
    begins : Inv (record { max = max; used = pos 0; held = 0 })
    begins = record { positive = h; in_range = ok; exact = refl; fits = omega arith }

-- The three steps of a Reserve that no other goroutine disturbs: the sign test, the check, the swap.
abbrev pub reserve_alone : Budget → ℤ → Budget × Event
reserve_alone b n =
    let (p, b1, e) = step (reserve n) outside b in
    let (p1, b2, e1) = step (reserve n) p b1 in
    let (p2, b3, e2) = step (reserve n) p1 b2 in (b3, e2)

-- Alone, a Reserve of 0 or more units that fit under the maximum is granted and takes them.
pub reserve_fits :
    (m h n : ℕ)
    → h + n ≤ m
    → m < 2 ^ 63
    → let b : Budget = record { max = pos m; used = pos h; held = h } in
      reserve_alone b (pos n) ≡ (record b { used = pos (h + n); held = h + n }, granted)
unfolding step ◌+ℤ◌ ◌-ℤ◌
reserve_fits m h n fits small = ground arith

-- Alone, a Reserve of units that do not fit is refused at its first check, and changes nothing.
pub reserve_over :
    (m h n : ℕ)
    → h ≤ m
    → m < h + n
    → m < 2 ^ 63
    → let b : Budget = record { max = pos m; used = pos h; held = h } in
      let (p, b', e) = step (reserve (pos n)) outside b in
      step (reserve (pos n)) p b' ≡ (outside, b, refused)
unfolding step ◌+ℤ◌ ◌-ℤ◌
reserve_over m h n fits over small = ground arith

-- Giving back `k` more than is in use panics, and leaves the use at `- k`: a Reserve of `k` more than the
-- maximum is then granted.
pub over_release :
    (m h k : ℕ)
    → 0 < k
    → h ≤ m
    → h + k < 2 ^ 63
    → m + k < 2 ^ 63
    → let b : Budget = record { max = pos m; used = pos h; held = h } in
      let b' : Budget = record b { used = negsuc (k - 1) } in
      (step (release (pos (h + k))) outside b ≡ (outside, b', panicked))
      × ((reserve_alone b' (pos (m + k))).1 ≡ granted)
unfolding step ◌+ℤ◌ ◌-ℤ◌
over_release m h k some_more used_fits small large = (ground arith, ground arith)
