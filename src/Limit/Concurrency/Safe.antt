-- ===== src/Limit/Concurrency/Safe.antt =====
-- What a concurrency limiter guarantees to callers that run at the same time.
use go_netx.Base.{ℕ, ◌+◌, ◌≤◌, ◌<◌, ◌≡◌, refl, subst, ◌∙◌, List, arith}
use go_netx.Base.Int.{pos, negsuc, ◌+ℤ◌, ◌≤ℤ◌, ◌<ℤ◌, pos_part, IsInt64, neg_part_of_pos}
use go_netx.Interleaving.{System, run, events, total, AllAllowed, run-Inv, run-balance, run-none}
use go_netx.Limit.Concurrency.{
  Concurrency, Call, try_acquire, release, Pc, outside, trying, loaded, restoring, Event, acquired,
  released, panicked, step,
}

-- The counter is the number of permits that the callers hold, and within the maximum.
pub record Inv (c : Concurrency) : Type 0 where
  pub positive : pos 0 <ℤ c.max
  pub in_range : IsInt64 c.max
  pub exact : c.in_use ≡ pos c.held
  pub fits : c.held ≤ pos_part c.max

-- A goroutine that is past the check may count one more, and none is in Release's failing branch.
abbrev pub Ok : Concurrency → Pc → Type 0
Ok c outside = Unit {0}
Ok c trying = Unit {0}
Ok c (loaded n) = (pos 0 ≤ℤ n) × (pos_part n + 1 ≤ pos_part c.max)
Ok c restoring = ⊥

abbrev pub SameMax : Concurrency → Concurrency → Type 0
SameMax c c' = c'.max ≡ c.max

-- Nobody releases a permit while none is held.
abbrev pub Paired : Call → Pc → Concurrency → Type 0
Paired release outside c = 0 < c.held
Paired call p c = Unit {0}

step-Inv :
    (call : Call) (p : Pc) (c : Concurrency)
    → Inv c
    → Ok c p
    → Paired call p c
    → let (p', c', e) = step call p c in Inv c' × Ok c' p' × SameMax c c'
unfolding step ◌+ℤ◌
step-Inv try_acquire outside c inv ok paired = ground arith
step-Inv release outside c inv ok paired = ground arith
step-Inv call trying c inv ok paired = ground arith
step-Inv call (loaded (pos n)) c inv ok paired = ground arith
step-Inv call (loaded (negsuc n)) c inv ok paired = ground arith
step-Inv call restoring c inv ok paired = absurd ok

SameMax-trans : (s t u : Concurrency) → SameMax s t → SameMax t u → SameMax s u
SameMax-trans s t u p q = q ∙ p

stable : (c c' : Concurrency) (p : Pc) → SameMax c c' → Ok c p → Ok c' p
stable c c' outside e ok = tt
stable c c' trying e ok = tt
stable c c' (loaded n) e ok = rw e ok
stable c c' restoring e ok = ok

abbrev pub count_panics : Event → ℕ
count_panics panicked = 1
count_panics e = 0

-- A limiter at the start, with every goroutine outside.
abbrev pub start : Concurrency → System step
start c = record { shared = c; local = λ i. outside }

step-quiet :
    (call : Call) (p : Pc) (c : Concurrency)
    → Inv c
    → Ok c p
    → Paired call p c
    → let (p', c', e) = step call p c in count_panics e ≡ 0
unfolding step ◌+ℤ◌
step-quiet try_acquire outside c inv ok paired = ground arith
step-quiet release outside c inv ok paired = ground arith
step-quiet call trying c inv ok paired = ground arith
step-quiet call (loaded n) c inv ok paired = ground arith
step-quiet call restoring c inv ok paired = absurd ok

abbrev pub count_released : Event → ℕ
count_released released = 1
count_released e = 0

abbrev pub count_acquired : Event → ℕ
count_acquired acquired = 1
count_acquired e = 0

step-held :
    (call : Call) (p : Pc) (c : Concurrency)
    → Inv c
    → Ok c p
    → Paired call p c
    → let (p', c', e) = step call p c in c'.held + count_released e ≡ c.held + count_acquired e
unfolding step ◌+ℤ◌
step-held try_acquire outside c inv ok paired = ground arith
step-held release outside c inv ok paired = ground arith
step-held call trying c inv ok paired = ground arith
step-held call (loaded n) c inv ok paired = ground arith
step-held call restoring c inv ok paired = absurd ok

-- In any interleaving of the atomic steps of any number of goroutines, from a counter that is the number
-- of permits held: if Release is only called while a permit is held, then the counter stays the number of
-- permits held, which are those held before and acquired less those released, InUse is never above Max,
-- and no call panics.
pub never_above_max :
    (c : Concurrency) (ms : List (ℕ × Call))
    → Inv c
    → AllAllowed step Paired (start c) ms
    → let c' = (run step (start c) ms).shared in
      (c'.in_use ≡ pos c'.held)
      × (c'.held + total step count_released (events step (start c) ms)
          ≡ c.held + total step count_acquired (events step (start c) ms))
      × (c'.in_use ≤ℤ c.max)
      × (total step count_panics (events step (start c) ms) ≡ 0)
never_above_max c ms inv paired =
    let (inv', oks, same) =
      run-Inv step Paired Inv Ok SameMax step-Inv stable (λ s. refl) SameMax-trans ms (start c) inv
        (λ j. tt) paired in
    let quiet =
      run-none step Paired Inv Ok SameMax step-Inv stable (λ s. refl) SameMax-trans count_panics
        step-quiet ms (start c) inv (λ j. tt) paired in
    let balance =
      run-balance step Paired Inv Ok SameMax step-Inv stable (λ s. refl) SameMax-trans (λ s. s.held)
        count_acquired count_released step-held ms (start c) inv (λ j. tt) paired in
    (
      inv'.exact,
      balance,
      subst (λ m. (run step (start c) ms).shared.in_use ≤ℤ m) same
          (rw (inv'.exact) (omega (arith, inv'.fits, neg_part_of_pos _ inv'.positive))),
      quiet,
    )
