-- ===== src/Queue/Tests.antt =====
-- A ring of four slots, whose two items lie in the last slot and the first.
use go_netx.Base.{ℕ, ◌+◌, ◌^◌, ◌≡◌, refl, true, false, List, [], ◌∷◌, ◌++◌, runs_on, arith}
use go_netx.Base.Int.{pos}
use go_netx.Queue.{Ring, reject, drop_oldest, Stats, Options, new}
use go_netx.Queue.Valid.{IsValid}
use go_netx.Queue.Spec
use go_netx.Queue.Spec.{Op, pushes, pops, closes, drains, reads}
use go_netx.Queue.View.{view}
use go_netx.Queue.Refine.{run, final, run_refines}
use go_netx.Queue.Order.{entered, departed, Balanced, fifo_order}
use go_netx.Queue.Fresh.{new-unbounded}
use go_netx.Queue.Wait.{Turn, on_signal, on_done, push_wait, pop_wait}
use go_netx.Queue.Wait.Push.{PushesFrom, push_others, push_wait_atomic}
use go_netx.Queue.Wait.Pop.{PopsFrom, pop_others, pop_wait_atomic}

abbrev some_stats : Stats
some_stats = record { len = 0; pushed = 5; popped = 2; dropped = 1; rejected = 0 }

abbrev wrapped : Ring ℕ
wrapped = record {
  items = 9 ∷ 0 ∷ 0 ∷ 7 ∷ [];
  mask = 3;
  head = 3;
  n = 2;
  closed = false;
  policy = drop_oldest;
  has_hook = true;
  not_empty = true;
  not_full = false;
  done = false;
  stats = some_stats;
}

wrapped-IsValid : IsValid 2 wrapped
wrapped-IsValid = record {
  slots = refl;
  masked = refl;
  small = omega arith;
  head_in = omega arith;
  count_in = omega arith;
}

wrapped-Balanced : Balanced (view 0 2 wrapped)
wrapped-Balanced = record { counts = refl; bounded = omega arith }

abbrev some_calls : List (Op ℕ)
some_calls = pushes 1 ∷ pushes 2 ∷ pushes 3 ∷ pops ∷ reads ∷ drains ∷ closes ∷ pushes 4 ∷ []

abbrev some_options : Options
some_options = record { cap = pos 5; policy = reject; has_hook = false }

run_refines_example : run 0 wrapped some_calls ≡ Spec.run (view 0 2 wrapped) some_calls
run_refines_example = run_refines 0 2 some_calls wrapped wrapped-IsValid

fifo_order_example :
    (view 0 2 wrapped).contents ++ entered 0 wrapped some_calls
    ≡ departed 0 wrapped some_calls ++ (view 0 2 (final 0 wrapped some_calls)).contents
fifo_order_example = fifo_order 0 2 some_calls wrapped wrapped-IsValid refl

new-unbounded_example : new {A = ℕ} 0 63 (record some_options { cap = pos (2 ^ 62 + 1) }) ≡ runs_on
new-unbounded_example =
    new-unbounded 0 (record some_options { cap = pos (2 ^ 62 + 1) }) 63 (2 ^ 62 + 1) refl
      (omega arith)

-- The waiter finds the ring full, sleeps, and is woken once another goroutine has popped.
abbrev full : Ring ℕ
full = record wrapped { items = 9 ∷ 8 ∷ 6 ∷ 7 ∷ []; n = 4 }

full-IsValid : IsValid 2 full
full-IsValid = record {
  slots = refl;
  masked = refl;
  small = omega arith;
  head_in = omega arith;
  count_in = omega arith;
}

abbrev one_turn : List (Turn ℕ)
one_turn = record { before = []; others = pops ∷ []; wake = on_signal } ∷ []

push_wait_atomic_example :
    PushesFrom 0 2 (view 0 2 full) 5 (push_others one_turn) (push_wait 0 one_turn full 5)
push_wait_atomic_example = push_wait_atomic 0 2 one_turn full 5 full-IsValid

abbrev none_left : Ring ℕ
none_left = record wrapped { n = 0 }

none_left-IsValid : IsValid 2 none_left
none_left-IsValid = record {
  slots = refl;
  masked = refl;
  small = omega arith;
  head_in = omega arith;
  count_in = omega arith;
}

abbrev closing_turn : List (Turn ℕ)
closing_turn = record { before = []; others = pushes 3 ∷ closes ∷ []; wake = on_done } ∷ []

pop_wait_atomic_example :
    PopsFrom 0 2 (view 0 2 none_left) (pop_others closing_turn) (pop_wait 0 closing_turn none_left)
pop_wait_atomic_example = pop_wait_atomic 0 2 closing_turn none_left none_left-IsValid
