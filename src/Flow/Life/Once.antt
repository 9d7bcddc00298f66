-- ===== src/Flow/Life/Once.antt =====
-- One Close wins.
use go_netx.Base.{ℕ, ◌+◌, ◌≡◌, true, List, arith, if◌then◌else◌}
use go_netx.Interleaving.{run, events, total, total-none, run-balance}
use go_netx.Flow.Life.{
  open_state, closing, closed, Flow, Call, begin_close, close, freeze, touch, expire, Pc, outside,
  freezing, closing_loop, close_loaded, touch_loop, touch_loaded, expire_loaded, Event, closed_by,
  is_closed, step,
}
use go_netx.Flow.Life.Race.{
  Ok, Onward, Onward-refl, Onward-trans, stable, Free, step-Keeps, free, start,
}

abbrev pub count_closed : Event → ℕ
count_closed (closed_by true) = 1
count_closed e = 0

abbrev pub closed_level : Flow → ℕ
closed_level f = if is_closed f.state then 1 else 0

step-closed :
    (c : Call) (p : Pc) (f : Flow)
    → Unit {0}
    → Ok f p
    → Free c p f
    → let (p', f', e) = step c p f in closed_level f' + 0 ≡ closed_level f + count_closed e
unfolding step
step-closed begin_close outside f _ ok _ = ground arith
step-closed close outside f _ ok _ = ground arith
step-closed freeze outside f _ ok _ = ground arith
step-closed (touch now) outside f _ ok _ = ground arith
step-closed (expire cutoff) outside f _ ok _ = ground arith
step-closed c freezing f _ ok _ = ground arith
step-closed c closing_loop f _ ok _ = ground arith
step-closed c (close_loaded open_state) f _ ok _ = ground arith
step-closed c (close_loaded closing) f _ ok _ = ground arith
step-closed c (close_loaded closed) f _ ok _ = cc
step-closed c (touch_loop now) f _ ok _ = ground arith
step-closed c (touch_loaded now v) f _ ok _ = ground arith
step-closed c (expire_loaded cutoff v) f _ ok _ = ground arith

-- Over any interleaving, the number of calls of Close that answer true is one if the flow went from not
-- Closed to Closed, and none if it did not.
pub closed_once :
    (f : Flow) (ms : List (ℕ × Call))
    → closed_level (run step (start f) ms).shared
      ≡ closed_level f + total step count_closed (events step (start f) ms)
closed_once f ms =
    let balance =
      run-balance step Free (λ _. Unit {0}) Ok Onward step-Keeps stable Onward-refl Onward-trans
        closed_level count_closed (λ _. 0) step-closed ms (start f) tt (λ j. tt)
        (free ms (start f)) in
    omega (arith, balance, total-none step (events step (start f) ms))
