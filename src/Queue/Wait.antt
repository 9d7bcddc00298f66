-- ===== src/Queue/Wait.antt =====
-- PushWait and PopWait. A goroutine that waits tries, waits on its select, and tries again; between, the
-- other goroutines make any calls.
pub mod Push
pub mod Pop
use go_netx.Base.{
  ℕ, zero, suc, ◌+◌, ◌-◌, ◌%◌, ◌^◌, ◌≤◌, ◌<◌, ◌≡◌, refl, sym, ap, ◌∙◌, ◌≢◌, Bool, true, false, ◌&&◌,
  ◌||◌, List, [], ◌∷◌, ◌++◌, arith, length, ◌==◌, ltb, if◌then◌else◌, inl, inr, Bool-cases,
  ℕ_discrete, dec_lt,
}
use go_netx.Queue.{Ring, store, count_rejected, pop}
use go_netx.Queue.Spec.{Fifo, Op, pushes, pops, answer, item}
use go_netx.Queue.Spec
use go_netx.Queue.View.{view, store-IsValid, store_contents}
use go_netx.Queue.Window.{length-window}
use go_netx.Queue.Refine.{step, final, pop-some, step_refines, final_refines}
use go_netx.Queue.Valid.{IsValid}

-- The case of the select that fires.
pub data Wake : Type 0 where
  on_signal on_done on_ctx : Wake

-- A wait: the calls of others before the check of PopWait, those before the wake-up, and the wake-up.
pub record Turn {ℓ} (A : Type ℓ) : Type ℓ where
  pub before : List (Op A)
  pub others : List (Op A)
  pub wake : Wake

-- What the call returns, if it returns.
pub data WaitResult {ℓ} (A : Type ℓ) : Type ℓ where
  ok : A → WaitResult A
  err_closed : WaitResult A
  err_ctx : WaitResult A
  waiting : WaitResult A

module _ {ℓ} {A : Type ℓ} (zero_value : A) where
  -- The accepting branch of PushWait.
  unfoldable pub push_room : Ring A → A → Ring A
  push_room r v =
      let r' = store r v in record r' { not_full = r'.not_full || ltb r'.n (length r'.items) }

  -- One round of PushWait: its two branches that return, and what follows when the ring is full.
  abbrev pub push_try : Ring A → A → Ring A × WaitResult (Unit {0}) → Ring A × WaitResult (Unit {0})
  push_try r v full =
      if r.closed
      then (count_rejected r, err_closed)
      else if ltb r.n (length r.items)
      then (push_room r v, ok tt)
      else full

  -- The select of PushWait, and the next round. A case that cannot fire leaves it `waiting`.
  abbrev pub push_select :
      Wake → Ring A → (Ring A → Ring A × WaitResult (Unit {0})) → Ring A × WaitResult (Unit {0})
  push_select on_signal r again =
      if r.not_full then again (record r { not_full = false }) else (r, waiting)
  push_select on_done r again = if r.done then again r else (r, waiting)
  push_select on_ctx r again = (r, err_ctx)

  -- `waiting` when the turns are used up.
  unfoldable pub push_wait : List (Turn A) → Ring A → A → Ring A × WaitResult (Unit {0})
  unfolding push_room
  push_wait [] r v = push_try r v (r, waiting)
  push_wait (t ∷ ts) r v =
      push_try r v (push_select t.wake (final zero_value r t.others) (λ s. push_wait ts s v))

  -- One round of PopWait up to its check, and what follows when there is no item.
  abbrev pub pop_try : Ring A → Ring A × WaitResult A → Ring A × WaitResult A
  pop_try r none_left =
      let (r', v, found) = pop zero_value r in if found then (r', ok v) else none_left

  -- The check of PopWait after a failed Pop, its select, and the next round.
  abbrev pub pop_select : Wake → Ring A → (Ring A → Ring A × WaitResult A) → Ring A × WaitResult A
  pop_select on_signal r again =
      if r.not_empty then again (record r { not_empty = false }) else (r, waiting)
  pop_select on_done r again = if r.done then again r else (r, waiting)
  pop_select on_ctx r again = (r, err_ctx)

  unfoldable pub pop_wait : List (Turn A) → Ring A → Ring A × WaitResult A
  pop_wait [] r = pop_try r (r, waiting)
  pop_wait (t ∷ ts) r =
      let checked = final zero_value r t.before in
      pop_try r (
        if checked.closed && checked.n == 0
        then (checked, err_closed)
        else pop_select t.wake (final zero_value checked t.others) (pop_wait ts))
