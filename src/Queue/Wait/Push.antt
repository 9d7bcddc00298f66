-- ===== src/Queue/Wait/Push.antt =====
-- PushWait, seen from the queue that the ring stands for.
use go_netx.Base.{
  ℕ, ◌^◌, ◌<◌, ◌≡◌, refl, sym, ap, ◌∙◌, true, false, List, [], ◌∷◌, ◌++◌, append_assoc, arith,
  length, inl, inr, Bool-cases, dec_lt,
}
use go_netx.Queue.{Ring, store, count_rejected}
use go_netx.Queue.Spec.{Fifo, Op, pushes, pops, answer, item}
use go_netx.Queue.Spec
use go_netx.Queue.View.{view, store_contents}
use go_netx.Queue.Window.{length-window}
use go_netx.Queue.Refine.{final, final_refines}
use go_netx.Queue.Valid.{IsValid}
use go_netx.Queue.Wait.{
  Turn, Wake, on_signal, on_done, on_ctx, WaitResult, ok, err_closed, err_ctx, waiting, push_room,
  push_try, push_select, push_wait,
}

module _ {ℓ} {A : Type ℓ} where
  -- The calls of the others, in their order.
  abbrev pub push_others : List (Turn A) → List (Op A)
  push_others [] = []
  push_others (t ∷ ts) = t.others ++ push_others ts

module _ {ℓ} {A : Type ℓ} (zero_value : A) (k : ℕ) where
  -- How a PushWait ends, seen from the queue `q` that the calls of others lead to: as a Push that is
  -- accepted with room to spare, as one that is refused because the queue is closed, or as no call.
  abbrev pub Pushes : Fifo A → A → Ring A × WaitResult (Unit {0}) → Type ℓ
  Pushes q v (r', ok _) =
      (length q.contents < q.bound)
      × ((view zero_value k r', answer true, []) ≡ Spec.step q (pushes v))
  Pushes q v (r', err_closed) =
      (q.closed ≡ true) × ((view zero_value k r', answer false, []) ≡ Spec.step q (pushes v))
  Pushes q v (r', err_ctx) = view zero_value k r' ≡ q
  Pushes q v (r', waiting) = view zero_value k r' ≡ q

  -- The call ends so after the first of the calls `all`.
  abbrev pub PushesFrom : Fifo A → A → List (Op A) → Ring A × WaitResult (Unit {0}) → Type ℓ
  PushesFrom q v all out =
      (ops : List (Op A)) × (rest : List (Op A)) × (all ≡ ops ++ rest)
      × Pushes (Spec.final q ops) v out

  push_room-Pushes :
      (r : Ring A) (v : A)
      → IsValid k r
      → r.closed ≡ false
      → r.n < 2 ^ k
      → Pushes (view zero_value k r) v (push_room zero_value r v, ok tt)
  unfolding push_room store Spec.step
  push_room-Pushes r v valid opened room = ground (
    arith,
    store_contents zero_value k r v valid (omega arith),
    length-window zero_value (2 ^ k) r.items r.head r.n,
  )

  refused-Pushes :
      (r : Ring A) (v : A)
      → r.closed ≡ true
      → Pushes (view zero_value k r) v (count_rejected r, err_closed)
  unfolding Spec.step
  refused-Pushes r v shut = ground arith

  push_try-PushesFrom :
      (r : Ring A) (v : A) (all : List (Op A)) (full : Ring A × WaitResult (Unit {0}))
      → IsValid k r
      → PushesFrom (view zero_value k r) v all full
      → PushesFrom (view zero_value k r) v all (push_try zero_value r v full)
  unfolding Spec.final
  push_try-PushesFrom r v all full valid later = elim (Bool-cases r.closed) [
    | inl shut ↦ ([], all, refl, rw (closed_branch shut) (refused-Pushes r v shut))
    | inr opened ↦ elim (dec_lt r.n (2 ^ k)) [
      | yes room ↦
          ([], all, refl, rw (room_branch opened room) (push_room-Pushes r v valid opened room))
      | no none ↦ rw (full_branch opened none) later
    ]
  ]
    where
      closed_branch :
          r.closed ≡ true → push_try zero_value r v full ≡ (count_rejected r, err_closed)
      closed_branch shut = ground arith

      room_branch :
          r.closed ≡ false
          → r.n < 2 ^ k
          → push_try zero_value r v full ≡ (push_room zero_value r v, ok tt)
      room_branch opened room = ground arith

      full_branch : r.closed ≡ false → ¬ (r.n < 2 ^ k) → push_try zero_value r v full ≡ full
      full_branch opened none = ground arith

  -- What follows the calls of others follows from the ring before them.
  push_later :
      (r : Ring A) (v : A) (others all : List (Op A)) (out : Ring A × WaitResult (Unit {0}))
      → IsValid k r
      → PushesFrom (view zero_value k (final zero_value r others)) v all out
      → PushesFrom (view zero_value k r) v (others ++ all) out
  push_later r v others all out valid (ops, rest, part, how) = (
    others ++ ops,
    rest,
    ap (λ l. others ++ l) part ∙ sym (append_assoc others ops rest),
    rw
        (
          Spec.final-append others ops (view zero_value k r),
          ← (final_refines zero_value k others r valid).1,
        )
        how,
  )

  push_select-PushesFrom :
      (w : Wake) (r : Ring A) (v : A) (all : List (Op A))
      (again : Ring A → Ring A × WaitResult (Unit {0}))
      → IsValid k r
      → ((s : Ring A) → IsValid k s → PushesFrom (view zero_value k s) v all (again s))
      → PushesFrom (view zero_value k r) v all (push_select zero_value w r again)
  unfolding Spec.final
  push_select-PushesFrom on_signal r v all again valid next = elim (Bool-cases r.not_full) [
    | inl set ↦ rw (signalled set) (next (record r { not_full = false }) (omega arith))
    | inr unset ↦ rw (unsignalled unset) ([], all, refl, refl)
  ]
    where
      signalled :
          r.not_full ≡ true
          → push_select zero_value on_signal r again ≡ again (record r { not_full = false })
      signalled e = rw e

      unsignalled : r.not_full ≡ false → push_select zero_value on_signal r again ≡ (r, waiting)
      unsignalled e = ground arith
  push_select-PushesFrom on_done r v all again valid next = elim (Bool-cases r.done) [
    | inl shut ↦ rw (awake shut) (next r valid)
    | inr opened ↦ rw (asleep opened) ([], all, refl, refl)
  ]
    where
      awake : r.done ≡ true → push_select zero_value on_done r again ≡ again r
      awake e = ground arith

      asleep : r.done ≡ false → push_select zero_value on_done r again ≡ (r, waiting)
      asleep e = ground arith
  push_select-PushesFrom on_ctx r v all again valid next = ([], all, refl, refl)

  -- However the goroutines interleave, a PushWait is one atomic call after the first some of the others' calls: a
  -- Push that finds room in the open queue and evicts nothing, or a refusal by the closed queue, or (cancelled, or
  -- still waiting) no call at all.
  pub push_wait_atomic :
      (ts : List (Turn A)) (r : Ring A) (v : A)
      → IsValid k r
      → PushesFrom (view zero_value k r) v (push_others ts) (push_wait zero_value ts r v)
  unfolding push_wait Spec.final
  push_wait_atomic [] r v valid = push_try-PushesFrom r v [] (r, waiting) valid ([], [], refl, refl)
  push_wait_atomic (t ∷ ts) r v valid =
      let r' = final zero_value r t.others in
      let again : Ring A → Ring A × WaitResult (Unit {0}) = λ s. push_wait zero_value ts s v in
      let selected = push_select zero_value t.wake r' again in
      push_try-PushesFrom r v (t.others ++ push_others ts) selected valid (
        push_later r v t.others (push_others ts) selected valid (
          push_select-PushesFrom t.wake r' v (push_others ts) again
            (final_refines zero_value k t.others r valid).0
            (λ s valid'. push_wait_atomic ts s v valid')))
