-- ===== src/Queue/Wait/Pop.antt =====
-- PopWait, seen from the queue that the ring stands for.
use go_netx.Base.{
  ℕ, ◌≡◌, refl, sym, ap, ◌∙◌, ◌≢◌, true, false, ◌&&◌, List, [], ◌∷◌, ◌++◌, append_assoc, arith,
  ◌==◌, if◌then◌else◌, inl, inr, Bool-cases, ℕ_discrete,
}
use go_netx.Queue.{Ring, pop}
use go_netx.Queue.Spec.{Fifo, Op, pushes, pops, answer, item}
use go_netx.Queue.Spec
use go_netx.Queue.View.{view}
use go_netx.Queue.Refine.{step, final, pop-some, final_refines}
use go_netx.Queue.Valid.{IsValid}
use go_netx.Queue.Wait.{
  Turn, Wake, on_signal, on_done, on_ctx, WaitResult, ok, err_closed, err_ctx, waiting, pop_try,
  pop_select, pop_wait,
}

module _ {ℓ} {A : Type ℓ} where
  -- The calls of the others, in their order.
  abbrev pub pop_others : List (Turn A) → List (Op A)
  pop_others [] = []
  pop_others (t ∷ ts) = t.before ++ (t.others ++ pop_others ts)

module _ {ℓ} {A : Type ℓ} (zero_value : A) (k : ℕ) where
  -- How a PopWait ends: as a Pop, as no call on a queue that is closed and empty, or as no call.
  abbrev pub Pops : Fifo A → Ring A × WaitResult A → Type ℓ
  Pops q (r', ok v) = (view zero_value k r', item v, []) ≡ Spec.step q pops
  Pops q (r', err_closed) = (q.closed ≡ true) × (q.contents ≡ []) × (view zero_value k r' ≡ q)
  Pops q (r', err_ctx) = view zero_value k r' ≡ q
  Pops q (r', waiting) = view zero_value k r' ≡ q

  -- The call ends so after the first of the calls `all`.
  abbrev pub PopsFrom : Fifo A → List (Op A) → Ring A × WaitResult A → Type ℓ
  PopsFrom q all out =
      (ops : List (Op A)) × (rest : List (Op A)) × (all ≡ ops ++ rest) × Pops (Spec.final q ops) out

  pop-found :
      (r : Ring A)
      → IsValid k r
      → r.n ≢ 0
      → Pops (view zero_value k r) ((pop zero_value r).0, ok (pop zero_value r).1)
  unfolding step
  pop-found r valid some_left =
      rw (found r some_left) at (pop-some zero_value k r valid some_left).1
    where
      found : (r : Ring A) → r.n ≢ 0 → (pop zero_value r).2 ≡ true
      found r some_left = unfold pop in ground arith

  pop_try-PopsFrom :
      (r : Ring A) (all : List (Op A)) (none_left : Ring A × WaitResult A)
      → IsValid k r
      → PopsFrom (view zero_value k r) all none_left
      → PopsFrom (view zero_value k r) all (pop_try zero_value r none_left)
  unfolding Spec.final
  pop_try-PopsFrom r all none_left valid later = elim (ℕ_discrete r.n 0) [
    | yes none ↦ rw (empty_branch none) later
    | no some_left ↦ ([], all, refl, rw (found_branch some_left) (pop-found r valid some_left))
  ]
    where
      empty_branch : r.n ≡ 0 → pop_try zero_value r none_left ≡ none_left
      empty_branch none = unfold pop in ground arith

      found_branch :
          r.n ≢ 0 → pop_try zero_value r none_left ≡ ((pop zero_value r).0, ok (pop zero_value r).1)
      found_branch some_left = unfold pop in ground arith

  -- What follows the calls of others follows from the ring before them.
  pop_later :
      (r : Ring A) (others all : List (Op A)) (out : Ring A × WaitResult A)
      → IsValid k r
      → PopsFrom (view zero_value k (final zero_value r others)) all out
      → PopsFrom (view zero_value k r) (others ++ all) out
  pop_later r others all out valid (ops, rest, part, how) = (
    others ++ ops,
    rest,
    ap (λ l. others ++ l) part ∙ sym (append_assoc others ops rest),
    rw
        (
          Spec.final-append others ops (view zero_value k r),
          ← (final_refines zero_value k others r valid).1,
        )
        how,
  )

  pop_select-PopsFrom :
      (w : Wake) (r : Ring A) (all : List (Op A)) (again : Ring A → Ring A × WaitResult A)
      → IsValid k r
      → ((s : Ring A) → IsValid k s → PopsFrom (view zero_value k s) all (again s))
      → PopsFrom (view zero_value k r) all (pop_select zero_value w r again)
  unfolding Spec.final
  pop_select-PopsFrom on_signal r all again valid next = elim (Bool-cases r.not_empty) [
    | inl set ↦ rw (signalled set) (next (record r { not_empty = false }) (omega arith))
    | inr unset ↦ rw (unsignalled unset) ([], all, refl, refl)
  ]
    where
      signalled :
          r.not_empty ≡ true
          → pop_select zero_value on_signal r again ≡ again (record r { not_empty = false })
      signalled e = rw e

      unsignalled : r.not_empty ≡ false → pop_select zero_value on_signal r again ≡ (r, waiting)
      unsignalled e = ground arith
  pop_select-PopsFrom on_done r all again valid next = elim (Bool-cases r.done) [
    | inl shut ↦ rw (awake shut) (next r valid)
    | inr opened ↦ rw (asleep opened) ([], all, refl, refl)
  ]
    where
      awake : r.done ≡ true → pop_select zero_value on_done r again ≡ again r
      awake e = ground arith

      asleep : r.done ≡ false → pop_select zero_value on_done r again ≡ (r, waiting)
      asleep e = ground arith
  pop_select-PopsFrom on_ctx r all again valid next = ([], all, refl, refl)

  -- The check of PopWait, which sees a closed and empty queue or goes on to the select.
  check-PopsFrom :
      (r : Ring A) (others all : List (Op A)) (out : Ring A × WaitResult A)
      → IsValid k r
      → PopsFrom (view zero_value k (final zero_value r others)) all out
      → PopsFrom
          (view zero_value k r)
          (others ++ all)
          (if r.closed && r.n == 0 then (r, err_closed) else out)
  unfolding Spec.final
  check-PopsFrom r others all out valid later = elim (Bool-cases (r.closed && r.n == 0)) [
    | inl over ↦
        let none : r.n ≡ 0 = ground arith in
        let shut : r.closed ≡ true = ground arith in
        rw over ([], others ++ all, refl, (shut, rw none, refl))
    | inr on ↦ rw on (pop_later r others all out valid later)
  ]

  -- However the goroutines interleave, a PopWait is one atomic call after the first some of the others' calls: a Pop
  -- that finds an item, or ErrClosed seen on a queue that is closed and empty, or (cancelled, or still waiting) no
  -- call at all.
  pub pop_wait_atomic :
      (ts : List (Turn A)) (r : Ring A)
      → IsValid k r
      → PopsFrom (view zero_value k r) (pop_others ts) (pop_wait zero_value ts r)
  unfolding pop_wait Spec.final
  pop_wait_atomic [] r valid = pop_try-PopsFrom r [] (r, waiting) valid ([], [], refl, refl)
  pop_wait_atomic (t ∷ ts) r valid =
      let checked = final zero_value r t.before in
      let r' = final zero_value checked t.others in
      let again : Ring A → Ring A × WaitResult A = λ s. pop_wait zero_value ts s in
      let selected = pop_select zero_value t.wake r' again in
      let valid_checked = (final_refines zero_value k t.before r valid).0 in
      let valid' = (final_refines zero_value k t.others checked valid_checked).0 in
      let stopped : Ring A × WaitResult A =
        if checked.closed && checked.n == 0 then (checked, err_closed) else selected in
      pop_try-PopsFrom r (pop_others (t ∷ ts)) stopped valid (
        pop_later r t.before (t.others ++ pop_others ts) stopped valid (
          check-PopsFrom checked t.others (pop_others ts) selected valid_checked (
            pop_select-PopsFrom t.wake r' (pop_others ts) again valid'
              (λ s ok_s. pop_wait_atomic ts s ok_s))))
