-- ===== src/Queue/Refine.antt =====
-- Every method of a valid ring does what the bounded queue of its items does.
use go_netx.Base.{
  ℕ, ◌^◌, ◌≡◌, refl, ap, ◌≢◌, true, false, List, [], ◌∷◌, arith, if◌then◌else◌, ℕ_discrete,
  Bool-cases, inl, inr,
}
use go_netx.Queue.{Ring, store, pop_locked, push, pop, close, drain, stats_of}
use go_netx.Queue.Window.{length-window}
use go_netx.Queue.View.{
  view, pow_small, pop_locked-IsValid, pop_locked_contents, store-IsValid, store_contents,
  pop_all-Drains,
}
use go_netx.Queue.Spec.{
  Fifo, Op, pushes, pops, closes, drains, reads, Reply, answer, item, nothing, count, snapshot,
  Effect,
}
use go_netx.Queue.Spec
use go_netx.Queue.Valid.{IsValid}

module _ {ℓ} {A : Type ℓ} (zero_value : A) where
  -- A client's call.
  unfoldable pub step : Ring A → Op A → Effect (Ring A) A
  step r (pushes v) = let (r', ok, out) = push zero_value r v in (r', answer ok, out)
  step r pops = let (r', v, ok) = pop zero_value r in (r', (if ok then item v else nothing), [])
  step r closes = (close zero_value r, nothing, [])
  step r drains = let (r', lost, out) = drain zero_value r in (r', count lost, out)
  step r reads = (r, snapshot (stats_of r), [])

  unfoldable pub final : Ring A → List (Op A) → Ring A
  final r [] = r
  final r (op ∷ ops) = final (step r op).0 ops

  unfoldable pub run : Ring A → List (Op A) → List (Reply A × List A)
  run r [] = []
  run r (op ∷ ops) = let (r', reply, out) = step r op in (reply, out) ∷ run r' ops

module _ {ℓ} {A : Type ℓ} (zero_value : A) (k : ℕ) where
  -- A call keeps the ring valid, and does to its items what the queue does.
  abbrev pub Agrees : Ring A → Op A → Type ℓ
  Agrees r op =
      let (r', reply, out) = step zero_value r op in
      IsValid k r' × ((view zero_value k r', reply, out) ≡ Spec.step (view zero_value k r) op)

  push-room :
      (r : Ring A) (x : A) → IsValid k r → r.closed ≡ false → r.n ≢ 2 ^ k → Agrees r (pushes x)
  unfolding step push Spec.step store
  push-room r x v opened ne = ground (
    arith,
    store-IsValid zero_value k r x v ne,
    store_contents zero_value k r x v ne,
    length-window zero_value (2 ^ k) r.items r.head r.n,
  )

  push-full :
      (r : Ring A) (x : A) → IsValid k r → r.closed ≡ false → r.n ≡ 2 ^ k → Agrees r (pushes x)
  unfolding step push Spec.step store pop_locked
  push-full r x v opened e =
      let small = pow_small zero_value k v.small in
      let r' = (pop_locked zero_value r).0 in
      let v' = pop_locked-IsValid zero_value k r v (omega arith) in
      let room : r'.n ≢ 2 ^ k = omega arith in
      ground (
        arith,
        v',
        store-IsValid zero_value k r' x v' room,
        store_contents zero_value k r' x v' room,
        pop_locked_contents zero_value k r v (omega arith),
        length-window zero_value (2 ^ k) r.items r.head r.n,
      )

  push-closed : (r : Ring A) (x : A) → IsValid k r → r.closed ≡ true → Agrees r (pushes x)
  unfolding step push Spec.step
  push-closed r x v shut = ground arith

  pop-empty : (r : Ring A) → IsValid k r → r.n ≡ 0 → Agrees r pops
  unfolding step pop Spec.step
  pop-empty r v e = ground arith

  pub pop-some : (r : Ring A) → IsValid k r → r.n ≢ 0 → Agrees r pops
  unfolding step pop Spec.step pop_locked
  pop-some r v e =
      ground (arith, pop_locked-IsValid zero_value k r v e, pop_locked_contents zero_value k r v e)

  drain-all : (r : Ring A) → IsValid k r → Agrees r drains
  unfolding step drain Spec.step
  drain-all r v = ground (
    arith,
    pop_all-Drains zero_value k r.n r v (omega arith),
    length-window zero_value (2 ^ k) r.items r.head r.n,
  )

  close-Agrees : (r : Ring A) → IsValid k r → Agrees r closes
  unfolding step close Spec.step
  close-Agrees r v = ground arith

  reads-Agrees : (r : Ring A) → IsValid k r → Agrees r reads
  unfolding step stats_of Spec.step
  reads-Agrees r v = ground (arith, length-window zero_value (2 ^ k) r.items r.head r.n)

  pub step_refines : (r : Ring A) (op : Op A) → IsValid k r → Agrees r op
  step_refines r (pushes x) v = elim (Bool-cases r.closed) [
    | inl shut ↦ push-closed r x v shut
    | inr opened ↦ elim (ℕ_discrete r.n (2 ^ k)) [
      | yes e ↦ push-full r x v opened e
      | no ne ↦ push-room r x v opened ne
    ]
  ]
  step_refines r pops v = elim (ℕ_discrete r.n 0) [
    | yes e ↦ pop-empty r v e
    | no ne ↦ pop-some r v ne
  ]
  step_refines r closes v = close-Agrees r v
  step_refines r drains v = drain-all r v
  step_refines r reads v = reads-Agrees r v

  -- Whatever calls are made in whatever order, a valid ring gives the replies, and hands to OnDrop the
  -- items, of the bounded queue of the items that it holds.
  pub run_refines :
      (ops : List (Op A)) (r : Ring A)
      → IsValid k r
      → run zero_value r ops ≡ Spec.run (view zero_value k r) ops
  unfolding run Spec.run
  run_refines [] r v = refl
  run_refines (op ∷ ops) r v =
      let (v', same) = step_refines r op v in
      rw (run_refines ops (step zero_value r op).0 v', ← same)

  pub step-IsValid : (r : Ring A) (op : Op A) → IsValid k r → IsValid k (step zero_value r op).0
  step-IsValid r op v = (step_refines r op v).0

  -- The ring after some calls is the queue after the same calls.
  pub final_refines :
      (ops : List (Op A)) (r : Ring A)
      → IsValid k r
      → IsValid k (final zero_value r ops)
        × (view zero_value k (final zero_value r ops) ≡ Spec.final (view zero_value k r) ops)
  unfolding final Spec.final
  final_refines [] r v = (v, refl)
  final_refines (op ∷ ops) r v =
      let (v', same) = step_refines r op v in
      rw (ap (λ e. e.0) same) at (final_refines ops (step zero_value r op).0 v')
