-- ===== src/Queue/Order.antt =====
-- No item is lost, doubled or overtaken, and the counts of Stats add up.
use go_netx.Base.{
  ℕ, ◌+◌, ◌%◌, ◌^◌, ◌≤◌, ◌<◌, ◌≡◌, refl, sym, ap, true, List, [], ◌∷◌, ◌++◌, append-nil,
  append_assoc, ◌≡⟨◌⟩◌, ◌∎, arith, length, length-append, u64_mod,
}
use go_netx.Queue.{Ring}
use go_netx.Queue.Spec.{
  Fifo, Op, pushes, pops, closes, drains, reads, Reply, answer, item, nothing, count, snapshot,
}
use go_netx.Queue.Spec
use go_netx.Queue.Window.{length-window}
use go_netx.Queue.View.{view}
use go_netx.Queue.Refine.{step, final, step_refines, final_refines}
use go_netx.Queue.Valid.{IsValid}

module _ {ℓ} {A : Type ℓ} where
  -- The item that a call put in.
  abbrev pub gained : Op A → Reply A → List A
  gained (pushes v) (answer true) = v ∷ []
  gained op reply = []

  -- The items that a call took out, whether returned or handed to OnDrop.
  abbrev pub lost : Reply A → List A → List A
  lost (item v) out = v ∷ out
  lost reply out = out

  module _ (q : Fifo A) (hooked : q.has_hook ≡ true) where
    push_keeps_order :
        (v : A) (xs : List A)
        → q.contents ≡ xs
        → let (q', reply, out) = Spec.step q (pushes v) in
          (q.contents ++ gained (pushes v) reply ≡ lost reply out ++ q'.contents)
          × (q'.has_hook ≡ true)
    unfolding Spec.step
    push_keeps_order v [] e = ground (arith, append-nil q.contents)
    push_keeps_order v (x ∷ xs) e = ground (arith, append-nil q.contents)

    step_keeps_order :
        (op : Op A)
        → let (q', reply, out) = Spec.step q op in
          (q.contents ++ gained op reply ≡ lost reply out ++ q'.contents) × (q'.has_hook ≡ true)
    unfolding Spec.step
    step_keeps_order (pushes v) = push_keeps_order v q.contents refl
    step_keeps_order pops = ground (arith, append-nil q.contents)
    step_keeps_order closes = ground (arith, append-nil q.contents)
    step_keeps_order drains = ground (arith, append-nil q.contents)
    step_keeps_order reads = ground (arith, append-nil q.contents)

  -- The counts, modulo the width of a counter, and the bound.
  pub record Balanced (q : Fifo A) : Type ℓ where
    pub counts : q.stats.pushed ≡ (q.stats.popped + q.stats.dropped + length q.contents) % u64_mod
    pub bounded : length q.contents ≤ q.bound

  push-Balanced :
      (q : Fifo A) (v : A) (xs : List A)
      → q.contents ≡ xs
      → 0 < q.bound
      → Balanced q
      → Balanced (Spec.step q (pushes v)).0
  unfolding Spec.step
  push-Balanced q v [] e room b = ground arith
  push-Balanced q v (x ∷ xs) e room b =
      ground (arith, length-append xs (v ∷ []), length-append q.contents (v ∷ []))

  step-Balanced : (q : Fifo A) (op : Op A) → 0 < q.bound → Balanced q → Balanced (Spec.step q op).0
  unfolding Spec.step
  step-Balanced q (pushes v) room b = push-Balanced q v q.contents refl room b
  step-Balanced q pops room b = ground arith
  step-Balanced q closes room b = ground arith
  step-Balanced q drains room b = ground arith
  step-Balanced q reads room b = ground arith

  step-bound : (q : Fifo A) (op : Op A) → (Spec.step q op).0.bound ≡ q.bound
  unfolding Spec.step
  step-bound q (pushes v) = push-bound q v q.contents refl
    where
      push-bound :
          (q : Fifo A) (v : A) (xs : List A)
          → q.contents ≡ xs
          → (Spec.step q (pushes v)).0.bound ≡ q.bound
      push-bound q v [] e = ground arith
      push-bound q v (x ∷ xs) e = ground arith
  step-bound q pops = ground arith
  step-bound q closes = refl
  step-bound q drains = refl
  step-bound q reads = refl

  final-Balanced :
      (ops : List (Op A)) (q : Fifo A) → 0 < q.bound → Balanced q → Balanced (Spec.final q ops)
  unfolding Spec.final
  final-Balanced [] q room b = b
  final-Balanced (op ∷ ops) q room b =
      final-Balanced ops (Spec.step q op).0 (rw step-bound room) (step-Balanced q op room b)

module _ {ℓ} {A : Type ℓ} (zero_value : A) where
  -- What the accepted pushes of a run put in, in order.
  abbrev pub entered : Ring A → List (Op A) → List A
  entered r [] = []
  entered r (op ∷ ops) =
      let (r', reply, out) = step zero_value r op in gained op reply ++ entered r' ops

  -- What the calls of a run took out, in order.
  abbrev pub departed : Ring A → List (Op A) → List A
  departed r [] = []
  departed r (op ∷ ops) =
      let (r', reply, out) = step zero_value r op in lost reply out ++ departed r' ops

module _ {ℓ} {A : Type ℓ} (zero_value : A) (k : ℕ) where
  abbrev contents : Ring A → List A
  contents r = (view zero_value k r).contents

  -- One call of a ring, read off the queue that it stands for.
  ring_keeps_order :
      (r : Ring A) (op : Op A)
      → IsValid k r
      → r.has_hook ≡ true
      → let (r', reply, out) = step zero_value r op in
        (contents r ++ gained op reply ≡ lost reply out ++ contents r') × (r'.has_hook ≡ true)
  ring_keeps_order r op v hooked =
      ground
        (arith, step_refines zero_value k r op v, step_keeps_order (view zero_value k r) hooked op)

  -- With an OnDrop hook: in any run of calls, what was in the ring and then what the accepted pushes put
  -- in is, in this order, what the calls returned or handed to OnDrop and then what is left in the ring.
  pub fifo_order :
      (ops : List (Op A)) (r : Ring A)
      → IsValid k r
      → r.has_hook ≡ true
      → contents r ++ entered zero_value r ops
        ≡ departed zero_value r ops ++ contents (final zero_value r ops)
  unfolding final
  fifo_order [] r v hooked = append-nil (contents r)
  fifo_order (op ∷ ops) r v hooked =
      let (r', reply, out) = step zero_value r op in
      let (order, hooked') = ring_keeps_order r op v hooked in
      let ih = fifo_order ops r' (step_refines zero_value k r op v).0 hooked' in
      contents r ++ (gained op reply ++ entered zero_value r' ops)
      ≡⟨ sym (append_assoc (contents r) (gained op reply) (entered zero_value r' ops)) ⟩
        (contents r ++ gained op reply) ++ entered zero_value r' ops
      ≡⟨ ap (λ xs. xs ++ entered zero_value r' ops) order ⟩
        (lost reply out ++ contents r') ++ entered zero_value r' ops
      ≡⟨ append_assoc (lost reply out) (contents r') (entered zero_value r' ops) ⟩
        lost reply out ++ (contents r' ++ entered zero_value r' ops)
      ≡⟨ ap (◌++◌ (lost reply out)) ih ⟩
        lost reply out ++ (departed zero_value r' ops ++ contents (final zero_value r' ops))
      ≡⟨ sym (
          append_assoc (lost reply out) (departed zero_value r' ops)
            (contents (final zero_value r' ops))) ⟩
        (lost reply out ++ departed zero_value r' ops) ++ contents (final zero_value r' ops) ∎

  -- From a valid ring whose counts add up, in any run of calls: the items pushed are those popped, dropped
  -- and still there, modulo 2 ^ 64, and the ring never holds more than its 2 ^ k slots.
  pub counts_add_up :
      (ops : List (Op A)) (r : Ring A)
      → IsValid k r
      → Balanced (view zero_value k r)
      → let r' = final zero_value r ops in
        (r'.stats.pushed ≡ (r'.stats.popped + r'.stats.dropped + r'.n) % u64_mod) × (r'.n ≤ 2 ^ k)
  counts_add_up ops r v b =
      let r' = final zero_value r ops in
      let (v', same) = final_refines zero_value k ops r v in
      let room : 0 < 2 ^ k = omega (arith, v.head_in) in
      let b' : Balanced (view zero_value k r') =
        rw same (final-Balanced ops (view zero_value k r) room b) in
      omega (arith, b'.counts, b'.bounded, length-window zero_value (2 ^ k) r'.items r'.head r'.n)
