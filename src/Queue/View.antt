-- ===== src/Queue/View.antt =====
-- What a valid ring holds, under the steps that the methods are made of.
use native.Mathlib.Nat.{pow-le-pow_right, one-le-pow}
use go_netx.Base.{
  ℕ, zero, suc, ◌+◌, ◌-◌, ◌%◌, ◌^◌, ◌≤◌, ◌<◌, ◌≡◌, refl, sym, ap, ◌∙◌, ◌≢◌, List, [], ◌∷◌, ◌++◌,
  arith, length-set, bit_and, bit_and-mask, inc64, dec64, ℕ_discrete,
}
use go_netx.Queue.{Ring, slot, store, pop_locked, pop_all}
use go_netx.Queue.Window.{window, window-uncons, window-set_past, window-set_next, mod-back}
use go_netx.Queue.Spec.{Fifo}
use go_netx.Queue.Valid.{IsValid}

module _ {ℓ} {A : Type ℓ} (zero_value : A) where
  -- The queue that a ring with 2 ^ k slots stands for.
  abbrev pub view : ℕ → Ring A → Fifo A
  view k r = record {
    contents = window zero_value (2 ^ k) r.items r.head r.n;
    bound = 2 ^ k;
    closed = r.closed;
    policy = r.policy;
    has_hook = r.has_hook;
    stats = r.stats;
  }

module _ {ℓ} {A : Type ℓ} (zero_value : A) (k : ℕ) where
  pub pow_small : k ≤ 62 → (2 ^ k ≤ 2 ^ 62) × (1 ≤ 2 ^ k)
  pow_small h = (pow-le-pow_right {n = 2} (omega arith) h, one-le-pow k 2 (omega arith))

  -- A masked index is the remainder, and no sum wraps.
  mask_lem :
      (r : Ring A) (i : ℕ) → IsValid k r → i < 2 ^ 64 → bit_and (i % 2 ^ 64) r.mask ≡ i % 2 ^ k
  mask_lem r i v small = let e : i % 2 ^ 64 ≡ i = omega arith in rw (e, v.masked) (bit_and-mask k i)

  pub slot_lem : (r : Ring A) → IsValid k r → slot r ≡ (r.head + r.n) % 2 ^ k
  slot_lem r v = mask_lem r (r.head + r.n) v (omega (arith, pow_small v.small))

  pub next_lem : (r : Ring A) → IsValid k r → bit_and (inc64 r.head) r.mask ≡ (r.head + 1) % 2 ^ k
  next_lem r v = mask_lem r (r.head + 1) v (omega (arith, pow_small v.small))

  pub pop_locked-IsValid :
      (r : Ring A) → IsValid k r → r.n ≢ 0 → IsValid k (pop_locked zero_value r).0
  unfolding pop_locked
  pop_locked-IsValid r v ne =
      ground (arith, pow_small v.small, next_lem r v, length-set r.items r.head zero_value)

  pub pop_locked_contents :
      (r : Ring A)
      → IsValid k r
      → r.n ≢ 0
      → (view zero_value k r).contents
        ≡ (pop_locked zero_value r).1 ∷ (view zero_value k (pop_locked zero_value r).0).contents
  unfolding pop_locked
  pop_locked_contents r v ne =
      let small = pow_small v.small in
      let fewer : dec64 r.n ≡ r.n - 1 = omega arith in
      rw
        (
          next_lem r v,
          fewer,
          window-set_past zero_value (2 ^ k) r.items zero_value (r.n - 1) ((r.head + 1) % 2 ^ k)
              (2 ^ k - 1) r.head (omega arith) (omega arith) (omega arith)
              (mod-back (2 ^ k) r.head v.head_in),
        )
        (window-uncons zero_value (2 ^ k) r.items r.head r.n ne)

  pub store-IsValid : (r : Ring A) (x : A) → IsValid k r → r.n ≢ 2 ^ k → IsValid k (store r x)
  unfolding store
  store-IsValid r x v ne = ground (arith, pow_small v.small, length-set r.items (slot r) x)

  pub store_contents :
      (r : Ring A) (x : A)
      → IsValid k r
      → r.n ≢ 2 ^ k
      → (view zero_value k (store r x)).contents ≡ (view zero_value k r).contents ++ x ∷ []
  unfolding store
  store_contents r x v ne =
      let small = pow_small v.small in
      let more : inc64 r.n ≡ suc r.n = omega arith in
      rw more (
        window-set_next zero_value (2 ^ k) r.items x r.n r.head (slot r) v.head_in (omega arith)
          (omega arith) (slot_lem r v))

  pop_all_stop : (fuel : ℕ) (r : Ring A) → r.n ≡ 0 → pop_all zero_value (suc fuel) r ≡ (r, [])
  unfolding pop_all
  pop_all_stop fuel r e = ground arith

  pop_all_go :
      (fuel : ℕ) (r : Ring A)
      → r.n ≢ 0
      → pop_all zero_value (suc fuel) r ≡ (
          let (r', rest) = pop_all zero_value fuel (pop_locked zero_value r).0 in
          (r', (pop_locked zero_value r).1 ∷ rest))
  unfolding pop_all
  pop_all_go fuel r ne = ground arith

  -- Everything is taken, in order, and nothing else that a client sees changes.
  abbrev pub Drains : Ring A → Ring A × List A → Type ℓ
  Drains r (r', xs) =
      IsValid k r'
      × (xs ≡ (view zero_value k r).contents)
      × (view zero_value k r' ≡ record (view zero_value k r) { contents = [] })

  pop_locked-view :
      (r : Ring A)
      → record (view zero_value k (pop_locked zero_value r).0) { contents = [] }
        ≡ record (view zero_value k r) { contents = [] }
  unfolding pop_locked
  pop_locked-view r = refl

  pub pop_all-Drains :
      (fuel : ℕ) (r : Ring A) → IsValid k r → r.n ≤ fuel → Drains r (pop_all zero_value fuel r)
  unfolding pop_all
  pop_all-Drains zero r v h = let e : r.n ≡ 0 = omega arith in (v, rw e, rw e)
  pop_all-Drains (suc fuel) r v h = elim (ℕ_discrete r.n 0) [
    | yes e ↦ rw (pop_all_stop fuel r e) (v, rw e, rw e)
    | no ne ↦
        let (v', same, left) =
          pop_all-Drains fuel (pop_locked zero_value r).0 (pop_locked-IsValid r v ne)
            (unfold pop_locked in omega arith) in
        rw (pop_all_go fuel r ne) (
          v',
          ap (◌∷◌ (pop_locked zero_value r).1) same ∙ sym (pop_locked_contents r v ne),
          left ∙ pop_locked-view r,
        )
  ]
