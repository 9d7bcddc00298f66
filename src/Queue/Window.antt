-- ===== src/Queue/Window.antt =====
-- The items from a slot on, going round at the end of the backing slice.
use native.Mathlib.Nat.{add-zero, add-mod_right, mod-add-mod, mod-eq_of_lt, mod-eq-sub-mod}
use go_netx.Base.{
  ℕ, zero, suc, ◌+◌, ◌-◌, ◌%◌, ◌≤◌, ◌<◌, ◌≡◌, refl, sym, ap, ap₂, ◌∙◌, ◌≢◌, List, [], ◌∷◌, ◌++◌,
  arith, dec_lt, length, get_or, set, get_or-set_self, get_or-set_ne,
}

module _ {ℓ} {A : Type ℓ} (zero_value : A) (size : ℕ) where
  -- `count` items from slot `at` on
  abbrev pub window : List A → ℕ → ℕ → List A
  window xs at zero = []
  window xs at (suc count) = get_or xs at zero_value ∷ window xs ((at + 1) % size) count

  pub length-window : (xs : List A) (at count : ℕ) → length (window xs at count) ≡ count
  length-window xs at zero = refl
  length-window xs at (suc count) = ap suc (length-window xs ((at + 1) % size) count)

  pub window-uncons :
      (xs : List A) (at count : ℕ)
      → count ≢ 0
      → window xs at count ≡ get_or xs at zero_value ∷ window xs ((at + 1) % size) (count - 1)
  window-uncons xs at zero h = absurd (h refl)
  window-uncons xs at (suc count) h = ap (λ k. window xs at (suc k)) (omega arith)

-- A distance below the size does not come back to its start.
mod-ne_self : (size at d : ℕ) → at < size → 0 < d → d < size → (at + d) % size ≢ at
mod-ne_self size at d in_range moved short = elim (dec_lt (at + d) size) [
  | yes p ↦ omega (arith, mod-eq_of_lt p)
  | no p ↦ omega (
    arith,
    mod-eq-sub-mod {n = at + d} {m = size} (omega arith),
    mod-eq_of_lt {n = at + d - size} {m = size} (omega arith),
  )
]

-- One slot on, the distance to go is one less.
shift : (size at d : ℕ) → (at + suc d) % size ≡ ((at + 1) % size + d) % size
shift size at d = rw mod-add-mod (ap (λ k. k % size) (omega arith))

-- Going on from the next slot, the start is one short of a whole turn away.
pub mod-back : (size at : ℕ) → at < size → at ≡ ((at + 1) % size + (size - 1)) % size
mod-back size at h = sym (
    mod-add-mod (at + 1) size (size - 1)
    ∙ ap (λ k. k % size) turn
    ∙ add-mod_right at size
    ∙ mod-eq_of_lt h)
  where
    turn : at + 1 + (size - 1) ≡ at + size
    turn = omega arith

module _ {ℓ} {A : Type ℓ} (zero_value : A) (size : ℕ) where
  -- A write at `d` slots from the start does not show in a window of at most `d` items.
  pub window-set_past :
      (xs : List A) (v : A) (count at d j : ℕ)
      → at < size
      → count ≤ d
      → d < size
      → j ≡ (at + d) % size
      → window zero_value size (set xs j v) at count ≡ window zero_value size xs at count
  window-set_past xs v zero at d j in_range past short e = refl
  window-set_past xs v (suc count) at zero j in_range past short e = absurd (omega arith)
  window-set_past xs v (suc count) at (suc d) j in_range past short e =
      ap₂ ◌∷◌
        (get_or-set_ne xs v zero_value
          (rw e (mod-ne_self size at (suc d) in_range (omega arith) short)))
        (window-set_past xs v count ((at + 1) % size) d j (omega arith) (omega arith) (omega arith)
          (e ∙ shift size at d))

  -- A window's last item.
  pub window-snoc :
      (xs : List A) (count at : ℕ)
      → at < size
      → window zero_value size xs at (suc count)
        ≡ window zero_value size xs at count ++ get_or xs ((at + count) % size) zero_value ∷ []
  window-snoc xs zero at in_range =
      let e : (at + 0) % size ≡ at = rw add-zero (mod-eq_of_lt in_range) in rw e
  window-snoc xs (suc count) at in_range =
      rw (shift size at count)
        (ap (◌∷◌ (get_or xs at zero_value)) (window-snoc xs count ((at + 1) % size) (omega arith)))

  -- A write just past a window extends it.
  pub window-set_next :
      (xs : List A) (v : A) (count at j : ℕ)
      → at < size
      → count < size
      → size ≤ length xs
      → j ≡ (at + count) % size
      → window zero_value size (set xs j v) at (suc count)
        ≡ window zero_value size xs at count ++ v ∷ []
  window-set_next xs v count at j in_range room stored e = rw (
    window-snoc (set xs j v) count at in_range,
    ← e,
    window-set_past xs v count at count j in_range (omega arith) room e,
    get_or-set_self xs j v zero_value (omega arith),
  )
