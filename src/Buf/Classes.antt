-- ===== src/Buf/Classes.antt =====
-- The size classes: what Capacity promises of the powers of two.
use go_netx.Base.{
  ℕ, zero, suc, ◌+◌, ◌-◌, ◌*◌, ◌/◌, ◌^◌, ◌≤◌, ◌<◌, ◌≡◌, max, some, arith, dec_lt, dec_le,
  ℕ_discrete, ap, refl, ◌∙◌,
}
use native.Mathlib.Nat.{pow-suc, pow-le-pow_right}
use go_netx.Buf.{min_size, large, min_shift, bit_length, class_of, size_of, capacity}

-- A number of k binary digits is below 2 ^ k, and not below half of that.
pub bit_length_lem :
    (fuel n : ℕ)
    → n < 2 ^ fuel
    → (n < 2 ^ bit_length fuel n) × (2 ^ bit_length fuel n ≤ max 1 (2 * n))
unfolding bit_length
bit_length_lem zero n h = (omega arith, omega arith)
bit_length_lem (suc fuel) n h =
    let rest = bit_length_lem fuel (n / 2) (omega (arith, pow-suc 2 fuel)) in
    let p = pow-suc 2 (bit_length fuel (n / 2)) in
    elim (ℕ_discrete n 0) [ yes e ↦ ground arith | no ne ↦ ground (arith, p, rest.0, rest.1) ]

-- Powers of two are ordered as their exponents are.
pub exponent-lt : (i j : ℕ) → 2 ^ i < 2 ^ j → i < j
exponent-lt i j h = elim (dec_lt i j) [
  | yes l ↦ l
  | no g ↦
      absurd (omega (arith, pow-le-pow_right {n = 2} (omega arith) {i = j} {j = i} (omega arith)))
]

-- The digits that a size above the smallest class needs, and the class they name.
pub class_of-digits :
    (n : ℕ)
    → min_size < n
    → n ≤ large
    → let k = bit_length 64 (n - 1) in
      (class_of n ≡ some (k - min_shift))
      × (min_shift ≤ k)
      × (k ≤ 16)
      × (n ≤ 2 ^ k)
      × (2 ^ k < 2 * n)
unfolding class_of
class_of-digits n l h =
    let d = bit_length_lem 64 (n - 1) (omega arith) in
    let low = exponent-lt 6 (bit_length 64 (n - 1)) (omega (arith, d.0)) in
    let high = exponent-lt (bit_length 64 (n - 1)) 17 (omega (arith, d.1)) in
    (ground arith, omega (arith, low), omega (arith, high), omega (arith, d.0), omega (arith, d.1))

shifted-power : (m : ℕ) → min_size * 2 ^ m ≡ 2 ^ (m + min_shift)
shifted-power zero = refl
shifted-power (suc m) =
    omega (arith, shifted-power m, pow-suc 2 m, pow-suc 2 (m + min_shift), power_eq)
  where
    power_eq : 2 ^ (suc m + min_shift) ≡ 2 ^ suc (m + min_shift)
    power_eq = ap (λ i. 2 ^ i) (omega arith)

-- A power of two as a multiple of the smallest class.
pub size_of-power : (k : ℕ) → min_shift ≤ k → min_size * 2 ^ (k - min_shift) ≡ 2 ^ k
size_of-power k h = shifted-power (k - min_shift) ∙ ap (λ i. 2 ^ i) (omega arith)

capacity-small : (n : ℕ) → n ≤ min_size → capacity n ≡ min_size * 2 ^ 0
unfolding capacity class_of
capacity-small n h = ground arith

capacity-digits :
    (n : ℕ)
    → min_size < n
    → n ≤ large
    → let k = bit_length 64 (n - 1) in
      (capacity n ≡ min_size * 2 ^ (k - min_shift)) × (capacity n ≡ 2 ^ k)
unfolding capacity
capacity-digits n l h =
    let digits = class_of-digits n l h in
    let e = ap (λ c. size_of c n) digits.0 in
    (e, e ∙ size_of-power (bit_length 64 (n - 1)) digits.1)

-- Up to Large, Capacity gives the smallest of the sizes 64, 128, ..., 65536 that holds n: it is 64 * 2 ^ c with c at
-- most 10, it is not below n, it is below 2 * n where n is more than 64, and it is at most any 64 * 2 ^ d that holds n.
pub capacity-least :
    (n d : ℕ)
    → n ≤ large
    → n ≤ min_size * 2 ^ d
    → (c : ℕ) × (capacity n ≡ min_size * 2 ^ c)
      × (c ≤ 10)
      × (n ≤ capacity n)
      × (c ≤ d)
      × (capacity n < max 65 (2 * n))
capacity-least n d h l = elim (dec_le n min_size) [
  | yes e ↦
      let c = capacity-small n e in
      (0, c, omega arith, omega (arith, c), omega arith, omega (arith, c))
  | no g ↦
      let k = bit_length 64 (n - 1) in
      let digits = class_of-digits n (omega arith) h in
      let c = capacity-digits n (omega arith) h in
      let p = shifted-power (suc d) in
      let below = exponent-lt k (suc d + min_shift) (omega (arith, digits.4, p, pow-suc 2 d)) in
      (
        k - min_shift,
        c.0,
        omega (arith, digits.2),
        omega (arith, c.1, digits.3),
        omega (arith, below),
        omega (arith, c.1, digits.4),
      )
]

-- Above Large there is no class, and no rounding.
pub capacity-above : (n : ℕ) → large < n → capacity n ≡ n
unfolding capacity class_of
capacity-above n h = ground arith

-- Capacity holds what was asked for.
pub le-capacity : (n : ℕ) → n ≤ capacity n
le-capacity n = elim (dec_le n large) [
  | yes h ↦ (capacity-least n 10 h (omega arith)).3
  | no g ↦ omega (arith, capacity-above n)
]
