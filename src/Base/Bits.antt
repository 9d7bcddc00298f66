-- ===== src/Base/Bits.antt =====
-- `x & (2 ^ k - 1)` is `x % 2 ^ k`, for every width.
use Prim.Native.Nat.{
  ℕ, zero, suc, ◌+◌, ◌-◌, ◌*◌, ◌/◌, ◌%◌, ◌^◌, ◌≤◌, ◌<◌, min, bit_and, digits, bit_and-bitwise,
}
use mathlib.Core.Path.{◌≡◌, sym, ap, ◌∙◌}
use native.Mathlib.Nat.{pow-suc, one-le-pow, div-add-mod, mod-lt}
use native.Mathlib.Omega.{arith}

abbrev pub low_mask : ℕ → ℕ
low_mask k = 2 ^ k - 1

-- The halves of a remainder, and of a mask.
split_remainder : (p a : ℕ) → 0 < p → a % (2 * p) ≡ (a / 2 % p) * 2 + a % 2
split_remainder p a h = grind (arith, div-add-mod (a / 2) p, mod-lt)

half_mask : (k : ℕ) → low_mask (suc k) / 2 ≡ low_mask k
half_mask k = omega (arith, pow-suc 2 k, one-le-pow k 2)

odd_mask : (k : ℕ) → low_mask (suc k) % 2 ≡ 1
odd_mask k = omega (arith, pow-suc 2 k, one-le-pow k 2)

-- The recursion that `bit_and` stands for, at a mask.
digits-mask : (k n a : ℕ) → a ≤ n → digits (λ _. 0) min n a (low_mask k) ≡ a % 2 ^ k
digits-mask k zero zero h = omega (arith, one-le-pow k 2)
digits-mask k (suc n) zero h = omega (arith, one-le-pow k 2)
digits-mask k zero (suc a) h = absurd (omega arith)
digits-mask zero (suc n) (suc a) h = omega (arith, digits-mask zero n (suc a / 2) (omega arith))
digits-mask (suc k) (suc n) (suc a) h =
    rw (half_mask k, odd_mask k, digits-mask k n (suc a / 2) (omega arith))
      (ap (λ d. suc a / 2 % 2 ^ k * 2 + d) (one_digit (suc a))
        ∙ sym (split_remainder (2 ^ k) (suc a) (one-le-pow k 2 (omega arith)))
        ∙ ap (λ m. suc a % m) (omega (arith, pow-suc 2 k)))
  where
    one_digit : (n : ℕ) → min (n % 2) 1 ≡ n % 2
    one_digit n = omega arith

pub bit_and-mask : (k a : ℕ) → bit_and a (low_mask k) ≡ a % 2 ^ k
bit_and-mask k a = bit_and-bitwise a (low_mask k) ∙ digits-mask k a a (omega arith)
