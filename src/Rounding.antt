-- ===== src/Rounding.antt =====
-- `size := 1; for size < want { size <<= 1 }` of queue.New and flow.NewTable, over int64.
use native.Mathlib.Nat.{pow-suc, pow-le-pow_right}
use go_netx.Base.{
  ℕ, zero, suc, ◌+◌, ◌-◌, ◌*◌, ◌^◌, ◌≤◌, ◌<◌, ◌≡◌, refl, ap, ◌∙◌, true, Option, none, some, arith,
  dec_lt, if◌then◌else◌,
}
use go_netx.Base.Int.{ℤ, pos, negsuc, ◌+ℤ◌, ltb_ℤ, wrap64}

-- `size <<= 1`
pub double : ℤ → ℤ
double size = wrap64 (size +ℤ size)

unfoldable pub round_up : ℕ → ℤ → ℤ → Option ℤ
unfolding double
round_up zero size want = none
round_up (suc fuel) size want =
    let rest = round_up fuel (double size) want in if ltb_ℤ size want then rest else some size

double-pos : (n : ℕ) → n < 2 ^ 62 → double (pos n) ≡ pos (2 * n)
unfolding double ◌+ℤ◌
double-pos n h = ground arith

double-half : double (pos (2 ^ 62)) ≡ negsuc (2 ^ 63 - 1)
unfolding double ◌+ℤ◌
double-half = refl

double-least : double (negsuc (2 ^ 63 - 1)) ≡ pos 0
unfolding double ◌+ℤ◌
double-least = refl

double-zero : double (pos 0) ≡ pos 0
unfolding double ◌+ℤ◌
double-zero = refl

-- The least power of two that is not below `want`.
abbrev pub Rounds : ℕ → Option ℤ → Type 0
Rounds want r = (k : ℕ) × (r ≡ some (pos (2 ^ k))) × (want ≤ 2 ^ k) × (2 ^ k < 2 * want) × (k ≤ 62)

lt_of_pow-lt : (i : ℕ) → 2 ^ i < 2 ^ 62 → i < 62
lt_of_pow-lt i h = elim (dec_lt i 62) [
  | yes p ↦ p
  | no p ↦
      absurd (omega (arith, pow-le-pow_right {n = 2} (omega arith) {i = 62} {j = i} (omega arith)))
]

double-pow : (i : ℕ) → i < 62 → double (pos (2 ^ i)) ≡ pos (2 ^ suc i)
double-pow i h = double-pos (2 ^ i) (omega (arith, double_lt)) ∙ ap pos (omega (arith, pow-suc 2 i))
  where
    double_lt : 2 ^ suc i ≤ 2 ^ 62
    double_lt = pow-le-pow_right {n = 2} (omega arith) h

round_up_more :
    (fuel : ℕ) (size want : ℤ)
    → ltb_ℤ size want ≡ true
    → round_up (suc fuel) size want ≡ round_up fuel (double size) want
unfolding round_up
round_up_more fuel size want h = rw h

round_up-Rounds_from :
    (fuel i want : ℕ)
    → want ≤ 2 ^ 62
    → 63 ≤ fuel + i
    → i ≤ 62
    → 2 ^ i < 2 * want
    → Rounds want (round_up fuel (pos (2 ^ i)) (pos want))
round_up-Rounds_from zero i want small enough le above = absurd (omega arith)
round_up-Rounds_from (suc fuel) i want small enough le above = elim (dec_lt (2 ^ i) want) [
  | yes p ↦
      let room : i < 62 = lt_of_pow-lt i (omega arith) in
      rw (round_up_more fuel (pos (2 ^ i)) (pos want) (ground arith), double-pow i room)
        (round_up-Rounds_from fuel (suc i) want small (omega arith) room
          (omega (arith, pow-suc 2 i)))
  | no p ↦ (i, unfold round_up in ground arith, omega arith, omega arith, le)
]

-- The loop ends within 63 rounds for a request up to 2 ^ 62.
pub round_up-Rounds :
    (want : ℕ) → 0 < want → want ≤ 2 ^ 62 → Rounds want (round_up 63 (pos 1) (pos want))
round_up-Rounds want pos_want small =
    round_up-Rounds_from 63 0 want small (omega arith) (omega arith) (omega arith)

-- The states of the loop once the request is out of reach.
data Stuck : ℤ → Type 0 where
  power : (i : ℕ) → i ≤ 62 → Stuck (pos (2 ^ i))
  least : Stuck (negsuc (2 ^ 63 - 1))
  nought : Stuck (pos 0)

Stuck-double : {size : ℤ} → Stuck size → Stuck (double size)
Stuck-double (power i h) = elim (dec_lt i 62) [
  | yes p ↦ rw (double-pow i p) (power (suc i) p)
  | no p ↦ let e : i ≡ 62 = omega arith in rw (e, double-half) least
]
Stuck-double least = rw double-least nought
Stuck-double nought = rw double-zero nought

Stuck-lt : {size : ℤ} (want : ℕ) → 2 ^ 62 < want → Stuck size → ltb_ℤ size (pos want) ≡ true
Stuck-lt want h (power i le) =
    ground (arith, pow-le-pow_right {n = 2} (omega arith) {i = i} {j = 62} le)
Stuck-lt want h least = ground arith
Stuck-lt want h nought = ground arith

round_up-Stuck :
    (fuel want : ℕ) {size : ℤ} → 2 ^ 62 < want → Stuck size → round_up fuel size (pos want) ≡ none
unfolding round_up
round_up-Stuck zero want h s = refl
round_up-Stuck (suc fuel) want h s =
    rw (Stuck-lt want h s, round_up-Stuck fuel want h (Stuck-double s))

-- A request above 2 ^ 62 is never reached: the size wraps to zero and stays there.
pub round_up-none : (fuel want : ℕ) → 2 ^ 62 < want → round_up fuel (pos 1) (pos want) ≡ none
round_up-none fuel want h = round_up-Stuck fuel want h (power 0 (omega arith))
