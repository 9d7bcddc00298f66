-- ===== src/Sys/Control/Bytes.antt =====
-- Numbers as bytes, and reads of them.
use go_netx.Base.{
  ℕ, zero, suc, ◌+◌, ◌-◌, ◌/◌, ◌%◌, ◌^◌, ◌<◌, ◌≡◌, refl, ap, List, [], ◌∷◌, ◌++◌, length, take,
  drop, leb, arith, sym, leb, bit_and-mask, if-cases, length-append, returns,
}
use go_netx.Sys.{le_value, read_le, cmsg_align}
use native.Mathlib.Nat.{pow-suc}

-- A number in `n` bytes, the lowest first.
abbrev pub le_bytes : ℕ → ℕ → List ℕ
le_bytes zero v = []
le_bytes (suc n) v = v % 256 ∷ le_bytes n (v / 256)

pub length-le_bytes : (n v : ℕ) → length (le_bytes n v) ≡ n
length-le_bytes zero v = refl
length-le_bytes (suc n) v = ap suc (length-le_bytes n (v / 256))

pub le_value-le_bytes : (n v : ℕ) → v < 256 ^ n → le_value (le_bytes n v) ≡ v
le_value-le_bytes zero v h = omega arith
le_value-le_bytes (suc n) v h =
    omega (arith, le_value-le_bytes n (v / 256) (omega (arith, pow-suc 256 n)))

abbrev pub IsByte : ℕ → Type 0
IsByte b = b < 256

pub take-append : {A : Type 0} (xs ys : List A) → take (length xs) (xs ++ ys) ≡ xs
take-append [] ys = refl
take-append (x ∷ xs) ys = ap (◌∷◌ x) (take-append xs ys)

pub drop-append : {A : Type 0} (xs ys : List A) → drop (length xs) (xs ++ ys) ≡ ys
drop-append [] ys = refl
drop-append (x ∷ xs) ys = drop-append xs ys

-- A read that stays within the bytes.
pub read_le-here :
    (n i : ℕ) (xs ys zs : List ℕ)
    → length xs ≡ i
    → length ys ≡ n
    → read_le n i (xs ++ (ys ++ zs)) ≡ returns (le_value ys)
unfolding read_le
read_le-here n i xs ys zs hx hy =
    if-cases (λ o. o ≡ returns (le_value ys)) (leb (i + n) (length (xs ++ (ys ++ zs))))
      (λ h. ap (λ b. returns (le_value b)) here)
      (λ h. absurd (ground (arith, length-append xs (ys ++ zs), length-append ys zs)))
  where
    here : take n (drop i (xs ++ (ys ++ zs))) ≡ ys
    here = rw (sym hx, sym hy, drop-append xs (ys ++ zs)) (take-append ys zs)

pub cmsg_align-eq : (n : ℕ) → cmsg_align n ≡ n + 7 - (n + 7) % 8
unfolding cmsg_align
cmsg_align-eq n = omega (arith, bit_and-mask 3 (n + 8 - 1))
