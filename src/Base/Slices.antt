-- ===== src/Base/Slices.antt =====
-- Go's slices of a list and the copies into it.
use Prim.Native.Nat.{ℕ, zero, suc, ◌+◌, ◌-◌, ◌≤◌, min}
use mathlib.Core.Path.{◌≡◌, refl, ap}
use mathlib.Core.List.{List, [], ◌∷◌, ◌++◌}
use native.Mathlib.Omega.{arith}
use go_netx.Base.Lists.{length, take, drop, overwrite, slice}

module _ {ℓ} {A : Type ℓ} where
  pub length-overwrite :
      (xs : List A) (i : ℕ) (ys : List A) → length (overwrite xs i ys) ≡ length xs
  length-overwrite [] i ys = refl
  length-overwrite (x ∷ xs) zero [] = refl
  length-overwrite (x ∷ xs) zero (y ∷ ys) = ap suc (length-overwrite xs zero ys)
  length-overwrite (x ∷ xs) (suc i) ys = ap suc (length-overwrite xs i ys)

  pub length-slice : (xs : List A) (i j : ℕ) → i ≤ j → j ≤ length xs → length (slice i j xs) ≡ j - i
  length-slice xs i zero h k = omega arith
  length-slice [] i (suc j) h k = absurd (omega arith)
  length-slice (x ∷ xs) zero (suc j) h k = omega (arith, length-slice xs zero j)
  length-slice (x ∷ xs) (suc i) (suc j) h k = omega (arith, length-slice xs i j)

  pub slice_empty : (xs : List A) (i : ℕ) → slice i i xs ≡ []
  slice_empty xs zero = refl
  slice_empty [] (suc i) = refl
  slice_empty (x ∷ xs) (suc i) = slice_empty xs i

  pub slice-overwrite_front :
      (xs ys : List A) → length ys ≤ length xs → slice 0 (length ys) (overwrite xs 0 ys) ≡ ys
  slice-overwrite_front [] [] h = refl
  slice-overwrite_front (x ∷ xs) [] h = refl
  slice-overwrite_front [] (y ∷ ys) h = absurd (omega arith)
  slice-overwrite_front (x ∷ xs) (y ∷ ys) h = ap (◌∷◌ y) (slice-overwrite_front xs ys (omega arith))

  -- `copy` to the front, with the count that it returns.
  pub slice-copy :
      (xs ys : List A)
      → length ys ≤ length xs
      → slice 0 (min (length xs) (length ys)) (overwrite xs 0 ys) ≡ ys
  slice-copy xs ys h =
      let e : min (length xs) (length ys) ≡ length ys = omega arith in
      let front = slice-overwrite_front xs ys h in rw e front

  -- What is copied to the end of a window extends the window.
  pub slice-overwrite :
      (xs : List A) (i j : ℕ) (ys : List A)
      → i ≤ j
      → j + length ys ≤ length xs
      → slice i (j + length ys) (overwrite xs j ys) ≡ slice i j xs ++ ys
  slice-overwrite xs zero zero ys h k =
      let e : 0 + length ys ≡ length ys = omega arith in
      let front = slice-overwrite_front xs ys (omega arith) in rw e front
  slice-overwrite [] (suc i) zero ys h k = absurd (omega arith)
  slice-overwrite (x ∷ xs) (suc i) zero ys h k = absurd (omega arith)
  slice-overwrite [] i (suc j) ys h k = absurd (omega arith)
  slice-overwrite (x ∷ xs) zero (suc j) ys h k =
      let e : suc j + length ys ≡ suc (j + length ys) = omega arith in
      let rest = slice-overwrite xs zero j ys (omega arith) (omega arith) in rw e (ap (◌∷◌ x) rest)
  slice-overwrite (x ∷ xs) (suc i) (suc j) ys h k =
      let e : suc j + length ys ≡ suc (j + length ys) = omega arith in
      let rest = slice-overwrite xs i j ys (omega arith) (omega arith) in rw e (rest)

  -- The first part of a window, and the rest of it.
  pub slice-take :
      (xs : List A) (i j k : ℕ)
      → i + k ≤ j
      → j ≤ length xs
      → slice i (i + k) xs ≡ take k (slice i j xs)
  slice-take xs zero j zero h l = refl
  slice-take [] zero zero (suc k) h l = absurd (omega arith)
  slice-take [] zero (suc j) (suc k) h l = absurd (omega arith)
  slice-take (x ∷ xs) zero zero (suc k) h l = absurd (omega arith)
  slice-take (x ∷ xs) zero (suc j) (suc k) h l = ground (arith, slice-take xs zero j k)
  slice-take [] (suc i) j k h l = absurd (omega arith)
  slice-take (x ∷ xs) (suc i) zero k h l = absurd (omega arith)
  slice-take (x ∷ xs) (suc i) (suc j) k h l =
      let e : suc i + k ≡ suc (i + k) = omega arith in
      let rest = slice-take xs i j k (omega arith) (omega arith) in rw e rest

  pub slice-drop :
      (xs : List A) (i j k : ℕ)
      → i + k ≤ j
      → j ≤ length xs
      → slice (i + k) j xs ≡ drop k (slice i j xs)
  slice-drop xs zero j zero h l = refl
  slice-drop [] zero zero (suc k) h l = absurd (omega arith)
  slice-drop [] zero (suc j) (suc k) h l = absurd (omega arith)
  slice-drop (x ∷ xs) zero zero (suc k) h l = absurd (omega arith)
  slice-drop (x ∷ xs) zero (suc j) (suc k) h l = ground (arith, slice-drop xs zero j k)
  slice-drop [] (suc i) j k h l = absurd (omega arith)
  slice-drop (x ∷ xs) (suc i) zero k h l = absurd (omega arith)
  slice-drop (x ∷ xs) (suc i) (suc j) k h l =
      let e : suc i + k ≡ suc (i + k) = omega arith in
      let rest = slice-drop xs i j k (omega arith) (omega arith) in rw e rest

  pub overwrite_all : (xs ys : List A) → length xs ≡ length ys → overwrite xs 0 ys ≡ ys
  overwrite_all [] [] h = refl
  overwrite_all [] (y ∷ ys) h = absurd (omega arith)
  overwrite_all (x ∷ xs) [] h = absurd (omega arith)
  overwrite_all (x ∷ xs) (y ∷ ys) h = ap (◌∷◌ y) (overwrite_all xs ys (omega arith))
