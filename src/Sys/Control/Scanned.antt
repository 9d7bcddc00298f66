-- ===== src/Sys/Control/Scanned.antt =====
-- DropCount over any bytes.
use go_netx.Base.{
  ℕ, zero, suc, ◌+◌, ◌*◌, ◌/◌, ◌≤◌, ◌<◌, ◌≡◌, refl, ap, ◌∙◌, List, length, take, drop, leb, ltb,
  arith, Outcome, Ends, Ends-and_then, Ends-if, returns, Option, none, some, length-drop, and_then,
  leb→le, ◌==◌, ◌&&◌, ◌||◌, ltb-false, [], ◌∷◌, subst, sym, false,
}
use go_netx.Base.Int.{ℤ, pos, negsuc, pos_part, ltb_ℤ, of_word}
use go_netx.Sys.{
  Header, Turn, no_count, counted, goes_on, hdr, sol_socket, so_rxq_ovfl, read_le, read_header,
  look_at, le_value, slice_from, skip, scan, drop_count, cmsg_align,
}
use go_netx.Sys.Control.Bytes.{cmsg_align-eq}

-- The four bytes at some place that is a multiple of eight, within the data.
pub record IsRead (oob : List ℕ) (v : ℕ) : Type 0 where
  pub at : ℕ
  pub inside : 8 * at + 4 ≤ length oob
  pub is : v ≡ le_value (take 4 (drop (8 * at) oob))

abbrev pub Reads : List ℕ → Option ℕ → Type 0
Reads oob none = Unit
Reads oob (some v) = IsRead oob v

-- What a turn leaves is the data from a multiple of eight on, and is shorter by a header at least.
abbrev pub IsTurn : List ℕ → Turn → Type 0
IsTurn oob no_count = Unit
IsTurn oob (counted v) = IsRead oob v
IsTurn oob (goes_on rest) = (k : ℕ) × (8 * k ≤ length oob) × (2 ≤ k) × (rest ≡ drop (8 * k) oob)

pub read_le-inside :
    (n i : ℕ) (b : List ℕ)
    → i + n ≤ length b
    → Ends (λ v. v ≡ le_value (take n (drop i b))) (read_le n i b)
unfolding read_le
read_le-inside n i b h =
    Ends-if (λ v. v ≡ le_value (take n (drop i b))) (leb (i + n) (length b))
      (λ e. (le_value (take n (drop i b)), refl, refl)) (λ e. absurd (ground arith))

-- Nothing is said of the header but that it can be read.
header-inside : (oob : List ℕ) → hdr ≤ length oob → Ends (λ h. Unit {0}) (read_header oob)
unfolding read_header
header-inside oob h =
    Ends-and_then _ (λ x. Unit {0}) _ _ (read_le-inside 8 0 oob (omega arith))
      (λ len _.
        Ends-and_then _ (λ x. Unit {0}) _ _ (read_le-inside 4 8 oob (omega arith))
          (λ level _.
            Ends-and_then _ (λ x. Unit {0}) _ _ (read_le-inside 4 12 oob (omega arith))
              (λ kind _. (_, refl, tt))))

skip-IsTurn : (l : ℕ) (oob : List ℕ) → hdr ≤ l → Ends (IsTurn oob) (skip (cmsg_align l) oob)
skip-IsTurn l oob h =
    Ends-if (IsTurn oob) (ltb (length oob) (cmsg_align l)) (λ _. (no_count, refl, tt))
      (λ e.
        let inside : cmsg_align l ≤ length oob =
          omega (arith, ltb-false (length oob) (cmsg_align l) e) in
        Ends-and_then (λ rest. rest ≡ drop (cmsg_align l) oob) (IsTurn oob)
          (slice_from (cmsg_align l) oob) _
          (Ends-if (λ rest. rest ≡ drop (cmsg_align l) oob) (leb (cmsg_align l) (length oob))
            (λ _. (drop (cmsg_align l) oob, refl, refl)) (λ k. absurd (ground (arith, inside))))
          (λ rest is. (
            goes_on rest,
            refl,
            ((l + 7) / 8, omega (arith, eq, inside), omega arith, is ∙ ap (λ n. drop n oob) eq),
          )))
  where
    eq : cmsg_align l ≡ 8 * ((l + 7) / 8)
    eq = omega (arith, cmsg_align-eq l)

look_at-IsTurn : (h : Header) (oob : List ℕ) → hdr ≤ length oob → Ends (IsTurn oob) (look_at h oob)
unfolding look_at
look_at-IsTurn h oob enough =
    Ends-if (IsTurn oob) (ltb_ℤ l (pos hdr) || ltb_ℤ (pos (length oob)) l) (λ _. (_, refl, tt))
      (λ fits.
        Ends-if (IsTurn oob)
          ((h.level == sol_socket && h.kind == so_rxq_ovfl) && leb (hdr + 4) (pos_part l))
          (λ is.
            Ends-and_then _ (IsTurn oob) _ _ (read_le-inside 4 hdr oob (ground arith))
              (λ v e. (counted v, refl, record { at = 2; inside = ground arith; is = e })))
          (λ _. skip-IsTurn (pos_part l) oob (large l fits)))
  where
    l : ℤ
    l = of_word h.len

    large : (l : ℤ) → (ltb_ℤ l (pos hdr) || ltb_ℤ (pos (length oob)) l) ≡ false → hdr ≤ pos_part l
    large (pos n) e = ground arith
    large (negsuc n) e = absurd (ground arith)

looked-IsTurn :
    (oob : List ℕ)
    → hdr ≤ length oob
    → Ends (IsTurn oob) (and_then (read_header oob) (λ h. look_at h oob))
looked-IsTurn oob enough =
    Ends-and_then _ (IsTurn oob) _ _ (header-inside oob enough) (λ h _. look_at-IsTurn h oob enough)

drop-nil : {A : Type 0} (n : ℕ) → drop {A = A} n [] ≡ []
drop-nil zero = refl
drop-nil (suc n) = refl

drop-drop : {A : Type 0} (m n : ℕ) (xs : List A) → drop m (drop n xs) ≡ drop (n + m) xs
drop-drop m zero xs = ap (λ k. drop k xs) (omega arith)
drop-drop zero (suc n) [] = sym (drop-nil (suc n + 0))
drop-drop (suc m) (suc n) [] = sym (drop-nil (suc n + suc m))
drop-drop m (suc n) (x ∷ xs) = drop-drop m n xs ∙ ap (λ k. drop k (x ∷ xs)) same
  where
    same : suc (n + m) ≡ suc n + m
    same = omega arith

-- What is read of the rest is read of the whole.
Reads-drop :
    (oob : List ℕ) (k : ℕ) (r : Option ℕ)
    → 8 * k ≤ length oob
    → Reads (drop (8 * k) oob) r
    → Reads oob r
Reads-drop oob k none h q = tt
Reads-drop oob k (some v) h q = record {
  at = k + q.at;
  inside = omega (arith, q.inside, length-drop (8 * k) oob);
  is =
      q.is
      ∙ ap (λ b. le_value (take 4 b))
          (drop-drop (8 * q.at) (8 * k) oob ∙ ap (λ n. drop n oob) (omega arith));
}

scan_lem : (fuel : ℕ) (oob : List ℕ) → length oob < fuel → Ends (Reads oob) (scan fuel oob)
unfolding scan
scan_lem zero oob h = absurd (omega arith)
scan_lem (suc fuel) oob h =
    Ends-if (Reads oob) (leb hdr (length oob))
      (λ enough.
        Ends-and_then (IsTurn oob) (Reads oob) _ _
          (looked-IsTurn oob (leb→le hdr (length oob) enough)) (next (λ rest. scan_lem fuel rest)))
      (λ _. (none, refl, tt))
  where
    next :
        ((rest : List ℕ) → length rest < fuel → Ends (Reads rest) (scan fuel rest))
        → (t : Turn) → IsTurn oob t
        → Ends (Reads oob) (elim t as (λ _. Outcome (Option ℕ)) [
          | no_count ↦ returns none
          | counted v ↦ returns (some v)
          | goes_on rest ↦ scan fuel rest
        ])
    next go no_count q = (none, refl, tt)
    next go (counted v) q = (some v, refl, q)
    next go (goes_on rest) (k, inside, large, e) =
        let (r, returned, reads) =
          go rest (omega (arith, ap (λ b. length b) e, length-drop (8 * k) oob)) in
        (r, returned, Reads-drop oob k r inside (subst (λ b. Reads b r) e reads))

-- DropCount ends without a panic on any control data, and so reads nothing past its end. Where it finds a
-- count, this is the number in the four bytes at some place, a multiple of eight, that lies within the data.
pub drop_count_lem : (oob : List ℕ) → Ends (Reads oob) (drop_count oob)
unfolding drop_count
drop_count_lem oob = scan_lem (suc (length oob)) oob (omega arith)
