-- ===== src/Buf/Owned.antt =====
-- What a pool's buffer owes to the budget, from Get to Release.
use go_netx.Base.{
  ℕ, ◌+◌, ◌≡◌, refl, sym, subst, Bool, true, false, List, Option, none, some, returns, Ends,
  Ends-if, leb→le, arith, length, leb, leb→le, if◌then◌else◌, overwrite_all,
}
use go_netx.Base.Int.{pos, ◌-ℤ◌, pos_part, wrap64}
use go_netx.Limit.Budget.{Budget}
use go_netx.Limit.Budget.Safe.{Inv}
use go_netx.Limit.Budget.Alone.{charged, release_units-Inv, charged-Inv, reserve_units_lem}
use go_netx.Buf.{
  Buf, Pool, capacity, charge, refund, on_get, made, get, copy, given_back, release_buf,
}

-- The budget's invariant, where there is a budget.
abbrev pub IsValid : Option Budget → Type 0
IsValid none = Unit
IsValid (some b) = Inv b

-- What the pool's buffers hold of the budget, with no budget nothing.
abbrev pub held : Option Budget → ℕ
held none = 0
held (some b) = b.held

abbrev pub fits : ℕ → Option Budget → Bool
fits n none = true
fits n (some b) = leb (b.held + n) (pos_part b.max)

abbrev pub charged_opt : ℕ → Option Budget → Option Budget
charged_opt n none = none
charged_opt n (some b) = some (charged n b)

charge_lem :
    (n : ℕ) (o : Option Budget)
    → IsValid o
    → charge n o ≡ (if fits n o then (charged_opt n o, true) else (o, false))
unfolding charge
charge_lem n none v = refl
charge_lem n (some b) v = ground (arith, reserve_units_lem n b v)

-- The buffers in use take k units of the budget.
abbrev pub Holds : ℕ → Option Budget → Type 0
Holds k none = Unit
Holds k (some b) = b.held ≡ k

pub charged_opt-Holds :
    (k n : ℕ) (o : Option Budget)
    → IsValid o
    → Holds k o
    → fits n o ≡ true
    → IsValid (charged_opt n o) × Holds (k + n) (charged_opt n o)
charged_opt-Holds k n none v h f = (tt, tt)
charged_opt-Holds k n (some b) v h f =
    (charged-Inv n b v (leb→le (b.held + n) (pos_part b.max) f), omega arith)

-- What is held can be given back.
pub refund-Holds :
    (k n : ℕ) (o : Option Budget)
    → IsValid o
    → Holds (k + n) o
    → Ends (λ o'. IsValid o' × Holds k o') (refund n o)
unfolding refund
refund-Holds k n none v h = (none, refl, (tt, tt))
refund-Holds k n (some b) v h =
    let (b', e, inv, max_same, held_back) = release_units-Inv n b v (omega arith) in
    (some b', ground (arith, e), (inv, omega arith))

pub Holds-eq : {k j : ℕ} (o : Option Budget) → k ≡ j → Holds k o → Holds j o
Holds-eq o e h = subst (λ i. Holds i o) e h

-- The count of live buffers after a Release.
abbrev counted_back : Pool → Pool
counted_back p = record p {
  outstanding = if p.debug then wrap64 (p.outstanding -ℤ pos 1) else p.outstanding;
}

module _ {A : Type 0} where
  -- A live buffer of n units goes back to the pool.
  pub release_buf-Holds :
      (k : ℕ) (b : Buf A) (p : Pool)
      → IsValid p.budget
      → Holds (k + b.cap) p.budget
      → b.live ≡ true
      → Ends (λ end. IsValid end.0.budget × Holds k end.0.budget) (release_buf b p)
  unfolding release_buf
  release_buf-Holds k b p v h l =
      let counted = counted_back p in
      let (o, e, paid) = refund-Holds k b.cap p.budget v h in
      ((record counted { budget = o }, given_back b), ground (arith, e, l), paid)

module _ {A : Type 0} (memory : ℕ → List A) where
  -- Get takes the buffer's capacity from the budget where it fits, and gives no buffer and changes nothing
  -- where it does not. It does not panic for a count that is not negative.
  pub get_lem :
      (n : ℕ) (p : Pool)
      → IsValid p.budget
      → get memory (pos n) p ≡ (
          if fits (capacity n) p.budget
          then returns (
            on_get (record p { budget = charged_opt (capacity n) p.budget }),
            some (made memory n),
          )
          else returns (p, none))
  unfolding get charge
  get_lem n p v = ground (arith, charge_lem (capacity n) p.budget v)

  -- Copy gives a buffer of exactly the given bytes, charged as a Get of as many bytes is, or no buffer where that
  -- Get gives none. The pool's memory gives as many bytes as it is asked for.
  pub copy_lem :
      (xs : List A) (p : Pool)
      → IsValid p.budget
      → length (memory (length xs)) ≡ length xs
      → copy memory xs p ≡ (
          if fits (capacity (length xs)) p.budget
          then returns (
            on_get (record p { budget = charged_opt (capacity (length xs)) p.budget }),
            some (record (made memory (length xs)) { bytes = xs }),
          )
          else returns (p, none))
  unfolding copy
  copy_lem xs p v h =
      ground (arith, get_lem (length xs) p v, overwrite_all (memory (length xs)) xs h)

module _ {A : Type 0} where
  abbrev pub Taken : ℕ → ℕ → (ℕ → List A) → Option Budget → Option (Buf A) → Type 0
  Taken k n memory budget none = Holds k budget
  Taken k n memory budget (some b) =
      Holds (k + b.cap) budget × (b.live ≡ true) × (b.bytes ≡ memory n)

  -- What Get leaves: no buffer, or a live one of which the budget counts the units on top of k.
  pub record Obtained (k n : ℕ) (memory : ℕ → List A) (end : Pool × Option (Buf A)) : Type 0 where
    pub valid : IsValid end.0.budget
    pub taken : Taken k n memory end.0.budget end.1

  pub get-Obtained :
      (memory : ℕ → List A) (k n : ℕ) (p : Pool)
      → IsValid p.budget
      → Holds k p.budget
      → Ends (Obtained k n memory) (get memory (pos n) p)
  get-Obtained memory k n p v h = subst (Ends (Obtained k n memory)) (sym (get_lem memory n p v)) (
      Ends-if (Obtained k n memory) (fits (capacity n) p.budget)
        (λ f.
          let (valid, holds) = charged_opt-Holds k (capacity n) p.budget v h f in
          (
            (
              on_get (record p { budget = charged_opt (capacity n) p.budget }),
              some (made memory n),
            ),
            refl,
            record { valid = valid; taken = (holds, refl, refl) },
          ))
        (λ f. ((p, none), refl, record { valid = v; taken = h })))
