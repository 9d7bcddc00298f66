-- ===== src/Raising.antt =====
-- The loop that raises a shared value to at least `n` by compare-and-swap, run by any goroutines at once: Counter.Max of
-- internal/counter/counter.go, and the clock of flow/table.go in `advance`.
mod Tests
use go_netx.Base.{
  ◌≡◌, refl, sym, subst, ◌⊎◌, inl, inr, Bool, true, false, List, [], ◌∷◌, All, if◌then◌else◌,
  if-cases, ◌+◌, ℕ, arith, leb, ◌==◌, leb→le, ==_iff,
}
use go_netx.Base.Int.{ℤ, leb_ℤ, eqb_ℤ, eq_of_parts}
use go_netx.Interleaving.{System, run, move, AllAllowed, run-Inv}

abbrev pub Among : {A : Type 0} → A → List A → Type 0
Among a [] = ⊥
Among a (b ∷ bs) = (a ≡ b) ⊎ Among a bs

-- `asked` and `settled` are not in the code: what the calls so far have asked for, and those that have returned.
pub record Cell (A : Type 0) : Type 0 where
  pub value : A
  pub asked : List A
  pub settled : List A

-- Where a goroutine stands: outside, before the load in a further turn, or with `cur` loaded and below `n`.
pub data Pc (A : Type 0) : Type 0 where
  outside : Pc A
  again : A → Pc A
  loaded : A → A → Pc A

module _ {A : Type 0} (leb eqb : A → A → Bool) where
  -- `cur := Load()` and the test after it.
  abbrev pub load : A → Cell A → Pc A × Cell A × Unit {0}
  load n s =
      if leb n s.value
      then (outside, record s { settled = n ∷ s.settled }, tt)
      else (loaded n s.value, s, tt)

  -- `CompareAndSwap(cur, n)`
  abbrev pub swap : A → A → Cell A → Pc A × Cell A × Unit {0}
  swap n cur s =
      if eqb s.value cur
      then (outside, record s { value = n; settled = n ∷ s.settled }, tt)
      else (again n, s, tt)

  -- A goroutine outside starts a call for `n`; any other goes on with its own.
  unfoldable pub step : A → Pc A → Cell A → Pc A × Cell A × Unit {0}
  step n outside s = load n (record s { asked = n ∷ s.asked })
  step call (again n) s = load n s
  step call (loaded n cur) s = swap n cur s

  abbrev pub start : A → System step
  start v = record { shared = record { value = v; asked = []; settled = [] }; local = λ i. outside }

-- Counter.Max, over the uint64 of the counter.
abbrev pub max_step : ℕ → Pc ℕ → Cell ℕ → Pc ℕ × Cell ℕ × Unit {0}
max_step = step leb ◌==◌

-- `advance`, over the table's clock in nanoseconds.
abbrev pub advance_step : ℤ → Pc ℤ → Cell ℤ → Pc ℤ × Cell ℤ × Unit {0}
advance_step = step leb_ℤ eqb_ℤ

-- An order by its two tests.
pub record IsOrder {A : Type 0} (leb eqb : A → A → Bool) : Type 0 where
  pub total : (a b : A) → leb a b ≡ false → leb b a ≡ true
  pub trans : (a b c : A) → leb a b ≡ true → leb b c ≡ true → leb a c ≡ true
  pub refl_leb : (a : A) → leb a a ≡ true
  pub same : (a b : A) → eqb a b ≡ true → a ≡ b

module _ {A : Type 0} (leb eqb : A → A → Bool) (order : IsOrder leb eqb) (v : A) where
  -- What has been asked for and has returned is not above the value, which is one of those asked for, or the first.
  pub record Raised (s : Cell A) : Type 0 where
    pub settled : All (λ n. leb n s.value ≡ true) s.settled
    pub source : Among s.value (v ∷ s.asked)
    pub above : leb v s.value ≡ true

  -- A call that goes on was asked for, and what it has loaded is below it.
  abbrev Ok : Cell A → Pc A → Type 0
  Ok s outside = Unit
  Ok s (again n) = Among n s.asked
  Ok s (loaded n cur) = Among n s.asked × (leb cur n ≡ true)

  abbrev Grows : Cell A → Cell A → Type 0
  Grows s t = (n : A) → Among n s.asked → Among n t.asked

  All-trans :
      (a b : A) (ns : List A)
      → leb a b ≡ true
      → All (λ n. leb n a ≡ true) ns
      → All (λ n. leb n b ≡ true) ns
  All-trans a b [] h all = tt
  All-trans a b (n ∷ ns) h all = (order.trans n a b all.0 h, All-trans a b ns h all.1)

  later : (a n : A) (ns : List A) → Among a (v ∷ ns) → Among a (v ∷ n ∷ ns)
  later a n ns (inl e) = inl e
  later a n ns (inr h) = inr (inr h)

  load-Raised :
      (n : A) (s : Cell A)
      → Raised s
      → Among n s.asked
      → let (p', s', e) = load leb eqb n s in Raised s' × Ok s' p' × Grows s s'
  load-Raised n s r asked =
      if-cases (λ (x : Pc A × Cell A × Unit {0}). Raised x.1 × Ok x.1 x.0 × Grows s x.1)
        (leb n s.value)
        (λ low.
          (record { settled = (low, r.settled); source = r.source; above = r.above }, tt, λ k h. h))
        (λ high. (r, (asked, order.total n s.value high), λ k h. h))

  swap-Raised :
      (n cur : A) (s : Cell A)
      → Raised s
      → Ok s (loaded n cur)
      → let (p', s', e) = swap leb eqb n cur s in Raised s' × Ok s' p' × Grows s s'
  swap-Raised n cur s r (asked, below) =
      if-cases (λ (x : Pc A × Cell A × Unit {0}). Raised x.1 × Ok x.1 x.0 × Grows s x.1)
        (eqb s.value cur)
        (λ e.
          let low : leb s.value n ≡ true =
            subst (λ a. leb a n ≡ true) (sym (order.same s.value cur e)) below in
          (
            record {
              settled = (order.refl_leb n, All-trans s.value n s.settled low r.settled);
              source = inr asked;
              above = order.trans v s.value n r.above low;
            },
            tt,
            λ k h. h,
          ))
        (λ _. (r, asked, λ k h. h))

  step-Raised :
      (n : A) (p : Pc A) (s : Cell A)
      → Raised s
      → Ok s p
      → Unit {0}
      → let (p', s', e) = step leb eqb n p s in Raised s' × Ok s' p' × Grows s s'
  unfolding step
  step-Raised n outside s r ok any =
      let (r', ok', grows) =
        load-Raised n (record s { asked = n ∷ s.asked })
          (record {
            settled = r.settled;
            source = later s.value n s.asked r.source;
            above = r.above;
          })
          (inl refl) in
      (r', ok', λ k h. grows k (inr h))
  step-Raised call (again n) s r ok any = load-Raised n s r ok
  step-Raised call (loaded n cur) s r ok any = swap-Raised n cur s r ok

  Ok-stable : (s t : Cell A) (p : Pc A) → Grows s t → Ok s p → Ok t p
  Ok-stable s t outside grows ok = tt
  Ok-stable s t (again n) grows ok = grows n ok
  Ok-stable s t (loaded n cur) grows (asked, below) = (grows n asked, below)

  -- Any goroutines may raise the value at the same time: in every interleaving, no value asked for by a call that has
  -- returned is above the value, which is never below the first and is the first or one that was asked for. The
  -- tests are those of a total order.
  pub run-Raised : (ms : List (ℕ × A)) → Raised (run (step leb eqb) (start leb eqb v) ms).shared
  run-Raised ms =
      (run-Inv (step leb eqb) (λ n p s. Unit {0}) Raised Ok Grows step-Raised Ok-stable (λ s k h. h)
        (λ s t u f g k h. g k (f k h)) ms (start leb eqb v)
        (record { settled = tt; source = inl refl; above = order.refl_leb v }) (λ j. tt)
        (allowed ms (start leb eqb v))).0
    where
      allowed :
          (ms : List (ℕ × A)) (sys : System (step leb eqb))
          → AllAllowed (step leb eqb) (λ n p s. Unit {0}) sys ms
      allowed [] sys = tt
      allowed ((i, c) ∷ ms) sys = (tt, allowed ms (move (step leb eqb) sys (i, c)))

pub nat-IsOrder : IsOrder leb ◌==◌
nat-IsOrder = record {
  total = λ a b h. ground arith;
  trans = λ a b c h k. ground arith;
  refl_leb = λ a. ground arith;
  same = λ a b h. ground arith;
}

pub int-IsOrder : IsOrder leb_ℤ eqb_ℤ
int-IsOrder = record {
  total = λ a b h. ground arith;
  trans = λ a b c h k. ground arith;
  refl_leb = λ a. ground arith;
  same = λ a b h. eq_of_parts a b (ground arith);
}
