-- ===== src/Limit/Rate.antt =====
-- limit.Rate, the token bucket, over any floating-point numbers: `F` stands for float64, with the operations on it that the
-- code uses. A call of TryAcquire is given the time that it reads.
mod Tests
use go_netx.Base.{
  ℕ, zero, suc, ◌+◌, ◌-◌, ◌^◌, ◌≤◌, ◌<◌, ◌≡◌, refl, sym, ap, subst, ◌∙◌, min, Bool, true, false,
  ◌||◌, Option, none, some, ltb, ◌==◌, if◌then◌else◌, if-cases, arith, Outcome, returns, panics,
  Bool-cases, ◌⊎◌, inl, inr,
}
use go_netx.Base.Int.{ℤ, pos, leb_ℤ, pos_part}

-- `since now last` is `now.Sub(last).Seconds()`.
pub record Floats (F : Type 0) : Type 0 where
  pub lt : F → F → Bool
  pub le : F → F → Bool
  pub add : F → F → F
  pub mul : F → F → F
  pub sub : F → F → F
  pub of_int : ℤ → F
  pub since : ℤ → ℤ → F

abbrev pub count_of : Bool → ℕ
count_of true = 1
count_of false = 0

-- `last` is none where it is the zero time.
pub record Rate (F : Type 0) : Type 0 where
  pub per_sec : F
  pub burst : F
  pub tokens : F
  pub last : Option ℤ

module _ {F : Type 0} (fl : Floats F) where
  unfoldable pub new_rate : F → ℤ → Outcome (Rate F)
  new_rate per_sec burst =
      if fl.le per_sec (fl.of_int (pos 0)) || leb_ℤ burst (pos 0)
      then panics
      else returns (record {
        per_sec = per_sec;
        burst = fl.of_int burst;
        tokens = fl.of_int burst;
        last = none;
      })

  abbrev pub capped : F → F → F
  capped burst tokens = if fl.lt burst tokens then burst else tokens

  -- The tokens at the time `now`.
  abbrev pub refilled : ℤ → Rate F → Option ℤ → F
  refilled now r none = r.tokens
  refilled now r (some last) =
      capped r.burst (fl.add r.tokens (fl.mul (fl.since now last) r.per_sec))

  abbrev pub spend : ℤ → F → Rate F → Rate F × Bool
  spend now tokens r =
      if fl.lt tokens (fl.of_int (pos 1))
      then (record r { tokens = tokens; last = some now }, false)
      else (record r { tokens = fl.sub tokens (fl.of_int (pos 1)); last = some now }, true)

  unfoldable pub try_acquire : ℤ → Rate F → Rate F × Bool
  try_acquire now r = spend now (refilled now r r.last) r

  -- `Release`, which does nothing.
  abbrev pub release : Rate F → Rate F
  release r = r

  -- How many of `k` calls at one time are admitted.
  abbrev pub admitted : ℕ → ℤ → Rate F → ℕ
  admitted zero now r = 0
  admitted (suc k) now r = let (r', ok) = try_acquire now r in count_of ok + admitted k now r'

  -- Whole numbers below 2 ^ 53 are exact.
  pub record IsExact : Type 0 where
    pub less :
        (m n : ℕ)
        → m < 2 ^ 53
        → n < 2 ^ 53
        → fl.lt (fl.of_int (pos m)) (fl.of_int (pos n)) ≡ ltb m n
    pub minus :
        (n : ℕ)
        → suc n < 2 ^ 53
        → fl.sub (fl.of_int (pos (suc n))) (fl.of_int (pos 1)) ≡ fl.of_int (pos n)

  -- No time adds no tokens, at this rate.
  abbrev pub AddsNone : ℤ → F → Type 0
  AddsNone now per_sec =
      (n : ℕ)
      → n < 2 ^ 53
      → fl.add (fl.of_int (pos n)) (fl.mul (fl.since now now) per_sec) ≡ fl.of_int (pos n)

  module _ (exact : IsExact) (now : ℤ) (per_sec : F) (adds : AddsNone now per_sec) (b : ℕ)
      (small : b < 2 ^ 53) where
    -- A bucket of `n` whole tokens that was looked at now, or never.
    record Has (n : ℕ) (r : Rate F) : Type 0 where
      pub fits : n ≤ b
      pub rate : r.per_sec ≡ per_sec
      pub burst : r.burst ≡ fl.of_int (pos b)
      pub tokens : r.tokens ≡ fl.of_int (pos n)
      pub last : (r.last ≡ none) ⊎ (r.last ≡ some now)

    refilled-Has : (n : ℕ) (r : Rate F) → Has n r → refilled now r r.last ≡ fl.of_int (pos n)
    refilled-Has n r h = go r.last h.last
      where
        within : capped (fl.of_int (pos b)) (fl.of_int (pos n)) ≡ fl.of_int (pos n)
        within =
            let enough : ltb b n ≡ false = ground (arith, h.fits) in
            ap (λ t. if t then fl.of_int (pos b) else fl.of_int (pos n))
              (exact.less b n small (omega (arith, h.fits)) ∙ enough)

        go : (o : Option ℤ) → (o ≡ none) ⊎ (o ≡ some now) → refilled now r o ≡ fl.of_int (pos n)
        go none which = h.tokens
        go (some last) (inl e) = absurd (ground arith)
        go (some last) (inr e) =
            let same : last ≡ now = ground arith in
            rw (same, h.rate, h.burst, h.tokens, adds n (omega (arith, h.fits))) within

    spend-some :
        (n : ℕ) (r : Rate F)
        → Has (suc n) r
        → Has n (spend now (fl.of_int (pos (suc n))) r).0
          × ((spend now (fl.of_int (pos (suc n))) r).1 ≡ true)
    spend-some n r h =
        if-cases (λ (x : Rate F × Bool). Has n x.0 × (x.1 ≡ true))
          (fl.lt (fl.of_int (pos (suc n))) (fl.of_int (pos 1)))
          (λ low.
            absurd (ground (arith, exact.less (suc n) 1 (omega (arith, h.fits)) (omega arith))))
          (λ _. (
            record {
              fits = omega (arith, h.fits);
              rate = h.rate;
              burst = h.burst;
              tokens = exact.minus n (omega (arith, h.fits));
              last = inr refl;
            },
            refl,
          ))

    spend-none :
        (r : Rate F)
        → Has 0 r
        → Has 0 (spend now (fl.of_int (pos 0)) r).0 × ((spend now (fl.of_int (pos 0)) r).1 ≡ false)
    spend-none r h =
        if-cases (λ (x : Rate F × Bool). Has 0 x.0 × (x.1 ≡ false))
          (fl.lt (fl.of_int (pos 0)) (fl.of_int (pos 1)))
          (λ _. (
            record {
              fits = h.fits;
              rate = h.rate;
              burst = h.burst;
              tokens = refl;
              last = inr refl;
            },
            refl,
          ))
          (λ high. absurd (ground (arith, exact.less 0 1 (omega arith) (omega arith))))

    admitted-Has : (k n : ℕ) (r : Rate F) → Has n r → admitted k now r ≡ min k n
    unfolding try_acquire
    admitted-Has zero n r h = omega arith
    admitted-Has (suc k) zero r h =
        let e = refilled-Has 0 r h in
        let (has, refused) = spend-none r h in
        rw e (
          omega
            (arith, ap count_of refused, admitted-Has k 0 (spend now (fl.of_int (pos 0)) r).0 has))
    admitted-Has (suc k) (suc n) r h =
        let e = refilled-Has (suc n) r h in
        let (has, ok) = spend-some n r h in
        rw e (
          omega
            (arith, ap count_of ok, admitted-Has k n (spend now (fl.of_int (pos (suc n))) r).0 has))

  -- A new token bucket admits its burst at once and no more: of any number of calls at one time, exactly as many as
  -- `burst`, or all if there are fewer. Whole numbers below 2 ^ 53 are exact, no time adds no tokens at this
  -- rate, and the burst is such a number.
  pub admitted-burst :
      (now : ℤ) (per_sec : F) (b k : ℕ) (r : Rate F)
      → IsExact
      → AddsNone now per_sec
      → b < 2 ^ 53
      → new_rate per_sec (pos b) ≡ returns r
      → admitted k now r ≡ min k b
  unfolding new_rate
  admitted-burst now per_sec b k r exact adds small e =
      go (fl.le per_sec (fl.of_int (pos 0)) || leb_ℤ (pos b) (pos 0)) e
    where
      fresh : Rate F
      fresh = record {
        per_sec = per_sec;
        burst = fl.of_int (pos b);
        tokens = fl.of_int (pos b);
        last = none;
      }

      go :
          (bad : Bool)
          → (if bad then panics else returns fresh) ≡ returns r
          → admitted k now r ≡ min k b
      go true e = absurd (ground arith)
      go false e =
          let same : fresh ≡ r = ground arith in
          subst (λ r. admitted k now r ≡ min k b) same
            (admitted-Has exact now per_sec adds b small k b fresh (record {
              fits = omega arith;
              rate = refl;
              burst = refl;
              tokens = refl;
              last = inl refl;
            }))
