-- ===== src/Interleaving.antt =====
-- Goroutines that share a state and change it by atomic steps, in any interleaving, and the rule by which
-- an invariant is proved of all of them: each step keeps the invariant and changes the state only as the
-- others rely on.
use go_netx.Base.{
  ℕ, ◌+◌, ◌≡◌, refl, inl, inr, List, [], ◌∷◌, arith, ◌==◌, if◌then◌else◌, Bool-cases,
}

-- `S` is the shared state, `P` what a goroutine has computed so far in its call, `C` the calls, `E` what a
-- step lets its caller see.
module _ {S P C E : Type 0} (step : C → P → S → P × S × E) where
  pub record System : Type 0 where
    pub shared : S
    pub local : ℕ → P

  -- Goroutine `i` makes one step of the call `c`.
  unfoldable pub move : System → ℕ × C → System
  move sys (i, c) =
      let (p, s, e) = step c (sys.local i) sys.shared in
      record { shared = s; local = λ j. if i == j then p else sys.local j }

  abbrev pub event : System → ℕ × C → E
  event sys (i, c) = let (p, s, e) = step c (sys.local i) sys.shared in e

  unfoldable pub run : System → List (ℕ × C) → System
  run sys [] = sys
  run sys (m ∷ ms) = run (move sys m) ms

  -- What the callers see in a run, in order.
  unfoldable pub events : System → List (ℕ × C) → List E
  events sys [] = []
  events sys (m ∷ ms) = event sys m ∷ events (move sys m) ms

  -- What the events of a run weigh together.
  pub total : (E → ℕ) → List E → ℕ
  total weight [] = 0
  total weight (e ∷ es) = weight e + total weight es

  pub total-none : (es : List E) → total (λ _. 0) es ≡ 0
  unfolding total
  total-none [] = refl
  total-none (e ∷ es) = omega (arith, total-none es)

  -- A run in which every step is allowed.
  abbrev pub AllAllowed : (C → P → S → Type 0) → System → List (ℕ × C) → Type 0
  AllAllowed allowed sys [] = Unit {0}
  AllAllowed allowed sys ((i, c) ∷ ms) =
      allowed c (sys.local i) sys.shared × AllAllowed allowed (move sys (i, c)) ms

  module _ (allowed : C → P → S → Type 0) (Inv : S → Type 0) (Ok : S → P → Type 0)
      (Rely : S → S → Type 0)
      (keeps : (c : C) (p : P) (s : S)
        → Inv s
        → Ok s p
        → allowed c p s
        → let (p', s', e) = step c p s in Inv s' × Ok s' p' × Rely s s')
      (stable : (s s' : S) (p : P) → Rely s s' → Ok s p → Ok s' p) (rely_refl : (s : S) → Rely s s)
      (rely_trans : (s t u : S) → Rely s t → Rely t u → Rely s u) where
    pub move-Ok :
        (sys : System) (i : ℕ) (c : C)
        → Inv sys.shared
        → ((j : ℕ) → Ok sys.shared (sys.local j))
        → allowed c (sys.local i) sys.shared
        → (j : ℕ) → Ok (move sys (i, c)).shared ((move sys (i, c)).local j)
    unfolding move
    move-Ok sys i c inv oks ok j = elim (Bool-cases (i == j)) [
      | inl same ↦ rw same (keeps c (sys.local i) sys.shared inv (oks i) ok).1
      | inr other ↦ rw other (
          stable sys.shared _ (sys.local j) (keeps c (sys.local i) sys.shared inv (oks i) ok).2
            (oks j))
    ]

    -- The invariant, what each goroutine relies on, and the changes in between, for every interleaving.
    pub run-Inv :
        (ms : List (ℕ × C)) (sys : System)
        → Inv sys.shared
        → ((j : ℕ) → Ok sys.shared (sys.local j))
        → AllAllowed allowed sys ms
        → Inv (run sys ms).shared
          × ((j : ℕ) → Ok (run sys ms).shared ((run sys ms).local j))
          × Rely sys.shared (run sys ms).shared
    unfolding run move
    run-Inv [] sys inv oks ok = (inv, oks, rely_refl sys.shared)
    run-Inv ((i, c) ∷ ms) sys inv oks (ok, more) =
        let (inv', ok', rely) = keeps c (sys.local i) sys.shared inv (oks i) ok in
        let (inv_end, oks_end, rely_end) =
          run-Inv ms (move sys (i, c)) inv' (move-Ok sys i c inv oks ok) more in
        (inv_end, oks_end, rely_trans sys.shared (move sys (i, c)).shared _ rely rely_end)

    -- A quantity of the shared state that each step raises and lowers by what its event weighs.
    pub run-balance :
        (level : S → ℕ) (gain loss : E → ℕ)
        → ((c : C) (p : P) (s : S)
            → Inv s
            → Ok s p
            → allowed c p s
            → let (p', s', e) = step c p s in level s' + loss e ≡ level s + gain e)
        → (ms : List (ℕ × C)) (sys : System) → Inv sys.shared
        → ((j : ℕ) → Ok sys.shared (sys.local j))
        → AllAllowed allowed sys ms
        → level (run sys ms).shared + total loss (events sys ms)
          ≡ level sys.shared + total gain (events sys ms)
    unfolding run events total move
    run-balance level gain loss changes [] sys inv oks ok = omega arith
    run-balance level gain loss changes ((i, c) ∷ ms) sys inv oks (ok, more) =
        let (inv', ok', rely) = keeps c (sys.local i) sys.shared inv (oks i) ok in
        omega (
          arith,
          changes c (sys.local i) sys.shared inv (oks i) ok,
          run-balance level gain loss changes ms (move sys (i, c)) inv' (move-Ok sys i c inv oks ok)
              more,
        )

    -- An event that no allowed step shows does not occur.
    pub run-none :
        (weight : E → ℕ)
        → ((c : C) (p : P) (s : S)
            → Inv s
            → Ok s p
            → allowed c p s
            → let (p', s', e) = step c p s in weight e ≡ 0)
        → (ms : List (ℕ × C)) (sys : System) → Inv sys.shared
        → ((j : ℕ) → Ok sys.shared (sys.local j))
        → AllAllowed allowed sys ms
        → total weight (events sys ms) ≡ 0
    unfolding run events total move
    run-none weight quiet [] sys inv oks ok = omega arith
    run-none weight quiet ((i, c) ∷ ms) sys inv oks (ok, more) =
        let (inv', ok', rely) = keeps c (sys.local i) sys.shared inv (oks i) ok in
        omega (
          arith,
          quiet c (sys.local i) sys.shared inv (oks i) ok,
          run-none weight quiet ms (move sys (i, c)) inv' (move-Ok sys i c inv oks ok) more,
        )
