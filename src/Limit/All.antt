-- ===== src/Limit/All.antt =====
-- limit.All over any limiters. A limiter is its two methods on a state that all limiters share, so that a
-- limiter may stand in the list twice.
use go_netx.Base.{
  ℕ, suc, ◌+◌, ◌≡◌, refl, ap, Bool, true, false, List, [], ◌∷◌, if◌then◌else◌, ltb, ◌==◌, length,
  arith,
}

-- The interface `Limiter`.
pub record Limiter (S : Type 0) : Type 0 where
  pub try_acquire : S → S × Bool
  pub release : S → S

module _ {S : Type 0} where
  -- `for j := i - 1; j >= 0; j-- { a[j].Release() }`, where `taken` is a[i-1], …, a[0].
  abbrev pub roll_back : List (Limiter S) → S → S
  roll_back [] s = s
  roll_back (l ∷ taken) s = roll_back taken (l.release s)

  -- The loop of TryAcquire at a[i:], with the limiters already taken, the last first.
  abbrev pub try_from : List (Limiter S) → List (Limiter S) → S → S × Bool
  try_from taken [] s = (s, true)
  try_from taken (l ∷ rest) s =
      let (s', ok) = l.try_acquire s in
      let later = try_from (l ∷ taken) rest s' in if ok then later else (roll_back taken s', false)

  abbrev pub release_each : List (Limiter S) → S → S
  release_each [] s = s
  release_each (l ∷ ls) s = release_each ls (l.release s)

  unfoldable pub all : List (Limiter S) → Limiter S
  all ls = record { try_acquire = try_from [] ls; release = release_each ls }

-- What happens to the limiter at a place of the list.
pub data Event : Type 0 where
  admitted refused released : ℕ → Event

-- How often the limiter at place `k` has admitted, and how often it was released.
abbrev pub admissions : ℕ → List Event → ℕ
admissions k [] = 0
admissions k (admitted i ∷ log) = (if i == k then 1 else 0) + admissions k log
admissions k (refused i ∷ log) = admissions k log
admissions k (released i ∷ log) = admissions k log

abbrev pub releases : ℕ → List Event → ℕ
releases k [] = 0
releases k (admitted i ∷ log) = releases k log
releases k (refused i ∷ log) = releases k log
releases k (released i ∷ log) = (if i == k then 1 else 0) + releases k log

-- 1 for a place below n.
abbrev pub one_below : ℕ → ℕ → ℕ
one_below k n = if ltb k n then 1 else 0

module _ {S : Type 0} where
  -- A limiter that also logs what happens to it.
  abbrev pub logged_one : ℕ → Limiter S → Limiter (S × List Event)
  logged_one k l = record {
    try_acquire = λ t.
        let (s, ok) = l.try_acquire t.0 in ((s, (if ok then admitted k else refused k) ∷ t.1), ok);
    release = λ t. (l.release t.0, released k ∷ t.1);
  }

  -- The limiters of a list, from place `k` on.
  abbrev pub logged : ℕ → List (Limiter S) → List (Limiter (S × List Event))
  logged k [] = []
  logged k (l ∷ ls) = logged_one k l ∷ logged (suc k) ls

  -- The limiters that are taken, the last first.
  abbrev logged_back : List (Limiter S) → List (Limiter (S × List Event))
  logged_back [] = []
  logged_back (l ∷ taken) = logged_one (length taken) l ∷ logged_back taken

  -- The roll-back releases each limiter that was taken, once, and does to it what it does without the log.
  roll_back-logged :
      (taken : List (Limiter S)) (s : S) (log : List Event) (k : ℕ)
      → let t = roll_back (logged_back taken) (s, log) in
        (t.0 ≡ roll_back taken s)
        × (admissions k t.1 ≡ admissions k log)
        × (releases k t.1 ≡ releases k log + one_below k (length taken))
  roll_back-logged [] s log k = (refl, refl, ground arith)
  roll_back-logged (l ∷ taken) s log k =
      let (same, kept, more) =
        roll_back-logged taken (l.release s) (released (length taken) ∷ log) k in
      (same, kept, ground (arith, more))

  -- What TryAcquire leaves of a limiter's permits, from a log that has one for each limiter that is taken.
  abbrev Balance : ℕ → ℕ → (S × List Event) × Bool → Type 0
  Balance k n (t, ok) = admissions k t.1 ≡ releases k t.1 + (if ok then one_below k n else 0)

  try_from-logged :
      (ls taken : List (Limiter S)) (s : S) (log : List Event) (k : ℕ)
      → admissions k log ≡ releases k log + one_below k (length taken)
      → let out = try_from (logged_back taken) (logged (length taken) ls) (s, log) in
        ((out.0.0, out.1) ≡ try_from taken ls s) × Balance k (length taken + length ls) out
  try_from-logged [] taken s log k h = (refl, ground (arith, h))
  try_from-logged (l ∷ ls) taken s log k h = go (l.try_acquire s).1 (
      try_from-logged ls (l ∷ taken) (l.try_acquire s).0 (admitted (length taken) ∷ log) k
        (ground (arith, h)))
    where
      s' : S
      s' = (l.try_acquire s).0

      goal : S × Bool → (S × List Event) × Bool → Type 0
      goal plain out = ((out.0.0, out.1) ≡ plain) × Balance k (length taken + suc (length ls)) out

      go :
          (ok : Bool)
          → (let out =
                try_from
                  (logged_back (l ∷ taken))
                  (logged (suc (length taken)) ls)
                  (s', admitted (length taken) ∷ log) in
              ((out.0.0, out.1) ≡ try_from (l ∷ taken) ls s')
              × Balance k (suc (length taken) + length ls) out)
          → goal (if ok then try_from (l ∷ taken) ls s' else (roll_back taken s', false)) (
              let t : S × List Event =
                (s', (if ok then admitted (length taken) else refused (length taken)) ∷ log) in
              if ok
              then try_from (logged_back (l ∷ taken)) (logged (suc (length taken)) ls) t
              else (roll_back (logged_back taken) t, false))
      go true (same, balance) = (same, ground (arith, balance))
      go false later =
          let (same, kept, more) = roll_back-logged taken s' (refused (length taken) ∷ log) k in
          (ap (λ x. (x, false)) same, ground (arith, kept, more, h))

  -- Release releases each limiter once.
  release_each-logged :
      (n : ℕ) (ls : List (Limiter S)) (t : S × List Event) (k : ℕ)
      → let log = (release_each (logged n ls) t).1 in
        (admissions k log ≡ admissions k t.1)
        × (releases k log + one_below k n ≡ releases k t.1 + one_below k (n + length ls))
  release_each-logged n [] t k = (refl, ground arith)
  release_each-logged n (l ∷ ls) t k =
      let (kept, more) = release_each-logged (suc n) ls (l.release t.0, released n ∷ t.1) k in
      (kept, ground (arith, more))

  -- All leaks no permit, whatever the limiters do and one limiter may stand in the list twice: the log of what its
  -- calls do to the limiter at any place has as many releases as admissions after a refusal, and after an acceptance
  -- followed by Release; and after an acceptance each limiter of the list has admitted once more than it was
  -- released. The log changes nothing.
  pub all_balance :
      (ls : List (Limiter S)) (s : S) (k : ℕ)
      → let a = all (logged 0 ls) in
        let (t, ok) = a.try_acquire (s, []) in
        let log = (if ok then a.release t else t).1 in
        ((t.0, ok) ≡ (all ls).try_acquire s)
        × (admissions k t.1 ≡ releases k t.1 + (if ok then one_below k (length ls) else 0))
        × (admissions k log ≡ releases k log)
  unfolding all
  all_balance ls s k =
      let (same, balance) = try_from-logged ls [] s [] k (ground arith) in
      let out = try_from [] (logged 0 ls) (s, []) in
      let (kept, more) = release_each-logged 0 ls out.0 k in
      (same, ground (arith, balance), settle out.1 (ground (arith, balance)) kept more)
    where
      settle :
          (ok : Bool)
          → admissions k (try_from [] (logged 0 ls) (s, [])).0.1
            ≡ releases k (try_from [] (logged 0 ls) (s, [])).0.1
              + (if ok then one_below k (0 + length ls) else 0)
          → admissions k (release_each (logged 0 ls) (try_from [] (logged 0 ls) (s, [])).0).1
            ≡ admissions k (try_from [] (logged 0 ls) (s, [])).0.1
          → releases k (release_each (logged 0 ls) (try_from [] (logged 0 ls) (s, [])).0).1
              + one_below k 0
            ≡ releases k (try_from [] (logged 0 ls) (s, [])).0.1 + one_below k (0 + length ls)
          → let t = (try_from [] (logged 0 ls) (s, [])).0 in
            let log = (if ok then release_each (logged 0 ls) t else t).1 in
            admissions k log ≡ releases k log
      settle true balance kept more = ground (arith, balance, kept, more)
      settle false balance kept more = ground (arith, balance)
