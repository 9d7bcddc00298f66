-- ===== src/Limit/PerKey.antt =====
-- limit.PerKey: at most `max` holders for each key. Each method holds the lock throughout.
pub mod Slots
use go_netx.Base.{
  ℕ, ◌+◌, ◌-◌, Bool, true, false, List, [], Outcome, returns, panics, Option, none, some, length,
  ◌==◌, leb, if◌then◌else◌,
}
use go_netx.Base.Assoc.{get, put, del}
use go_netx.Base.Int.{ℤ, pos, pos_part, leb_ℤ}

-- The counts are between 1 and `max`, so they are numbers; a key without slots has no entry.
pub record PerKey (K : Type 0) : Type 0 where
  pub max : ℕ
  pub n : List (K × ℕ)

abbrev pub or_zero : Option ℕ → ℕ
or_zero none = 0
or_zero (some n) = n

-- Release once the entry is read.
abbrev pub leave : {K : Type 0} → Discrete K → K → PerKey K → Option ℕ → Outcome (PerKey K)
leave dec k p none = panics
leave dec k p (some n) =
    if n == 1
    then returns (record p { n = del dec k p.n })
    else returns (record p { n = put dec k (n - 1) p.n })

module _ {K : Type 0} where
  unfoldable pub new_per_key : ℤ → Outcome (PerKey K)
  new_per_key max =
      if leb_ℤ max (pos 0) then panics else returns (record { max = pos_part max; n = [] })

  unfoldable pub keys : PerKey K → ℕ
  keys p = length p.n

module _ {K : Type 0} (dec : Discrete K) where
  unfoldable pub in_use : K → PerKey K → ℕ
  in_use k p = or_zero (get dec k p.n)

  unfoldable pub try_acquire : K → PerKey K → PerKey K × Bool
  unfolding in_use
  try_acquire k p =
      if leb p.max (in_use k p)
      then (p, false)
      else (record p { n = put dec k (in_use k p + 1) p.n }, true)

  unfoldable pub release : K → PerKey K → Outcome (PerKey K)
  release k p = leave dec k p (get dec k p.n)
