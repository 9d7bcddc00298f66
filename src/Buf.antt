-- ===== src/Buf.antt =====
-- buf/buf.go, buf/debug.go and buf/nodebug.go: buffers in size classes, and a pool that may have a budget. `debug` says
-- whether the program is built with the tag netxdebug: without it nothing looks at `live` or counts. sync.Pool gives a buffer of the
-- class with any contents: `memory n` is what the n bytes hold that a call of Get returns.
-- The poison that a released buffer is filled with is not kept: a later Get gives any contents.
pub mod Classes
pub mod Owned
mod Tests
use go_netx.Base.{
  ℕ, zero, suc, ◌+◌, ◌-◌, ◌*◌, ◌/◌, ◌^◌, ◌≡◌, Bool, true, false, List, [], ◌∷◌, Option, none, some,
  Outcome, returns, panics, runs_on, and_then, length, take, ltb, leb, ◌==◌, if◌then◌else◌,
  overwrite,
}
use go_netx.Base.Int.{ℤ, pos, negsuc, ◌+ℤ◌, ◌-ℤ◌, wrap64}
use go_netx.Limit.Budget.{Budget}
use go_netx.Limit.Budget.Alone.{reserve_units, release_units}

abbrev pub min_size : ℕ
min_size = 64

abbrev pub large : ℕ
large = 65536

abbrev pub min_shift : ℕ
min_shift = 6

-- `bits.Len`, of the library: how many binary digits a number below 2 ^ fuel has.
unfoldable pub bit_length : ℕ → ℕ → ℕ
bit_length zero n = 0
bit_length (suc fuel) n = let rest = bit_length fuel (n / 2) in if n == 0 then 0 else suc rest

-- The class of a size that is not negative; none is the code's -1.
unfoldable pub class_of : ℕ → Option ℕ
class_of n =
    if ltb large n
    then none
    else if leb n min_size
    then some 0
    else some (bit_length 64 (n - 1) - min_shift)

-- The size of a class, or the number itself where there is none.
abbrev pub size_of : Option ℕ → ℕ → ℕ
size_of none n = n
size_of (some c) n = min_size * 2 ^ c

unfoldable pub capacity : ℕ → ℕ
capacity n = size_of (class_of n) n

-- `bytes` is B, and `cap` the capacity of `full`.
pub record Buf (A : Type 0) : Type 0 where
  pub bytes : List A
  pub cap : ℕ
  pub class : Option ℕ
  pub live : Bool

-- `outstanding` counts the buffers of the whole program.
pub record Pool : Type 0 where
  pub debug : Bool
  pub budget : Option Budget
  pub outstanding : ℤ

unfoldable pub new_pool : Bool → Option Budget → ℤ → Pool
new_pool debug budget outstanding = record {
  debug = debug;
  budget = budget;
  outstanding = outstanding;
}

-- `p.budget == nil || p.budget.Reserve(n)`
unfoldable pub charge : ℕ → Option Budget → Option Budget × Bool
charge n none = (none, true)
charge n (some b) = let (b', ok) = reserve_units (pos n) b in (some b', ok)

unfoldable pub refund : ℕ → Option Budget → Outcome (Option Budget)
refund n none = returns none
refund n (some b) = elim (release_units (pos n) b) [
  | returns b' ↦ returns (some b')
  | panics ↦ panics
  | runs_on ↦ runs_on
]

-- `onGet`
abbrev pub on_get : Pool → Pool
on_get p = record p {
  outstanding = if p.debug then wrap64 (p.outstanding +ℤ pos 1) else p.outstanding;
}

module _ {A : Type 0} (memory : ℕ → List A) where
  -- The buffer that Get makes.
  abbrev pub made : ℕ → Buf A
  made n = record { bytes = memory n; cap = capacity n; class = class_of n; live = true }

  unfoldable pub get : ℤ → Pool → Outcome (Pool × Option (Buf A))
  unfolding charge
  get (negsuc n) p = panics
  get (pos n) p =
      let (budget, ok) = charge (capacity n) p.budget in
      if ok
      then returns (on_get (record p { budget = budget }), some (made n))
      else returns (record p { budget = budget }, none)

  -- `Copy`: a Get of as many bytes, written over.
  abbrev pub filled : List A → Outcome (Pool × Option (Buf A)) → Outcome (Pool × Option (Buf A))
  filled xs (returns (p, some b)) = returns (p, some (record b { bytes = overwrite b.bytes 0 xs }))
  filled xs (returns (p, none)) = returns (p, none)
  filled xs panics = panics
  filled xs runs_on = runs_on

  unfoldable pub copy : List A → Pool → Outcome (Pool × Option (Buf A))
  unfolding get
  copy xs p = filled xs (get (pos (length xs)) p)

module _ {A : Type 0} where
  -- `onRelease`
  abbrev pub on_release : Buf A → Pool → Outcome Pool
  on_release b p =
      if p.debug
      then (if b.live
          then returns (record p { outstanding = wrap64 (p.outstanding -ℤ pos 1) })
          else panics)
      else returns p

  -- The buffer after its Release.
  abbrev pub given_back : Buf A → Buf A
  given_back b = record b { bytes = []; live = false }

  -- `Release` of a buffer that is not nil.
  unfoldable pub release_buf : Buf A → Pool → Outcome (Pool × Buf A)
  unfolding refund
  release_buf b p = and_then (on_release b p) (λ p'.
      and_then (refund b.cap p'.budget)
        (λ budget. returns (record p' { budget = budget }, given_back b)))

  -- `Release`, which does nothing to a nil buffer.
  unfoldable pub release : Option (Buf A) → Pool → Outcome (Pool × Option (Buf A))
  unfolding release_buf
  release none p = returns (p, none)
  release (some b) p = and_then (release_buf b p) (λ end. returns (end.0, some end.1))
