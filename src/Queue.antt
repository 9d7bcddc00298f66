-- ===== src/Queue.antt =====
-- queue/queue.go: the bounded ring. A method returns the new ring with what it returns, and with the
-- items that it hands to OnDrop, in order. An `int` is its 64-bit pattern.

pub mod Window
pub mod Valid
pub mod Spec
pub mod View
pub mod Refine
pub mod Fresh
pub mod Order
pub mod Wait
mod Tests
use go_netx.Base.{
  ℕ, zero, suc, ◌-◌, Bool, true, false, ◌||◌, List, [], ◌∷◌, length, get_or, set, replicate, ltb,
  ◌==◌, if◌then◌else◌, bit_and, inc64, add64, dec64, Outcome, returns, panics, runs_on, Option,
  none, some,
}
use go_netx.Base.Int.{ℤ, pos, pos_part, leb_ℤ}
use go_netx.Rounding.{round_up}

pub data Policy : Type 0 where
  reject drop_oldest : Policy

pub record Stats : Type 0 where
  pub len : ℕ
  pub pushed : ℕ
  pub popped : ℕ
  pub dropped : ℕ
  pub rejected : ℕ

pub record Options : Type 0 where
  pub cap : ℤ
  pub policy : Policy
  pub has_hook : Bool

-- `not_empty` and `not_full`: whether the one-place channel holds its signal. `done`: whether the
-- channel is closed. `has_hook`: whether OnDrop was given.
pub record Ring {ℓ} (A : Type ℓ) : Type ℓ where
  pub items : List A
  pub mask : ℕ
  pub head : ℕ
  pub n : ℕ
  pub closed : Bool
  pub policy : Policy
  pub has_hook : Bool
  pub not_empty : Bool
  pub not_full : Bool
  pub done : Bool
  pub stats : Stats

abbrev pub is_reject : Policy → Bool
is_reject reject = true
is_reject drop_oldest = false

abbrev pub zero_stats : Stats
zero_stats = record { len = 0; pushed = 0; popped = 0; dropped = 0; rejected = 0 }

module _ {ℓ} {A : Type ℓ} where
  -- The slot that the next item goes to.
  abbrev pub slot : Ring A → ℕ
  slot r = bit_and (add64 r.head r.n) r.mask

  -- `r.stats.Rejected++`
  abbrev pub count_rejected : Ring A → Ring A
  count_rejected r = record r { stats = record (r.stats) { rejected = inc64 r.stats.rejected } }

  -- `r.stats.Dropped += k`
  abbrev pub count_dropped : Ring A → ℕ → Ring A
  count_dropped r k = record r { stats = record (r.stats) { dropped = add64 r.stats.dropped k } }

  -- The write, the counts and the signal of an accepted item.
  unfoldable pub store : Ring A → A → Ring A
  store r v = record r {
    items = set r.items (slot r) v;
    n = inc64 r.n;
    stats = record (r.stats) { pushed = inc64 r.stats.pushed };
    not_empty = true;
  }

  -- What goes to OnDrop, if it was given.
  abbrev pub handed : Ring A → List A → List A
  handed r xs = if r.has_hook then xs else []

-- `zero_value` is the zero value of T.
module _ {ℓ} {A : Type ℓ} (zero_value : A) where
  -- A ring of `size` empty slots.
  abbrev pub fresh : Options → ℕ → Ring A
  fresh o size = record {
    items = replicate size zero_value;
    mask = size - 1;
    head = 0;
    n = 0;
    closed = false;
    policy = o.policy;
    has_hook = o.has_hook;
    not_empty = false;
    not_full = false;
    done = false;
    stats = zero_stats;
  }

  -- `New`, with at most `fuel` rounds of the loop that rounds the capacity up.
  unfoldable pub new : ℕ → Options → Outcome (Ring A)
  new fuel o = if leb_ℤ o.cap (pos 0) then panics else elim (round_up fuel (pos 1) o.cap) [
    | none ↦ runs_on
    | some size ↦ returns (fresh o (pos_part size))
  ]

  unfoldable pub pop_locked : Ring A → Ring A × A
  pop_locked r = (
    record r {
      items = set r.items r.head zero_value;
      head = bit_and (inc64 r.head) r.mask;
      n = dec64 r.n;
    },
    get_or r.items r.head zero_value,
  )

  unfoldable pub push : Ring A → A → Ring A × Bool × List A
  push r v =
      if r.closed
      then (count_rejected r, false, [])
      else if r.n == length r.items
      then if is_reject r.policy
        then (count_rejected r, false, [])
        else (store (count_dropped (pop_locked r).0 1) v, true, handed r ((pop_locked r).1 ∷ []))
      else (store r v, true, [])

  unfoldable pub pop : Ring A → Ring A × A × Bool
  pop r = if r.n == 0 then (r, zero_value, false) else (
    record ((pop_locked r).0) {
      stats = record (r.stats) { popped = inc64 r.stats.popped };
      not_full = true;
      not_empty = r.not_empty || ltb 0 (pop_locked r).0.n;
    },
    (pop_locked r).1,
    true,
  )

  unfoldable pub close : Ring A → Ring A
  close r = if r.closed then r else record r { closed = true; done = true }

  -- `for r.n > 0 { items = append(items, r.popLocked()) }`
  pub pop_all : ℕ → Ring A → Ring A × List A
  pop_all zero r = (r, [])
  pop_all (suc fuel) r = elim (r.n == 0) [
    | true ↦ (r, [])
    | false ↦ let (r', rest) = pop_all fuel (pop_locked r).0 in (r', (pop_locked r).1 ∷ rest)
  ]

  -- The loop ends after as many rounds as there are items.
  unfoldable pub drain : Ring A → Ring A × ℕ × List A
  drain r = let (r', xs) = pop_all r.n r in (count_dropped r' (length xs), length xs, handed r xs)

module _ {ℓ} {A : Type ℓ} where
  unfoldable pub stats_of : Ring A → Stats
  stats_of r = record (r.stats) { len = r.n }

  unfoldable pub cap : Ring A → ℕ
  cap r = length r.items
