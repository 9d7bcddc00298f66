-- ===== src/Limit/Budget/Alone.antt =====
-- limit.Budget's methods as one goroutine runs them with no other in between, as the buffer pool's callers do.
use go_netx.Base.{
  ℕ, ◌+◌, ◌-◌, ◌≤◌, ◌≡◌, refl, Bool, true, false, Outcome, returns, panics, arith, leb,
  if◌then◌else◌,
}
use go_netx.Base.Int.{ℤ, pos, ◌+ℤ◌, ◌-ℤ◌, pos_part, ltb_ℤ, wrap64}
use go_netx.Limit.Budget.{Budget}
use go_netx.Limit.Budget.Safe.{Inv}

-- `Reserve`
unfoldable pub reserve_units : ℤ → Budget → Budget × Bool
reserve_units n b =
    if ltb_ℤ n (pos 0)
    then (b, false)
    else if ltb_ℤ (wrap64 (b.max -ℤ b.used)) n
    then (b, false)
    else (record b { used = wrap64 (b.used +ℤ n); held = b.held + pos_part n }, true)

-- `Release`
unfoldable pub release_units : ℤ → Budget → Outcome Budget
release_units n b =
    if ltb_ℤ n (pos 0)
    then panics
    else (let used = wrap64 (b.used -ℤ n) in
        if ltb_ℤ used (pos 0)
        then panics
        else returns (record b { used = used; held = b.held - pos_part n }))

-- What is held can be given back.
pub release_units-Inv :
    (n : ℕ) (b : Budget)
    → Inv b
    → n ≤ b.held
    → (b' : Budget) × (release_units (pos n) b ≡ returns b')
      × Inv b'
      × (b'.max ≡ b.max)
      × (b'.held + n ≡ b.held)
unfolding release_units ◌-ℤ◌
release_units-Inv n b inv h = (
  record b { used = pos (b.held - n); held = b.held - n },
  ground arith,
  ground arith,
  refl,
  omega arith,
)

-- A budget of which n more units are in use.
abbrev pub charged : ℕ → Budget → Budget
charged n b = record b { used = pos (b.held + n); held = b.held + n }

pub reserve_units_lem :
    (n : ℕ) (b : Budget)
    → Inv b
    → reserve_units (pos n) b
      ≡ (if leb (b.held + n) (pos_part b.max) then (charged n b, true) else (b, false))
unfolding reserve_units ◌+ℤ◌ ◌-ℤ◌
reserve_units_lem n b inv = ground arith

pub release_units-charged :
    (n : ℕ) (b : Budget)
    → Inv b
    → b.held + n ≤ pos_part b.max
    → release_units (pos n) (charged n b) ≡ returns b
unfolding release_units ◌+ℤ◌ ◌-ℤ◌
release_units-charged n b inv h = ground arith

pub charged-Inv : (n : ℕ) (b : Budget) → Inv b → b.held + n ≤ pos_part b.max → Inv (charged n b)
charged-Inv n b inv h = record {
  positive = inv.positive;
  in_range = inv.in_range;
  exact = refl;
  fits = h;
}
