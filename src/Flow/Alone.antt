-- ===== src/Flow/Alone.antt =====
-- flow.go's methods run by one goroutine with no other in between, as the table's methods run them.
use go_netx.Base.{
  ℕ, zero, suc, ◌≡◌, refl, ◌∙◌, Bool, true, false, ◌||◌, arith, if◌then◌else◌, Bool-cases, inl, inr,
}
use go_netx.Base.Int.{ℤ, leb_ℤ, eqb_ℤ}
use go_netx.Flow.Seen.{is_frozen, thawed, frozen, is_frozen-frozen, thawed-frozen, frozen_same}
use go_netx.Flow.Life.{
  State, eq_state, open_state, closing, closed, Flow, Call, begin_close, close, touch, expire, Pc,
  outside, is_open, is_closed, freeze_word, last_seen, step,
}

-- `newInTable`, at the time that the clock reads.
unfoldable pub new_flow : ℤ → Flow
new_flow now = record { state = open_state; seen = thawed now }

unfoldable pub begin_close_flow : Flow → Flow × Bool
begin_close_flow f =
    if is_open f.state then (freeze_word (record f { state = closing }), true) else (f, false)

unfoldable pub close_flow : Flow → Flow × Bool
close_flow f =
    if is_closed f.state then (f, false) else (freeze_word (record f { state = closed }), true)

unfoldable pub touch_flow : ℤ → Flow → Flow
touch_flow t f =
    if is_frozen f.seen || leb_ℤ (thawed t) f.seen then f else record f { seen = thawed t }

unfoldable pub expire_flow : ℤ → Flow → Flow × Bool
expire_flow cutoff f = if leb_ℤ cutoff (thawed f.seen) then (f, false) else (freeze_word f, true)

pub is_closed-eq : (s : State) → is_closed s ≡ true → s ≡ closed
is_closed-eq open_state e = cc
is_closed-eq closing e = cc
is_closed-eq closed e = refl

-- A flow that Remove or a sweep has frozen, once Close has run on it.
pub close_frozen :
    (f : Flow)
    → let f' = (close_flow (freeze_word f)).0 in
      (f'.state ≡ closed) × (is_frozen f'.seen ≡ true) × (last_seen f' ≡ last_seen f)
unfolding close_flow last_seen
close_frozen f = elim (Bool-cases (is_closed f.state)) [
  | inl e ↦ (
    rw (e, close_flow) (is_closed-eq f.state e),
    rw (e, close_flow) (is_frozen-frozen f.seen),
    rw (e, close_flow) (thawed-frozen f.seen),
  )
  | inr e ↦ (
    rw (e, close_flow) refl,
    rw (e, close_flow) (is_frozen-frozen (frozen f.seen)),
    rw (e, close_flow) (thawed-frozen (frozen f.seen) ∙ thawed-frozen f.seen),
  )
]

eq_state_refl : (s : State) → eq_state s s ≡ true
eq_state_refl open_state = refl
eq_state_refl closing = refl
eq_state_refl closed = refl

eqb_ℤ_refl : (v : ℤ) → eqb_ℤ v v ≡ true
eqb_ℤ_refl v = ground arith

-- `n` steps of one goroutine in a call.
abbrev pub steps : ℕ → Call → Pc → Flow → Pc × Flow
steps zero c p f = (p, f)
steps (suc n) c p f = let (p', f', e) = step c p f in steps n c p' f'

-- Without interference each call ends, within three steps, in the state that its method above gives.
pub alone_runs :
    (f : Flow) (t : ℤ)
    → ((n : ℕ) × (steps n begin_close outside f ≡ (outside, (begin_close_flow f).0)))
      × ((n : ℕ) × (steps n close outside f ≡ (outside, (close_flow f).0)))
      × ((n : ℕ) × (steps n (touch t) outside f ≡ (outside, touch_flow t f)))
      × ((n : ℕ) × (steps n (expire t) outside f ≡ (outside, (expire_flow t f).0)))
unfolding step begin_close_flow close_flow touch_flow expire_flow
alone_runs f t = (begin_close_runs, close_runs, touch_runs, expire_runs)
  where
    begin_close_runs : (n : ℕ) × (steps n begin_close outside f ≡ (outside, (begin_close_flow f).0))
    begin_close_runs = elim (Bool-cases (is_open f.state)) [
      | inl e ↦ (2, rw e refl)
      | inr e ↦ (1, rw e refl)
    ]

    close_runs : (n : ℕ) × (steps n close outside f ≡ (outside, (close_flow f).0))
    close_runs = elim (Bool-cases (is_closed f.state)) [
      | inl e ↦ (1, rw e refl)
      | inr e ↦ (3, rw (e, eq_state_refl f.state) refl)
    ]

    touch_runs : (n : ℕ) × (steps n (touch t) outside f ≡ (outside, touch_flow t f))
    touch_runs = elim (Bool-cases (is_frozen f.seen || leb_ℤ (thawed t) f.seen)) [
      | inl e ↦ (2, rw e refl)
      | inr e ↦ (3, rw (e, eqb_ℤ_refl f.seen) refl)
    ]

    expire_runs : (n : ℕ) × (steps n (expire t) outside f ≡ (outside, (expire_flow t f).0))
    expire_runs = elim (Bool-cases (leb_ℤ t (thawed f.seen))) [
      | inl e ↦ (1, rw e refl)
      | inr e ↦ elim (Bool-cases (is_frozen f.seen)) [
        | inl set ↦ (1, rw (e, set) (ground (arith, frozen_same f.seen set)))
        | inr unset ↦ (2, rw (e, unset, eqb_ℤ_refl f.seen) refl)
      ]
    ]
