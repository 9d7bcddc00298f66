-- ===== src/Flow/Life/Race.antt =====
-- What holds of a flow in every interleaving: the frozen flag is final, LastSeen never moves backwards, the
-- state only goes forward, and one Close wins.
use go_netx.Base.{
  ℕ, ◌≤◌, ◌≡◌, refl, ◌∙◌, true, false, List, [], ◌∷◌, arith, ◌||◌, Bool-cases, inl, inr,
}
use go_netx.Base.Int.{ℤ, ◌≤ℤ◌, ◌<ℤ◌, leb_ℤ, eqb_ℤ, eq_of_parts}
use go_netx.Interleaving.{System, run, move, AllAllowed, run-Inv}
use go_netx.Flow.Seen.{is_frozen, thawed, is_frozen-thawed, thawed-frozen, frozen_same, thawed_same}
use go_netx.Flow.Life.{
  State, open_state, closing, closed, Flow, Call, begin_close, close, freeze, touch, expire, Pc,
  outside, freezing, closing_loop, close_loaded, touch_loop, touch_loaded, expire_loaded, Event,
  is_open, is_closed, eq_state, freeze_word, load_state, load_word, load_expiry, step,
}

-- Open → Closing → Closed
abbrev pub rank : State → ℕ
rank open_state = 0
rank closing = 1
rank closed = 2

-- What the others may change.
pub record Onward (f f' : Flow) : Type 0 where
  pub later : thawed f.seen ≤ℤ thawed f'.seen
  pub final : is_frozen f.seen ≡ true → f'.seen ≡ f.seen
  pub forward : rank f.state ≤ rank f'.state

-- What a goroutine knows of what it has loaded.
abbrev pub Ok : Flow → Pc → Type 0
Ok f outside = Unit {0}
Ok f freezing = 1 ≤ rank f.state
Ok f closing_loop = Unit {0}
Ok f (close_loaded s) = is_closed s ≡ false
Ok f (touch_loop now) = is_frozen now ≡ false
Ok f (touch_loaded now v) = (is_frozen now ≡ false) × (is_frozen v ≡ false) × (v <ℤ now)
Ok f (expire_loaded cutoff v) = (is_frozen v ≡ false) × (thawed v <ℤ cutoff)

pub Onward-refl : (f : Flow) → Onward f f
Onward-refl f = record { later = omega arith; final = λ _. refl; forward = omega arith }

pub Onward-trans : (f g h : Flow) → Onward f g → Onward g h → Onward f h
Onward-trans f g h p q = record {
  later = omega (arith, p.later, q.later);
  final = λ e. let same = p.final e in q.final (rw same e) ∙ same;
  forward = omega (arith, p.forward, q.forward);
}

freeze-Onward : (f : Flow) → Onward f (freeze_word f)
freeze-Onward f = record {
  later = rw (thawed-frozen f.seen) (omega arith);
  final = λ e. frozen_same f.seen e;
  forward = omega arith;
}

-- A newer time replaces the word that was loaded.
touch-Onward :
    (f : Flow) (now v : ℤ)
    → f.seen ≡ v
    → is_frozen now ≡ false
    → is_frozen v ≡ false
    → v <ℤ now
    → Onward f (record f { seen = now })
touch-Onward f now v same even kept newer = record {
  later = rw (same, thawed_same v kept, thawed_same now even) (omega arith);
  final = λ e. ground arith;
  forward = omega arith;
}

pub stable : (f f' : Flow) (p : Pc) → Onward f f' → Ok f p → Ok f' p
stable f f' outside on ok = tt
stable f f' freezing on ok = omega (arith, on.forward)
stable f f' closing_loop on ok = tt
stable f f' (close_loaded s) on ok = ok
stable f f' (touch_loop now) on ok = ok
stable f f' (touch_loaded now v) on ok = ok
stable f f' (expire_loaded cutoff v) on ok = ok

abbrev pub Free : Call → Pc → Flow → Type 0
Free c p f = Unit {0}

abbrev pub Keeps : Flow → Pc × Flow × Event → Type 0
Keeps f (p', f', e) = Unit {0} × Ok f' p' × Onward f f'

load_state-Keeps : (f : Flow) → Keeps f (load_state f)
load_state-Keeps f = elim (Bool-cases (is_closed f.state)) [
  | inl e ↦ rw e (tt, tt, Onward-refl f)
  | inr e ↦ rw e (tt, e, Onward-refl f)
]

load_word-Keeps : (now : ℤ) (f : Flow) → is_frozen now ≡ false → Keeps f (load_word now f)
load_word-Keeps now f even = elim (Bool-cases (is_frozen f.seen || leb_ℤ now f.seen)) [
  | inl e ↦ rw e (tt, tt, Onward-refl f)
  | inr e ↦ rw e (tt, (even, ground arith, ground arith), Onward-refl f)
]

load_expiry-Keeps : (cutoff : ℤ) (f : Flow) → Keeps f (load_expiry cutoff f)
load_expiry-Keeps cutoff f = elim (Bool-cases (leb_ℤ cutoff (thawed f.seen))) [
  | inl e ↦ rw e (tt, tt, Onward-refl f)
  | inr e ↦ elim (Bool-cases (is_frozen f.seen)) [
    | inl set ↦ rw (e, set) (tt, tt, Onward-refl f)
    | inr unset ↦ rw (e, unset) (tt, (unset, ground arith), Onward-refl f)
  ]
]

begin_close-Keeps : (f : Flow) → Keeps f (step begin_close outside f)
unfolding step
begin_close-Keeps f = elim (Bool-cases (is_open f.state)) [
  | inl e ↦
      rw e
        (tt, omega arith, record { later = omega arith; final = λ _. refl; forward = ground arith })
  | inr e ↦ rw e (tt, tt, Onward-refl f)
]

close_swap-Keeps : (c : Call) (f : Flow) (s : State) → Keeps f (step c (close_loaded s) f)
unfolding step
close_swap-Keeps c f s = elim (Bool-cases (eq_state f.state s)) [
  | inl e ↦
      rw e
        (tt, omega arith, record { later = omega arith; final = λ _. refl; forward = ground arith })
  | inr e ↦ rw e (tt, tt, Onward-refl f)
]

touch_swap-Keeps :
    (c : Call) (f : Flow) (now v : ℤ)
    → Ok f (touch_loaded now v)
    → Keeps f (step c (touch_loaded now v) f)
unfolding step
touch_swap-Keeps c f now v (even, kept, newer) = elim (Bool-cases (eqb_ℤ f.seen v)) [
  | inl e ↦
      rw e (tt, tt, touch-Onward f now v (eq_of_parts f.seen v (ground arith)) even kept newer)
  | inr e ↦ rw e (tt, even, Onward-refl f)
]

expire_swap-Keeps :
    (c : Call) (f : Flow) (cutoff v : ℤ) → Keeps f (step c (expire_loaded cutoff v) f)
unfolding step
expire_swap-Keeps c f cutoff v = elim (Bool-cases (eqb_ℤ f.seen v)) [
  | inl e ↦
      let same : f.seen ≡ v = eq_of_parts f.seen v (ground arith) in
      rw (e, ← same) (tt, tt, freeze-Onward f)
  | inr e ↦ rw e (tt, tt, Onward-refl f)
]

pub step-Keeps :
    (c : Call) (p : Pc) (f : Flow) → Unit {0} → Ok f p → Free c p f → Keeps f (step c p f)
step-Keeps begin_close outside f _ ok _ = begin_close-Keeps f
step-Keeps close outside f _ ok _ = unfold step in load_state-Keeps f
step-Keeps freeze outside f _ ok _ = unfold step in (tt, tt, freeze-Onward f)
step-Keeps (touch now) outside f _ ok _ = unfold step in (tt, is_frozen-thawed now, Onward-refl f)
step-Keeps (expire cutoff) outside f _ ok _ = unfold step in load_expiry-Keeps cutoff f
step-Keeps c freezing f _ ok _ = unfold step in (tt, tt, freeze-Onward f)
step-Keeps c closing_loop f _ ok _ = unfold step in load_state-Keeps f
step-Keeps c (close_loaded s) f _ ok _ = close_swap-Keeps c f s
step-Keeps c (touch_loop now) f _ ok _ = unfold step in load_word-Keeps now f ok
step-Keeps c (touch_loaded now v) f _ ok _ = touch_swap-Keeps c f now v ok
step-Keeps c (expire_loaded cutoff v) f _ ok _ = expire_swap-Keeps c f cutoff v

-- Every step is allowed.
pub free : (ms : List (ℕ × Call)) (sys : System step) → AllAllowed step Free sys ms
free [] sys = tt
free ((i, c) ∷ ms) sys = (tt, free ms (move step sys (i, c)))

-- A flow at the start of a run, with every goroutine outside.
abbrev pub start : Flow → System step
start f = record { shared = f; local = λ i. outside }

module _ (Inv : Flow → Type 0) (kept : (f f' : Flow) → Onward f f' → Inv f → Inv f') where
  -- What survives every step survives every run.
  pub holds :
      (c : Call) (p : Pc) (f : Flow)
      → Inv f
      → Ok f p
      → Free c p f
      → let (p', f', e) = step c p f in Inv f' × Ok f' p' × Onward f f'
  holds c p f inv ok all =
      let (_, ok', on) = step-Keeps c p f tt ok all in (kept f _ on inv, ok', on)

-- Where any number of goroutines that start outside have got to.
abbrev pub Reached : Flow → List (ℕ × Call) → Type 0
Reached f ms =
    ((j : ℕ) → Ok (run step (start f) ms).shared ((run step (start f) ms).local j))
    × Onward f (run step (start f) ms).shared

pub reached : (f : Flow) (ms : List (ℕ × Call)) → Reached f ms
reached f ms =
    let (_, oks, on) =
      run-Inv step Free (λ _. Unit {0}) Ok Onward step-Keeps stable Onward-refl Onward-trans ms
        (start f) tt (λ j. tt) (free ms (start f)) in
    (oks, on)

-- In any interleaving of the steps of any number of goroutines: LastSeen never moves backwards, once the
-- frozen flag is set the word never changes again, and the state only goes Open, Closing, Closed.
pub flow-Onward : (f : Flow) (ms : List (ℕ × Call)) → Onward f (run step (start f) ms).shared
flow-Onward f ms = (reached f ms).1
