-- ===== src/Flow/Life/Frozen.antt =====
-- A flow that is frozen stays as it is, and one that was touched in time is not expired.
use go_netx.Base.{ℕ, ◌≡◌, ap, subst, ◌∙◌, ◌⊎◌, true, false, List, arith, Bool-cases, inl, inr}
use go_netx.Base.Int.{ℤ, ◌≤ℤ◌, ◌<ℤ◌, eqb_ℤ, eq_of_parts}
use go_netx.Interleaving.{System, run, move, events, total, run-none, run-Inv, move-Ok}
use go_netx.Flow.Seen.{is_frozen, thawed, frozen, is_frozen-frozen, thawed-frozen}
use go_netx.Flow.Life.{
  Flow, Call, begin_close, close, freeze, touch, expire, Pc, outside, freezing, closing_loop,
  close_loaded, touch_loop, touch_loaded, expire_loaded, Event, touched, expired, last_seen, step,
}
use go_netx.Flow.Life.Race.{
  Ok, Onward, Onward-refl, Onward-trans, stable, Free, step-Keeps, free, start, holds, reached,
}

abbrev pub IsFrozen : Flow → Type 0
IsFrozen f = is_frozen f.seen ≡ true

IsFrozen-kept : (f f' : Flow) → Onward f f' → IsFrozen f → IsFrozen f'
IsFrozen-kept f f' on h = rw (on.final h) h

abbrev pub count_touched : Event → ℕ
count_touched (touched true) = 1
count_touched e = 0

step-untouched :
    (c : Call) (p : Pc) (f : Flow)
    → IsFrozen f
    → Ok f p
    → Free c p f
    → let (p', f', e) = step c p f in count_touched e ≡ 0
unfolding step
step-untouched begin_close outside f frozen_now ok _ = ground arith
step-untouched close outside f frozen_now ok _ = ground arith
step-untouched freeze outside f frozen_now ok _ = ground arith
step-untouched (touch now) outside f frozen_now ok _ = ground arith
step-untouched (expire cutoff) outside f frozen_now ok _ = ground arith
step-untouched c freezing f frozen_now ok _ = ground arith
step-untouched c closing_loop f frozen_now ok _ = ground arith
step-untouched c (close_loaded s) f frozen_now ok _ = ground arith
step-untouched c (touch_loop now) f frozen_now ok _ = ground arith
step-untouched c (touch_loaded now v) f frozen_now ok _ = ground (arith, eq_of_parts f.seen v)
step-untouched c (expire_loaded cutoff v) f frozen_now ok _ = ground arith

-- A run of a flow that is frozen changes its word no more, and no Touch in it records anything.
frozen_run :
    (ms : List (ℕ × Call)) (sys : System step)
    → IsFrozen sys.shared
    → ((j : ℕ) → Ok sys.shared (sys.local j))
    → ((run step sys ms).shared.seen ≡ sys.shared.seen)
      × (total step count_touched (events step sys ms) ≡ 0)
frozen_run ms sys frozen_now oks =
    let (_, _, on) =
      run-Inv step Free IsFrozen Ok Onward (holds IsFrozen IsFrozen-kept) stable Onward-refl
        Onward-trans ms sys frozen_now oks (free ms sys) in
    let quiet =
      run-none step Free IsFrozen Ok Onward (holds IsFrozen IsFrozen-kept) stable Onward-refl
        Onward-trans count_touched step-untouched ms sys frozen_now oks (free ms sys) in
    (on.final frozen_now, quiet)

-- The step of a goroutine that is about to freeze.
abbrev pub Freezes : Pc → Call → Type 0
Freezes p c = (p ≡ freezing) ⊎ ((p ≡ outside) × (c ≡ freeze))

freeze_step : (c : Call) (p : Pc) (f : Flow) → Freezes p c → (step c p f).1.seen ≡ frozen f.seen
unfolding step
freeze_step c p f (inl e) = rw e
freeze_step c p f (inr (e, which)) = rw (e, which)

-- When BeginClose, Close or Remove has frozen a flow, at whatever point of whatever interleaving, the word
-- is the frozen one from then on, whatever calls follow, and no Touch of theirs records anything.
pub touch_after_close :
    (f : Flow) (before after : List (ℕ × Call)) (i : ℕ) (c : Call)
    → let sys = run step (start f) before in
      Freezes (sys.local i) c
      → let sys' = move step sys (i, c) in
        ((run step sys' after).shared.seen ≡ frozen sys.shared.seen)
        × (total step count_touched (events step sys' after) ≡ 0)
unfolding move
touch_after_close f before after i c which =
    let sys = run step (start f) before in
    let (oks, on) = reached f before in
    let same = freeze_step c (sys.local i) sys.shared which in
    let oks' =
      move-Ok step Free (λ _. Unit {0}) Ok Onward step-Keeps stable Onward-refl Onward-trans sys i c
        tt oks tt in
    let (unchanged, quiet) =
      frozen_run after (move step sys (i, c)) (rw same (is_frozen-frozen sys.shared.seen)) oks' in
    (unchanged ∙ same, quiet)

expire_late :
    (c : Call) (f : Flow) (cutoff v : ℤ)
    → Ok f (expire_loaded cutoff v)
    → cutoff ≤ℤ thawed f.seen
    → step c (expire_loaded cutoff v) f ≡ (outside, f, expired false)
unfolding step
expire_late c f cutoff v (kept, early) in_time = elim (Bool-cases (eqb_ℤ f.seen v)) [
  | inl e ↦
      let same : thawed f.seen ≡ thawed v = ap thawed (eq_of_parts f.seen v (ground arith)) in
      absurd (below (subst (λ w. cutoff ≤ℤ w) same in_time))
  | inr e ↦ rw e
]
  where
    below : ¬ (cutoff ≤ℤ thawed v)
    below h = omega arith

expire_won :
    (c : Call) (f : Flow) (cutoff v : ℤ)
    → (step c (expire_loaded cutoff v) f).2 ≡ expired true
    → (step c (expire_loaded cutoff v) f).1.seen ≡ frozen v
unfolding step
expire_won c f cutoff v won = ground arith

-- Where a goroutine in expire, of whatever interleaving, stands before its swap: if the flow's LastSeen has
-- reached the cutoff by then, the call returns false and changes nothing, so a flow touched in time is kept.
pub touched_in_time :
    (f : Flow) (ms : List (ℕ × Call)) (i : ℕ) (c : Call) (cutoff v : ℤ)
    → let sys = run step (start f) ms in
      sys.local i ≡ expire_loaded cutoff v
      → cutoff ≤ℤ last_seen sys.shared
      → step c (sys.local i) sys.shared ≡ (outside, sys.shared, expired false)
unfolding last_seen
touched_in_time f ms i c cutoff v here in_time =
    let sys = run step (start f) ms in
    let known : Ok sys.shared (expire_loaded cutoff v) =
      subst (Ok sys.shared) here ((reached f ms).0 i) in
    rw here (expire_late c sys.shared cutoff v known in_time)

-- Where a goroutine in expire, of whatever interleaving, makes its swap and returns true, the flow is frozen
-- and its LastSeen is below the cutoff after any further steps of any goroutines.
pub expired_for_good :
    (f : Flow) (before after : List (ℕ × Call)) (i : ℕ) (c : Call) (cutoff v : ℤ)
    → let sys = run step (start f) before in
      sys.local i ≡ expire_loaded cutoff v
      → (step c (sys.local i) sys.shared).2 ≡ expired true
      → let f' = (run step (move step sys (i, c)) after).shared in
        IsFrozen f' × (last_seen f' <ℤ cutoff)
unfolding move last_seen
expired_for_good f before after i c cutoff v here won =
    let sys = run step (start f) before in
    let (oks, on) = reached f before in
    let known : Ok sys.shared (expire_loaded cutoff v) = subst (Ok sys.shared) here (oks i) in
    let same : (move step sys (i, c)).shared.seen ≡ frozen v =
      rw here (expire_won c sys.shared cutoff v (rw here at won)) in
    let oks' =
      move-Ok step Free (λ _. Unit {0}) Ok Onward step-Keeps stable Onward-refl Onward-trans sys i c
        tt oks tt in
    let (unchanged, _) =
      frozen_run after (move step sys (i, c)) (rw same (is_frozen-frozen v)) oks' in
    let word : (run step (move step sys (i, c)) after).shared.seen ≡ frozen v = unchanged ∙ same in
    (rw word (is_frozen-frozen v), rw (word, thawed-frozen v) known.1)
