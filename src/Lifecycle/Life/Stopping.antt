-- ===== src/Lifecycle/Life/Stopping.antt =====
-- A stop is not lost: once it is accepted, the loop is never held up, and makes three moves at most.
use go_netx.Base.{
  ℕ, ◌+◌, ◌≤◌, if◌then◌else◌, Bool, ◌≡◌, refl, sym, ap, subst, ◌∙◌, ◌⊎◌, inl, inr, true, false, not,
  ◌||◌, ◌&&◌, List, [], if-cases, arith, true≢false, Bool-cases,
}
use go_netx.Lifecycle.{
  Err, Server, is_nil, is_new, is_stopped, set_state, finish, force_abort, stop_server,
}
use go_netx.Lifecycle.Life.{
  Phase, idle, begun, failing, serving, draining, ended, World, fresh, Step, loops, start_fails,
  serves, stops, cuts, finishes, stop_called, shutdown_called, first_signal, second_signal, exits,
  Reach, here, after,
}
use go_netx.Lifecycle.Life.Agreeing.{
  Agrees, state_of, Reach-Agrees, Step-Agrees, shutdown_server-stop_server,
}
use go_netx.Lifecycle.Life.Ending.{enter_refused}

-- The loop has begun, and its stop context is cancelled.
abbrev pub Stopped : World → Type 0
Stopped w = (is_new (state_of w.phase) ≡ false) × (w.server.stopped ≡ true)

stop-stopped : (s : Server) → s.stopped ≡ true → (stop_server s).0.stopped ≡ true
unfolding stop_server
stop-stopped s e =
    if-cases (λ (r : Server × List Err). r.0.stopped ≡ true) (is_new s.state || is_stopped s.state)
      (λ _. e) (λ _. refl)

force-stopped : (s : Server) → s.stopped ≡ true → (force_abort s).stopped ≡ true
unfolding force_abort
force-stopped s e =
    if-cases (λ (t : Server). t.stopped ≡ true) (s.has_force && not s.forced) (λ _. e) (λ _. e)

Step-Stopped : {w v : World} → Step w v → Agrees w → Stopped w → Stopped v
unfolding set_state finish
Step-Stopped (loops w) a (new, e) =
    subst Stopped (sym (enter_refused w (ap is_new a.state ∙ new))) (new, e)
Step-Stopped (start_fails w p) a (new, e) = (refl, e)
Step-Stopped (serves w p) a (new, e) = (refl, e)
Step-Stopped (stops w returned p may) a (new, e) = (refl, e)
Step-Stopped (cuts w p forced) a (new, e) = (new, e)
Step-Stopped (finishes w r p) a (new, e) = (refl, refl)
Step-Stopped (stop_called w) a (new, e) = (new, stop-stopped w.server e)
Step-Stopped (shutdown_called w c) a (new, e) = (
  new,
  ap (λ (s : Server). s.stopped) (shutdown_server-stop_server c w.server) ∙ stop-stopped w.server e,
)
Step-Stopped (first_signal w p) a (new, e) = (new, e)
Step-Stopped (second_signal w p) a (new, e) = (new, force-stopped w.server e)
Step-Stopped (exits w p) a (new, e) = (new, e)

Reach-Stopped : {w v : World} → Reach w v → Agrees w → Stopped w → Stopped v
Reach-Stopped (here w) a h = h
Reach-Stopped (after u v w s r) a h = Reach-Stopped r (Step-Agrees s a) (Step-Stopped s a h)

-- The moves of LoopContext's own goroutine, after `begin`.
abbrev pub is_move : {w v : World} → Step w v → Bool
is_move (loops w) = false
is_move (start_fails w p) = true
is_move (serves w p) = true
is_move (stops w returned p may) = true
is_move (cuts w p forced) = false
is_move (finishes w r p) = true
is_move (stop_called w) = false
is_move (shutdown_called w c) = false
is_move (first_signal w p) = false
is_move (second_signal w p) = false
is_move (exits w p) = false

-- A move that takes Serve to return before it is asked to.
abbrev pub needs_return : {w v : World} → Step w v → Bool
needs_return (loops w) = false
needs_return (start_fails w p) = false
needs_return (serves w p) = false
needs_return (stops w returned p may) = returned
needs_return (cuts w p forced) = false
needs_return (finishes w r p) = false
needs_return (stop_called w) = false
needs_return (shutdown_called w c) = false
needs_return (first_signal w p) = false
needs_return (second_signal w p) = false
needs_return (exits w p) = false

-- The loop can move on, though Serve does not return before Shutdown asks it to.
abbrev pub CanMove : World → Type 0
CanMove w = (v : World) × (s : Step w v) × (is_move s ≡ true) × (needs_return s ≡ false)

-- How many of the loop's moves there are on the way.
abbrev pub move_count : {w v : World} → Reach w v → ℕ
move_count (here w) = 0
move_count (after u v w s r) = (if is_move s then 1 else 0) + move_count r

-- How many moves there can be from here.
abbrev left : Phase → ℕ
left idle = 3
left begun = 3
left serving = 2
left failing = 1
left draining = 1
left ended = 0

Stopped-CanMove : (w : World) (p : Phase) → w.phase ≡ p → Stopped w → (w.phase ≡ ended) ⊎ CanMove w
Stopped-CanMove w idle p (new, e) =
    absurd (true≢false (ap (λ q. is_new (state_of q)) (sym p) ∙ new))
Stopped-CanMove w begun p (new, e) = inr (_, serves w p, refl, refl)
Stopped-CanMove w failing p (new, e) = inr (_, finishes w [] (inr p), refl, refl)
Stopped-CanMove w serving p (new, e) = inr (_, stops w false p (ground arith), refl, refl)
Stopped-CanMove w draining p (new, e) = inr (_, finishes w [] (inl p), refl, refl)
Stopped-CanMove w ended p (new, e) = inl p

Step-left :
    {w v : World} (s : Step w v)
    → Agrees w
    → Stopped w
    → (if is_move s then 1 else 0) + left v.phase ≤ left w.phase
Step-left (loops w) a (new, e) =
    omega (arith, ap (λ (u : World). left u.phase) (enter_refused w (ap is_new a.state ∙ new)))
Step-left (start_fails w p) a h = omega (arith, ap left p)
Step-left (serves w p) a h = omega (arith, ap left p)
Step-left (stops w returned p may) a h = omega (arith, ap left p)
Step-left (cuts w p forced) a h = omega arith
Step-left (finishes w r (inl p)) a h = omega (arith, ap left p)
Step-left (finishes w r (inr p)) a h = omega (arith, ap left p)
Step-left (stop_called w) a h = omega arith
Step-left (shutdown_called w c) a h = omega arith
Step-left (first_signal w p) a h = omega arith
Step-left (second_signal w p) a h = omega arith
Step-left (exits w p) a h = omega arith

Reach-left :
    {w v : World} (r : Reach w v)
    → Agrees w
    → Stopped w
    → move_count r + left v.phase ≤ left w.phase
Reach-left (here w) a h = omega arith
Reach-left (after u v w s r) a h =
    omega (arith, Step-left s a h, Reach-left r (Step-Agrees s a) (Step-Stopped s a h))

left_bound : (p : Phase) → left p ≤ 3
left_bound idle = omega arith
left_bound begun = omega arith
left_bound serving = omega arith
left_bound failing = omega arith
left_bound draining = omega arith
left_bound ended = omega arith

accepted-Stopped :
    (w : World)
    → Agrees w
    → (stop_server w.server).1 ≡ []
    → Stopped (record w { server = (stop_server w.server).0 })
unfolding stop_server
accepted-Stopped w a accepted =
    elim (Bool-cases (is_new w.server.state || is_stopped w.server.state)) [
      | inl e ↦ absurd (true≢false (sym (ap is_nil accepted) ∙ rw (e, stop_server) refl))
      | inr e ↦ (ap is_new (sym a.state) ∙ ground arith, rw (e, stop_server) refl)
    ]

-- A Stop that is accepted is not lost, even while OnStart runs: at every moment after it, whatever calls and signals
-- have come, the loop has ended or can move on, though Serve does not return before Shutdown asks it to; and it has
-- made three moves since at most. The move after OnStart is made when that returns, and the one to the end when
-- Shutdown, Serve and OnStop have.
pub stop_ends :
    {w v : World}
    → Reach fresh w
    → (stop_server w.server).1 ≡ []
    → (r : Reach (record w { server = (stop_server w.server).0 }) v)
    → ((v.phase ≡ ended) ⊎ CanMove v) × (move_count r ≤ 3)
stop_ends {w = w} {v = v} start accepted r =
    let a = Reach-Agrees start in
    let a' = Step-Agrees (stop_called w) a in
    let stopped = accepted-Stopped w a accepted in
    (
      Stopped-CanMove v v.phase refl (Reach-Stopped r a' stopped),
      omega (arith, Reach-left r a' stopped, left_bound w.phase),
    )
