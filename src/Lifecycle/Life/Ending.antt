-- ===== src/Lifecycle/Life/Ending.antt =====
-- Where a server's life leads: its state never goes back, what has ended stays as it is, and what is stopped can end.
use go_netx.Base.{
  ◌≤◌, ◌≡◌, refl, sym, ap, ◌∙◌, inl, inr, true, false, not, ◌||◌, ◌&&◌, if-cases, arith, true≢false,
  Bool-cases,
}
use go_netx.Lifecycle.{
  State, state_new, state_starting, state_running, state_stopping, state_stopped, Server, is_new,
  is_stopped, begin, set_state, finish, force_abort, stop_server,
}
use go_netx.Lifecycle.Life.{
  Phase, begun, failing, serving, draining, ended, World, fresh, enter, Step, loops, start_fails,
  serves, stops, cuts, finishes, stop_called, shutdown_called, first_signal, second_signal, exits,
  Reach, here, after, rank,
}
use go_netx.Lifecycle.Life.Agreeing.{
  Agrees, state_of, is_ended, Reach-Agrees, Step-Agrees, shutdown_server-stop_server,
  stop_server_state,
}

-- What a step changes of the state.
enter-rank : (w : World) → rank w.server.state ≤ rank (enter w).server.state
unfolding enter begin
enter-rank w = elim (Bool-cases (is_new w.server.state)) [
  | inl e ↦ rw (e, enter, begin) (ground arith)
  | inr e ↦ rw (e, enter, begin) (omega arith)
]

rank_bound : (s : State) → rank s ≤ 4
rank_bound state_new = omega arith
rank_bound state_starting = omega arith
rank_bound state_running = omega arith
rank_bound state_stopping = omega arith
rank_bound state_stopped = omega arith

-- How far the server has come, by the place of the loop.
come : {p : Phase} (w : World) → Agrees w → w.phase ≡ p → rank w.server.state ≡ rank (state_of p)
come w a e = ap rank (a.state ∙ ap state_of e)

Step-rank : {w v : World} → Step w v → Agrees w → rank w.server.state ≤ rank v.server.state
unfolding set_state finish force_abort
Step-rank (loops w) a = enter-rank w
Step-rank (start_fails w e) a = omega arith
Step-rank (serves w e) a = omega (arith, come w a e)
Step-rank (stops w returned e may) a = omega (arith, come w a e)
Step-rank (cuts w e forced) a = omega arith
Step-rank (finishes w r e) a = omega (arith, rank_bound w.server.state)
Step-rank (stop_called w) a = omega (arith, ap rank (stop_server_state w.server).0)
Step-rank (shutdown_called w c) a = omega (
  arith,
  ap rank (
      ap (λ (s : Server). s.state) (shutdown_server-stop_server c w.server)
      ∙ (stop_server_state w.server).0),
)
Step-rank (first_signal w e) a = omega arith
Step-rank (second_signal w e) a =
    if-cases (λ (s : Server). rank w.server.state ≤ rank s.state)
      (w.server.has_force && not w.server.forced) (λ _. omega arith) (λ _. omega arith)
Step-rank (exits w e) a = omega arith

-- A server goes from new to starting, running, stopping and stopped, and never back, whatever calls and signals come
-- in between.
pub Reach-rank :
    {w v : World} → Reach fresh w → Reach w v → rank w.server.state ≤ rank v.server.state
Reach-rank {w = w} start r = go r (Reach-Agrees start)
  where
    go : {u v : World} → Reach u v → Agrees u → rank u.server.state ≤ rank v.server.state
    go (here w) a = omega arith
    go (after u v w s r) a = omega (arith, Step-rank s a, go r (Step-Agrees s a))

-- What stays when the loop has ended.
abbrev pub Final : World → World → Type 0
Final w v =
    (v.phase ≡ ended)
    × (v.server.state ≡ state_stopped)
    × (v.server.done ≡ true)
    × (v.server.result ≡ w.server.result)

ended-not : {A : Type 0} (p q : Phase) → p ≡ q → p ≡ ended → is_ended q ≡ false → A
ended-not p q e is h = absurd (true≢false (ap is_ended (sym is ∙ e) ∙ h))

-- A call of LoopContext on a server that is not new.
pub enter_refused : (w : World) → is_new w.server.state ≡ false → enter w ≡ w
unfolding enter begin
enter_refused w e = rw (e, enter, begin) refl

stopped_stop : (s : Server) → s.state ≡ state_stopped → (stop_server s).0 ≡ s
unfolding stop_server
stopped_stop s e =
    let refused : (is_new s.state || is_stopped s.state) ≡ true =
      ap (λ st. is_new st || is_stopped st) e in
    rw (refused, stop_server) refl

force_abort-result : (s : Server) → (force_abort s).result ≡ s.result
unfolding force_abort
force_abort-result s =
    if-cases (λ (t : Server). t.result ≡ s.result) (s.has_force && not s.forced) (λ _. refl)
      (λ _. refl)

-- A step of a loop that has ended.
Step-Final :
    {w v : World}
    → Step w v
    → Agrees w
    → w.phase ≡ ended
    → (v.phase ≡ ended) × (v.server.result ≡ w.server.result)
Step-Final (loops w) a is =
    let same = enter_refused w (ap is_new (a.state ∙ ap state_of is)) in
    (ap (λ (w : World). w.phase) same ∙ is, ap (λ (w : World). w.server.result) same)
Step-Final (start_fails w e) a is = ended-not w.phase begun e is refl
Step-Final (serves w e) a is = ended-not w.phase begun e is refl
Step-Final (stops w returned e may) a is = ended-not w.phase serving e is refl
Step-Final (cuts w e forced) a is = (is, refl)
Step-Final (finishes w r (inl e)) a is = ended-not w.phase draining e is refl
Step-Final (finishes w r (inr e)) a is = ended-not w.phase failing e is refl
Step-Final (stop_called w) a is =
    (is, ap (λ (s : Server). s.result) (stopped_stop w.server (a.state ∙ ap state_of is)))
Step-Final (shutdown_called w c) a is = (
  is,
  ap (λ (s : Server). s.result)
      (shutdown_server-stop_server c w.server ∙ stopped_stop w.server (a.state ∙ ap state_of is)),
)
Step-Final (first_signal w e) a is = (is, refl)
Step-Final (second_signal w e) a is = (is, force_abort-result w.server)
Step-Final (exits w e) a is = (is, refl)

-- What has ended stays ended: nothing that is called afterwards, and no signal, changes the state or the result that
-- Shutdown gives its callers, or opens `done` again.
pub Reach-Final : {w v : World} → Reach fresh w → w.phase ≡ ended → Reach w v → Final w v
Reach-Final {v = v} start is r = go r (Reach-Agrees start) is
  where
    go : {w : World} → Reach w v → Agrees w → w.phase ≡ ended → Final w v
    go (here w) a is = (is, a.state ∙ ap state_of is, a.done ∙ ap is_ended is, refl)
    go (after u v w s r) a is =
        let (is', same) = Step-Final s a is in
        let (end, state, done, result) = go r (Step-Agrees s a) is' in
        (end, state, done, result ∙ same)
