-- ===== src/Lifecycle/Life/Agreeing.antt =====
-- What holds of a server at every moment, whatever calls and signals come in between.
use go_netx.Base.{
  ℕ, ◌+◌, ◌≡◌, refl, sym, ap, subst, ◌∙◌, ◌⊎◌, inl, inr, Bool, true, false, ◌||◌, ◌&&◌, not, List,
  Option, if-cases, arith, Bool-cases,
}
use go_netx.Lifecycle.{
  State, state_new, state_starting, state_running, state_stopping, state_stopped, Err, Server,
  is_new, is_stopped, new_server, begin, set_state, finish, force_abort, stop_server,
  shutdown_server,
}
use go_netx.Lifecycle.Life.{
  Phase, idle, begun, failing, serving, draining, ended, Watcher, first, second, gone, World, fresh,
  enter, Step, loops, start_fails, serves, stops, cuts, finishes, stop_called, shutdown_called,
  first_signal, second_signal, exits, Reach, here, after,
}

-- The state that goes with the loop's place.
abbrev pub state_of : Phase → State
state_of idle = state_new
state_of begun = state_starting
state_of failing = state_starting
state_of serving = state_running
state_of draining = state_stopping
state_of ended = state_stopped

abbrev pub is_ended : Phase → Bool
is_ended ended = true
is_ended p = false

abbrev pub run_count : Phase → ℕ
run_count idle = 0
run_count p = 1

-- A drain is cut short only by a second signal.
abbrev pub Watched : Watcher → Bool → Bool → Type 0
Watched first parent_done forced = (parent_done ≡ false) × (forced ≡ false)
Watched second parent_done forced = (parent_done ≡ true) × (forced ≡ false)
Watched gone parent_done forced = (forced ≡ false) ⊎ (parent_done ≡ true)

-- The server's state is that of the loop's place; its channel `done` is closed at the end and not before; the loop has
-- run at most once; and the drain is cut short only after a first signal.
pub record Agrees (w : World) : Type 0 where
  pub state : w.server.state ≡ state_of w.phase
  pub done : w.server.done ≡ is_ended w.phase
  pub once : w.runs ≡ run_count w.phase
  pub watched : Watched w.watcher w.parent_done w.server.forced
  pub cut : (w.cut ≡ false) ⊎ (w.server.forced ≡ true)

fresh-Agrees : Agrees fresh
unfolding new_server
fresh-Agrees = record {
  state = refl;
  done = refl;
  once = refl;
  watched = (refl, refl);
  cut = inl refl;
}

-- Stop changes nothing of these.
pub stop_server_state :
    (s : Server)
    → ((stop_server s).0.state ≡ s.state)
      × ((stop_server s).0.done ≡ s.done)
      × ((stop_server s).0.forced ≡ s.forced)
unfolding stop_server
stop_server_state s =
    if-cases
      (λ (r : Server × List Err).
        (r.0.state ≡ s.state) × (r.0.done ≡ s.done) × (r.0.forced ≡ s.forced))
      (is_new s.state || is_stopped s.state) (λ _. (refl, refl, refl)) (λ _. (refl, refl, refl))

-- What Shutdown does to the server is what Stop does.
pub shutdown_server-stop_server :
    (c : Option (List Err)) (s : Server) → (shutdown_server c s).0 ≡ (stop_server s).0
unfolding shutdown_server stop_server
shutdown_server-stop_server c s = elim (Bool-cases (is_new s.state || is_stopped s.state)) [
  | inl e ↦ rw (e, shutdown_server, stop_server) refl
  | inr e ↦ rw (e, shutdown_server, stop_server) refl
]

-- Another server in the same place of the loop.
same_phase-Agrees :
    (w : World) (s : Server)
    → s.state ≡ w.server.state
    → s.done ≡ w.server.done
    → s.forced ≡ w.server.forced
    → Agrees w
    → Agrees (record w { server = s })
same_phase-Agrees w s state done forced a = record {
  state = state ∙ a.state;
  done = done ∙ a.done;
  once = a.once;
  watched = subst (Watched w.watcher w.parent_done) (sym forced) a.watched;
  cut = elim a.cut [ inl e ↦ inl e | inr e ↦ inr (forced ∙ e) ];
}

stop-Agrees : (w : World) → Agrees w → Agrees (record w { server = (stop_server w.server).0 })
stop-Agrees w a =
    let (state, done, forced) = stop_server_state w.server in
    same_phase-Agrees w (stop_server w.server).0 state done forced a

pub new-idle : (p : Phase) → is_new (state_of p) ≡ true → p ≡ idle
new-idle idle e = refl
new-idle begun e = absurd (ground arith)
new-idle failing e = absurd (ground arith)
new-idle serving e = absurd (ground arith)
new-idle draining e = absurd (ground arith)
new-idle ended e = absurd (ground arith)

enter-Agrees : (w : World) → Agrees w → Agrees (enter w)
unfolding enter begin
enter-Agrees w a = elim (Bool-cases (is_new w.server.state)) [
  | inr e ↦ rw (e, enter, begin) a
  | inl e ↦
      let idle_now = new-idle w.phase (ap is_new (sym a.state) ∙ e) in
      rw (e, enter, begin)
        (record {
          state = refl;
          done = a.done ∙ ap is_ended idle_now;
          once = ap (λ n. n + 1) (a.once ∙ ap run_count idle_now);
          watched = a.watched;
          cut = a.cut;
        })
]

-- The place of the loop changes, and the server's state with it.
move-Agrees :
    (w : World) (p : Phase) (s : Server)
    → s.state ≡ state_of p
    → s.done ≡ is_ended p
    → run_count w.phase ≡ run_count p
    → s.forced ≡ w.server.forced
    → Agrees w
    → Agrees (record w { server = s; phase = p })
move-Agrees w p s state done once forced a = record {
  state = state;
  done = done;
  once = a.once ∙ once;
  watched = subst (Watched w.watcher w.parent_done) (sym forced) a.watched;
  cut = elim a.cut [ inl e ↦ inl e | inr e ↦ inr (forced ∙ e) ];
}

Watched-gone : (k : Watcher) (p f : Bool) → Watched k p f → Watched gone p f
Watched-gone first p f h = inl h.1
Watched-gone second p f h = inl h.1
Watched-gone gone p f h = h

watch-Agrees :
    (w : World) (k : Watcher) (p : Bool)
    → Watched k p w.server.forced
    → Agrees w
    → Agrees (record w { watcher = k; parent_done = p })
watch-Agrees w k p h a = record {
  state = a.state;
  done = a.done;
  once = a.once;
  watched = h;
  cut = a.cut;
}

force-Agrees :
    (w : World)
    → w.watcher ≡ second
    → Agrees w
    → Agrees (record w { server = force_abort w.server; watcher = gone })
unfolding force_abort
force-Agrees w e a =
    let watched = subst (λ k. Watched k w.parent_done w.server.forced) e a.watched in
    if-cases (λ (s : Server). Agrees (record w { server = s; watcher = gone }))
      (w.server.has_force && not w.server.forced)
      (λ _. record {
        state = a.state;
        done = a.done;
        once = a.once;
        watched = inr watched.0;
        cut = inr refl;
      })
      (λ _. watch-Agrees w gone w.parent_done (inl watched.1) a)

pub Step-Agrees : {w v : World} → Step w v → Agrees w → Agrees v
unfolding set_state finish
Step-Agrees (loops w) a = enter-Agrees w a
Step-Agrees (start_fails w e) a =
    move-Agrees w failing w.server (a.state ∙ ap state_of e) (a.done ∙ ap is_ended e)
      (ap run_count e) refl a
Step-Agrees (serves w e) a =
    move-Agrees w serving _ refl (a.done ∙ ap is_ended e) (ap run_count e) refl a
Step-Agrees (stops w returned e may) a =
    move-Agrees w draining _ refl (a.done ∙ ap is_ended e) (ap run_count e) refl a
Step-Agrees (cuts w e forced) a = record {
  state = a.state;
  done = a.done;
  once = a.once;
  watched = a.watched;
  cut = inr forced;
}
Step-Agrees (finishes w r (inl e)) a = move-Agrees w ended _ refl refl (ap run_count e) refl a
Step-Agrees (finishes w r (inr e)) a = move-Agrees w ended _ refl refl (ap run_count e) refl a
Step-Agrees (stop_called w) a = stop-Agrees w a
Step-Agrees (shutdown_called w c) a =
    subst (λ s. Agrees (record w { server = s })) (sym (shutdown_server-stop_server c w.server))
      (stop-Agrees w a)
Step-Agrees (first_signal w e) a =
    watch-Agrees w second true
      (refl, (subst (λ k. Watched k w.parent_done w.server.forced) e a.watched).1) a
Step-Agrees (second_signal w e) a = force-Agrees w e a
Step-Agrees (exits w e) a =
    watch-Agrees w gone w.parent_done
      (Watched-gone w.watcher w.parent_done w.server.forced a.watched) a

Reach-Agrees_from : {w v : World} → Reach w v → Agrees w → Agrees v
Reach-Agrees_from (here w) a = a
Reach-Agrees_from (after u v w s r) a = Reach-Agrees_from r (Step-Agrees s a)

-- Whatever calls of Stop, Shutdown and LoopContext and whatever signals come between the loop's own moves, at every
-- moment: the server's state is that of the loop's place, `done` is closed exactly when the loop has ended, the
-- loop has begun at most once, and the drain is cut short only if the goroutine of Loop has forced it, which
-- takes a second signal after the one that ended the loop's context.
pub Reach-Agrees : {w : World} → Reach fresh w → Agrees w
Reach-Agrees r = Reach-Agrees_from r fresh-Agrees
