-- ===== src/Lifecycle/Tests.antt =====
-- A run whose service fails before it is stopped, and whose OnError panics.
use go_netx.Base.{
  ℕ, zero, suc, ◌<◌, ◌≤◌, ◌⊎◌, arith, inl, false, List, ◌≡◌, refl, true, [], ◌∷◌, ◌++◌, none, some,
}
use go_netx.Lifecycle.{
  Err, new_server, begin, set_state, finish, stop_server, state_running, state_stopping, other,
  returned, panicked, Script, run_service,
}
use go_netx.Lifecycle.Life.{
  World, fresh, enter, Reach, here, after, loops, serves, stops, finishes, first_signal, serving,
  ended, second,
}
use go_netx.Lifecycle.Life.Agreeing.{Agrees, Reach-Agrees}
use go_netx.Lifecycle.Life.Stopping.{CanMove, move_count, stop_ends}
use go_netx.Lifecycle.Group.{
  Event, service_returns, parent_ends, new_group, group_serve, group_result,
}
use go_netx.Lifecycle.Group.Joined.{joined, member, aborts, group_serve_lem}
use go_netx.Lifecycle.Order.{reported, SeenOnce, failure-SeenOnce}

abbrev failing : Script
failing = record {
  on_start = some (returned []);
  serve_ends = returned (other 7 ∷ []);
  serve_first = true;
  in_grace = true;
  shutdown_ends = returned [];
  on_stop = none;
  on_error = some panicked;
}

failure-SeenOnce_example :
    SeenOnce panicked (run_service failing).0 (reported (run_service failing).1)
failure-SeenOnce_example = failure-SeenOnce failing panicked refl

-- LoopContext has begun, and then Stop is called while OnStart runs.
abbrev started : World
started = enter fresh

starts_up : Reach fresh started
starts_up = after _ _ _ (loops fresh) (here _)

-- The service is served, a signal stops it, and the loop ends with an error.
abbrev run_on : World → World
run_on w = record w {
  server = finish (other 7 ∷ []) (set_state state_stopping (set_state state_running w.server));
  phase = ended;
  parent_done = true;
  watcher = second;
}

runs_on_signal : Reach fresh (run_on started)
unfolding enter begin set_state new_server
runs_on_signal = after _ _ _ (loops fresh) (
    after _ _ _ (serves started refl) (
      after _ _ _ (first_signal _ refl) (
        after _ _ _ (stops _ false refl refl)
          (after _ _ _ (finishes _ (other 7 ∷ []) (inl refl)) (here _)))))

Reach-Agrees_example : Agrees (run_on started)
Reach-Agrees_example = Reach-Agrees runs_on_signal

-- The loop then goes on to Serve.
abbrev stopped_start : World
stopped_start = record started { server = (stop_server started.server).0 }

abbrev served_stopped : World
served_stopped = record stopped_start {
  server = set_state state_running stopped_start.server;
  phase = serving;
}

serves_stopped : Reach stopped_start served_stopped
unfolding enter begin stop_server new_server
serves_stopped = after _ _ _ (serves stopped_start refl) (here _)

stop_ends_example :
    ((served_stopped.phase ≡ ended) ⊎ CanMove served_stopped) × (move_count serves_stopped ≤ 3)
unfolding enter begin stop_server new_server
stop_ends_example = stop_ends starts_up refl serves_stopped

-- Three services, of which the second fails.
abbrev outcomes : ℕ → List Err
outcomes zero = []
outcomes (suc zero) = other 5 ∷ []
outcomes (suc (suc n)) = []

-- The context of Serve ends after two services have returned.
abbrev first_events : List Event
first_events = service_returns 2 ∷ service_returns 1 ∷ []

abbrev last_events : List Event
last_events = parent_ends ∷ service_returns 0 ∷ []

group_serve_lem_example :
    (group_result (group_serve outcomes (first_events ++ last_events) (new_group 3))
      ≡ some (joined outcomes 0 3))
    × ((group_serve outcomes first_events (new_group 3)).aborted ≡ aborts outcomes 3 first_events)
group_serve_lem_example = group_serve_lem outcomes 3 first_events last_events covered
  where
    covered : (k : ℕ) → k < 3 → member k (first_events ++ last_events) ≡ true
    covered zero h = refl
    covered (suc zero) h = refl
    covered (suc (suc zero)) h = refl
    covered (suc (suc (suc k))) h = absurd (omega arith)
