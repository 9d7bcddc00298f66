-- ===== src/Lifecycle/Life.antt =====
-- lifecycle.go: one server, whose loop runs while others call Stop, Shutdown and LoopContext, and while Loop's goroutine
-- takes signals. A step is a section under the server's lock or a move of the loop or of that goroutine.
pub mod Agreeing
pub mod Ending
pub mod Stopping
use go_netx.Base.{ℕ, ◌+◌, ◌≡◌, ◌⊎◌, Bool, true, false, ◌||◌, List, [], Option, if◌then◌else◌}
use go_netx.Lifecycle.{
  State, state_new, state_starting, state_running, state_stopping, state_stopped, Err, Server,
  is_nil, new_server, begin, set_state, finish, force_abort, stop_server, shutdown_server,
}

-- Where LoopContext is: not called yet; in OnStart; after a failed OnStart; waiting for Serve or for a stop; in
-- Shutdown and after; returned.
pub data Phase : Type 0 where
  idle begun failing serving draining ended : Phase

-- Loop's goroutine: before the first signal, before the second, or at its end.
pub data Watcher : Type 0 where
  first second gone : Watcher

-- `parent_done`: the context that LoopContext was given has ended, by the first signal. `cut`: the drain's context was
-- cancelled by the second. `runs`: how often `begin` has succeeded.
pub record World : Type 0 where
  pub server : Server
  pub phase : Phase
  pub watcher : Watcher
  pub parent_done : Bool
  pub cut : Bool
  pub runs : ℕ

abbrev pub fresh : World
fresh = record {
  server = new_server true;
  phase = idle;
  watcher = first;
  parent_done = false;
  cut = false;
  runs = 0;
}

-- A call of LoopContext up to the end of `begin`: one that is refused does nothing.
unfoldable pub enter : World → World
enter w =
    let (s, refused) = begin w.server in
    if is_nil refused then record w { server = s; phase = begun; runs = w.runs + 1 } else w

-- Whether the select of LoopContext can go on: Serve has returned, or the context of `begin` has ended.
abbrev pub may_stop : Bool → World → Bool
may_stop returned w = returned || (w.server.stopped || w.parent_done)

pub data Step : World → World → Type 0 where
  loops : (w : World) → Step w (enter w)
  start_fails : (w : World) → w.phase ≡ begun → Step w (record w { phase = failing })
  serves :
      (w : World)
      → w.phase ≡ begun
      → Step w (record w { server = set_state state_running w.server; phase = serving })
  stops :
      (w : World) (returned : Bool)
      → w.phase ≡ serving
      → may_stop returned w ≡ true
      → Step w (record w { server = set_state state_stopping w.server; phase = draining })
  cuts :
      (w : World) → w.phase ≡ draining → w.server.forced ≡ true → Step w (record w { cut = true })
  finishes :
      (w : World) (r : List Err)
      → (w.phase ≡ draining) ⊎ (w.phase ≡ failing)
      → Step w (record w { server = finish r w.server; phase = ended })
  stop_called : (w : World) → Step w (record w { server = (stop_server w.server).0 })
  shutdown_called :
      (w : World) (caller_ended : Option (List Err))
      → Step w (record w { server = (shutdown_server caller_ended w.server).0 })
  first_signal :
      (w : World) → w.watcher ≡ first → Step w (record w { parent_done = true; watcher = second })
  second_signal :
      (w : World)
      → w.watcher ≡ second
      → Step w (record w { server = force_abort w.server; watcher = gone })
  exits : (w : World) → w.phase ≡ ended → Step w (record w { watcher = gone })

pub data Reach : World → World → Type 0 where
  here : (w : World) → Reach w w
  after : (u v w : World) → Step u v → Reach v w → Reach u w

-- How far a server has come.
abbrev pub rank : State → ℕ
rank state_new = 0
rank state_starting = 1
rank state_running = 2
rank state_stopping = 3
rank state_stopped = 4
