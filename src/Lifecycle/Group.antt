-- ===== src/Lifecycle/Group.antt =====
-- lifecycle.go: Group, which runs services together, and ServiceFuncs. Each service of a group has a goroutine, which
-- returns once.
pub mod Joined
use go_netx.Base.{
  ℕ, Bool, true, false, not, ◌&&◌, ◌||◌, List, [], ◌∷◌, ◌++◌, Option, none, some, replicate, get_or,
  set, if◌then◌else◌,
}
use go_netx.Lifecycle.{Err, is_nil, Ending, returned, panicked}

-- ServiceFuncs: what its functions do, where they are set. A ServeFunc that is nil panics when it is called.
pub record ServiceFuncs : Type 0 where
  pub serve_func : Option Ending
  pub shutdown_func : Option Ending

unfoldable pub serve_with : ServiceFuncs → Ending
serve_with f = elim f.serve_func [ none ↦ panicked | some e ↦ e ]

unfoldable pub shutdown_with : ServiceFuncs → Ending
shutdown_with f = elim f.shutdown_func [ none ↦ returned [] | some e ↦ e ]

-- The slots of `errs`: none for a service that has not returned. `aborted`: whether the services' context is cancelled.
pub record Group : Type 0 where
  pub errs : List (Option (List Err))
  pub aborted : Bool

abbrev pub new_group : ℕ → Group
new_group n = record { errs = replicate n none; aborted = false }

-- The goroutine of service `i` ends with the error of Serve.
unfoldable pub serve_returns : ℕ → List Err → Group → Group
serve_returns i e g = elim (get_or g.errs i (some [])) [
  | some gone ↦ g
  | none ↦ record { errs = set g.errs i (some e); aborted = g.aborted || not (is_nil e) }
]

-- The goroutine of service `i` ends with the error of Shutdown.
unfoldable pub shutdown_returns : ℕ → List Err → Group → Group
shutdown_returns i e g = elim (get_or g.errs i (some [])) [
  | some gone ↦ g
  | none ↦ record g { errs = set g.errs i (some e) }
]

-- `errors.Join(errs...)`
abbrev pub join : List (Option (List Err)) → List Err
join [] = []
join (none ∷ errs) = join errs
join (some e ∷ errs) = e ++ join errs

abbrev pub all_returned : List (Option (List Err)) → Bool
all_returned [] = true
all_returned (none ∷ errs) = false
all_returned (some e ∷ errs) = all_returned errs

-- What Serve or Shutdown of the group returns, once every goroutine has ended.
unfoldable pub group_result : Group → Option (List Err)
group_result g = if all_returned g.errs then some (join g.errs) else none

-- What happens while Serve waits: a service returns, or the context that Serve was given ends, and the services' context
-- with it.
pub data Event : Type 0 where
  service_returns : ℕ → Event
  parent_ends : Event

-- Serve, where this happens in this order, and each service returns with its error.
unfoldable pub group_serve : (ℕ → List Err) → List Event → Group → Group
unfolding serve_returns
group_serve f [] g = g
group_serve f (service_returns i ∷ events) g = group_serve f events (serve_returns i (f i) g)
group_serve f (parent_ends ∷ events) g = group_serve f events (record g { aborted = true })

unfoldable pub group_shutdown : (ℕ → List Err) → List ℕ → Group → Group
unfolding shutdown_returns
group_shutdown f [] g = g
group_shutdown f (i ∷ order) g = group_shutdown f order (shutdown_returns i (f i) g)
