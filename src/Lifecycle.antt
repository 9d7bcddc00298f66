-- ===== src/Lifecycle.antt =====
-- lifecycle.go: Server, which runs one service from start to stop. An error is the list of the errors that it
-- joins, and nil is the empty list. A hook or a method of the service either returns an error or panics.
pub mod Order
pub mod Life
pub mod Group
mod Tests
use go_netx.Base.{
  ℕ, Bool, true, false, not, ◌&&◌, ◌||◌, List, [], ◌∷◌, ◌++◌, Option, none, some, if◌then◌else◌,
}

pub data State : Type 0 where
  state_new state_starting state_running state_stopping state_stopped : State

-- What `protect` guards.
pub data Place : Type 0 where
  start serve shutdown stop error_hook : Place

-- `canceled` is context.Canceled; `panic_in` is the error that `protect` makes of a panic; `other` is any other
-- error of the service or a hook.
pub data Err : Type 0 where
  already_running not_running abort_timeout service_required canceled : Err
  panic_in : Place → Err
  other : ℕ → Err

-- `has_stop`: whether `stop` is set; `stopped`: whether it was called. `forced`: whether `force` is closed.
-- `done`: whether the channel is closed.
pub record Server : Type 0 where
  pub has_service : Bool
  pub state : State
  pub stopped : Bool
  pub has_force : Bool
  pub forced : Bool
  pub done : Bool
  pub result : List Err

pub data Ending : Type 0 where
  returned : List Err → Ending
  panicked : Ending

-- What the service and the hooks do in one run, and how the two selects fall out: whether Serve returns before
-- the stop signal, and whether it returns within AbortGrace of the abort. A hook that is nil is none.
pub record Script : Type 0 where
  pub on_start : Option Ending
  pub serve_ends : Ending
  pub serve_first : Bool
  pub in_grace : Bool
  pub shutdown_ends : Ending
  pub on_stop : Option Ending
  pub on_error : Option Ending

-- What a run calls, and the states that it sets.
pub data Action : Type 0 where
  calls : Place → Action
  aborts : Action
  sets : State → Action
  reports : List Err → Action

abbrev pub is_new : State → Bool
is_new state_new = true
is_new s = false

abbrev pub is_stopped : State → Bool
is_stopped state_stopped = true
is_stopped s = false

abbrev pub is_nil : List Err → Bool
is_nil [] = true
is_nil (e ∷ es) = false

abbrev pub is_canceled : Err → Bool
is_canceled canceled = true
is_canceled e = false

-- `errors.Is(err, context.Canceled)`
abbrev pub holds_canceled : List Err → Bool
holds_canceled [] = false
holds_canceled (e ∷ es) = is_canceled e || holds_canceled es

unfoldable pub protect : Place → Ending → List Err
protect p (returned e) = e
protect p panicked = panic_in p ∷ []

unfoldable pub ignore_canceled : List Err → List Err
ignore_canceled e = if holds_canceled e then [] else e

unfoldable pub new_server : Bool → Server
new_server has_service = record {
  has_service = has_service;
  state = state_new;
  stopped = false;
  has_force = false;
  forced = false;
  done = false;
  result = [];
}

unfoldable pub begin : Server → Server × List Err
begin s =
    if is_new s.state
    then (record s { has_force = true; stopped = false; state = state_starting }, [])
    else (s, already_running ∷ [])

unfoldable pub set_state : State → Server → Server
set_state st s = record s { state = st }

unfoldable pub finish : List Err → Server → Server
finish result s = record s { stopped = true; result = result; state = state_stopped; done = true }

unfoldable pub force_abort : Server → Server
force_abort s = if s.has_force && not s.forced then record s { forced = true } else s

-- `Stop`
unfoldable pub stop_server : Server → Server × List Err
stop_server s =
    if is_new s.state || is_stopped s.state
    then (s, not_running ∷ [])
    else (record s { stopped = true }, [])

-- `Shutdown`, which waits for `done` unless the caller's context ends first with the error given.
unfoldable pub shutdown_server : Option (List Err) → Server → Server × Option (List Err)
unfolding stop_server
shutdown_server ended s =
    let (s', e) = stop_server s in
    if is_nil e
    then (s', elim ended [ none ↦ (if s'.done then some s'.result else none) | some c ↦ some c ])
    else (s, some e)

-- `onStop`
unfoldable pub stop_hook : Script → List Err × List Action
unfolding protect
stop_hook x = elim x.on_stop [ none ↦ ([], []) | some h ↦ (protect stop h, calls stop ∷ []) ]

unfoldable pub report : Script → List Err → List Err × List Action
unfolding protect
report x e =
    if is_nil e
    then (e, [])
    else elim x.on_error [ none ↦ (e, []) | some h ↦ (e ++ protect error_hook h, reports e ∷ []) ]

-- OnStart, and its error.
unfoldable pub start_hook : Script → List Err × List Action
unfolding protect
start_hook x = elim x.on_start [ none ↦ ([], []) | some h ↦ (protect start h, calls start ∷ []) ]

-- After a failed OnStart: the service is shut down, and never served.
unfoldable pub give_up : Script → List Err → List Err × List Action
unfolding protect stop_hook report
give_up x e =
    let (stop_err, stop_acts) = stop_hook x in
    let (r, report_acts) = report x (e ++ protect shutdown x.shutdown_ends ++ stop_err) in
    (r, calls shutdown ∷ stop_acts ++ report_acts)

-- What Serve gave by the end of the run: its error, or that it did not stop after the abort.
unfoldable pub serve_error : Script → List Err
unfolding protect
serve_error x =
    if x.serve_first || x.in_grace then protect serve x.serve_ends else abort_timeout ∷ []

-- The abort of a service that has not returned when it has been shut down.
abbrev pub cut_off : Script → List Action
cut_off x = if x.serve_first then [] else aborts ∷ []

-- From the start of Serve to the end of LoopContext.
unfoldable pub serve_and_stop : Script → List Err × List Action
unfolding protect ignore_canceled stop_hook report serve_error
serve_and_stop x =
    let (stop_err, stop_acts) = stop_hook x in
    let (r, report_acts) =
      report x (serve_error x ++ ignore_canceled (protect shutdown x.shutdown_ends) ++ stop_err) in
    (
      r,
      sets state_running ∷ calls serve ∷ sets state_stopping ∷ calls shutdown ∷ cut_off x
          ++ (stop_acts ++ report_acts),
    )

-- LoopContext between `begin` and `finish`.
unfoldable pub run_service : Script → List Err × List Action
unfolding start_hook give_up serve_and_stop
run_service x =
    let (e, acts) = start_hook x in
    let (r, more) = if is_nil e then serve_and_stop x else give_up x e in (r, acts ++ more)

-- `LoopContext`: the server afterwards, what it returns and what it did.
unfoldable pub loop_context : Script → Server → Server × List Err × List Action
unfolding begin finish run_service
loop_context x s =
    if s.has_service
    then (let (s', refused) = begin s in
        let (r, acts) = run_service x in
        if is_nil refused
        then (finish r s', r, sets state_starting ∷ acts ++ sets state_stopped ∷ [])
        else (s, refused, []))
    else (s, service_required ∷ [], [])
