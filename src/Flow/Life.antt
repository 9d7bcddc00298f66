-- ===== src/Flow/Life.antt =====
-- flow.go: a flow under the calls of any number of goroutines, each atomic operation a step of its own.
pub mod Race
pub mod Once
pub mod Frozen
use go_netx.Base.{Bool, true, false, ◌||◌, if◌then◌else◌}
use go_netx.Base.Int.{ℤ, leb_ℤ, eqb_ℤ}
use go_netx.Flow.Seen.{is_frozen, thawed, frozen}

pub data State : Type 0 where
  open_state closing closed : State

pub record Flow : Type 0 where
  pub state : State
  pub seen : ℤ

-- `touch t` reads the time t from its clock; `expire t` has the cutoff t; `freeze` is the call in Remove.
pub data Call : Type 0 where
  begin_close close freeze : Call
  touch expire : ℤ → Call

-- Where a goroutine stands: outside; before the freeze of BeginClose or Close; at the head of Close's loop,
-- and with the state loaded; at the head of Touch's loop, and with the word loaded; in expire, with its
-- cutoff and the word loaded.
pub data Pc : Type 0 where
  outside freezing closing_loop : Pc
  close_loaded : State → Pc
  touch_loop : ℤ → Pc
  touch_loaded expire_loaded : ℤ → ℤ → Pc

-- `began` and `closed_by`: the answer of BeginClose and Close, decided at the swap; it is returned after
-- the freeze. `touched`: whether Touch recorded its time.
pub data Event : Type 0 where
  nothing froze : Event
  began closed_by touched expired : Bool → Event

abbrev pub is_open : State → Bool
is_open open_state = true
is_open s = false

abbrev pub is_closed : State → Bool
is_closed closed = true
is_closed s = false

abbrev pub eq_state : State → State → Bool
eq_state open_state open_state = true
eq_state closing closing = true
eq_state closed closed = true
eq_state s t = false

unfoldable pub last_seen : Flow → ℤ
last_seen f = thawed f.seen

-- `f.seen.Or(frozen)`
abbrev pub freeze_word : Flow → Flow
freeze_word f = record f { seen = frozen f.seen }

abbrev pub load_state : Flow → Pc × Flow × Event
load_state f =
    if is_closed f.state then (outside, f, closed_by false) else (close_loaded f.state, f, nothing)

abbrev pub load_word : ℤ → Flow → Pc × Flow × Event
load_word now f =
    if is_frozen f.seen || leb_ℤ now f.seen
    then (outside, f, touched false)
    else (touch_loaded now f.seen, f, nothing)

abbrev pub load_expiry : ℤ → Flow → Pc × Flow × Event
load_expiry cutoff f =
    if leb_ℤ cutoff (thawed f.seen)
    then (outside, f, expired false)
    else if is_frozen f.seen
    then (outside, f, expired true)
    else (expire_loaded cutoff f.seen, f, nothing)

-- A goroutine outside starts the call; any other goes on with its own.
unfoldable pub step : Call → Pc → Flow → Pc × Flow × Event
step begin_close outside f =
    if is_open f.state
    then (freezing, record f { state = closing }, began true)
    else (outside, f, began false)
step close outside f = load_state f
step freeze outside f = (outside, freeze_word f, froze)
step (touch now) outside f = (touch_loop (thawed now), f, nothing)
step (expire cutoff) outside f = load_expiry cutoff f
step c freezing f = (outside, freeze_word f, froze)
step c closing_loop f = load_state f
step c (close_loaded s) f =
    if eq_state f.state s
    then (freezing, record f { state = closed }, closed_by true)
    else (closing_loop, f, nothing)
step c (touch_loop now) f = load_word now f
step c (touch_loaded now v) f =
    if eqb_ℤ f.seen v
    then (outside, record f { seen = now }, touched true)
    else (touch_loop now, f, nothing)
step c (expire_loaded cutoff v) f =
    if eqb_ℤ f.seen v
    then (outside, record f { seen = frozen v }, expired true)
    else (outside, f, expired false)
