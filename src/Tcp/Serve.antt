-- ===== src/Tcp/Serve.antt =====
-- tcp/server.go: NewServer, Serve with its accept loop, and the ways to stop. Serve's connections arrive and end, and
-- Accept fails, in any order; each of these, and each stop, is a step.
pub mod Numbered
pub mod Run
pub mod Stopped
use go_netx.Base.{
  ℕ, suc, ◌+◌, ◌≡◌, Bool, true, false, not, ◌&&◌, ◌||◌, List, [], ◌∷◌, Option, none, some, Outcome,
  returns, panics, runs_on, and_then, leb, ltb, ◌==◌, if◌then◌else◌, inc64, ℕ_discrete, map,
}
use go_netx.Base.Assoc.{get}
use go_netx.Base.Int.{ℤ, pos, negsuc, pos_part, ltb_ℤ}
use go_netx.Backoff.{next}
use go_netx.Limit.All.{Limiter}
use go_netx.Limit.PerKey.{PerKey}
use go_netx.Tcp.{Server, accept, end_conn}

-- Why NewServer refuses its options.
pub data Invalid : Type 0 where
  nil_listener_or_handler negative_max_conns bad_prefix_bits : Invalid

-- What Serve returns: nil, an error of Accept, or a refusal to start.
pub data Result : Type 0 where
  nil closed_error served_twice : Result
  accept_error : ℕ → Result

-- The checks of NewServer.
unfoldable pub refusal : Bool → ℤ → ℤ → Option Invalid
refusal present max_conns prefix_bits =
    if not present
    then some nil_listener_or_handler
    else if ltb_ℤ max_conns (pos 0)
    then some negative_max_conns
    else if ltb_ℤ prefix_bits (pos 0) || ltb_ℤ (pos 128) prefix_bits
    then some bad_prefix_bits
    else none

-- The bits of an IPv6 address that count, where there is a limit.
abbrev pub v6_bits : ℤ → ℕ
v6_bits bits = if pos_part bits == 0 then 64 else pos_part bits

-- `result` is none while the accept loop runs, and then what Serve returns when all handlers have ended;
-- `hung_up` are the connections that abortAll closed.
pub record Serving (K S : Type 0) : Type 0 where
  pub server : Server K S
  pub bits : ℕ
  pub serving : Bool
  pub aborted : Bool
  pub hung_up : List ℕ
  pub result : Option Result
  pub delay : ℤ
  pub accept_errors : ℕ

module _ {K S : Type 0} where
  -- The server that NewServer makes of valid options; the limit's map and Admit's state are given.
  unfoldable pub new_server : Bool → ℤ → ℤ → S → Option Invalid × Option (Serving K S)
  unfolding refusal
  new_server present max_conns prefix_bits admit = elim (refusal present max_conns prefix_bits) [
    | some e ↦ (some e, none)
    | none ↦ (
      none,
      some (record {
        server = record {
          per_ip =
              if pos_part max_conns == 0
              then none
              else some (record { max = pos_part max_conns; n = [] });
          admit = admit;
          stopped = false;
          last_id = 0;
          conns = [];
          accepted = 0;
          rejected = 0;
          rejected_per_ip = 0;
          active = 0;
          closed = 0;
        };
        bits = if pos_part max_conns == 0 then 0 else v6_bits prefix_bits;
        serving = false;
        aborted = false;
        hung_up = [];
        result = none;
        delay = pos 0;
        accept_errors = 0;
      }),
    )
  ]

  unfoldable pub stop_accept : Serving K S → Serving K S
  stop_accept v = record v { server = record v.server { stopped = true } }

  -- The handlers' context is cancelled, and every tracked connection is closed.
  unfoldable pub abort_all : Serving K S → Serving K S
  abort_all v = record v { aborted = true; hung_up = map (λ c. c.0) v.server.conns }

  unfoldable pub close_server : Serving K S → Serving K S
  unfolding stop_accept abort_all
  close_server v = abort_all (stop_accept v)

  -- The start of Serve.
  unfoldable pub begin_serve : Serving K S → Serving K S × Option Result
  begin_serve v =
      if v.server.stopped
      then (v, some closed_error)
      else if v.serving
      then (v, some served_twice)
      else (record v { serving = true }, none)

  -- Shutdown, where the flag says whether Serve returned before the context's end.
  unfoldable pub shutdown : Bool → Serving K S → Serving K S × Bool
  unfolding stop_accept abort_all
  shutdown in_time v =
      let v' = stop_accept v in
      if not v'.serving then (v', true) else if in_time then (v', true) else (abort_all v', false)

  -- What acceptLoop does with an error of Accept: `waited` says that the backoff passed before the drain.
  unfoldable pub accept_fails : Bool → Bool → ℕ → Serving K S → Serving K S
  unfolding stop_accept abort_all next
  accept_fails temporary waited e v =
      if v.server.stopped
      then record v { result = some nil }
      else if temporary
      then (let v' = record v { accept_errors = inc64 v.accept_errors; delay = next v.delay } in
          if waited then v' else record v' { result = some nil })
      else abort_all (record (stop_accept v) { result = some (accept_error e) })

pub data Event (K : Type 0) : Type 0 where
  arrives : Option K → Event K
  fails : Bool → Bool → ℕ → Event K
  ends : ℕ → Event K
  drains closes : Event K

module _ {K S : Type 0} (dec : Discrete K) (limiter : Option (Limiter S)) where
  -- A round of the loop with a connection: the loop ends when the connection is not tracked since the server stopped.
  unfoldable pub arrive : Option K → Serving K S → Outcome (Serving K S)
  unfolding accept
  arrive key v = and_then (accept dec limiter key v.server) (λ s.
      let stops = v.server.stopped && not (s.last_id == v.server.last_id) in
      returns
        (record v { server = s; delay = pos 0; result = if stops then some nil else v.result }))

  -- The handler of a connection returns, if there is one.
  unfoldable pub finish : ℕ → Serving K S → Outcome (Serving K S)
  unfolding end_conn
  finish id v = elim (get ℕ_discrete id v.server.conns) [
    | none ↦ returns v
    | some key ↦
        and_then (end_conn dec limiter id key v.server) (λ s. returns (record v { server = s }))
  ]

  unfoldable pub step : Event K → Serving K S → Outcome (Serving K S)
  unfolding arrive finish accept_fails stop_accept close_server
  step (arrives key) v = elim v.result [ none ↦ arrive key v | some r ↦ returns v ]
  step (fails temporary waited e) v = elim v.result [
    | none ↦ returns (accept_fails temporary waited e v)
    | some r ↦ returns v
  ]
  step (ends id) v = finish id v
  step drains v = returns (stop_accept v)
  step closes v = returns (close_server v)

  unfoldable pub run : List (Event K) → Serving K S → Outcome (Serving K S)
  unfolding step
  run [] v = returns v
  run (e ∷ es) v = and_then (step e v) (run es)
