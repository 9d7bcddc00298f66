-- ===== src/Socket/Tests.antt =====
-- Runs of the package socket on a small kernel, where the theorems' hypotheses hold.
use go_netx.Base.{
  ℕ, ◌*◌, ◌≡◌, refl, arith, min, Bool, true, false, ◌&&◌, Option, none, some, ◌==◌, if◌then◌else◌,
}
use go_netx.Base.Int.{ℤ, pos, pos_part}
use go_netx.Socket.{
  Options, Network, tcp, udp, Errno, Sockopts, Result, short, receive_buffer, recv_buffer_kind,
  send_buffer_kind, ensure_buffer, control, unsupported, Feature, Place, dialed_connections,
  tcp_fast_open,
}
use go_netx.Socket.Granted.{IsEnsured, ensure_buffer_lem, BothGranted, IsSeparate, control-granted}
use go_netx.Socket.Config.{Dialer, hook, dialer}
use go_netx.Socket.Frame.{KeepsSized}
use go_netx.Socket.Outbound.{dialer-Inv}
use go_netx.Socket.Refused.{IsUntouched, control-IsUntouched}
use go_netx.Tcp.Dial.{DialOptions, new_dialer}

-- A socket: the sizes of its buffers as Linux reports them, and whether Fast Open is on.
abbrev Kern : Type 0
Kern = ℕ × ℕ × Bool

-- A size is at most 1000, but by force.
abbrev set_option : ℕ → ℕ → ℤ → Kern → Kern × Option Errno
set_option level opt v (r, s, f) =
    if level == 1 && opt == 8
    then ((min (pos_part v) 1000 * 2, s, f), none)
    else if level == 1 && opt == 33
    then ((pos_part v * 2, s, f), none)
    else if level == 1 && opt == 7
    then ((r, min (pos_part v) 1000 * 2, f), none)
    else if level == 1 && opt == 32
    then ((r, pos_part v * 2, f), none)
    else if level == 6 && opt == 23
    then ((r, s, true), none)
    else ((r, s, f), none)

abbrev get_option : ℕ → ℕ → Kern → ℤ × Option Errno
get_option level opt (r, s, f) = (if opt == 8 then pos r else pos s, none)

abbrev kern : Sockopts Kern
kern = record { set = set_option; get = get_option }

abbrev options : Options
options = record {
  fast_open = record { enabled = false; backlog = pos 0 };
  reuse_port = true;
  recv_buffer = pos 5000;
  send_buffer = pos 300;
  keep_alive = record { disable = false; idle = pos 0; interval = pos 0; count = pos 0 };
}

abbrev fast_options : Options
fast_options = record options { fast_open = record { enabled = true; backlog = pos 0 } }

abbrev fresh : Kern
fresh = (100, 100, false)

abbrev base : Dialer Kern
base = record {
  timeout = pos 0;
  keep_alive = pos 0;
  keep_alive_config = record { enable = false; idle = pos 0; interval = pos 0; count = pos 0 };
  control_with = none;
  control_context = none;
}

-- The first size is capped, and the force gives what is wanted.
forced : control kern options false tcp none fresh ≡ ((10000, 600, false), none)
unfolding control ensure_buffer
forced = refl

-- Without a force the size stays short.
kept_short :
    ensure_buffer kern (record recv_buffer_kind { force = 0 }) (pos 5000) true fresh
    ≡ ((2000, 100, false), some (short receive_buffer (pos 5000) (pos 1000)))
unfolding ensure_buffer
kept_short = refl

listens_fast : control kern fast_options false tcp none fresh ≡ ((10000, 600, true), none)
unfolding control ensure_buffer go_netx.Socket.fast_open_result
listens_fast = refl

ensure_buffer_lem_example :
    IsEnsured kern recv_buffer_kind
      (pos 5000)
      true
      (ensure_buffer kern recv_buffer_kind (pos 5000) true fresh)
ensure_buffer_lem_example = ensure_buffer_lem kern recv_buffer_kind (pos 5000) true fresh

recv_apart : IsSeparate kern recv_buffer_kind
recv_apart level opt v (r, s, f) other = ground arith

send_apart : IsSeparate kern send_buffer_kind
send_apart level opt v (r, s, f) other = ground arith

control-granted_example : BothGranted kern options (control kern options false tcp none fresh).0
unfolding control ensure_buffer
control-granted_example =
    control-granted kern recv_apart send_apart options false tcp none fresh refl

control-IsUntouched_example : IsUntouched fresh (control kern fast_options true udp none fresh)
control-IsUntouched_example = control-IsUntouched kern fast_options true udp none fresh

-- Fast Open is off.
abbrev IsOff : Kern → Type 0
IsOff (r, s, f) = f ≡ false

kern-KeepsSized : KeepsSized kern IsOff
kern-KeepsSized = record {
  recv = λ v (r, s, f) h. h;
  recv_force = λ v (r, s, f) h. h;
  send = λ v (r, s, f) h. h;
  send_force = λ v (r, s, f) h. h;
  port = λ v (r, s, f) h. h;
}

dialer-Inv_example : IsOff (hook kern (dialer kern base options) tcp 7 none fresh).0
dialer-Inv_example =
    dialer-Inv kern IsOff base options tcp 7 none fresh kern-KeepsSized (λ s h. h) refl

abbrev dial_options : DialOptions
dial_options = record {
  timeout = pos 5;
  keep_alive = pos 0;
  socket = fast_options;
  has_on_dial = false;
}

-- A dial with Fast Open fails before it is attempted.
dial_refused :
    hook kern (new_dialer kern dial_options).inner tcp 7 none fresh
    ≡ (fresh, some (unsupported tcp_fast_open dialed_connections))
unfolding new_dialer control
dial_refused = refl
