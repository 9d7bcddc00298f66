-- ===== src/Tcp/Dial.antt =====
-- tcp/dialer.go: the Dialer. What package net's DialContext gives is a parameter, and so are the times.
use go_netx.Base.{ℕ, ◌-◌, ◌≡◌, refl, Bool, true, Option, none, some, if◌then◌else◌}
use go_netx.Base.Int.{ℤ}
use go_netx.Socket.{
  Options, Network, Feature, Place, unsupported, no_config, Sockopts, control, check_network,
  is_zero_options, tcp, tcp4, tcp6, udp, udp4, udp6, other_network,
}
use go_netx.Socket.Config.{Dialer, hook, dialer}

pub record DialOptions : Type 0 where
  pub timeout : ℤ
  pub keep_alive : ℤ
  pub socket : Options
  pub has_on_dial : Bool

-- `has_on_dial`: whether the hook `onDial` is set.
pub record TcpDialer (K : Type 0) : Type 0 where
  pub inner : Dialer K
  pub has_on_dial : Bool

pub record Conn : Type 0 where
  pub local_addr : ℕ
  pub remote_addr : ℕ

pub record DialEvent : Type 0 where
  pub network : Network
  pub address : ℕ
  pub started_at : ℕ
  pub duration : ℕ
  pub local_addr : Option ℕ
  pub remote_addr : Option ℕ
  pub err : Option ℕ

abbrev pub local_of : Option Conn → Option ℕ
local_of none = none
local_of (some c) = some c.local_addr

abbrev pub remote_of : Option Conn → Option ℕ
remote_of none = none
remote_of (some c) = some c.remote_addr

module _ {K : Type 0} (ops : Sockopts K) where
  unfoldable pub new_dialer : DialOptions → TcpDialer K
  unfolding dialer
  new_dialer o = record {
    inner =
        dialer ops
          (record {
            timeout = o.timeout;
            keep_alive = o.keep_alive;
            keep_alive_config = no_config;
            control_with = none;
            control_context = none;
          })
          o.socket;
    has_on_dial = o.has_on_dial;
  }

  -- With Fast Open among its socket options, every connection that a Dialer makes fails before it is attempted, on any
  -- network: the hook that runs on its socket refuses an option, and has set nothing.
  pub new_dialer-refuses :
      (o : DialOptions) (n : Network) (address : ℕ) (raw : Option ℕ) (s : K)
      → o.socket.fast_open.enabled ≡ true
      → (f : Feature) × (p : Place) × (hook ops (new_dialer o).inner n address raw s
          ≡ (s, some (unsupported f p)))
  unfolding new_dialer dialer control check_network is_zero_options
  new_dialer-refuses o tcp address raw s on = rw on (_, _, refl)
  new_dialer-refuses o tcp4 address raw s on = rw on (_, _, refl)
  new_dialer-refuses o tcp6 address raw s on = rw on (_, _, refl)
  new_dialer-refuses o udp address raw s on = rw on (_, _, refl)
  new_dialer-refuses o udp4 address raw s on = rw on (_, _, refl)
  new_dialer-refuses o udp6 address raw s on = rw on (_, _, refl)
  new_dialer-refuses o (other_network k) address raw s on = rw on (_, _, refl)

-- `DialContext`: the connection, the error and the event for the hook. `dial` is the method of net.Dialer that it calls,
-- and `started`, `ended` the times before and after.
unfoldable pub dial_context :
    {K : Type 0}
    → (Dialer K → Network → ℕ → Option Conn × Option ℕ)
    → TcpDialer K
    → (started ended : ℕ) → Network
    → ℕ
    → Option Conn × Option ℕ × Option DialEvent
dial_context dial d started ended n address =
    let (conn, err) = dial d.inner n address in
    (
      conn,
      err,
      if d.has_on_dial
          then some (record {
            network = n;
            address = address;
            started_at = started;
            duration = ended - started;
            local_addr = local_of conn;
            remote_addr = remote_of conn;
            err = err;
          })
          else none,
    )
