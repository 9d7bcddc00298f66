-- ===== src/Socket/Config.antt =====
-- socket/options.go: the configurations of listeners and dialers, and the buffers of a connection that is there.
-- An address is a number.
use go_netx.Base.{ℕ, Bool, true, false, ◌||◌, Option, none, some, if◌then◌else◌}
use go_netx.Base.Int.{ℤ, pos, ltb_ℤ}
use go_netx.Socket.{
  Options, KeepAliveConfig, is_zero_keep_alive, apply_keep_alive, Network, nil_connection, refused,
  Errno, Sockopts, Result, and_next, result_of, apply_buffers, control,
}

-- A `Control` function, of the network, the address and the connection.
abbrev pub Control : Type 0 → Type 0
Control K = Network → ℕ → Option ℕ → K → Result K

-- net.ListenConfig
pub record ListenConfig (K : Type 0) : Type 0 where
  pub control_with : Control K
  pub keep_alive : ℤ
  pub keep_alive_config : KeepAliveConfig

-- net.Dialer, as far as it is used. `control_context` goes before `control_with`.
pub record Dialer (K : Type 0) : Type 0 where
  pub timeout : ℤ
  pub keep_alive : ℤ
  pub keep_alive_config : KeepAliveConfig
  pub control_with : Option (Control K)
  pub control_context : Option (Control K)

-- A `BufferSetter`: nil or an interface that holds a nil; or a connection, with the methods that set its buffers and,
-- where it is a syscall.Conn, what SyscallConn gives: an error, or a connection as for `control`.
pub data SyscallConn : Type 0 where
  no_syscall_conn : SyscallConn
  conn_failed : ℕ → SyscallConn
  raw_conn : Option ℕ → SyscallConn

pub data Setter (K : Type 0) : Type 0 where
  nil_interface nil_value : Setter K
  setter : SyscallConn → (ℤ → K → K × Option Errno) → (ℤ → K → K × Option Errno) → Setter K

module _ {K : Type 0} (ops : Sockopts K) where
  unfoldable pub listen_config : Options → ListenConfig K
  unfolding apply_keep_alive
  listen_config o =
      let (keep_alive, config) = apply_keep_alive o.keep_alive in
      record {
        control_with = λ n address raw s. control ops o false n raw s;
        keep_alive = keep_alive;
        keep_alive_config = config;
      }

  -- The hook that a dialer runs: the one with a context, if there is one.
  abbrev pub hook : Dialer K → Control K
  hook base n address raw s = elim base.control_context [
    | some f ↦ f n address raw s
    | none ↦ elim base.control_with [ some f ↦ f n address raw s | none ↦ (s, none) ]
  ]

  abbrev pub dial_hook : Dialer K → Options → Control K
  dial_hook base o n address raw s = and_next (hook base n address raw s) (control ops o true n raw)

  unfoldable pub dialer : Dialer K → Options → Dialer K
  unfolding apply_keep_alive
  dialer base o =
      let (keep_alive, config) = apply_keep_alive o.keep_alive in
      let kept = is_zero_keep_alive o.keep_alive in
      record {
        timeout = base.timeout;
        keep_alive = if kept then base.keep_alive else keep_alive;
        keep_alive_config = if kept then base.keep_alive_config else config;
        control_with = none;
        control_context = some (dial_hook base o);
      }

  -- Without a syscall.Conn the sizes are set and not read back.
  abbrev pub set_size : (ℤ → K → K × Option Errno) → ℤ → K → Result K
  set_size set size s = if ltb_ℤ (pos 0) size then result_of (set size s) else (s, none)

  abbrev pub set_unverified :
      (ℤ → K → K × Option Errno) → (ℤ → K → K × Option Errno) → Options → K → Result K
  set_unverified read write o s =
      and_next (set_size read o.recv_buffer s) (set_size write o.send_buffer)

  abbrev pub set_verified : Option ℕ → Options → K → Result K
  set_verified (some e) o s = (s, some (refused e))
  set_verified none o s = apply_buffers ops o s

  abbrev pub wants_size : Options → Bool
  wants_size o = ltb_ℤ (pos 0) o.recv_buffer || ltb_ℤ (pos 0) o.send_buffer

  -- Where the connection is a syscall.Conn and a size is wanted, the sizes are verified.
  abbrev pub set_on :
      SyscallConn → (ℤ → K → K × Option Errno) → (ℤ → K → K × Option Errno) → Options → K → Result K
  set_on no_syscall_conn read write o s = set_unverified read write o s
  set_on (conn_failed e) read write o s =
      if wants_size o then (s, some (refused e)) else set_unverified read write o s
  set_on (raw_conn raw) read write o s =
      if wants_size o then set_verified raw o s else set_unverified read write o s

  unfoldable pub set_buffers : Setter K → Options → K → Result K
  set_buffers nil_interface o s = (s, some nil_connection)
  set_buffers nil_value o s = (s, some nil_connection)
  set_buffers (setter conn read write) o s = set_on conn read write o s
