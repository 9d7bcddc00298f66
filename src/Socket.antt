-- ===== src/Socket.antt =====
-- The package socket on Linux: the options of a socket, which are checked, set and read back before it is bound or
-- connected. `K` is the state of a socket in the kernel, and its setsockopt and getsockopt are parameters.
pub mod Config
pub mod Frame
pub mod Granted
pub mod Outbound
pub mod Refused
mod Tests
use go_netx.Base.{
  ℕ, ◌/◌, Bool, true, false, not, ◌&&◌, ◌||◌, Option, none, some, ◌==◌, if◌then◌else◌, suc,
}
use go_netx.Base.Int.{ℤ, pos, negsuc, sub_ℕ, ltb_ℤ, leb_ℤ, eqb_ℤ}

-- The errors that the code tells apart, of package syscall.
pub data Errno : Type 0 where
  enoprotoopt eopnotsupp enotsup : Errno
  other_errno : ℕ → Errno

pub record FastOpenOptions : Type 0 where
  pub enabled : Bool
  pub backlog : ℤ

-- The durations are int64.
pub record KeepAlive : Type 0 where
  pub disable : Bool
  pub idle : ℤ
  pub interval : ℤ
  pub count : ℤ

pub record Options : Type 0 where
  pub fast_open : FastOpenOptions
  pub reuse_port : Bool
  pub recv_buffer : ℤ
  pub send_buffer : ℤ
  pub keep_alive : KeepAlive

pub data Network : Type 0 where
  tcp tcp4 tcp6 udp udp4 udp6 : Network
  other_network : ℕ → Network

-- What an `UnsupportedOptionError` names.
pub data Feature : Type 0 where
  socket_options tcp_fast_open tcp_keep_alive : Feature

pub data Place : Type 0 where
  network : Network → Place
  dialed_connections : Place

pub data BufferName : Type 0 where
  receive_buffer send_buffer : BufferName

-- `short` is BufferSizeError with the sizes requested and granted; `refused` is what the connection's Control or a
-- hook of the caller fails with.
pub data Error : Type 0 where
  nil_connection : Error
  unsupported : Feature → Place → Error
  short : BufferName → ℤ → ℤ → Error
  sys : Errno → Error
  refused : ℕ → Error

unfoldable pub is_unsupported : Error → Bool
is_unsupported (unsupported f p) = true
is_unsupported nil_connection = false
is_unsupported (short name requested actual) = false
is_unsupported (sys e) = false
is_unsupported (refused e) = false

-- `k == KeepAlive{}`
abbrev pub is_zero_keep_alive : KeepAlive → Bool
is_zero_keep_alive k =
    (not k.disable && eqb_ℤ k.idle (pos 0)) && (eqb_ℤ k.interval (pos 0) && eqb_ℤ k.count (pos 0))

-- `opts == (Options{})`
unfoldable pub is_zero_options : Options → Bool
is_zero_options o =
    ((not o.fast_open.enabled && eqb_ℤ o.fast_open.backlog (pos 0)) && not o.reuse_port)
    && ((eqb_ℤ o.recv_buffer (pos 0) && eqb_ℤ o.send_buffer (pos 0))
        && is_zero_keep_alive o.keep_alive)

-- net.KeepAliveConfig
pub record KeepAliveConfig : Type 0 where
  pub enable : Bool
  pub idle : ℤ
  pub interval : ℤ
  pub count : ℤ

abbrev pub no_config : KeepAliveConfig
no_config = record { enable = false; idle = pos 0; interval = pos 0; count = pos 0 }

unfoldable pub apply_keep_alive : KeepAlive → ℤ × KeepAliveConfig
apply_keep_alive k =
    if k.disable
    then (negsuc 0, no_config)
    else if is_zero_keep_alive k
    then (pos 0, no_config)
    else (pos 0, record { enable = true; idle = k.idle; interval = k.interval; count = k.count })

abbrev pub is_tcp : Network → Bool
is_tcp tcp = true
is_tcp tcp4 = true
is_tcp tcp6 = true
is_tcp n = false

abbrev pub is_udp : Network → Bool
is_udp udp = true
is_udp udp4 = true
is_udp udp6 = true
is_udp n = false

unfoldable pub check_network : Network → Options → Option Error
unfolding is_zero_options
check_network n o =
    if not (is_tcp n) && not (is_udp n)
    then (if is_zero_options o then none else some (unsupported socket_options (network n)))
    else if is_udp n && o.fast_open.enabled
    then some (unsupported tcp_fast_open (network n))
    else if is_udp n && not (is_zero_keep_alive o.keep_alive)
    then some (unsupported tcp_keep_alive (network n))
    else none

-- The calls on one socket: by level and option.
pub record Sockopts (K : Type 0) : Type 0 where
  pub set : ℕ → ℕ → ℤ → K → K × Option Errno
  pub get : ℕ → ℕ → K → ℤ × Option Errno

-- The socket afterwards, and the error.
abbrev pub Result : Type 0 → Type 0
Result K = K × Option Error

abbrev pub sol_socket : ℕ
sol_socket = 1

abbrev pub ipproto_tcp : ℕ
ipproto_tcp = 6

abbrev pub so_reuse_port : ℕ
so_reuse_port = 15

abbrev pub tcp_fast_open_opt : ℕ
tcp_fast_open_opt = 23

pub record BufferKind : Type 0 where
  pub name : BufferName
  pub opt : ℕ
  pub force : ℕ

abbrev pub recv_buffer_kind : BufferKind
recv_buffer_kind = record { name = receive_buffer; opt = 8; force = 33 }

abbrev pub send_buffer_kind : BufferKind
send_buffer_kind = record { name = send_buffer; opt = 7; force = 32 }

-- `v / 2` on an int, which rounds to zero.
abbrev pub half : ℤ → ℤ
half (pos n) = pos (n / 2)
half (negsuc n) = sub_ℕ 0 (suc n / 2)

-- `fastOpenResult`
unfoldable pub fast_open_result : Option Errno → Option Errno
fast_open_result none = none
fast_open_result (some enoprotoopt) = none
fast_open_result (some eopnotsupp) = none
fast_open_result (some enotsup) = none
fast_open_result (some (other_errno n)) = some (other_errno n)

module _ {K : Type 0} where
  -- A call with no error is followed by the next.
  abbrev pub and_next : Result K → (K → Result K) → Result K
  and_next (s, none) f = f s
  and_next (s, some e) f = (s, some e)

  abbrev pub result_of : K × Option Errno → Result K
  result_of (s, none) = (s, none)
  result_of (s, some e) = (s, some (sys e))

  abbrev pub fast_result : K × Option Errno → Result K
  fast_result (s, e) = result_of (s, fast_open_result e)

  -- What to do with a size that was read, if it was.
  abbrev pub with_size : ℤ × Option Errno → K → (ℤ → Result K) → Result K
  with_size (v, none) s f = f v
  with_size (v, some e) s f = (s, some (sys e))

  -- The last check of `ensureBuffer`, on the size that was read last.
  abbrev pub settle : BufferKind → ℤ → ℤ → K → Result K
  settle k requested actual s =
      (s, if ltb_ℤ actual requested then some (short k.name requested actual) else none)

module _ {K : Type 0} (ops : Sockopts K) where
  unfoldable pub read_buffer : BufferKind → Bool → K → ℤ × Option Errno
  read_buffer k doubled s =
      let (v, e) = ops.get sol_socket k.opt s in (if doubled then half v else v, e)

  -- The one retry by force, whose own error is ignored.
  abbrev pub force_size : BufferKind → ℤ → Bool → K → Result K
  force_size k requested doubled s =
      let s' = (ops.set sol_socket k.force requested s).0 in
      with_size (read_buffer k doubled s') s' (λ actual. settle k requested actual s')

  unfoldable pub ensure_buffer : BufferKind → ℤ → Bool → K → Result K
  unfolding read_buffer
  ensure_buffer k requested doubled s =
      and_next (result_of (ops.set sol_socket k.opt requested s)) (λ s'.
        with_size (read_buffer k doubled s') s' (λ actual.
          if ltb_ℤ actual requested && not (k.force == 0)
          then force_size k requested doubled s'
          else settle k requested actual s'))

  -- A size that is positive is set; Linux reports sizes doubled.
  abbrev pub ensure_wanted : BufferKind → ℤ → K → Result K
  ensure_wanted k size s = if ltb_ℤ (pos 0) size then ensure_buffer k size true s else (s, none)

  unfoldable pub apply_buffers : Options → K → Result K
  apply_buffers o s =
      and_next (ensure_wanted recv_buffer_kind o.recv_buffer s)
        (ensure_wanted send_buffer_kind o.send_buffer)

  abbrev pub reuse : Options → K → Result K
  reuse o s =
      if o.reuse_port then result_of (ops.set sol_socket so_reuse_port (pos 1) s) else (s, none)

  -- Fast Open with a backlog of 128 for one that is not positive.
  abbrev pub open_fast : Options → K → Result K
  open_fast o s =
      let backlog = if leb_ℤ o.fast_open.backlog (pos 0) then pos 128 else o.fast_open.backlog in
      if not o.fast_open.enabled
      then (s, none)
      else fast_result (ops.set ipproto_tcp tcp_fast_open_opt backlog s)

  unfoldable pub apply_options : Options → K → Result K
  apply_options o s = and_next (reuse o s) (open_fast o)

  -- `raw` is the error that the connection's Control fails with instead of running the function, if any.
  unfoldable pub control : Options → Bool → Network → Option ℕ → K → Result K
  unfolding check_network is_zero_options apply_buffers apply_options
  control o outbound n raw s = elim (check_network n o) [
    | some e ↦ (s, some e)
    | none ↦
        if outbound && o.fast_open.enabled
        then (s, some (unsupported tcp_fast_open dialed_connections))
        else if is_zero_options o
        then (s, none)
        else elim raw [
          | some e ↦ (s, some (refused e))
          | none ↦ and_next (apply_buffers o s) (apply_options o)
        ]
  ]
