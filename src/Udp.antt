-- ===== src/Udp.antt =====
-- udp/udp.go: a UDP endpoint with its readers, its counters and its closing.
-- The network is what the calls of the sockets return: a list of receives for each reader, and a result for each send.
-- A reader's turn, from one receive to the next, is run as a whole; a fatal error is recorded in one turn and closes
-- the Conn in the next, as the code does these under two locks.
pub mod Drops
pub mod Read
pub mod Serve
pub mod Send
mod Tests
use go_netx.Base.{
  ℕ, zero, suc, ◌+◌, ◌-◌, ◌*◌, ◌%◌, ◌^◌, ◌≡◌, Bool, true, false, not, ◌&&◌, ◌||◌, List, [], ◌∷◌,
  ◌++◌, Option, none, some, length, replicate, get_or, set, ltb, leb, ◌==◌, if◌then◌else◌, inc64,
  add64,
}
use go_netx.Base.Int.{ℤ, pos, negsuc, pos_part, ltb_ℤ}

abbrev pub max_datagram : ℕ
max_datagram = 65000

abbrev pub max_batch : ℕ
max_batch = 1024

-- `MaxPacket`, `Readers` and `Batch` as they are given, and whether the sockets are reused.
pub record Options : Type 0 where
  pub readers : ℤ
  pub max_packet : ℤ
  pub batch : ℤ
  pub reuse_port : Bool

-- What an operation on a socket failed with.
pub data NetError : Type 0 where
  net_closed truncated_read : NetError
  transient fatal : ℕ → NetError

pub data Error : Type 0 where
  nil_handler negative_options packet_too_large batch_too_large : Error
  closed served_twice nil_packet too_large : Error
  read_failed write_failed : NetError → Error

pub record ReaderStats : Type 0 where
  pub recv_packets : ℕ
  pub recv_bytes : ℕ
  pub truncated : ℕ
  pub recv_errors : ℕ

pub record SendStats : Type 0 where
  pub packets : ℕ
  pub bytes : ℕ
  pub errors : ℕ

-- `last` is a uint32.
pub record DropCounter : Type 0 where
  pub last : ℕ
  pub total : ℕ

-- int32(a - b) where it is positive, and else 0.
abbrev pub delta32 : ℕ → ℕ → ℕ
delta32 a b = let d = (a + (2 ^ 32 - b)) % 2 ^ 32 in if ltb d (2 ^ 31) then d else 0

unfoldable pub observe : ℕ → DropCounter → DropCounter
observe raw d =
    let delta = delta32 raw d.last in
    if delta == 0 then d else record { last = raw; total = add64 d.total delta }

pub record Conn : Type 0 where
  pub readers : List ReaderStats
  pub sends : List SendStats
  pub drops : List DropCounter
  pub max_packet : ℕ
  pub batch : ℕ
  pub drops_on : Bool
  pub serving : Bool
  pub closed : Bool
  pub fatal_error : Option Error
  pub sockets_open : Bool

abbrev pub no_reads : ReaderStats
no_reads = record { recv_packets = 0; recv_bytes = 0; truncated = 0; recv_errors = 0 }

abbrev pub no_sends : SendStats
no_sends = record { packets = 0; bytes = 0; errors = 0 }

abbrev pub no_drops : DropCounter
no_drops = record { last = 0; total = 0 }

-- The batch in effect: `supported` and `default_batch` are of the platform.
unfoldable pub batch_size : Bool → ℕ → ℕ → ℕ → ℕ → ℕ
batch_size supported default_batch batch readers sockets =
    if not supported
    then 1
    else if batch == 0 && ltb sockets readers
    then 1
    else if batch == 0
    then default_batch
    else batch

abbrev pub or_default : ℕ → ℕ → ℕ
or_default n d = if n == 0 then d else n

-- The checks of Listen, with a handler or none.
unfoldable pub refusal : Bool → Options → Option Error
refusal has_handler o =
    if not has_handler
    then some nil_handler
    else if ltb_ℤ o.readers (pos 0) || ltb_ℤ o.max_packet (pos 0) || ltb_ℤ o.batch (pos 0)
    then some negative_options
    else if ltb max_datagram (pos_part o.max_packet)
    then some packet_too_large
    else if ltb max_batch (pos_part o.batch)
    then some batch_too_large
    else none

-- The sockets that Listen opens one by one; each opens, with or without drop counts, or fails.
unfoldable pub open_sockets : ℕ → List (Option Bool) → Option Bool
open_sockets zero results = some true
open_sockets (suc n) [] = none
open_sockets (suc n) (none ∷ results) = none
open_sockets (suc n) (some counted ∷ results) = elim (open_sockets n results) [
  | none ↦ none
  | some all ↦ some (counted && all)
]

abbrev pub socket_count : Options → ℕ
socket_count o = if o.reuse_port then or_default (pos_part o.readers) 1 else 1

pub data Listened : Type 0 where
  refused : Error → Listened
  socket_failed : Listened
  bound : Conn → Listened

unfoldable pub listen : Bool → ℕ → Bool → Options → List (Option Bool) → Listened
unfolding refusal open_sockets batch_size
listen supported default_batch has_handler o results =
    let readers = or_default (pos_part o.readers) 1 in
    let sockets = socket_count o in
    elim (refusal has_handler o) [
      | some e ↦ refused e
      | none ↦ elim (open_sockets sockets results) [
        | none ↦ socket_failed
        | some counted ↦ bound (record {
          readers = replicate readers no_reads;
          sends = replicate sockets no_sends;
          drops = replicate sockets no_drops;
          max_packet = or_default (pos_part o.max_packet) max_datagram;
          batch = batch_size supported default_batch (pos_part o.batch) readers sockets;
          drops_on = counted;
          serving = false;
          closed = false;
          fatal_error = none;
          sockets_open = true;
        })
      ]
    ]

-- Close, which is done once: a second call changes nothing more.
unfoldable pub close : Conn → Conn
close c = record c { closed = true; sockets_open = false }

-- The start of Serve.
unfoldable pub begin_serve : Conn → Conn × Option Error
begin_serve c =
    if c.closed
    then (c, some closed)
    else if c.serving
    then (c, some served_twice)
    else (record c { serving = true }, none)

-- The end of Shutdown's wait: `served` if Serve has returned, and else the context's end.
pub data Wait : Type 0 where
  served context_done : Wait

unfoldable pub shutdown : Wait → Conn → Conn × Bool
unfolding close
shutdown wait c =
    let c' = close c in
    if not c'.serving then (c', true) else (c', elim wait [ served ↦ true | context_done ↦ false ])
