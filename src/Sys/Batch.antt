-- ===== src/Sys/Batch.antt =====
-- internal/sys/mmsg_linux.go: many datagrams with one system call. The kernel is what each call of recvmmsg makes of the
-- slots and the control data that it is given; the names of the interfaces and `netip.Addr.Unmap` are parameters.
pub mod Fitting
pub mod Taken
use go_netx.Base.{
  ℕ, ◌+◌, ◌*◌, List, [], ◌∷◌, Option, none, some, map, length, replicate, slice, get_elem?, ltb,
  leb, ◌==◌, Bool, ◌&&◌, if◌then◌else◌, ℕ_discrete, Outcome, returns, panics, and_then,
}
use go_netx.Base.Assoc.{get, put}
use go_netx.Sys.{Errno, eintr, eagain, port}

-- `RawSockaddrAny`, by the families that the code reads, with the port as the machine reads its bytes.
pub data Sockaddr : Type 0 where
  inet4 : ℕ → ℕ → Sockaddr
  inet6 : ℕ → ℕ → ℕ → Sockaddr
  other_family : Sockaddr

-- A slot's `mmsghdr`, with the sender's name.
pub record Slot : Type 0 where
  pub name : Sockaddr
  pub namelen : ℕ
  pub controllen : ℕ
  pub flags : ℕ
  pub len : ℕ

-- The name of an interface, or a scope's number in place of one.
pub data Zone : Type 0 where
  named numbered : ℕ → Zone

pub data IpAddr : Type 0 where
  addr4 : ℕ → IpAddr
  addr6 : ℕ → Option Zone → IpAddr

pub record BatchReader : Type 0 where
  pub slots : List Slot
  pub oob : List ℕ
  pub oob_size : ℕ
  pub n : ℕ
  pub errno : Option Errno
  pub zones : List (ℕ × Zone)

-- What a call of recvmmsg leaves, and what it returns.
pub record Reply : Type 0 where
  pub slots : List Slot
  pub oob : List ℕ
  pub n : ℕ
  pub errno : Option Errno

abbrev pub Call : Type 0
Call = List Slot → List ℕ → Reply

abbrev pub sizeof_sockaddr : ℕ
sizeof_sockaddr = 112

abbrev pub new_slot : Slot
new_slot = record { name = other_family; namelen = 0; controllen = 0; flags = 0; len = 0 }

unfoldable pub new_batch_reader : ℕ → ℕ → BatchReader
new_batch_reader bufs oob_size = record {
  slots = replicate bufs new_slot;
  oob = replicate (bufs * oob_size) 0;
  oob_size = oob_size;
  n = 0;
  errno = none;
  zones = [];
}

-- The header of a slot before a call.
abbrev pub reset : ℕ → Slot → Slot
reset oob_size s = record s { namelen = sizeof_sockaddr; controllen = oob_size; flags = 0 }

-- What a round of `recv` comes to: the system call has returned, or the poller is to be waited for, or the last
-- system call has not returned yet.
pub data Received : Type 0 where
  got waits calling : BatchReader → Received

-- How a system call ends: EINTR has it made again, and EAGAIN waits for the poller.
pub data CallEnd : Type 0 where
  interrupted would_block over : CallEnd

abbrev pub call_end : Option Errno → CallEnd
call_end none = over
call_end (some eintr) = interrupted
call_end (some eagain) = would_block
call_end (some e) = over

-- What is there after a system call.
abbrev pub after_call : Reply → BatchReader → BatchReader
after_call a r = record r { slots = a.slots; oob = a.oob }

-- The loop of `recv` over the system calls.
unfoldable pub call_loop : List Call → BatchReader → Received
call_loop [] r = calling r
call_loop (c ∷ cs) r =
    let a = c r.slots r.oob in
    elim (call_end a.errno) [
      | interrupted ↦ call_loop cs (after_call a r)
      | would_block ↦ waits (after_call a r)
      | over ↦ got (record (after_call a r) { n = a.n; errno = a.errno })
    ]

unfoldable pub recv : List Call → BatchReader → Received
unfolding call_loop
recv cs r = call_loop cs (record r { slots = map (reset r.oob_size) r.slots })

-- What the poller of the connection does next: it fails, as after Close, or it calls `recv`.
pub data Poll : Type 0 where
  fails : ℕ → Poll
  ready : List Call → Poll

pub data ReadResult : Type 0 where
  blocked : ReadResult
  poll_failed : ℕ → ReadResult
  call_failed : Errno → ReadResult
  count : ℕ → ReadResult

-- What Read returns after a call.
abbrev pub result_of : Option Errno → ℕ → ReadResult
result_of (some e) n = call_failed e
result_of none n = count n

unfoldable pub poll_loop : List Poll → BatchReader → ReadResult × BatchReader
unfolding recv
poll_loop [] r = (blocked, r)
poll_loop (fails e ∷ ps) r = (poll_failed e, r)
poll_loop (ready cs ∷ ps) r = elim (recv cs r) [
  | got r' ↦ (result_of r'.errno r'.n, r')
  | waits r' ↦ poll_loop ps r'
  | calling r' ↦ (blocked, r')
]

unfoldable pub read : List Poll → BatchReader → ReadResult × BatchReader
unfolding poll_loop
read ps r = poll_loop ps (record r { n = 0; errno = none })

pub record Message : Type 0 where
  pub len : ℕ
  pub oob : List ℕ
  pub flags : ℕ
  pub from : Option (IpAddr × ℕ)

-- The control data of slot `i`, with the bounds of the slice.
unfoldable pub control : ℕ → Slot → BatchReader → Outcome (List ℕ)
control i s r =
    if ltb 0 r.oob_size
    then (if leb (i * r.oob_size + s.controllen) (length r.oob)
        then returns (slice (i * r.oob_size) (i * r.oob_size + s.controllen) r.oob)
        else panics)
    else returns []

-- `interface_name` finds an interface by its index.
module _ (interface_name : ℕ → Option ℕ) where
  -- The name of a scope that is not cached yet.
  abbrev pub zone_name : ℕ → Zone
  zone_name id = elim (interface_name id) [ some z ↦ named z | none ↦ numbered id ]

  unfoldable pub zone : ℕ → List (ℕ × Zone) → Zone × List (ℕ × Zone)
  zone id zones = elim (get ℕ_discrete id zones) [
    | some z ↦ (z, zones)
    | none ↦ (zone_name id, put ℕ_discrete id (zone_name id) zones)
  ]

-- `unmap` reads an IPv4-mapped address as one of IPv4.
module _ (unmap : ℕ → IpAddr) (interface_name : ℕ → Option ℕ) where
  -- An address with its scope.
  unfoldable pub scoped : IpAddr → ℕ → List (ℕ × Zone) → IpAddr × List (ℕ × Zone)
  unfolding zone
  scoped (addr4 a) scope zones = (addr4 a, zones)
  scoped (addr6 a z) scope zones =
      if scope == 0
      then (addr6 a z, zones)
      else (let (name, zones') = zone interface_name scope zones in (addr6 a (some name), zones'))

  -- `addr`: the sender and its port, where the code knows the family.
  unfoldable pub addr : Sockaddr → List (ℕ × Zone) → Option (IpAddr × ℕ) × List (ℕ × Zone)
  unfolding scoped port
  addr (inet4 p a) zones = (some (addr4 a, port p), zones)
  addr (inet6 p a scope) zones =
      let (address, zones') = scoped (unmap a) scope zones in (some (address, port p), zones')
  addr other_family zones = (none, zones)

  unfoldable pub message : ℕ → BatchReader → Outcome (Message × BatchReader)
  unfolding control addr
  message i r = elim (get_elem? r.slots i) [
    | none ↦ panics
    | some s ↦ and_then (control i s r) (λ oob.
        let (from, zones) = addr s.name r.zones in
        returns (
          record { len = s.len; oob = oob; flags = s.flags; from = from },
          record r { zones = zones },
        ))
  ]
