-- ===== src/Udp/Read.antt =====
-- The readers' loops of udp/udp.go: read, readBatch and readFailed. A receive on a closed socket fails with
-- `net_closed`. The delay of a backoff is not kept, since it only times the wait; nor is the failure of SyscallConn
-- before the loop of readBatch, which is handled as a failed receive is.
pub mod Batch
pub mod Counts
use go_netx.Base.{
  ℕ, zero, suc, ◌+◌, ◌≡◌, Bool, true, false, not, ◌&&◌, List, [], ◌∷◌, ◌++◌, Option, none, some,
  length, get_or, set, if◌then◌else◌, inc64, add64,
}
use go_netx.Udp.{
  Conn, ReaderStats, DropCounter, no_reads, no_drops, NetError, net_closed, truncated_read,
  transient, fatal, Error, read_failed, observe, close,
}

-- A datagram as a receive gives it: its bytes, the drop count that came along, whether it was cut, and its sender.
pub record Message (A Addr : Type 0) : Type 0 where
  pub bytes : List A
  pub drop_count : Option ℕ
  pub cut : Bool
  pub from : Addr

-- A failed receive, with whether the backoff passed before Close where there is one.
pub data Receive (A Addr : Type 0) : Type 0 where
  got : Message A Addr → Receive A Addr
  failed : NetError → Bool → Receive A Addr

-- One system call of readBatch.
pub data BatchRead (A Addr : Type 0) : Type 0 where
  messages : List (Message A Addr) → BatchRead A Addr
  batch_failed : NetError → Bool → BatchRead A Addr

pub record Packet (A Addr : Type 0) : Type 0 where
  pub payload : List A
  pub from : Addr
  pub reader : ℕ

-- Where a reader stands: in its loop, with a fatal error recorded and the Conn to close, or returned.
pub data Place : Type 0 where
  reading failing stopped : Place

abbrev pub on_reader : ℕ → (ReaderStats → ReaderStats) → Conn → Conn
on_reader i f c = record c { readers = set c.readers i (f (get_or c.readers i no_reads)) }

abbrev pub on_drops : ℕ → (DropCounter → DropCounter) → Conn → Conn
on_drops s f c = record c { drops = set c.drops s (f (get_or c.drops s no_drops)) }

abbrev pub count_cut : ReaderStats → ReaderStats
count_cut st = record st { truncated = inc64 st.truncated }

abbrev pub count_error : ReaderStats → ReaderStats
count_error st = record st { recv_errors = inc64 st.recv_errors }

abbrev pub count_packet : ℕ → ReaderStats → ReaderStats
count_packet n st = record st {
  recv_packets = inc64 st.recv_packets;
  recv_bytes = add64 st.recv_bytes n;
}

-- The count that came along with a datagram.
unfoldable pub note_drops : ℕ → Option ℕ → Conn → Conn
unfolding observe
note_drops s none c = c
note_drops s (some raw) c = on_drops s (observe raw) c

-- `if c.fatal == nil && !c.closed { c.fatal = ... }`
abbrev pub record_fatal : NetError → Conn → Conn
record_fatal e c = elim c.fatal_error [
  | some before ↦ c
  | none ↦ if c.closed then c else record c { fatal_error = some (read_failed e) }
]

-- `readFailed`, up to the Close after a fatal error.
unfoldable pub read_fails : ℕ → NetError → Bool → Conn → Conn × Place
read_fails i net_closed waited c = (c, stopped)
read_fails i truncated_read waited c = (on_reader i count_cut c, reading)
read_fails i (transient e) waited c =
    (on_reader i count_error c, if waited then reading else stopped)
read_fails i (fatal e) waited c = (record_fatal (fatal e) (on_reader i count_error c), failing)

module _ {A Addr : Type 0} where
  -- What is done after a turn: the rest of the loop, or Close after a fatal error.
  abbrev pub after_turn :
      Place
      → (Conn → Conn × List (Packet A Addr) × Place)
      → Conn
      → Conn × List (Packet A Addr) × Place
  after_turn reading rest c = rest c
  after_turn failing rest c = (close c, [], stopped)
  after_turn stopped rest c = (c, [], stopped)

  abbrev pub with_packets :
      List (Packet A Addr)
      → Conn × List (Packet A Addr) × Place
      → Conn × List (Packet A Addr) × Place
  with_packets ps (c, qs, place) = (c, ps ++ qs, place)

-- `handle` is what the handler does to the Conn, and `unmap` turns an IPv4-mapped address into IPv4.
module _ {A Addr : Type 0} (unmap : Addr → Addr) (handle : Packet A Addr → Conn → Conn)
    (i s : ℕ) where
  -- What a reader does with a datagram, with the packets that the handler gets.
  unfoldable pub take_message : Message A Addr → Conn → Conn × List (Packet A Addr)
  unfolding note_drops
  take_message m c =
      let c' = note_drops s m.drop_count c in
      if m.cut
      then (on_reader i count_cut c', [])
      else (let p : Packet A Addr = record { payload = m.bytes; from = unmap m.from; reader = i } in
          (handle p (on_reader i (count_packet (length m.bytes)) c'), p ∷ []))

  -- One turn of the loop of `read`.
  unfoldable pub turn : Receive A Addr → Conn → Conn × List (Packet A Addr) × Place
  unfolding take_message read_fails
  turn (got m) c = let (c', ps) = take_message m c in (c', ps, reading)
  turn (failed e waited) c = let (c', place) = read_fails i e waited c in (c', [], place)

  -- The loop of `read`, over what the receives return; `reading` is a reader that waits for the next.
  unfoldable pub read : List (Receive A Addr) → Conn → Conn × List (Packet A Addr) × Place
  unfolding turn close
  read [] c = (c, [], reading)
  read (r ∷ rs) c =
      let (c', ps, place) = turn r c in with_packets ps (after_turn place (read rs) c')

module _ {A Addr : Type 0} (handle : Packet A Addr → Conn → Conn) (i s : ℕ) where
  -- What readBatch does with a slot of a batch, whose sender BatchReader.Message has unmapped.
  unfoldable pub take_slot : Message A Addr → Conn → Conn × List (Packet A Addr)
  unfolding observe
  take_slot m c =
      let c' : Conn = elim m.drop_count [ none ↦ c | some d ↦ on_drops s (observe d) c ] in
      if m.cut
      then (on_reader i count_cut c', [])
      else (let size : ℕ = length m.bytes in
          let received = on_reader i (count_packet size) c' in
          let p : Packet A Addr = record { payload = m.bytes; from = m.from; reader = i } in
          (handle p received, p ∷ []))

  -- The messages of one call, in their order.
  unfoldable pub take_messages : List (Message A Addr) → Conn → Conn × List (Packet A Addr)
  unfolding take_slot
  take_messages [] c = (c, [])
  take_messages (m ∷ ms) c =
      let (c', ps) = take_slot m c in let (c'', qs) = take_messages ms c' in (c'', ps ++ qs)

  -- The loop of `readBatch`.
  unfoldable pub read_batch : List (BatchRead A Addr) → Conn → Conn × List (Packet A Addr) × Place
  unfolding take_messages read_fails close
  read_batch [] c = (c, [], reading)
  read_batch (messages ms ∷ bs) c =
      let (c', ps) = take_messages ms c in with_packets ps (read_batch bs c')
  read_batch (batch_failed e waited ∷ bs) c =
      let (c', place) = read_fails i e waited c in after_turn place (read_batch bs) c'
