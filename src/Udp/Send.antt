-- ===== src/Udp/Send.antt =====
-- The sends of udp/udp.go, and Stats.
pub mod Sums
use go_netx.Base.{
  ℕ, zero, suc, ◌+◌, ◌%◌, ◌≡◌, Bool, true, false, ◌||◌, List, [], ◌∷◌, Option, none, some, length,
  get_or, set, ltb, leb, if◌then◌else◌, inc64, add64,
}
use go_netx.Base.Int.{ℤ, pos, negsuc, pos_part, ltb_ℤ}
use go_netx.Udp.{
  Conn, ReaderStats, SendStats, DropCounter, no_sends, NetError, net_closed, truncated_read,
  transient, fatal, Error, closed, nil_packet, too_large, write_failed, max_datagram,
}

-- What a send returns.
pub data Sent : Type 0 where
  wrote : ℕ → Sent
  failed : NetError → Sent

-- The error that `write` returns for an error of the socket.
abbrev pub send_error : NetError → Error
send_error net_closed = closed
send_error truncated_read = write_failed truncated_read
send_error (transient e) = write_failed (transient e)
send_error (fatal e) = write_failed (fatal e)

abbrev pub on_socket : ℕ → (SendStats → SendStats) → Conn → Conn
on_socket s f c = record c { sends = set c.sends s (f (get_or c.sends s no_sends)) }

abbrev pub count_sent : ℕ → SendStats → SendStats
count_sent n st = record st { packets = inc64 st.packets; bytes = add64 st.bytes n }

abbrev pub count_failed : SendStats → SendStats
count_failed st = record st { errors = inc64 st.errors }

-- `write` of n bytes; the send happens where the length is allowed.
unfoldable pub write : ℕ → ℕ → Sent → Conn → Conn × Option Error
write s n sent c = if ltb max_datagram n then (c, some too_large) else elim sent [
  | wrote k ↦ (on_socket s (count_sent k) c, none)
  | failed e ↦ (on_socket s count_failed c, some (send_error e))
]

-- The socket of WriteTo, by the port.
abbrev pub port_socket : ℕ → Conn → ℕ
port_socket port c = port % length c.sends

unfoldable pub write_to : ℕ → ℕ → Sent → Conn → Conn × Option Error
unfolding write
write_to port n sent c = write (port_socket port c) n sent c

-- The socket of Reply, by the packet's reader where the Conn has that reader.
abbrev pub reply_socket : ℤ → ℕ → Conn → ℕ
reply_socket reader port c =
    if ltb_ℤ reader (pos 0) || leb (length c.readers) (pos_part reader)
    then port_socket port c
    else pos_part reader % length c.sends

-- Reply to a packet of a reader and a sender's port, or to nil.
unfoldable pub reply : Option (ℤ × ℕ) → ℕ → Sent → Conn → Conn × Option Error
unfolding write
reply none n sent c = (c, some nil_packet)
reply (some (reader, port)) n sent c = write (reply_socket reader port c) n sent c

pub record Stats : Type 0 where
  pub recv_packets : ℕ
  pub recv_bytes : ℕ
  pub send_packets : ℕ
  pub send_bytes : ℕ
  pub truncated : ℕ
  pub recv_errors : ℕ
  pub send_errors : ℕ
  pub kernel_drops : ℕ
  pub drops_enabled : Bool

-- A sum of uint64, which wraps.
abbrev pub sum64 {ℓ} : {A : Type ℓ} → (A → ℕ) → List A → ℕ
sum64 f [] = 0
sum64 f (x ∷ xs) = add64 (f x) (sum64 f xs)

unfoldable pub stats : Conn → Stats
stats c = record {
  recv_packets = sum64 (λ st. st.recv_packets) c.readers;
  recv_bytes = sum64 (λ st. st.recv_bytes) c.readers;
  truncated = sum64 (λ st. st.truncated) c.readers;
  recv_errors = sum64 (λ st. st.recv_errors) c.readers;
  send_packets = sum64 (λ st. st.packets) c.sends;
  send_bytes = sum64 (λ st. st.bytes) c.sends;
  send_errors = sum64 (λ st. st.errors) c.sends;
  kernel_drops = sum64 (λ d. d.total) c.drops;
  drops_enabled = c.drops_on;
}
