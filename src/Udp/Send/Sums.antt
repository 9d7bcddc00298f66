-- ===== src/Udp/Send/Sums.antt =====
-- A send counts once in Stats, and goes through a socket that is there.
use go_netx.Base.{
  ℕ, zero, suc, ◌+◌, ◌%◌, ◌^◌, ◌<◌, ◌≡◌, refl, ◌||◌, List, [], ◌∷◌, Option, none, some, arith,
  if-cases, if-cases₂, length, get_or, set, ltb, leb, if◌then◌else◌,
}
use native.Mathlib.Nat.{mod-lt}
use go_netx.Base.Int.{ℤ, pos, pos_part, ltb_ℤ}
use go_netx.Udp.{Conn, SendStats, no_sends, Error, max_datagram}
use go_netx.Udp.Send.{
  Sent, wrote, failed, send_error, on_socket, count_sent, count_failed, write, port_socket,
  reply_socket, sum64, stats,
}

-- What a change of one summand changes of the sum.
pub sum64-set {ℓ} :
    {A : Type ℓ} (f : A → ℕ) (xs : List A) (i : ℕ) (v d : A) (k : ℕ)
    → i < length xs
    → f v % 2 ^ 64 ≡ (f (get_or xs i d) + k) % 2 ^ 64
    → sum64 f (set xs i v) ≡ (sum64 f xs + k) % 2 ^ 64
sum64-set f [] i v d k l h = absurd (omega arith)
sum64-set f (x ∷ xs) zero v d k l h = omega (arith, h)
sum64-set f (x ∷ xs) (suc i) v d k l h = omega (arith, sum64-set f xs i v d k (omega arith) h)

sum64_range {ℓ} : {A : Type ℓ} (f : A → ℕ) (xs : List A) → sum64 f xs < 2 ^ 64
sum64_range f [] = omega arith
sum64_range f (x ∷ xs) = omega arith

-- What the totals gain: a datagram and its bytes, an error, or nothing.
abbrev pub gain : ℕ → Sent → ℕ × ℕ × ℕ
gain n sent =
    if ltb max_datagram n
    then (0, 0, 0)
    else elim sent [ wrote k ↦ (1, k, 0) | failed e ↦ (0, 0, 1) ]

pub record Totals (c c' : Conn) (packets bytes errors : ℕ) : Type 0 where
  pub send_packets : (stats c').send_packets ≡ ((stats c).send_packets + packets) % 2 ^ 64
  pub send_bytes : (stats c').send_bytes ≡ ((stats c).send_bytes + bytes) % 2 ^ 64
  pub send_errors : (stats c').send_errors ≡ ((stats c).send_errors + errors) % 2 ^ 64
  pub recv_packets : (stats c').recv_packets ≡ (stats c).recv_packets
  pub kernel_drops : (stats c').kernel_drops ≡ (stats c).kernel_drops

on_socket-Totals :
    (s : ℕ) (f : SendStats → SendStats) (c : Conn) (packets bytes errors : ℕ)
    → s < length c.sends
    → (let st = get_or c.sends s no_sends in
        ((f st).packets % 2 ^ 64 ≡ (st.packets + packets) % 2 ^ 64)
        × ((f st).bytes % 2 ^ 64 ≡ (st.bytes + bytes) % 2 ^ 64)
        × ((f st).errors % 2 ^ 64 ≡ (st.errors + errors) % 2 ^ 64))
    → Totals c (on_socket s f c) packets bytes errors
unfolding stats
on_socket-Totals s f c packets bytes errors l h = record {
  send_packets =
      sum64-set (λ st. st.packets) c.sends s (f (get_or c.sends s no_sends)) no_sends packets l h.0;
  send_bytes =
      sum64-set (λ st. st.bytes) c.sends s (f (get_or c.sends s no_sends)) no_sends bytes l h.1;
  send_errors =
      sum64-set (λ st. st.errors) c.sends s (f (get_or c.sends s no_sends)) no_sends errors l h.2;
  recv_packets = refl;
  kernel_drops = refl;
}

Totals-nothing : (c : Conn) → Totals c c 0 0 0
unfolding stats
Totals-nothing c = record {
  send_packets = omega (arith, sum64_range (λ st. st.packets) c.sends);
  send_bytes = omega (arith, sum64_range (λ st. st.bytes) c.sends);
  send_errors = omega (arith, sum64_range (λ st. st.errors) c.sends);
  recv_packets = refl;
  kernel_drops = refl;
}

-- Each write through a socket that is there counts in the totals of Stats once: as a datagram with its bytes where it
-- is sent, as an error where the socket refuses it, and not at all where it is too long.
pub write-Totals :
    (s n : ℕ) (sent : Sent) (c : Conn)
    → s < length c.sends
    → let (packets, bytes, errors) = gain n sent in
      Totals c (write s n sent c).0 packets bytes errors
unfolding write
write-Totals s n sent c l =
    if-cases₂ {A = Conn × Option Error} {B = ℕ × ℕ × ℕ} (λ r g. Totals c r.0 g.0 g.1 g.2)
      (ltb max_datagram n) (λ f. Totals-nothing c) (λ f. go sent)
  where
    go :
        (sent : Sent)
        → let (c', e) = elim sent as (λ x. Conn × Option Error) [
          | wrote k ↦ (on_socket s (count_sent k) c, none)
          | failed e ↦ (on_socket s count_failed c, some (send_error e))
        ] in
          let (packets, bytes, errors) = elim sent as (λ x. ℕ × ℕ × ℕ) [
            | wrote k ↦ (1, k, 0)
            | failed e ↦ (0, 0, 1)
          ] in
          Totals c c' packets bytes errors
    go (wrote k) =
        on_socket-Totals s (count_sent k) c 1 k 0 l (omega arith, omega arith, omega arith)
    go (failed e) =
        on_socket-Totals s count_failed c 0 0 1 l (omega arith, omega arith, omega arith)

-- WriteTo and Reply choose a socket that is there, whatever the port and the packet's reader are.
pub sockets_in_range :
    (reader : ℤ) (port : ℕ) (c : Conn)
    → 0 < length c.sends
    → (port_socket port c < length c.sends) × (reply_socket reader port c < length c.sends)
sockets_in_range reader port c h =
    let any : (k : ℕ) → k % length c.sends < length c.sends = λ k. mod-lt k h in
    (
      any port,
      if-cases (λ s. s < length c.sends)
          (ltb_ℤ reader (pos 0) || leb (length c.readers) (pos_part reader)) (λ f. any port)
          (λ f. any (pos_part reader)),
    )
