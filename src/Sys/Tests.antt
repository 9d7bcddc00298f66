-- ===== src/Sys/Tests.antt =====
-- Runs of the functions of internal/sys on concrete inputs, where the theorems' hypotheses hold.
use go_netx.Base.{
  ℕ, ◌≡◌, refl, List, [], ◌∷◌, ◌+◌, zero, suc, Option, none, some, arith, Ends, replicate, returns,
}
use go_netx.Sys.{classify_read, classify_winsock, eintr, transient, truncated, drop_count, port}
use go_netx.Sys.Control.Scanned.{Reads, drop_count_lem}
use go_netx.Sys.Control.Encoded.{Message, encode, first_count, drop_count-encode}
use go_netx.Sys.Batch.{new_batch_reader, read, Poll, ready, Slot, inet6, Call, message, addr6}
use go_netx.Sys.Batch.Fitting.{IsCall}
use go_netx.Sys.Batch.Taken.{IsMessage, read-message}

port_443 : port 47873 ≡ 443
unfolding port
port_443 = refl

transient_retry : classify_read (some eintr) ≡ transient
unfolding classify_read
transient_retry = refl

winsock_large : classify_winsock 10040 ≡ truncated
unfolding classify_winsock
winsock_large = refl

-- A message of another kind, and then a count of 7.
abbrev two : List Message
two =
    record { level = 0; kind = 8; payload = 1 ∷ [] }
    ∷ record { level = 1; kind = 40; payload = 7 ∷ 0 ∷ 0 ∷ 0 ∷ [] }
    ∷ []

two_counted : drop_count (encode two (9 ∷ [])) ≡ returns (some 7)
unfolding drop_count
two_counted = refl

drop_count-encode_example : drop_count (encode two (9 ∷ [])) ≡ returns (first_count two)
drop_count-encode_example =
    drop_count-encode two (9 ∷ [])
      ((omega arith, omega arith, omega arith), ((omega arith, omega arith, omega arith), tt))
      (omega arith)

drop_count_lem_example : Ends (Reads (16 ∷ replicate 20 0)) (drop_count (16 ∷ replicate 20 0))
drop_count_lem_example = drop_count_lem (16 ∷ replicate 20 0)

-- A kernel that writes one byte of control data for the first slot, from a sender on scope 5.
abbrev fill : List Slot → List Slot
fill [] = []
fill (s ∷ slots) =
    record s {
      name = inet6 47873 99 5;
      len = 3;
      controllen = elim s.controllen [ zero ↦ 0 | suc n ↦ 1 ];
    }
    ∷ slots

abbrev one_datagram : Call
one_datagram slots oob = record {
  slots = fill slots;
  oob = oob;
  n = elim slots [ [] ↦ 0 | s ∷ rest ↦ 1 ];
  errno = none;
}

-- A call that is interrupted.
abbrev interrupted_call : Call
interrupted_call slots oob = record { slots = slots; oob = oob; n = 0; errno = some eintr }

one_datagram-IsCall : IsCall one_datagram
one_datagram-IsCall [] oob = (refl, refl, omega arith, λ size h. h)
one_datagram-IsCall (s ∷ slots) oob = (refl, refl, omega arith, λ size h. (ground arith, h.1))

interrupted_call-IsCall : IsCall interrupted_call
interrupted_call-IsCall slots oob = (refl, refl, omega arith, λ size h. h)

abbrev polls : List Poll
polls = ready (interrupted_call ∷ one_datagram ∷ []) ∷ []

abbrev scopes : ℕ → Option ℕ
scopes id = some (id + 100)

read-message_example :
    ((read polls (new_batch_reader 2 64)).1.zones ≡ [])
    × Ends
        (IsMessage (λ a. addr6 a none) scopes 0 (read polls (new_batch_reader 2 64)).1)
        (message (λ a. addr6 a none) scopes 0 (read polls (new_batch_reader 2 64)).1)
unfolding new_batch_reader read
read-message_example =
    read-message (λ a. addr6 a none) scopes polls (new_batch_reader 2 64) 1 0
      (refl, (omega arith, (omega arith, tt)))
      ((interrupted_call-IsCall, (one_datagram-IsCall, tt)), tt) refl (omega arith)
