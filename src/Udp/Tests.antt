-- ===== src/Udp/Tests.antt =====
-- A Conn of two readers on one socket, and a reader's receives.
use go_netx.Base.{ℕ, ◌%◌, ◌≡◌, refl, true, false, ◌⊎◌, List, [], ◌∷◌, none, some, arith}
use go_netx.Udp.{Conn, no_reads, no_sends, no_drops, fatal, transient, read_failed}
use go_netx.Udp.Drops.{seen, largest}
use go_netx.Base.{returns}
use go_netx.Sys.Control.Encoded as Control
use go_netx.Sys.Control.Encoded.{encode}
use go_netx.Udp.Drops.Reported.{observe_controls, counts, observe_controls_lem}
use go_netx.Udp.Read.{
  Message, got, failed, BatchRead, messages, batch_failed, Packet, read, read_batch,
}
use go_netx.Udp.Read.Batch.{one_by_one, unmap_batches, read_batch-eq-read}
use go_netx.Udp.Serve.{Event, turns, start_readers, run, result}
use go_netx.Udp.Serve.Result.{Leaves, StaysTrue-refl, result_settled}
use go_netx.Udp.Serve.Closing.{IsShut, stopped_closed}

-- A datagram whose control data reports the count 2 ^ 32 + 4, and one that brings none.
abbrev wrapped_report : List Control.Message
wrapped_report = record { level = 1; kind = 40; payload = 4 ∷ 0 ∷ 0 ∷ 0 ∷ [] } ∷ []

abbrev control_data : List (List ℕ)
control_data = encode wrapped_report (7 ∷ []) ∷ encode [] [] ∷ []

observe_controls_lem_example :
    observe_controls control_data (seen 4294967290)
    ≡ returns (seen (largest (counts (some 4294967300 ∷ none ∷ [])) 4294967290))
observe_controls_lem_example =
    observe_controls_lem (some 4294967300 ∷ none ∷ []) control_data 4294967290
      (
        record {
          sent = wrapped_report;
          tail = 7 ∷ [];
          fits = ((omega arith, omega arith, omega arith), tt);
          short = omega arith;
          is = refl;
          says = refl;
        },
        (
          record { sent = []; tail = []; fits = tt; short = omega arith; is = refl; says = refl },
          tt,
        ),
      )
      (omega arith, omega arith, omega arith, tt)

abbrev conn : Conn
conn = record {
  readers = no_reads ∷ no_reads ∷ [];
  sends = no_sends ∷ [];
  drops = no_drops ∷ [];
  max_packet = 4;
  batch = 2;
  drops_on = true;
  serving = true;
  closed = false;
  fatal_error = none;
  sockets_open = true;
}

-- Addresses are numbers, and the handler does nothing to the Conn.
abbrev unmap : ℕ → ℕ
unmap a = a % 8

abbrev handle : Packet ℕ ℕ → Conn → Conn
handle p c = c

abbrev small : Message ℕ ℕ
small = record { bytes = 1 ∷ 2 ∷ []; drop_count = some 3; cut = false; from = 9 }

abbrev large_one : Message ℕ ℕ
large_one = record { bytes = 1 ∷ 2 ∷ 3 ∷ 4 ∷ []; drop_count = none; cut = true; from = 9 }

abbrev batches : List (BatchRead ℕ ℕ)
batches =
    messages (small ∷ large_one ∷ []) ∷ batch_failed (transient 5) true ∷ messages (small ∷ []) ∷ []

read_batch-eq-read_example :
    read_batch handle 1 0 (unmap_batches unmap batches) conn
    ≡ read unmap handle 1 0 (one_by_one batches) conn
read_batch-eq-read_example = read_batch-eq-read unmap handle 1 0 batches conn

handle-Leaves : (p : Packet ℕ ℕ) (c : Conn) → Leaves c (handle p c)
handle-Leaves p c = record { fatal_error = refl; closed = StaysTrue-refl c.closed }

-- The second reader's error comes too late.
abbrev two_errors : List (Event ℕ ℕ)
two_errors =
    turns 0 (failed (fatal 1) true)
    ∷ turns 1 (failed (fatal 2) true)
    ∷ turns 0 (got small)
    ∷ turns 1 (got small)
    ∷ []

result_settled_example :
    result (
      run unmap handle two_errors
        (start_readers (record conn { fatal_error = some (read_failed (fatal 7)) })))
    ≡ some (read_failed (fatal 7))
unfolding start_readers
result_settled_example =
    result_settled unmap handle handle-Leaves two_errors
      (start_readers (record conn { fatal_error = some (read_failed (fatal 7)) })) refl

stopped_closed_example :
    let v = run unmap handle two_errors (start_readers conn) in IsShut v.conn ⊎ (result v ≡ none)
unfolding run start_readers
stopped_closed_example =
    stopped_closed unmap handle handle-Leaves (λ p c h. h) two_errors conn refl (refl, (refl, tt))
