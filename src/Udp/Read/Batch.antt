-- ===== src/Udp/Read/Batch.antt =====
-- readBatch does what read does, one datagram after the other.
use go_netx.Base.{
  ℕ, ◌≡◌, refl, sym, ap, ◌∙◌, List, [], ◌∷◌, ◌++◌, Option, none, some, map, append_assoc,
}
use go_netx.Udp.{Conn}
use go_netx.Udp.Read.{
  Message, Receive, got, failed, BatchRead, messages, batch_failed, Packet, Place, reading, failing,
  stopped, after_turn, with_packets, read_fails, note_drops, take_message, read, take_slot,
  take_messages, read_batch,
}

module _ {A Addr : Type 0} where
  abbrev pub got_each : List (Message A Addr) → List (Receive A Addr) → List (Receive A Addr)
  got_each [] rs = rs
  got_each (m ∷ ms) rs = got m ∷ got_each ms rs

  -- A datagram as BatchReader.Message gives it: with its sender unmapped.
  abbrev pub unmapped : (Addr → Addr) → Message A Addr → Message A Addr
  unmapped unmap m = record m { from = unmap m.from }

  -- The same batches, as BatchReader gives them.
  abbrev pub unmap_batches : (Addr → Addr) → List (BatchRead A Addr) → List (BatchRead A Addr)
  unmap_batches unmap [] = []
  unmap_batches unmap (messages ms ∷ bs) =
      messages (map (unmapped unmap) ms) ∷ unmap_batches unmap bs
  unmap_batches unmap (batch_failed e waited ∷ bs) = batch_failed e waited ∷ unmap_batches unmap bs

  -- The receives that a list of batches stands for.
  abbrev pub one_by_one : List (BatchRead A Addr) → List (Receive A Addr)
  one_by_one [] = []
  one_by_one (messages ms ∷ bs) = got_each ms (one_by_one bs)
  one_by_one (batch_failed e waited ∷ bs) = failed e waited ∷ one_by_one bs

module _ {A Addr : Type 0} (unmap : Addr → Addr) (handle : Packet A Addr → Conn → Conn)
    (i s : ℕ) where
  with_packets-append :
      (ps qs : List (Packet A Addr)) (r : Conn × List (Packet A Addr) × Place)
      → with_packets ps (with_packets qs r) ≡ with_packets (ps ++ qs) r
  with_packets-append ps qs (c, rs, place) = ap (λ l. (c, l, place)) (sym (append_assoc ps qs rs))

  with_packets-nil : (r : Conn × List (Packet A Addr) × Place) → with_packets [] r ≡ r
  with_packets-nil (c, rs, place) = refl

  -- A datagram is handled alike in both loops.
  take_slot-eq-take_message :
      (m : Message A Addr) (c : Conn)
      → take_slot handle i s (unmapped unmap m) c ≡ take_message unmap handle i s m c
  unfolding take_slot take_message note_drops
  take_slot-eq-take_message m c = split m.drop_count
    where
      split :
          (o : Option ℕ)
          → take_slot handle i s (record (unmapped unmap m) { drop_count = o }) c
            ≡ take_message unmap handle i s (record m { drop_count = o }) c
      split none = refl
      split (some d) = refl

  read-got_each :
      (ms : List (Message A Addr)) (rs : List (Receive A Addr)) (c : Conn)
      → let (c', ps) = take_messages handle i s (map (unmapped unmap) ms) c in
        read unmap handle i s (got_each ms rs) c ≡ with_packets ps (read unmap handle i s rs c')
  unfolding read take_messages
  read-got_each [] rs c = refl
  read-got_each (m ∷ ms) rs c =
      let (c', ps) = take_message unmap handle i s m c in
      let later = λ (t : Conn × List (Packet A Addr)).
        let (d, qs) = take_messages handle i s (map (unmapped unmap) ms) t.0 in
        with_packets (t.1 ++ qs) (read unmap handle i s rs d) in
      ap (with_packets ps) (read-got_each ms rs c')
      ∙ with_packets-append ps (take_messages handle i s (map (unmapped unmap) ms) c').1 _
      ∙ sym (ap later (take_slot-eq-take_message m c))

  -- Batching changes nothing but the number of system calls: over any batches and any errors, readBatch, which gets
  -- its senders unmapped, hands the handler the same packets in the same order, and leaves the Conn the same, as read
  -- does with the datagrams and the errors one after the other.
  pub read_batch-eq-read :
      (bs : List (BatchRead A Addr)) (c : Conn)
      → read_batch handle i s (unmap_batches unmap bs) c ≡ read unmap handle i s (one_by_one bs) c
  unfolding read_batch read
  read_batch-eq-read [] c = refl
  read_batch-eq-read (messages ms ∷ bs) c =
      let (c', ps) = take_messages handle i s (map (unmapped unmap) ms) c in
      ap (with_packets ps) (read_batch-eq-read bs c') ∙ sym (read-got_each ms (one_by_one bs) c)
  read_batch-eq-read (batch_failed e waited ∷ bs) c =
      let (c', place) = read_fails i e waited c in go place c' (read_batch-eq-read bs c')
    where
      go :
          (place : Place) (c' : Conn)
          → read_batch handle i s (unmap_batches unmap bs) c'
            ≡ read unmap handle i s (one_by_one bs) c'
          → after_turn place (read_batch handle i s (unmap_batches unmap bs)) c'
            ≡ with_packets [] (after_turn place (read unmap handle i s (one_by_one bs)) c')
      go reading c' e = e
      go failing c' e = refl
      go stopped c' e = refl
