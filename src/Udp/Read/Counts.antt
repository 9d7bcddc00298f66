-- ===== src/Udp/Read/Counts.antt =====
-- The counters of a reader count what the handler gets.
use go_netx.Base.{
  ℕ, ◌+◌, ◌%◌, ◌^◌, ◌<◌, ◌≡◌, refl, ap, ◌∙◌, Bool, List, [], ◌∷◌, ◌++◌, Option, none, some, arith,
  if-cases, length, length-append, length-set, get_or, get_or-set_self,
}
use go_netx.Udp.{
  Conn, ReaderStats, no_reads, NetError, net_closed, truncated_read, transient, fatal, close,
}
use go_netx.Udp.Read.{
  Message, Receive, got, failed, Packet, Place, reading, failing, stopped, on_reader, count_cut,
  count_error, count_packet, record_fatal, note_drops, after_turn, read_fails, take_message, turn,
  read,
}

abbrev pub stats_of : ℕ → Conn → ReaderStats
stats_of i c = get_or c.readers i no_reads

close-readers : (c : Conn) → (close c).readers ≡ c.readers
unfolding close
close-readers c = refl

module _ {A Addr : Type 0} where
  abbrev pub total_bytes : List (Packet A Addr) → ℕ
  total_bytes [] = 0
  total_bytes (p ∷ ps) = length p.payload + total_bytes ps

  -- The reader's counters have gone up by these packets.
  pub record Counted (i : ℕ) (c c' : Conn) (ps : List (Packet A Addr)) : Type 0 where
    pub packets :
        (stats_of i c').recv_packets % 2 ^ 64 ≡ ((stats_of i c).recv_packets + length ps) % 2 ^ 64
    pub bytes :
        (stats_of i c').recv_bytes % 2 ^ 64 ≡ ((stats_of i c).recv_bytes + total_bytes ps) % 2 ^ 64
    pub readers : length c'.readers ≡ length c.readers

  total_bytes-append :
      (ps qs : List (Packet A Addr)) → total_bytes (ps ++ qs) ≡ total_bytes ps + total_bytes qs
  total_bytes-append [] qs = omega arith
  total_bytes-append (p ∷ ps) qs = omega (arith, total_bytes-append ps qs)

  Counted-trans :
      (i : ℕ) (c c' c'' : Conn) (ps qs : List (Packet A Addr))
      → Counted i c c' ps
      → Counted i c' c'' qs
      → Counted i c c'' (ps ++ qs)
  Counted-trans i c c' c'' ps qs h k = record {
    packets = omega (arith, h.packets, k.packets, length-append ps qs);
    bytes = omega (arith, h.bytes, k.bytes, total_bytes-append ps qs);
    readers = k.readers ∙ h.readers;
  }

  -- A change of the reader's own counters.
  Counted-on_reader :
      (i : ℕ) (f : ReaderStats → ReaderStats) (c : Conn) (ps : List (Packet A Addr))
      → i < length c.readers
      → (f (stats_of i c)).recv_packets % 2 ^ 64
        ≡ ((stats_of i c).recv_packets + length ps) % 2 ^ 64
      → (f (stats_of i c)).recv_bytes % 2 ^ 64
        ≡ ((stats_of i c).recv_bytes + total_bytes ps) % 2 ^ 64
      → Counted i c (on_reader i f c) ps
  Counted-on_reader i f c ps l h k =
      let same = get_or-set_self c.readers i (f (stats_of i c)) no_reads l in
      record {
        packets = ap (λ st. st.recv_packets % 2 ^ 64) same ∙ h;
        bytes = ap (λ st. st.recv_bytes % 2 ^ 64) same ∙ k;
        readers = length-set c.readers i (f (stats_of i c));
      }

  Counted-same : (i : ℕ) (c c' : Conn) → c'.readers ≡ c.readers → Counted i c c' []
  Counted-same i c c' e = record {
    packets = ap (λ rs. (get_or rs i no_reads).recv_packets % 2 ^ 64) e ∙ omega arith;
    bytes = ap (λ rs. (get_or rs i no_reads).recv_bytes % 2 ^ 64) e ∙ omega arith;
    readers = ap length e;
  }

  read_fails-Counted :
      (i : ℕ) (e : NetError) (waited : Bool) (c : Conn)
      → i < length c.readers
      → Counted i c (read_fails i e waited c).0 []
  unfolding read_fails
  read_fails-Counted i net_closed waited c l = Counted-same i c c refl
  read_fails-Counted i truncated_read waited c l =
      Counted-on_reader i count_cut c [] l (omega arith) (omega arith)
  read_fails-Counted i (transient e) waited c l =
      Counted-on_reader i count_error c [] l (omega arith) (omega arith)
  read_fails-Counted i (fatal e) waited c l =
      Counted-trans i c (on_reader i count_error c) _ [] []
        (Counted-on_reader i count_error c [] l (omega arith) (omega arith))
        (Counted-same i (on_reader i count_error c)
          (record_fatal (fatal e) (on_reader i count_error c)) (kept (on_reader i count_error c)))
    where
      kept : (d : Conn) → (record_fatal (fatal e) d).readers ≡ d.readers
      kept d = ground arith

module _ {A Addr : Type 0} (unmap : Addr → Addr) (handle : Packet A Addr → Conn → Conn)
    (i s : ℕ) where
  note_drops-readers : (o : Option ℕ) (c : Conn) → (note_drops s o c).readers ≡ c.readers
  unfolding note_drops
  note_drops-readers none c = refl
  note_drops-readers (some raw) c = refl

  -- The handler is what it is in the code: no method of Conn changes the counters of the readers.
  module _ (keeps : (p : Packet A Addr) (c : Conn) → (handle p c).readers ≡ c.readers) where
    take_message-Counted :
        (m : Message A Addr) (c : Conn)
        → i < length c.readers
        → let (c', ps) = take_message unmap handle i s m c in Counted i c c' ps
    unfolding take_message
    take_message-Counted m c l =
        let c' = note_drops s m.drop_count c in
        let same = note_drops-readers m.drop_count c in
        let noted : Counted {A = A} {Addr = Addr} i c c' [] = Counted-same i c c' same in
        let l' : i < length c'.readers = omega (arith, l, ap length same) in
        if-cases {A = Conn × List (Packet A Addr)} (λ r. Counted i c r.0 r.1) m.cut
          (λ f.
            Counted-trans i c c' (on_reader i count_cut c') [] [] noted
              (Counted-on_reader i count_cut c' [] l' (omega arith) (omega arith)))
          (λ f.
            let p : Packet A Addr = record { payload = m.bytes; from = unmap m.from; reader = i } in
            let counted = on_reader i (count_packet (length m.bytes)) c' in
            Counted-trans i c c' (handle p counted) [] (p ∷ []) noted (
              Counted-trans i c' counted (handle p counted) (p ∷ []) []
                (Counted-on_reader i (count_packet (length m.bytes)) c' (p ∷ []) l' (omega arith)
                  (omega arith))
                (Counted-same i counted (handle p counted) (keeps p counted))))

    turn-Counted :
        (r : Receive A Addr) (c : Conn)
        → i < length c.readers
        → let (c', ps, place) = turn unmap handle i s r c in Counted i c c' ps
    unfolding turn
    turn-Counted (got m) c l = take_message-Counted m c l
    turn-Counted (failed e waited) c l = read_fails-Counted i e waited c l

    -- Over any run of a reader's loop its counters of datagrams and of bytes, which wrap at 2 ^ 64, go up by what
    -- the handler got. The reader is one of the Conn's, and the handler leaves the readers' counters alone.
    pub read-Counted :
        (rs : List (Receive A Addr)) (c : Conn)
        → i < length c.readers
        → let (c', ps, place) = read unmap handle i s rs c in Counted i c c' ps
    unfolding read
    read-Counted [] c l = Counted-same i c c refl
    read-Counted (r ∷ rs) c l =
        let (c', ps, place) = turn unmap handle i s r c in
        let first = turn-Counted r c l in
        let rest = read-Counted rs c' (omega (arith, l, first.readers)) in
        Counted-trans i c c' _ ps _ first (go place c' rest)
      where
        go :
            (place : Place) (c' : Conn)
            → Counted i c' (read unmap handle i s rs c').0 (read unmap handle i s rs c').1
            → let (c'', qs, end) = after_turn place (read unmap handle i s rs) c' in
              Counted i c' c'' qs
        go reading c' rest = rest
        go failing c' rest = Counted-same i c' (close c') (close-readers c')
        go stopped c' rest = Counted-same i c' c' refl
