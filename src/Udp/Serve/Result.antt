-- ===== src/Udp/Serve/Result.antt =====
-- What Serve returns, whatever the order of the readers' turns.
use go_netx.Base.{
  ℕ, ◌%◌, ◌≡◌, refl, sym, ap, subst, ◌∙◌, Bool, true, false, true≢false, ◌||◌, ◌⊎◌, inl, inr, List,
  [], ◌∷◌, Option, none, some, if-cases, arith, length, get_or, set,
}
use go_netx.Udp.{Conn, Error, NetError, net_closed, truncated_read, transient, fatal, close}
use go_netx.Udp.Read.{
  Message, Receive, got, failed, Packet, Place, reading, failing, stopped, on_reader, count_error,
  count_cut, count_packet, note_drops, record_fatal, read_fails, take_message, turn,
}
use go_netx.Udp.Serve.{Serving, Event, turns, closes, step, run, result}

abbrev pub is_some : Option Error → Bool
is_some none = false
is_some (some e) = true

-- Serve's result is settled: the Conn is closed, or an error is recorded.
abbrev pub settled : Conn → Bool
settled c = c.closed || is_some c.fatal_error

settled_cases :
    (c : Conn) → settled c ≡ true → (c.closed ≡ true) ⊎ ((e : Error) × (c.fatal_error ≡ some e))
settled_cases c h = ground arith

-- What was closed still is.
abbrev pub StaysTrue : Bool → Bool → Type 0
StaysTrue false b = Unit
StaysTrue true b = b ≡ true

pub StaysTrue-refl : (b : Bool) → StaysTrue b b
StaysTrue-refl false = tt
StaysTrue-refl true = refl

StaysTrue-trans : (a b c : Bool) → StaysTrue a b → StaysTrue b c → StaysTrue a c
StaysTrue-trans false b c h k = tt
StaysTrue-trans true true c h k = k
StaysTrue-trans true false c h k = absurd (true≢false (sym h))

StaysTrue-true : (b : Bool) → StaysTrue b true
StaysTrue-true false = tt
StaysTrue-true true = refl

-- What a change of the Conn leaves alone: the recorded error, and that it is closed.
pub record Leaves (c c' : Conn) : Type 0 where
  pub fatal_error : c'.fatal_error ≡ c.fatal_error
  pub closed : StaysTrue c.closed c'.closed

Leaves-refl : (c : Conn) → Leaves c c
Leaves-refl c = record { fatal_error = refl; closed = StaysTrue-refl c.closed }

Leaves-trans : (c c' c'' : Conn) → Leaves c c' → Leaves c' c'' → Leaves c c''
Leaves-trans c c' c'' h k = record {
  fatal_error = k.fatal_error ∙ h.fatal_error;
  closed = StaysTrue-trans c.closed c'.closed c''.closed h.closed k.closed;
}

Leaves-settled : (c c' : Conn) → Leaves c c' → settled c ≡ true → settled c' ≡ true
Leaves-settled c c' l h = elim (settled_cases c h) [
  | inl e ↦ ap (λ b. b || is_some c'.fatal_error) (subst (λ b. StaysTrue b c'.closed) e l.closed)
  | inr e ↦ ground (arith, l.fatal_error, e.1)
]

record_fatal-closed : (e : NetError) (c : Conn) → (record_fatal e c).closed ≡ c.closed
record_fatal-closed e c = ground arith

-- Once settled, a failed receive records nothing.
read_fails-Leaves :
    (i : ℕ) (e : NetError) (waited : Bool) (c : Conn)
    → settled c ≡ true
    → Leaves c (read_fails i e waited c).0
unfolding read_fails
read_fails-Leaves i net_closed waited c h = Leaves-refl c
read_fails-Leaves i truncated_read waited c h = record {
  fatal_error = refl;
  closed = StaysTrue-refl c.closed;
}
read_fails-Leaves i (transient e) waited c h = record {
  fatal_error = refl;
  closed = StaysTrue-refl c.closed;
}
read_fails-Leaves i (fatal e) waited c h = record {
  fatal_error = ground (arith, h);
  closed =
      subst (StaysTrue c.closed) (sym (record_fatal-closed (fatal e) (on_reader i count_error c)))
        (StaysTrue-refl c.closed);
}

note_drops-Leaves : (s : ℕ) (o : Option ℕ) (c : Conn) → Leaves c (note_drops s o c)
unfolding note_drops
note_drops-Leaves s none c = Leaves-refl c
note_drops-Leaves s (some raw) c = record { fatal_error = refl; closed = StaysTrue-refl c.closed }

module _ {A Addr : Type 0} (unmap : Addr → Addr) (handle : Packet A Addr → Conn → Conn)
    (leaves : (p : Packet A Addr) (c : Conn) → Leaves c (handle p c)) where
  pub take_message-Leaves :
      (i s : ℕ) (m : Message A Addr) (c : Conn) → Leaves c (take_message unmap handle i s m c).0
  unfolding take_message
  take_message-Leaves i s m c =
      let c' = note_drops s m.drop_count c in
      let noted = note_drops-Leaves s m.drop_count c in
      if-cases {A = Conn × List (Packet A Addr)} (λ r. Leaves c r.0) m.cut
        (λ f.
          Leaves-trans c c' (on_reader i count_cut c') noted
            (record { fatal_error = refl; closed = StaysTrue-refl c'.closed }))
        (λ f.
          let p : Packet A Addr = record { payload = m.bytes; from = unmap m.from; reader = i } in
          let counted = on_reader i (count_packet (length m.bytes)) c' in
          Leaves-trans c c' (handle p counted) noted (
            Leaves-trans c' counted (handle p counted)
              (record { fatal_error = refl; closed = StaysTrue-refl c'.closed })
              (leaves p counted)))

  pub turn-Leaves :
      (i s : ℕ) (r : Receive A Addr) (c : Conn)
      → settled c ≡ true
      → Leaves c (turn unmap handle i s r c).0
  unfolding turn
  turn-Leaves i s (got m) c h = take_message-Leaves i s m c
  turn-Leaves i s (failed e waited) c h = read_fails-Leaves i e waited c h

  close-Leaves : (c : Conn) → Leaves c (close c)
  unfolding close
  close-Leaves c = record { fatal_error = refl; closed = StaysTrue-true c.closed }

  step-Leaves :
      (e : Event A Addr) (v : Serving)
      → settled v.conn ≡ true
      → Leaves v.conn (step unmap handle e v).conn
  unfolding step
  step-Leaves (turns i r) v h = go (get_or v.places i stopped)
    where
      go :
          (place : Place)
          → Leaves v.conn
              (elim place as (λ p. Serving) [
                | reading ↦
                    let (c, ps, place) = turn unmap handle i (i % length v.conn.sends) r v.conn in
                    record { conn = c; places = set v.places i place }
                | failing ↦ record { conn = close v.conn; places = set v.places i stopped }
                | stopped ↦ v
              ]).conn
      go reading = turn-Leaves i (i % length v.conn.sends) r v.conn h
      go failing = close-Leaves v.conn
      go stopped = Leaves-refl v.conn
  step-Leaves closes v h = close-Leaves v.conn

  -- Serve's result is settled when the Conn is closed or a reader has recorded a fatal error: whatever the readers
  -- do after that, and in whatever order, it stays what it is then. The handler records no errors, and does not
  -- reopen the Conn.
  pub result_settled :
      (es : List (Event A Addr)) (v : Serving)
      → settled v.conn ≡ true
      → result (run unmap handle es v) ≡ result v
  unfolding run
  result_settled [] v h = refl
  result_settled (e ∷ es) v h =
      let l = step-Leaves e v h in
      result_settled es (step unmap handle e v)
        (Leaves-settled v.conn (step unmap handle e v).conn l h)
      ∙ l.fatal_error
