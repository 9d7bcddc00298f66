-- ===== src/Udp/Serve/Closing.antt =====
-- A reader that fails closes the Conn, so Serve does not return an error from one that is open.
use go_netx.Base.{
  ℕ, ◌%◌, ◌≡◌, refl, sym, ap, subst, ◌∙◌, Bool, true, false, ◌||◌, ◌⊎◌, inl, inr, List, [], ◌∷◌,
  Option, none, some, if-cases, arith, length, get_or, get_or-lt, get_or-All, get_or-set_self,
  get_or-set_ne, set, All,
}
use go_netx.Udp.{Conn, NetError, net_closed, truncated_read, transient, fatal, close}
use go_netx.Udp.Read.{
  Receive, got, failed, Packet, Place, reading, failing, stopped, note_drops, read_fails,
  take_message, turn,
}
use go_netx.Udp.Serve.{Serving, Event, turns, closes, start_readers, step, run, result}
use go_netx.Udp.Serve.Result.{Leaves, StaysTrue, is_some, take_message-Leaves, turn-Leaves}

-- The Conn is closed, and so are its sockets.
abbrev pub IsShut : Conn → Type 0
IsShut c = (c.closed ≡ true) × (c.sockets_open ≡ false)

-- A recorded error belongs to a Conn that is shut, or to a reader that is about to close it.
abbrev pub Closing : Serving → Type 0
Closing v =
    IsShut v.conn
    ⊎ ((v.conn.fatal_error ≡ none) ⊎ ((i : ℕ) × (get_or v.places i stopped ≡ failing)))

-- To tell the places apart.
abbrev place_code : Place → ℕ
place_code reading = 0
place_code failing = 1
place_code stopped = 2

read_fails-failing :
    (i : ℕ) (e : NetError) (waited : Bool) (c : Conn)
    → c.fatal_error ≡ none
    → let (c', place) = read_fails i e waited c in (c'.fatal_error ≡ none) ⊎ (place ≡ failing)
unfolding read_fails
read_fails-failing i net_closed waited c h = inl h
read_fails-failing i truncated_read waited c h = inl h
read_fails-failing i (transient e) waited c h = inl h
read_fails-failing i (fatal e) waited c h = inr refl

-- A turn opens no socket.
note_drops-shut :
    (s : ℕ) (o : Option ℕ) (c : Conn)
    → c.sockets_open ≡ false
    → (note_drops s o c).sockets_open ≡ false
unfolding note_drops
note_drops-shut s none c h = h
note_drops-shut s (some raw) c h = h

read_fails-shut :
    (i : ℕ) (e : NetError) (waited : Bool) (c : Conn)
    → c.sockets_open ≡ false
    → (read_fails i e waited c).0.sockets_open ≡ false
unfolding read_fails
read_fails-shut i net_closed waited c h = h
read_fails-shut i truncated_read waited c h = h
read_fails-shut i (transient e) waited c h = h
read_fails-shut i (fatal e) waited c h = ground arith

-- A reader's place after its turn, among the places.
placed :
    (ps : List Place) (i : ℕ) (p : Place)
    → get_or ps i stopped ≡ reading
    → get_or (set ps i p) i stopped ≡ p
placed ps i p e =
    get_or-set_self ps i p stopped
      (get_or-lt ps i stopped (λ k. absurd (omega (arith, ap place_code (sym e ∙ k)))))

module _ {A Addr : Type 0} (unmap : Addr → Addr) (handle : Packet A Addr → Conn → Conn)
    (leaves : (p : Packet A Addr) (c : Conn) → Leaves c (handle p c))
    (keeps_shut : (p : Packet A Addr) (c : Conn)
      → c.sockets_open ≡ false
      → (handle p c).sockets_open ≡ false) where
  turn-shut :
      (i s : ℕ) (r : Receive A Addr) (c : Conn)
      → c.sockets_open ≡ false
      → (turn unmap handle i s r c).0.sockets_open ≡ false
  unfolding turn take_message
  turn-shut i s (got m) c h =
      if-cases (λ (end : Conn × List (Packet A Addr)). end.0.sockets_open ≡ false) m.cut
        (λ _. note_drops-shut s m.drop_count c h)
        (λ _. keeps_shut _ _ (note_drops-shut s m.drop_count c h))
  turn-shut i s (failed e waited) c h = read_fails-shut i e waited c h

  turn-failing :
      (i s : ℕ) (r : Receive A Addr) (c : Conn)
      → c.fatal_error ≡ none
      → let (c', ps, place) = turn unmap handle i s r c in
        (c'.fatal_error ≡ none) ⊎ (place ≡ failing)
  unfolding turn
  turn-failing i s (got m) c h =
      inl ((take_message-Leaves unmap handle leaves i s m c).fatal_error ∙ h)
  turn-failing i s (failed e waited) c h = read_fails-failing i e waited c h

  reading-Closing :
      (i : ℕ) (r : Receive A Addr) (v : Serving)
      → get_or v.places i stopped ≡ reading
      → Closing v
      → let (c, ps, place) = turn unmap handle i (i % length v.conn.sends) r v.conn in
        Closing (record { conn = c; places = set v.places i place })
  reading-Closing i r v e (inl (h, shut)) =
      let l =
        turn-Leaves unmap handle leaves i (i % length v.conn.sends) r v.conn
          (ap (λ b. b || is_some v.conn.fatal_error) h) in
      inl (
        subst (λ b. StaysTrue b (turn unmap handle i (i % length v.conn.sends) r v.conn).0.closed) h
            l.closed,
        turn-shut i (i % length v.conn.sends) r v.conn shut,
      )
  reading-Closing i r v e (inr (inl h)) =
      let (c, ps, place) = turn unmap handle i (i % length v.conn.sends) r v.conn in
      elim (turn-failing i (i % length v.conn.sends) r v.conn h) [
        | inl k ↦ inr (inl k)
        | inr k ↦ inr (inr (i, placed v.places i place e ∙ k))
      ]
  reading-Closing i r v e (inr (inr (j, h))) =
      let place = (turn unmap handle i (i % length v.conn.sends) r v.conn).2 in
      inr (
        inr (
          j,
          get_or-set_ne v.places place stopped (λ k.
                absurd (
                  omega (arith, ap place_code (sym e ∙ ap (λ n. get_or v.places n stopped) k ∙ h))))
              ∙ h,
        ))

  step-Closing : (e : Event A Addr) (v : Serving) → Closing v → Closing (step unmap handle e v)
  unfolding step close
  step-Closing (turns i r) v h = go (get_or v.places i stopped) refl
    where
      go :
          (place : Place)
          → get_or v.places i stopped ≡ place
          → Closing (elim place as (λ p. Serving) [
            | reading ↦
                let (c, ps, place) = turn unmap handle i (i % length v.conn.sends) r v.conn in
                record { conn = c; places = set v.places i place }
            | failing ↦ record { conn = close v.conn; places = set v.places i stopped }
            | stopped ↦ v
          ])
      go reading e = reading-Closing i r v e h
      go failing e = inl (refl, refl)
      go stopped e = h
  step-Closing closes v h = inl (refl, refl)

  run-Closing :
      (es : List (Event A Addr)) (v : Serving) → Closing v → Closing (run unmap handle es v)
  unfolding run
  run-Closing [] v h = h
  run-Closing (e ∷ es) v h = run-Closing es (step unmap handle e v) (step-Closing e v h)

  -- From the start of Serve, with no error recorded, and in any order of the readers' turns and of Close: when
  -- every reader has stopped, the result is nil, or the Conn is closed and its sockets are closed too, so a fatal
  -- error leaves no open socket behind. The handler records no errors, and reopens neither the Conn nor a socket.
  pub stopped_closed :
      (es : List (Event A Addr)) (c : Conn)
      → c.fatal_error ≡ none
      → All (λ p. p ≡ stopped) (run unmap handle es (start_readers c)).places
      → let v = run unmap handle es (start_readers c) in IsShut v.conn ⊎ (result v ≡ none)
  unfolding start_readers
  stopped_closed es c h k = elim (run-Closing es (start_readers c) (inr (inl h))) [
    | inl l ↦ inl l
    | inr (inl l) ↦ inr l
    | inr (inr (i, l)) ↦ absurd (
        omega (
          arith,
          ap place_code (
              sym (
                get_or-All (λ p. p ≡ stopped) (run unmap handle es (start_readers c)).places i
                  stopped k refl)
              ∙ l),
        ))
  ]
