-- ===== src/Udp/Serve.antt =====
-- Serve of udp/udp.go: its readers take their turns in any order, and Close comes at any time.
pub mod Result
pub mod Closing
use go_netx.Base.{
  ℕ, ◌%◌, ◌≡◌, Bool, true, false, ◌||◌, List, [], ◌∷◌, Option, none, some, length, replicate,
  get_or, set,
}
use go_netx.Udp.{Conn, Error, close, begin_serve}
use go_netx.Udp.Read.{Receive, Packet, Place, reading, failing, stopped, turn}

-- The readers' places, with the Conn that they share.
pub record Serving : Type 0 where
  pub conn : Conn
  pub places : List Place

-- `closes` is a Close, a Shutdown or the end of Serve's context.
pub data Event (A Addr : Type 0) : Type 0 where
  turns : ℕ → Receive A Addr → Event A Addr
  closes : Event A Addr

-- The start of Serve's readers.
unfoldable pub start_readers : Conn → Serving
start_readers c = record { conn = c; places = replicate (length c.readers) reading }

module _ {A Addr : Type 0} (unmap : Addr → Addr) (handle : Packet A Addr → Conn → Conn) where
  -- Reader i reads from the socket i % len(c.socks).
  unfoldable pub step : Event A Addr → Serving → Serving
  unfolding turn close
  step (turns i r) v = elim (get_or v.places i stopped) [
    | reading ↦
        let (c, ps, place) = turn unmap handle i (i % length v.conn.sends) r v.conn in
        record { conn = c; places = set v.places i place }
    | failing ↦ record { conn = close v.conn; places = set v.places i stopped }
    | stopped ↦ v
  ]
  step closes v = record v { conn = close v.conn }

  unfoldable pub run : List (Event A Addr) → Serving → Serving
  unfolding step
  run [] v = v
  run (e ∷ es) v = run es (step e v)

-- Serve's result once every reader has stopped.
abbrev pub result : Serving → Option Error
result v = v.conn.fatal_error
