-- ===== src/Tcp.antt =====
-- tcp/server.go: which connections the server admits, and what it gives back when they end. `K` is the type of
-- the keys of MaxConnsPerIP, and a connection's key is what ipKey makes of its address. Admit is a limiter on
-- a state of its own.
pub mod Slots
pub mod Serve
pub mod Dial
pub mod Key
mod Tests
use go_netx.Base.{
  ℕ, Bool, true, false, List, [], ◌∷◌, Option, none, some, Outcome, returns, panics, runs_on,
  if◌then◌else◌, inc64, dec64, ℕ_discrete,
}
use go_netx.Base.Assoc.{put, del}
use go_netx.Limit.All.{Limiter}
use go_netx.Limit.PerKey as PerIp
use go_netx.Limit.PerKey.{PerKey}

-- `conns` holds the tracked connections by ID, each with the key of the slot that it holds, if any.
pub record Server (K S : Type 0) : Type 0 where
  pub per_ip : Option (PerKey K)
  pub admit : S
  pub stopped : Bool
  pub last_id : ℕ
  pub conns : List (ℕ × Option K)
  pub accepted : ℕ
  pub rejected : ℕ
  pub rejected_per_ip : ℕ
  pub active : ℕ
  pub closed : ℕ

module _ {K : Type 0} (dec : Discrete K) where
  -- The slot for the address, if there is a limit and the address has a key; none if it is refused.
  unfoldable pub take_slot : Option K → Option (PerKey K) → Option (PerKey K) × Option (Option K)
  take_slot key none = (none, some none)
  take_slot none (some p) = (some p, some none)
  take_slot (some k) (some p) =
      let (p', ok) = PerIp.try_acquire dec k p in (some p', if ok then some (some k) else none)

  -- `releasePerIP`
  unfoldable pub give_slot : Option K → Option (PerKey K) → Outcome (Option (PerKey K))
  give_slot none p = returns p
  give_slot (some k) none = panics
  give_slot (some k) (some p) = elim (PerIp.release dec k p) [
    | returns p' ↦ returns (some p')
    | panics ↦ panics
    | runs_on ↦ runs_on
  ]

module _ {K S : Type 0} where
  -- A server with these slots, or the failure of their release.
  abbrev pub with_slots : Server K S → Outcome (Option (PerKey K)) → Outcome (Server K S)
  with_slots s (returns p) = returns (record s { per_ip = p })
  with_slots s panics = panics
  with_slots s runs_on = runs_on

  -- `untrack`
  unfoldable pub untrack : ℕ → Server K S → Server K S
  untrack id s = record s {
    conns = del ℕ_discrete id s.conns;
    active = dec64 s.active;
    closed = inc64 s.closed;
  }

module _ {S : Type 0} (limiter : Option (Limiter S)) where
  -- `s.opts.Admit`, where nil admits all.
  unfoldable pub ask_admit : S → S × Bool
  ask_admit a = elim limiter [ none ↦ (a, true) | some l ↦ l.try_acquire a ]

  unfoldable pub leave_admit : S → S
  leave_admit a = elim limiter [ none ↦ a | some l ↦ l.release a ]

module _ {K S : Type 0} (dec : Discrete K) (limiter : Option (Limiter S)) where
  -- `release`
  unfoldable pub release : Option K → Server K S → Outcome (Server K S)
  unfolding give_slot leave_admit
  release key s =
      with_slots (record s { admit = leave_admit limiter s.admit }) (give_slot dec key s.per_ip)

  -- From `lastConnID.Add` on: the connection is tracked and counted, or, if the server has stopped, given back.
  unfoldable pub track : Option K → Server K S → Outcome (Server K S)
  unfolding release
  track key s =
      let id = inc64 s.last_id in
      if s.stopped
      then release key (record s { last_id = id })
      else returns (record s {
        last_id = id;
        conns = put ℕ_discrete id key s.conns;
        accepted = inc64 s.accepted;
        active = inc64 s.active;
      })

  -- One round of acceptLoop for a connection from an address with the key given.
  unfoldable pub accept : Option K → Server K S → Outcome (Server K S)
  unfolding take_slot give_slot ask_admit track
  accept key s =
      let (p, taken) = take_slot dec key s.per_ip in
      elim taken [
        | none ↦ returns (record s { per_ip = p; rejected_per_ip = inc64 s.rejected_per_ip })
        | some held ↦
            let (a, ok) = ask_admit limiter s.admit in
            let s' = record s { per_ip = p; admit = a } in
            if ok
            then track held s'
            else with_slots (record s' { rejected = inc64 s.rejected }) (give_slot dec held p)
      ]

  -- The end of serveConn for the tracked connection `id`, which holds a slot for the key given.
  unfoldable pub end_conn : ℕ → Option K → Server K S → Outcome (Server K S)
  unfolding release untrack
  end_conn id key s = elim (release key s) [
    | returns s' ↦ returns (untrack id s')
    | panics ↦ panics
    | runs_on ↦ runs_on
  ]
