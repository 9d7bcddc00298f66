-- ===== src/Tcp/Serve/Stopped.antt =====
-- A server that has stopped accepts no connection any more.
use go_netx.Base.{
  ℕ, ◌+◌, ◌^◌, ◌<◌, ◌≡◌, refl, sym, ◌∙◌, Bool, true, true≢false, List, [], ◌∷◌, Option, none, some,
  Outcome, returns, panics, runs_on, and_then, OnReturn, OnReturn-and_then, Ends, Ends-OnReturn,
  length, if-cases, if◌then◌else◌, inc64, ℕ_discrete,
}
use go_netx.Base.Assoc.{get}
use go_netx.Limit.All.{Limiter}
use go_netx.Limit.PerKey.{PerKey}
use go_netx.Tcp.{
  Server, take_slot, give_slot, with_slots, release, track, accept, ask_admit, leave_admit, untrack,
  end_conn,
}
use go_netx.Tcp.Serve.{
  Serving, Result, Event, arrives, fails, ends, drains, closes, accept_fails, stop_accept,
  abort_all, close_server, arrive, finish, step, run,
}
use go_netx.Tcp.Serve.Run.{Balanced, run-Balanced}

module _ {K S : Type 0} where
  -- The server has stopped, with so many connections accepted.
  pub record Still (count : ℕ) (s : Server K S) : Type 0 where
    pub stopped : s.stopped ≡ true
    pub accepted : s.accepted ≡ count

  with_slots-Still :
      (count : ℕ) (s : Server K S) (o : Outcome (Option (PerKey K)))
      → Still count s
      → OnReturn (Still count) (with_slots s o)
  with_slots-Still count s (returns p) h = record { stopped = h.stopped; accepted = h.accepted }
  with_slots-Still count s panics h = tt
  with_slots-Still count s runs_on h = tt

module _ {K S : Type 0} (dec : Discrete K) (limiter : Option (Limiter S)) (count : ℕ) where
  release-Still :
      (key : Option K) (s : Server K S)
      → Still count s
      → OnReturn (Still count) (release dec limiter key s)
  unfolding release
  release-Still key s h =
      with_slots-Still count (record s { admit = leave_admit limiter s.admit })
        (give_slot dec key s.per_ip) (record { stopped = h.stopped; accepted = h.accepted })

  track-Still :
      (key : Option K) (s : Server K S)
      → Still count s
      → OnReturn (Still count) (track dec limiter key s)
  unfolding track
  track-Still key s h =
      if-cases (OnReturn (Still count)) s.stopped
        (λ f.
          release-Still key (record s { last_id = inc64 s.last_id })
            (record { stopped = h.stopped; accepted = h.accepted }))
        (λ f. absurd (true≢false (sym h.stopped ∙ f)))

  accept-Still :
      (key : Option K) (s : Server K S)
      → Still count s
      → OnReturn (Still count) (accept dec limiter key s)
  unfolding accept
  accept-Still key s h = go (take_slot dec key s.per_ip).0 (take_slot dec key s.per_ip).1
    where
      go :
          (p : Option (PerKey K)) (taken : Option (Option K))
          → OnReturn (Still count) (elim taken [
            | none ↦ returns (record s { per_ip = p; rejected_per_ip = inc64 s.rejected_per_ip })
            | some held ↦
                let (a, ok) = ask_admit limiter s.admit in
                let s' = record s { per_ip = p; admit = a } in
                if ok
                then track dec limiter held s'
                else with_slots (record s' { rejected = inc64 s.rejected }) (give_slot dec held p)
          ])
      go p none = record { stopped = h.stopped; accepted = h.accepted }
      go p (some held) =
          let (a, ok) = ask_admit limiter s.admit in
          let s' = record s { per_ip = p; admit = a } in
          if-cases (OnReturn (Still count)) ok
            (λ f. track-Still held s' (record { stopped = h.stopped; accepted = h.accepted }))
            (λ f.
              with_slots-Still count (record s' { rejected = inc64 s.rejected })
                (give_slot dec held p) (record { stopped = h.stopped; accepted = h.accepted }))

  end_conn-Still :
      (id : ℕ) (key : Option K) (s : Server K S)
      → Still count s
      → OnReturn (Still count) (end_conn dec limiter id key s)
  unfolding end_conn untrack
  end_conn-Still id key s h = go (release dec limiter key s) (release-Still key s h)
    where
      go :
          (o : Outcome (Server K S))
          → OnReturn (Still count) o
          → OnReturn (Still count) (elim o [
            | returns s' ↦ returns (untrack id s')
            | panics ↦ panics
            | runs_on ↦ runs_on
          ])
      go (returns s') k = record { stopped = k.stopped; accepted = k.accepted }
      go panics k = tt
      go runs_on k = tt

  accept_fails-Still :
      (temporary waited : Bool) (e : ℕ) (v : Serving K S)
      → Still count v.server
      → Still count (accept_fails temporary waited e v).server
  unfolding accept_fails abort_all stop_accept
  accept_fails-Still temporary waited e v h =
      let P = λ (v' : Serving K S). Still count v'.server in
      if-cases P v.server.stopped (λ f. h) (λ f. absurd (true≢false (sym h.stopped ∙ f)))

  step-Still :
      (e : Event K) (v : Serving K S)
      → Still count v.server
      → OnReturn (λ v'. Still count v'.server) (step dec limiter e v)
  unfolding step arrive finish stop_accept close_server abort_all
  step-Still (arrives key) v h = go v.result
    where
      go :
          (r : Option Result)
          → OnReturn
              (λ v'. Still count v'.server)
              (elim r as (λ x. Outcome (Serving K S)) [
                | none ↦ arrive dec limiter key v
                | some r ↦ returns v
              ])
      go none =
          OnReturn-and_then (Still count) (λ v'. Still count v'.server)
            (accept dec limiter key v.server) _ (accept-Still key v.server h) (λ s k. k)
      go (some r) = h
  step-Still (fails temporary waited e) v h = go v.result
    where
      go :
          (r : Option Result)
          → OnReturn
              (λ v'. Still count v'.server)
              (elim r as (λ x. Outcome (Serving K S)) [
                | none ↦ returns (accept_fails temporary waited e v)
                | some r ↦ returns v
              ])
      go none = accept_fails-Still temporary waited e v h
      go (some r) = h
  step-Still (ends id) v h = go (get ℕ_discrete id v.server.conns)
    where
      go :
          (o : Option (Option K))
          → OnReturn
              (λ v'. Still count v'.server)
              (elim o as (λ x. Outcome (Serving K S)) [
                | none ↦ returns v
                | some key ↦
                    and_then
                      (end_conn dec limiter id key v.server)
                      (λ s. returns (record v { server = s }))
              ])
      go none = h
      go (some key) =
          OnReturn-and_then (Still count) (λ v'. Still count v'.server)
            (end_conn dec limiter id key v.server) _ (end_conn-Still id key v.server h) (λ s k. k)
  step-Still drains v h = record { stopped = refl; accepted = h.accepted }
  step-Still closes v h = record { stopped = refl; accepted = h.accepted }

  run-OnReturn :
      (es : List (Event K)) (v : Serving K S)
      → Still count v.server
      → OnReturn (λ v'. Still count v'.server) (run dec limiter es v)
  unfolding run
  run-OnReturn [] v h = h
  run-OnReturn (e ∷ es) v h =
      OnReturn-and_then (λ v'. Still count v'.server) (λ v'. Still count v'.server)
        (step dec limiter e v) (run dec limiter es) (step-Still e v h) (run-OnReturn es)

  -- Once a server whose slots are those of its connections has stopped, by Shutdown, Close or an error of Accept,
  -- it stays so and accepts no connection, in any order of what comes after, and no call panics. The IDs of
  -- connections do not wrap around.
  pub run-Still :
      (es : List (Event K)) (n : ℕ) (v : Serving K S)
      → n + length es < 2 ^ 64
      → Balanced dec limiter n v.server
      → Still count v.server
      → Ends (λ v'. Still count v'.server) (run dec limiter es v)
  run-Still es n v l b h =
      Ends-OnReturn (λ v'. Balanced dec limiter (n + length es) v'.server)
        (λ v'. Still count v'.server) (run dec limiter es v) (run-Balanced dec limiter es n v l b)
        (run-OnReturn es v h)
