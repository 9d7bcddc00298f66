-- ===== src/Tcp/Serve/Run.antt =====
-- The slots of MaxConnsPerIP over a whole run of the server.
use go_netx.Base.{
  ℕ, ◌+◌, ◌^◌, ◌<◌, ◌≡◌, refl, ap, subst, Bool, not, ◌&&◌, List, [], ◌∷◌, Option, none, some,
  Outcome, returns, and_then, OnReturn, Ends, Ends-and_then, arith, length, if-cases, if◌then◌else◌,
  inc64, ◌==◌, ℕ_discrete,
}
use go_netx.Base.Assoc.{get}
use go_netx.Base.Int.{pos}
use go_netx.Limit.All.{Limiter}
use go_netx.Tcp.{Server, end_conn}
use go_netx.Tcp.Slots.{Fair, accept-Fair, end_conn-Fair}
use go_netx.Tcp.Serve.{
  Serving, Result, nil, Event, arrives, fails, ends, drains, closes, accept_fails, stop_accept,
  abort_all, close_server, arrive, finish, step, run,
}
use go_netx.Tcp.Serve.Numbered.{Numbered, get-none, accept-Numbered, end_conn-Numbered}

module _ {K S : Type 0} (dec : Discrete K) (limiter : Option (Limiter S)) where
  -- The slots in use are those of the tracked connections, whose IDs are told apart.
  pub record Balanced (n : ℕ) (s : Server K S) : Type 0 where
    pub fair : Fair dec limiter s
    pub numbered : Numbered n s

  arrive_lem :
      (n : ℕ) (key : Option K) (v : Serving K S)
      → n + 1 < 2 ^ 64
      → Balanced n v.server
      → Ends (λ v'. Balanced (n + 1) v'.server) (arrive dec limiter key v)
  unfolding arrive
  arrive_lem n key v l b =
      let fresh : get ℕ_discrete (inc64 v.server.last_id) v.server.conns ≡ none =
        get-none v.server.last_id (inc64 v.server.last_id) v.server.conns b.numbered.below
          (omega (arith, b.numbered.last)) in
      let (s', e, fair) = accept-Fair dec limiter key v.server b.fair fresh in
      let numbered =
        subst (OnReturn (Numbered (n + 1))) e
          (accept-Numbered dec limiter n key v.server l b.numbered) in
      (
        _,
        ap
            (λ o. and_then o (λ s.
              let stops = v.server.stopped && not (s.last_id == v.server.last_id) in
              returns (record v {
                server = s;
                delay = pos 0;
                result = if stops then some nil else v.result;
              })))
            e,
        record { fair = fair; numbered = numbered },
      )

  finish_lem :
      (n id : ℕ) (v : Serving K S)
      → Balanced n v.server
      → Ends (λ v'. Balanced n v'.server) (finish dec limiter id v)
  unfolding finish
  finish_lem n id v b = go (get ℕ_discrete id v.server.conns) refl
    where
      go :
          (o : Option (Option K))
          → get ℕ_discrete id v.server.conns ≡ o
          → Ends
              (λ v'. Balanced n v'.server)
              (elim o as (λ x. Outcome (Serving K S)) [
                | none ↦ returns v
                | some key ↦
                    and_then
                      (end_conn dec limiter id key v.server)
                      (λ s. returns (record v { server = s }))
              ])
      go none e = (v, refl, b)
      go (some key) e =
          let (s', r, fair) = end_conn-Fair dec limiter id key v.server b.fair e in
          let numbered =
            subst (OnReturn (Numbered n)) r
              (end_conn-Numbered dec limiter n id key v.server b.numbered) in
          (
            record v { server = s' },
            ap (λ o. and_then o (λ s. returns (record v { server = s }))) r,
            record { fair = fair; numbered = numbered },
          )

  stop_accept-Balanced :
      (n : ℕ) (v : Serving K S) → Balanced n v.server → Balanced n (stop_accept v).server
  unfolding stop_accept
  stop_accept-Balanced n v b = record {
    fair = b.fair;
    numbered = record { below = b.numbered.below; last = b.numbered.last };
  }

  close_server-Balanced :
      (n : ℕ) (v : Serving K S) → Balanced n v.server → Balanced n (close_server v).server
  unfolding close_server abort_all
  close_server-Balanced n v b = stop_accept-Balanced n v b

  accept_fails-Balanced :
      (n : ℕ) (temporary waited : Bool) (e : ℕ) (v : Serving K S)
      → Balanced n v.server
      → Balanced n (accept_fails temporary waited e v).server
  unfolding accept_fails abort_all
  accept_fails-Balanced n temporary waited e v b =
      let P = λ (v' : Serving K S). Balanced n v'.server in
      if-cases P v.server.stopped (λ f. b)
        (λ f.
          if-cases P temporary (λ g. if-cases P waited (λ h. b) (λ h. b))
            (λ g. stop_accept-Balanced n v b))

  wider : (n : ℕ) (s : Server K S) → Balanced n s → Balanced (n + 1) s
  wider n s b = record {
    fair = b.fair;
    numbered = record { below = b.numbered.below; last = omega (arith, b.numbered.last) };
  }

  step_lem :
      (n : ℕ) (e : Event K) (v : Serving K S)
      → n + 1 < 2 ^ 64
      → Balanced n v.server
      → Ends (λ v'. Balanced (n + 1) v'.server) (step dec limiter e v)
  unfolding step
  step_lem n (arrives key) v l b = go v.result
    where
      go :
          (r : Option Result)
          → Ends
              (λ v'. Balanced (n + 1) v'.server)
              (elim r as (λ x. Outcome (Serving K S)) [
                | none ↦ arrive dec limiter key v
                | some r ↦ returns v
              ])
      go none = arrive_lem n key v l b
      go (some r) = (v, refl, wider n v.server b)
  step_lem n (fails temporary waited e) v l b = go v.result
    where
      go :
          (r : Option Result)
          → Ends
              (λ v'. Balanced (n + 1) v'.server)
              (elim r as (λ x. Outcome (Serving K S)) [
                | none ↦ returns (accept_fails temporary waited e v)
                | some r ↦ returns v
              ])
      go none = (
        accept_fails temporary waited e v,
        refl,
        wider n (accept_fails temporary waited e v).server
            (accept_fails-Balanced n temporary waited e v b),
      )
      go (some r) = (v, refl, wider n v.server b)
  step_lem n (ends id) v l b =
      let (v', e, b') = finish_lem n id v b in (v', e, wider n v'.server b')
  step_lem n drains v l b = (_, refl, wider n (stop_accept v).server (stop_accept-Balanced n v b))
  step_lem n closes v l b = (_, refl, wider n (close_server v).server (close_server-Balanced n v b))

  -- From a server where it is so: in any order of connections that arrive and end, of errors of Accept and of
  -- stops, no call panics, and in the end every key has as many slots of MaxConnsPerIP in use as tracked
  -- connections that hold one, so none when the last of them has ended. The IDs of connections do not wrap around.
  pub run-Balanced :
      (es : List (Event K)) (n : ℕ) (v : Serving K S)
      → n + length es < 2 ^ 64
      → Balanced n v.server
      → Ends (λ v'. Balanced (n + length es) v'.server) (run dec limiter es v)
  unfolding run
  run-Balanced [] n v l b = (v, refl, subst (λ k. Balanced k v.server) (omega arith) b)
  run-Balanced (e ∷ es) n v l b =
      Ends-and_then (λ v'. Balanced (n + 1) v'.server)
        (λ v'. Balanced (n + length (e ∷ es)) v'.server) (step dec limiter e v) (run dec limiter es)
        (step_lem n e v (omega arith) b)
        (λ v' b'.
          let (end, r, b'') = run-Balanced es (n + 1) v' (omega arith) b' in
          (end, r, subst (λ k. Balanced k end.server) (omega arith) b''))
