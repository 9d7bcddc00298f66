-- ===== src/Tcp/Serve/Numbered.antt =====
-- tcp/server.go: the IDs of the tracked connections, which tell them apart.
use go_netx.Base.{
  ℕ, ◌+◌, ◌^◌, ◌<◌, ◌≤◌, ◌≡◌, refl, List, [], ◌∷◌, Option, none, some, Outcome, returns, panics,
  runs_on, OnReturn, arith, All, if-cases, if◌then◌else◌, inc64, ℕ_discrete,
}
use go_netx.Base.Assoc.{get, put, del}
use go_netx.Limit.All.{Limiter}
use go_netx.Limit.PerKey.{PerKey}
use go_netx.Tcp.{
  Server, take_slot, give_slot, with_slots, release, track, accept, ask_admit, leave_admit, untrack,
  end_conn,
}

module _ {A : Type 0} where
  abbrev pub IsBelow : ℕ → List (ℕ × A) → Type 0
  IsBelow n m = All (λ c. c.0 ≤ n) m

  IsBelow-weaken : (n k : ℕ) (m : List (ℕ × A)) → n ≤ k → IsBelow n m → IsBelow k m
  IsBelow-weaken n k [] l b = tt
  IsBelow-weaken n k (c ∷ m) l b = (omega (arith, b.0), IsBelow-weaken n k m l b.1)

  pub get-none : (n id : ℕ) (m : List (ℕ × A)) → IsBelow n m → n < id → get ℕ_discrete id m ≡ none
  get-none n id [] b l = refl
  get-none n id (c ∷ m) b l = ground (arith, get-none n id m b.1 l, b.0)

  put-IsBelow :
      (n id : ℕ) (a : A) (m : List (ℕ × A))
      → id ≤ n
      → IsBelow n m
      → IsBelow n (put ℕ_discrete id a m)
  put-IsBelow n id a [] l b = (l, tt)
  put-IsBelow n id a (c ∷ m) l b = ground (arith, put-IsBelow n id a m l b.1, b.0)

  del-IsBelow : (n id : ℕ) (m : List (ℕ × A)) → IsBelow n m → IsBelow n (del ℕ_discrete id m)
  del-IsBelow n id [] b = tt
  del-IsBelow n id (c ∷ m) b = ground (arith, del-IsBelow n id m b.1, b.0)

module _ {K S : Type 0} where
  -- The tracked connections have IDs up to the last one.
  pub record Numbered (n : ℕ) (s : Server K S) : Type 0 where
    pub below : IsBelow s.last_id s.conns
    pub last : s.last_id ≤ n

  with_slots-Numbered :
      (n : ℕ) (s : Server K S) (o : Outcome (Option (PerKey K)))
      → Numbered n s
      → OnReturn (Numbered n) (with_slots s o)
  with_slots-Numbered n s (returns p) h = record { below = h.below; last = h.last }
  with_slots-Numbered n s panics h = tt
  with_slots-Numbered n s runs_on h = tt

module _ {K S : Type 0} (dec : Discrete K) (limiter : Option (Limiter S)) where
  release-Numbered :
      (n : ℕ) (key : Option K) (s : Server K S)
      → Numbered n s
      → OnReturn (Numbered n) (release dec limiter key s)
  unfolding release
  release-Numbered n key s h =
      with_slots-Numbered n (record s { admit = leave_admit limiter s.admit })
        (give_slot dec key s.per_ip) (record { below = h.below; last = h.last })

  track-Numbered :
      (n : ℕ) (key : Option K) (s : Server K S)
      → n + 1 < 2 ^ 64
      → Numbered n s
      → OnReturn (Numbered (n + 1)) (track dec limiter key s)
  unfolding track
  track-Numbered n key s l h =
      let id = inc64 s.last_id in
      let wider = IsBelow-weaken s.last_id id s.conns (omega (arith, h.last)) h.below in
      if-cases (OnReturn (Numbered (n + 1))) s.stopped
        (λ f.
          release-Numbered (n + 1) key (record s { last_id = id })
            (record { below = wider; last = omega (arith, h.last) }))
        (λ f. record {
          below = put-IsBelow id id key s.conns (omega arith) wider;
          last = omega (arith, h.last);
        })

  pub accept-Numbered :
      (n : ℕ) (key : Option K) (s : Server K S)
      → n + 1 < 2 ^ 64
      → Numbered n s
      → OnReturn (Numbered (n + 1)) (accept dec limiter key s)
  unfolding accept
  accept-Numbered n key s l h = go (take_slot dec key s.per_ip).0 (take_slot dec key s.per_ip).1
    where
      go :
          (p : Option (PerKey K)) (taken : Option (Option K))
          → OnReturn (Numbered (n + 1)) (elim taken [
            | none ↦ returns (record s { per_ip = p; rejected_per_ip = inc64 s.rejected_per_ip })
            | some held ↦
                let (a, ok) = ask_admit limiter s.admit in
                let s' = record s { per_ip = p; admit = a } in
                if ok
                then track dec limiter held s'
                else with_slots (record s' { rejected = inc64 s.rejected }) (give_slot dec held p)
          ])
      go p none = record { below = h.below; last = omega (arith, h.last) }
      go p (some held) =
          let (a, ok) = ask_admit limiter s.admit in
          let s' = record s { per_ip = p; admit = a } in
          if-cases (OnReturn (Numbered (n + 1))) ok
            (λ f. track-Numbered n held s' l (record { below = h.below; last = h.last }))
            (λ f.
              with_slots-Numbered (n + 1) (record s' { rejected = inc64 s.rejected })
                (give_slot dec held p) (record { below = h.below; last = omega (arith, h.last) }))

  pub end_conn-Numbered :
      (n id : ℕ) (key : Option K) (s : Server K S)
      → Numbered n s
      → OnReturn (Numbered n) (end_conn dec limiter id key s)
  unfolding end_conn untrack
  end_conn-Numbered n id key s h = go (release dec limiter key s) (release-Numbered n key s h)
    where
      go :
          (o : Outcome (Server K S))
          → OnReturn (Numbered n) o
          → OnReturn (Numbered n) (elim o [
            | returns s' ↦ returns (untrack id s')
            | panics ↦ panics
            | runs_on ↦ runs_on
          ])
      go (returns s') k = record {
        below = del-IsBelow s'.last_id id s'.conns k.below;
        last = k.last;
      }
      go panics k = tt
      go runs_on k = tt
