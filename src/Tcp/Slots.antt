-- ===== src/Tcp/Slots.antt =====
-- tcp/server.go: the slots of MaxConnsPerIP are those of the connections that are served.
use mathlib.Core.Logic.{ite}
use go_netx.Base.{
  ℕ, ◌+◌, ◌<◌, ◌≡◌, refl, sym, ap, subst, ◌∙◌, inl, inr, Bool, true, List, [], ◌∷◌, Option, none,
  some, returns, arith, if◌then◌else◌, inc64, ℕ_discrete, Bool-cases, Option-cases,
}
use go_netx.Base.Assoc.{get, put, del}
use go_netx.Limit.All.{Limiter}
use go_netx.Limit.PerKey as PerIp
use go_netx.Limit.PerKey.{PerKey, in_use}
use go_netx.Limit.PerKey.Slots.{IsValid, try_acquire_lem, release_lem}
use go_netx.Tcp.{
  Server, take_slot, give_slot, release, track, accept, ask_admit, leave_admit, untrack, end_conn,
}

taken_branch : {A : Type 0} (b : Bool) (x y : A) → b ≡ true → (if b then x else y) ≡ x
taken_branch b x y e = rw e refl

module _ {K : Type 0} (dec : Discrete K) where
  -- One for the slot's own key, and none for any other or if there is no slot.
  abbrev pub one : K → Option K → ℕ
  one k none = 0
  one k (some j) = ite (dec j k) 1 0

  -- How many of the connections hold a slot for the key.
  abbrev pub holders : K → List (ℕ × Option K) → ℕ
  holders k [] = 0
  holders k ((id, key) ∷ m) = one k key + holders k m

  holders-put :
      (k : K) (id : ℕ) (key : Option K) (m : List (ℕ × Option K))
      → get ℕ_discrete id m ≡ none
      → holders k (put ℕ_discrete id key m) ≡ holders k m + one k key
  holders-put k id key [] e = omega arith
  holders-put k id key ((i, other) ∷ m) e = ground (arith, holders-put k id key m)

  holders-del :
      (k : K) (id : ℕ) (key : Option K) (m : List (ℕ × Option K))
      → get ℕ_discrete id m ≡ some key
      → holders k (del ℕ_discrete id m) + one k key ≡ holders k m
  holders-del k id key [] e = cc
  holders-del k id key ((i, other) ∷ m) e = ground (arith, holders-del k id key m)

  -- The slots in use are as many for each key as `h` says.
  abbrev pub Counts : Option (PerKey K) → (K → ℕ) → Type 0
  Counts none h = (k : K) → h k ≡ 0
  Counts (some p) h = IsValid dec p × ((k : K) → in_use dec k p ≡ h k)

  Counts-ext :
      (p : Option (PerKey K)) (h g : K → ℕ) → Counts p h → ((k : K) → g k ≡ h k) → Counts p g
  Counts-ext none h g c same = λ k. same k ∙ c k
  Counts-ext (some p) h g (v, c) same = (v, λ k. c k ∙ sym (same k))

  abbrev Taken : (K → ℕ) → Option (PerKey K) × Option (Option K) → Type 0
  Taken h (p, none) = Counts p h
  Taken h (p, some key) = Counts p (λ j. h j + one j key)

  take_slot-Taken :
      (key : Option K) (p : Option (PerKey K)) (h : K → ℕ)
      → Counts p h
      → Taken h (take_slot dec key p)
  unfolding take_slot
  take_slot-Taken key none h c = λ k. omega (arith, c k)
  take_slot-Taken none (some p) h (v, c) = (v, λ k. omega (arith, c k))
  take_slot-Taken (some k) (some p) h (v, c) =
      let (p', ok) = PerIp.try_acquire dec k p in
      let (v', others, decided, more) = try_acquire_lem dec k p v in
      elim (Bool-cases (PerIp.try_acquire dec k p).1) [
        | inl e ↦ rw e (v', λ j. ground (arith, c j, others j, more, e))
        | inr e ↦ rw e (v', λ j. ground (arith, c j, others j, more, e))
      ]

  give_slot-Counts :
      (key : Option K) (p : Option (PerKey K)) (h : K → ℕ)
      → Counts p (λ j. h j + one j key)
      → (p' : Option (PerKey K)) × (give_slot dec key p ≡ returns p') × Counts p' h
  unfolding give_slot
  give_slot-Counts none none h c = (none, refl, λ k. omega (arith, c k))
  give_slot-Counts none (some p) h (v, c) = (some p, refl, (v, λ k. omega (arith, c k)))
  give_slot-Counts (some k) none h c = absurd (ground (arith, c k))
  give_slot-Counts (some k) (some p) h (v, c) =
      let held : 0 < in_use dec k p = ground (arith, c k) in
      let (p', e, v', others, less) = release_lem dec k p v held in
      (some p', rw (e, give_slot) refl, (v', λ j. ground (arith, c j, others j, less)))

module _ {K S : Type 0} (dec : Discrete K) (limiter : Option (Limiter S)) where
  -- Each key has as many slots in use as there are tracked connections that hold one of its slots.
  abbrev pub Fair : Server K S → Type 0
  Fair s = Counts dec s.per_ip (λ k. holders dec k s.conns)

  release-Counts :
      (key : Option K) (s : Server K S) (h : K → ℕ)
      → Counts dec s.per_ip (λ j. h j + one dec j key)
      → (s' : Server K S) × (release dec limiter key s ≡ returns s')
        × Counts dec s'.per_ip h
        × (s'.conns ≡ s.conns)
  unfolding release
  release-Counts key s h c =
      let (p', e, c') = give_slot-Counts dec key s.per_ip h c in
      (
        record s { admit = leave_admit limiter s.admit; per_ip = p' },
        rw (e, release) refl,
        c',
        refl,
      )

  track-Fair :
      (key : Option K) (s : Server K S)
      → get ℕ_discrete (inc64 s.last_id) s.conns ≡ none
      → Counts dec s.per_ip (λ k. holders dec k s.conns + one dec k key)
      → (s' : Server K S) × (track dec limiter key s ≡ returns s') × Fair s'
  unfolding track
  track-Fair key s new c = elim (Bool-cases s.stopped) [
    | inl e ↦
        let (s', r, c', same) =
          release-Counts key (record s { last_id = inc64 s.last_id }) (λ k. holders dec k s.conns)
            c in
        (
          s',
          taken_branch s.stopped _ _ e ∙ r,
          Counts-ext dec s'.per_ip (λ k. holders dec k s.conns) (λ k. holders dec k s'.conns) c'
              (λ k. ap (holders dec k) same),
        )
    | inr e ↦
        let conns = put ℕ_discrete (inc64 s.last_id) key s.conns in
        (
          record s {
            last_id = inc64 s.last_id;
            conns = conns;
            accepted = inc64 s.accepted;
            active = inc64 s.active;
          },
          rw (e, track) refl,
          Counts-ext dec s.per_ip (λ k. holders dec k s.conns + one dec k key)
              (λ k. holders dec k conns) c
              (λ k. holders-put dec k (inc64 s.last_id) key s.conns new),
        )
  ]

  -- A connection that arrives, admitted or refused for its address, by Admit or because the server has stopped,
  -- leaves each key with as many slots in use as there are tracked connections that hold one: a refusal gives
  -- back the slot that it took, and no release panics. The next ID is not that of a tracked connection.
  pub accept-Fair :
      (key : Option K) (s : Server K S)
      → Fair s
      → get ℕ_discrete (inc64 s.last_id) s.conns ≡ none
      → (s' : Server K S) × (accept dec limiter key s ≡ returns s') × Fair s'
  unfolding accept
  accept-Fair key s fair new =
      let h = λ (k : K). holders dec k s.conns in
      let (p, taken) = take_slot dec key s.per_ip in
      elim (Option-cases (take_slot dec key s.per_ip).1) [
        | inl e ↦ (
          record s { per_ip = p; rejected_per_ip = inc64 s.rejected_per_ip },
          rw (e, accept) refl,
          subst (λ t. Taken dec h (p, t)) e (take_slot-Taken dec key s.per_ip h fair),
        )
        | inr (held, e) ↦
            let c : Counts dec p (λ k. h k + one dec k held) =
              subst (λ t. Taken dec h (p, t)) e (take_slot-Taken dec key s.per_ip h fair) in
            let a = (ask_admit limiter s.admit).0 in
            elim (Bool-cases (ask_admit limiter s.admit).1) [
              | inl yes_admit ↦
                  let (s', r, fair') = track-Fair held (record s { per_ip = p; admit = a }) new c in
                  (s', rw (e, yes_admit, accept) r, fair')
              | inr not_admitted ↦
                  let (p', r, c') = give_slot-Counts dec held p h c in
                  (
                    record s { per_ip = p'; admit = a; rejected = inc64 s.rejected },
                    rw (e, not_admitted, r, accept) refl,
                    c',
                  )
            ]
      ]

  -- When the handler of a tracked connection has returned, its slot is given back, without a panic, and the
  -- slots in use are again those of the connections that are left.
  pub end_conn-Fair :
      (id : ℕ) (key : Option K) (s : Server K S)
      → Fair s
      → get ℕ_discrete id s.conns ≡ some key
      → (s' : Server K S) × (end_conn dec limiter id key s ≡ returns s') × Fair s'
  unfolding end_conn untrack
  end_conn-Fair id key s fair tracked =
      let left = del ℕ_discrete id s.conns in
      let c : Counts dec s.per_ip (λ k. holders dec k left + one dec k key) =
        Counts-ext dec s.per_ip (λ k. holders dec k s.conns)
          (λ k. holders dec k left + one dec k key) fair
          (λ k. holders-del dec k id key s.conns tracked) in
      let (s', r, c', same) = release-Counts key s (λ k. holders dec k left) c in
      (
        untrack id s',
        rw (r, end_conn) refl,
        Counts-ext dec s'.per_ip (λ k. holders dec k left)
            (λ k. holders dec k (untrack id s').conns) c'
            (λ k. ap (λ m. holders dec k (del ℕ_discrete id m)) same),
      )
