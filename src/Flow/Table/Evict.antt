-- ===== src/Flow/Table/Evict.antt =====
-- flow/table.go: Sweep evicts exactly the flows that were idle when it looked.
use go_netx.Base.{
  ℕ, zero, suc, ◌≡◌, ◌≢◌, ◌⊎◌, refl, ap, ap₂, ◌∙◌, inl, inr, Bool, true, false, not, List, [], ◌∷◌,
  ◌++◌, Option, none, some, arith, All, length, get_or, if◌then◌else◌, ℕ_discrete, Bool-cases,
}
use go_netx.Base.Assoc.{get, Distinct}
use go_netx.Base.Int.{ℤ, pos, ◌-ℤ◌, leb_ℤ, wrap64}
use go_netx.Flow.Seen.{thawed-frozen}
use go_netx.Flow.Life.{closed, Flow, last_seen, is_closed}
use go_netx.Flow.Alone.{close_flow, is_closed-eq, expire_flow}
use go_netx.Flow.Table.{
  Table, update, slot, shard, lookup, sweep_shard, sweep_shards, close_each, entries, sweep, hooked,
}
use go_netx.Flow.Table.Shards.{IsValid}

-- Whether the flow was last seen before the cutoff.
abbrev pub stale : ℤ → Flow → Bool
stale cutoff f = not (leb_ℤ cutoff (last_seen f))

-- A flow that is not stale is found again; a stale one no longer is.
abbrev pub surviving : ℤ → (ℕ → Flow) → Option ℕ → Option ℕ
surviving cutoff g none = none
surviving cutoff g (some id) = if stale cutoff (g id) then none else some id

module _ {K : Type 0} where
  -- The entries of the flows that are stale, and of those that are not.
  abbrev pub evicted : ℤ → (ℕ → Flow) → List (K × ℕ) → List (K × ℕ)
  evicted cutoff flows [] = []
  evicted cutoff flows ((k, id) ∷ m) =
      if stale cutoff (flows id) then (k, id) ∷ evicted cutoff flows m else evicted cutoff flows m

  abbrev pub staying : ℤ → (ℕ → Flow) → List (K × ℕ) → List (K × ℕ)
  staying cutoff flows [] = []
  staying cutoff flows ((k, id) ∷ m) =
      if stale cutoff (flows id) then staying cutoff flows m else (k, id) ∷ staying cutoff flows m

  abbrev pub staying_each : ℤ → (ℕ → Flow) → List (List (K × ℕ)) → List (List (K × ℕ))
  staying_each cutoff flows [] = []
  staying_each cutoff flows (m ∷ ms) = staying cutoff flows m ∷ staying_each cutoff flows ms

-- What a sweep may have done to the flows `g` by the time it has visited some: it has frozen stale ones.
abbrev pub Swept : ℤ → (ℕ → Flow) → (ℕ → Flow) → Type 0
Swept cutoff g flows =
    (i : ℕ) → (last_seen (flows i) ≡ last_seen (g i)) × (stale cutoff (g i) ≡ false → flows i ≡ g i)

expire_flow_lem :
    (cutoff : ℤ) (f : Flow)
    → ((expire_flow cutoff f).1 ≡ stale cutoff f)
      × (last_seen (expire_flow cutoff f).0 ≡ last_seen f)
      × (stale cutoff f ≡ false → (expire_flow cutoff f).0 ≡ f)
unfolding expire_flow last_seen
expire_flow_lem cutoff f = ground (arith, thawed-frozen f.seen)

update-Swept :
    (cutoff : ℤ) (g flows : ℕ → Flow) (id : ℕ)
    → Swept cutoff g flows
    → Swept cutoff g (update flows id (expire_flow cutoff (flows id)).0)
update-Swept cutoff g flows id h i = elim (ℕ_discrete id i) [
  | yes e ↦ ground (arith, expire_flow_lem cutoff (flows i), h i)
  | no ne ↦ ground (arith, h i)
]

module _ {K : Type 0} where
  sweep_shard_lem :
      (cutoff : ℤ) (g : ℕ → Flow) (m : List (K × ℕ)) (flows : ℕ → Flow)
      → Swept cutoff g flows
      → let (flows', kept, victims) = sweep_shard cutoff m flows in
        Swept cutoff g flows' × (kept ≡ staying cutoff g m) × (victims ≡ evicted cutoff g m)
  sweep_shard_lem cutoff g [] flows h = (h, refl, refl)
  sweep_shard_lem cutoff g ((k, id) ∷ m) flows h =
      let (swept, kept, victims) =
        sweep_shard_lem cutoff g m (update flows id (expire_flow cutoff (flows id)).0)
          (update-Swept cutoff g flows id h) in
      let decided : (expire_flow cutoff (flows id)).1 ≡ stale cutoff (g id) =
        (expire_flow_lem cutoff (flows id)).0 ∙ ap (λ v. not (leb_ℤ cutoff v)) (h id).0 in
      elim (Bool-cases (stale cutoff (g id))) [
        | inl e ↦ rw (decided, e) (swept, kept, ap (◌∷◌ (k, id)) victims)
        | inr e ↦ rw (decided, e) (swept, ap (◌∷◌ (k, id)) kept, victims)
      ]

  pub evicted-append :
      (cutoff : ℤ) (g : ℕ → Flow) (m n : List (K × ℕ))
      → evicted cutoff g (m ++ n) ≡ evicted cutoff g m ++ evicted cutoff g n
  evicted-append cutoff g [] n = refl
  evicted-append cutoff g ((k, id) ∷ m) n = ground (arith, evicted-append cutoff g m n)

  pub sweep_shards_lem :
      (cutoff : ℤ) (g : ℕ → Flow) (ms : List (List (K × ℕ))) (flows : ℕ → Flow)
      → Swept cutoff g flows
      → let (flows', kept, victims) = sweep_shards cutoff ms flows in
        Swept cutoff g flows'
        × (kept ≡ staying_each cutoff g ms)
        × (victims ≡ evicted cutoff g (entries ms))
  sweep_shards_lem cutoff g [] flows h = (h, refl, refl)
  sweep_shards_lem cutoff g (m ∷ ms) flows h =
      let (swept, kept, victims) = sweep_shard_lem cutoff g m flows h in
      let (swept', kept', victims') =
        sweep_shards_lem cutoff g ms (sweep_shard cutoff m flows).0 swept in
      (
        swept',
        ap₂ ◌∷◌ kept kept',
        rw (victims, victims', evicted-append cutoff g m (entries ms)) refl,
      )

  pub get_or-staying_each :
      (cutoff : ℤ) (g : ℕ → Flow) (ms : List (List (K × ℕ))) (i : ℕ)
      → get_or (staying_each cutoff g ms) i [] ≡ staying cutoff g (get_or ms i [])
  get_or-staying_each cutoff g [] i = refl
  get_or-staying_each cutoff g (m ∷ ms) zero = refl
  get_or-staying_each cutoff g (m ∷ ms) (suc i) = get_or-staying_each cutoff g ms i

  pub length-staying_each :
      (cutoff : ℤ) (g : ℕ → Flow) (ms : List (List (K × ℕ)))
      → length (staying_each cutoff g ms) ≡ length ms
  length-staying_each cutoff g [] = refl
  length-staying_each cutoff g (m ∷ ms) = ap suc (length-staying_each cutoff g ms)

  module _ (dec : Discrete K) (cutoff : ℤ) (g : ℕ → Flow) where
    staying-none :
        (k : K) (m : List (K × ℕ)) → get dec k m ≡ none → get dec k (staying cutoff g m) ≡ none
    staying-none k [] e = refl
    staying-none k ((j, id) ∷ m) e = ground (arith, staying-none k m)

    pub get-staying :
        (k : K) (m : List (K × ℕ))
        → Distinct dec m
        → get dec k (staying cutoff g m) ≡ surviving cutoff g (get dec k m)
    get-staying k [] d = refl
    get-staying k ((j, id) ∷ m) d = ground (arith, get-staying k m d.1, staying-none k m)

    pub staying-Distinct : (m : List (K × ℕ)) → Distinct dec m → Distinct dec (staying cutoff g m)
    staying-Distinct [] d = d
    staying-Distinct ((j, id) ∷ m) d = ground (arith, staying-Distinct m d.1, staying-none j m d.0)

update_other : (flows : ℕ → Flow) {id i : ℕ} (f : Flow) → id ≢ i → update flows id f i ≡ flows i
update_other flows f ne = ground arith

-- A flow that has been closed stays closed through the calls that follow.
close_flow-closed : (f : Flow) → (close_flow f).0.state ≡ closed
unfolding close_flow
close_flow-closed f = elim (Bool-cases (is_closed f.state)) [
  | inl e ↦ rw (e, close_flow) (is_closed-eq f.state e)
  | inr e ↦ rw (e, close_flow) refl
]

module _ {K : Type 0} where
  close_each-keeps :
      (m : List (K × ℕ)) (flows : ℕ → Flow) (i : ℕ)
      → (flows i).state ≡ closed
      → (close_each m flows i).state ≡ closed
  close_each-keeps [] flows i h = h
  close_each-keeps ((k, id) ∷ m) flows i h =
      close_each-keeps m (update flows id (close_flow (flows id)).0) i
        (ground (arith, close_flow-closed (flows id)))

  -- Every flow of the list ends up closed.
  pub close_each-closed :
      (m : List (K × ℕ)) (flows : ℕ → Flow) → All (λ e. (close_each m flows e.1).state ≡ closed) m
  close_each-closed [] flows = tt
  close_each-closed ((k, id) ∷ m) flows = (
    close_each-keeps m flows' id (ground (arith, close_flow-closed (flows id))),
    close_each-closed m flows',
  )
    where
      flows' : ℕ → Flow
      flows' = update flows id (close_flow (flows id)).0

  -- A flow of which no entry is evicted is as it was.
  close_each-evicted :
      (cutoff : ℤ) (g : ℕ → Flow) (m : List (K × ℕ)) (flows : ℕ → Flow) (i : ℕ)
      → stale cutoff (g i) ≡ false
      → close_each (evicted cutoff g m) flows i ≡ flows i
  close_each-evicted cutoff g [] flows i h = refl
  close_each-evicted cutoff g ((k, id) ∷ m) flows i h = elim (Bool-cases (stale cutoff (g id))) [
    | inl e ↦ rw e (
        close_each-evicted cutoff g m (update flows id (close_flow (flows id)).0) i h
        ∙ update_other flows (close_flow (flows id)).0 (λ same. ground (arith, ap g same)))
    | inr e ↦ rw e (close_each-evicted cutoff g m flows i h)
  ]

module _ {K V : Type 0} (dec : Discrete K) (hash : K → ℕ) where
  -- A Sweep at the time `now` of a valid table with an IdleTimeout evicts exactly the flows whose LastSeen is
  -- below the cutoff: no such flow is found afterwards, and every other one is found as before. It returns
  -- their number and gives each of them to OnClose, once for each entry, in the order of the entries. They
  -- end up closed; a flow that is not idle is not changed. The table stays valid.
  pub sweep_lem :
      (now : ℤ) (t : Table K V)
      → IsValid dec hash t
      → leb_ℤ t.idle (pos 0) ≡ false
      → let cutoff = wrap64 (now -ℤ t.idle) in
        let (t', n, calls) = sweep now t in
        let idle = evicted cutoff t.flows (entries t.shards) in
        IsValid dec hash t'
        × ((k : K) → lookup dec hash k t' ≡ surviving cutoff t.flows (lookup dec hash k t))
        × (n ≡ length idle)
        × (calls ≡ hooked t idle)
        × All (λ e. (t'.flows e.1).state ≡ closed) idle
        × ((i : ℕ) → (stale cutoff (t.flows i) ≡ true) ⊎ (t'.flows i ≡ t.flows i))
  unfolding sweep lookup
  sweep_lem now t (s, mask, size, d) h =
      let cutoff = wrap64 (now -ℤ t.idle) in
      let idle = evicted cutoff t.flows (entries t.shards) in
      let (swept, kept, victims) =
        sweep_shards_lem cutoff t.flows t.shards t.flows (λ i. (refl, λ e. refl)) in
      rw (h, kept, victims, sweep)
        (
          (
            s,
            mask,
            length-staying_each cutoff t.flows t.shards ∙ size,
            λ i.
                rw (get_or-staying_each cutoff t.flows t.shards i)
                  (staying-Distinct dec cutoff t.flows (get_or t.shards i []) (d i)),
          ),
          λ k.
              rw (lookup, get_or-staying_each cutoff t.flows t.shards (slot dec hash t k))
                (get-staying dec cutoff t.flows k (shard dec hash t k) (d (slot dec hash t k))),
          refl,
          refl,
          close_each-closed idle (sweep_shards cutoff t.shards t.flows).0,
          λ i. elim (Bool-cases (stale cutoff (t.flows i))) [
            | inl e ↦ inl e
            | inr e ↦ inr (
                close_each-evicted cutoff t.flows (entries t.shards)
                  (sweep_shards cutoff t.shards t.flows).0 i e
                ∙ (swept i).1 e)
          ],
        )
