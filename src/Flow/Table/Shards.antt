-- ===== src/Flow/Table/Shards.antt =====
-- flow/table.go: what GetOrOpen and Remove do to the map that the shards hold together.
use mathlib.Core.Logic.{ite}
use native.Mathlib.Nat.{one-le-pow, mod-lt}
use go_netx.Base.{
  ℕ, zero, suc, ◌^◌, ◌<◌, ◌≡◌, ◌≢◌, refl, ap, ◌∙◌, inl, inr, true, false, List, [], ◌∷◌, Option,
  none, some, Outcome, returns, arith, length, get_or, set, get_or-set, length-set, ◌==◌,
  if◌then◌else◌, bit_and-mask, low_mask, inc64, Option-cases,
}
use go_netx.Base.Assoc.{
  get, put, del, Distinct, get-put, put-Distinct, get-del_self, get-del_ne, del-Distinct,
}
use go_netx.Flow.Seen.{is_frozen, thawed, thawed-thawed}
use go_netx.Flow.Life.{open_state, closed, last_seen}
use go_netx.Flow.Alone.{new_flow, close_flow, close_frozen}
use go_netx.Flow.Table.{
  Table, slot, shard, with_shard, lookup, get_or_open, remove_flow, remove, hooked,
}

module _ {K : Type 0} (dec : Discrete K) where
  pub set-Distinct :
      (ms : List (List (K × ℕ))) (i : ℕ) (m : List (K × ℕ))
      → ((j : ℕ) → Distinct dec (get_or ms j []))
      → Distinct dec m
      → (j : ℕ) → Distinct dec (get_or (set ms i m) j [])
  set-Distinct [] i m h d j = h j
  set-Distinct (n ∷ ms) zero m h d zero = d
  set-Distinct (n ∷ ms) zero m h d (suc j) = h (suc j)
  set-Distinct (n ∷ ms) (suc i) m h d zero = h 0
  set-Distinct (n ∷ ms) (suc i) m h d (suc j) = set-Distinct ms i m (λ j. h (suc j)) d j

module _ {K V : Type 0} (dec : Discrete K) (hash : K → ℕ) where
  -- Two to some power of shards under the mask of NewTable, each with one entry for a key.
  abbrev pub IsValid : Table K V → Type 0
  IsValid t =
      (s : ℕ) × (t.mask ≡ low_mask s)
      × (length t.shards ≡ 2 ^ s)
      × ((i : ℕ) → Distinct dec (get_or t.shards i []))

  pub slot_in_range : (k : K) (t : Table K V) → IsValid t → slot dec hash t k < length t.shards
  slot_in_range k t (s, mask, size, d) =
      rw (mask, size, bit_and-mask s (hash k)) (mod-lt (hash k) (one-le-pow s 2 (omega arith)))

  -- A key's own shard is replaced; a key of another shard is looked up as before.
  pub lookup-with_shard :
      (k j : K) (m : List (K × ℕ)) (t : Table K V)
      → IsValid t
      → (k ≢ j → get dec j m ≡ get dec j (shard dec hash t k))
      → lookup dec hash j (with_shard dec hash t k m)
        ≡ ite (dec k j) (get dec k m) (lookup dec hash j t)
  unfolding lookup
  lookup-with_shard k j m t valid same = ground (
    arith,
    get_or-set t.shards (slot dec hash t k) (slot dec hash t j) m [] (slot_in_range k t valid),
    same,
  )

  pub with_shard-IsValid :
      (k : K) (m : List (K × ℕ)) (t : Table K V)
      → IsValid t
      → Distinct dec m
      → IsValid (with_shard dec hash t k m)
  with_shard-IsValid k m t (s, mask, size, d) dm = (
    s,
    mask,
    rw (length-set t.shards (slot dec hash t k) m) size,
    set-Distinct dec t.shards (slot dec hash t k) m d dm,
  )

  pub shard-Distinct : (k : K) (t : Table K V) → IsValid t → Distinct dec (shard dec hash t k)
  shard-Distinct k t (s, mask, size, d) = d (slot dec hash t k)

  -- GetOrOpen of a key that has a flow returns it, not created, whatever newValue is, and
  -- changes nothing.
  pub get_or_open-found :
      (zero_value : V) (k : K) (new_value : Option (Outcome V)) (t : Table K V) (found : ℕ)
      → lookup dec hash k t ≡ some found
      → get_or_open dec hash zero_value k new_value t ≡ (t, returns (found, false))
  unfolding get_or_open
  get_or_open-found zero_value k new_value t found e = rw (e, get_or_open) refl

  -- In a valid table, GetOrOpen of a key without a flow puts there a new flow, with the next ID and the value
  -- of newValue, open and last seen at the table's clock, and leaves every other key's flow and every other
  -- flow's state as they were. The table stays valid.
  pub get_or_open-new :
      (zero_value v : V) (k : K) (t : Table K V)
      → IsValid t
      → lookup dec hash k t ≡ none
      → let id = inc64 t.last_id in
        let (t', r) = get_or_open dec hash zero_value k (some (returns v)) t in
        (r ≡ returns (id, true))
        × IsValid t'
        × ((j : K) → lookup dec hash j t' ≡ ite (dec k j) (some id) (lookup dec hash j t))
        × ((t'.flows id).state ≡ open_state)
        × (last_seen (t'.flows id) ≡ thawed t.now)
        × (t'.value id ≡ v)
        × ((i : ℕ) → t'.flows i ≡ (if id == i then t'.flows id else t.flows i))
  unfolding get_or_open lookup last_seen new_flow
  get_or_open-new zero_value v k t valid e =
      let id = inc64 t.last_id in
      let m = shard dec hash t k in
      let placed = λ (j : K).
        lookup-with_shard k j (put dec k id m) t valid
          (λ ne. ground (arith, get-put dec k j id m)) in
      rw (e, get_or_open)
        (
          refl,
          with_shard-IsValid k (put dec k id m) t valid
              (put-Distinct dec k id m (shard-Distinct k t valid)),
          λ j. ground (arith, placed j, get-put dec k k id m),
          ground arith,
          ground (arith, thawed-thawed t.now),
          ground arith,
          λ i. ground arith,
        )

  remove_flow_lem :
      (k : K) (id : ℕ) (t : Table K V)
      → IsValid t
      → let t' = remove_flow dec hash k id t in
        IsValid t'
        × ((j : K) → lookup dec hash j t' ≡ ite (dec k j) none (lookup dec hash j t))
        × ((t'.flows id).state ≡ closed)
        × (is_frozen (t'.flows id).seen ≡ true)
        × (last_seen (t'.flows id) ≡ last_seen (t.flows id))
        × ((i : ℕ) → t'.flows i ≡ (if id == i then t'.flows id else t.flows i))
  unfolding lookup last_seen close_flow
  remove_flow_lem k id t valid =
      let m = shard dec hash t k in
      let d : Distinct dec m = shard-Distinct k t valid in
      let placed =
        λ (j : K). lookup-with_shard k j (del dec k m) t valid (λ ne. get-del_ne dec k j m ne) in
      (
        with_shard-IsValid k (del dec k m) t valid (del-Distinct dec k m d),
        λ j. ground (arith, placed j, get-del_self dec k m d),
        ground (arith, close_frozen (t.flows id)),
        ground (arith, close_frozen (t.flows id)),
        ground (arith, close_frozen (t.flows id)),
        λ i. ground arith,
      )

  -- In a valid table, Remove with the ID of the flow under the key leaves the key without a flow, and every
  -- other key as it was; the flow is then closed and frozen, keeps its LastSeen, and OnClose gets it and
  -- nothing else. No other flow changes, and the table stays valid.
  pub remove-current :
      (k : K) (id : ℕ) (t : Table K V)
      → IsValid t
      → lookup dec hash k t ≡ some id
      → let (t', done, calls) = remove dec hash k id t in
        (done ≡ true)
        × (calls ≡ hooked t ((k, id) ∷ []))
        × IsValid t'
        × ((j : K) → lookup dec hash j t' ≡ ite (dec k j) none (lookup dec hash j t))
        × ((t'.flows id).state ≡ closed)
        × (is_frozen (t'.flows id).seen ≡ true)
        × (last_seen (t'.flows id) ≡ last_seen (t.flows id))
        × ((i : ℕ) → t'.flows i ≡ (if id == i then t'.flows id else t.flows i))
  unfolding remove
  remove-current k id t valid e =
      let test : (id == id) ≡ true = ground arith in
      let (valid', looked, shut, froze, seen, rest) = remove_flow_lem k id t valid in
      rw (e, test, remove) (refl, refl, valid', looked, shut, froze, seen, rest)

  -- With any other ID, as that of a flow that was under the key before, and for an absent key, Remove changes
  -- nothing, calls nothing and answers false.
  pub remove-stale :
      (k : K) (id : ℕ) (t : Table K V)
      → lookup dec hash k t ≢ some id
      → remove dec hash k id t ≡ (t, false, [])
  unfolding remove
  remove-stale k id t ne = elim (Option-cases (lookup dec hash k t)) [
    | inl e ↦ rw (e, remove) refl
    | inr (found, e) ↦
        let test : (found == id) ≡ false = other found (λ same. ne (e ∙ ap some same)) in
        rw (e, test, remove) refl
  ]
    where
      other : (found : ℕ) → found ≢ id → (found == id) ≡ false
      other found apart = ground arith
