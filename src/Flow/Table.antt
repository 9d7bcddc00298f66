-- ===== src/Flow/Table.antt =====
-- flow/table.go. A flow is named by its ID, which also is its address in `flows`; the table's methods run
-- one after the other. `hash` is maphash.Comparable under the table's seed. A map is visited in the order of
-- its entries. A method returns the new table, its result, and the (key, flow) pairs given to OnClose.
pub mod Shards
pub mod Evict
pub mod Ledger
pub mod Running
pub mod New
use go_netx.Base.{
  ℕ, zero, suc, ◌+◌, ◌-◌, ◌*◌, Bool, true, false, ◌&&◌, List, [], ◌∷◌, ◌++◌, map, Option, none,
  some, Outcome, returns, panics, runs_on, length, get_or, set, replicate, ◌==◌, if◌then◌else◌,
  bit_and, inc64,
}
use go_netx.Base.Assoc.{get, put, del}
use go_netx.Base.Int.{ℤ, pos, pos_part, ◌-ℤ◌, ltb_ℤ, leb_ℤ, wrap64}
use go_netx.Rounding.{round_up}
use go_netx.Flow.Life.{Flow, freeze_word}
use go_netx.Flow.Alone.{new_flow, close_flow, touch_flow, expire_flow}

pub record Table (K V : Type 0) : Type 0 where
  pub shards : List (List (K × ℕ))
  pub mask : ℕ
  pub idle : ℤ
  pub has_hook : Bool
  pub now : ℤ
  pub last_id : ℕ
  pub flows : ℕ → Flow
  pub value : ℕ → V

-- The number of shards of NewTable, with at most `fuel` rounds of its loop.
unfoldable pub shard_count : ℕ → ℤ → Option ℤ
shard_count fuel wanted = round_up fuel (pos 1) (if leb_ℤ wanted (pos 0) then pos 64 else wanted)

-- A write to the heap of flows.
abbrev pub update : {A : Type 0} → (ℕ → A) → ℕ → A → ℕ → A
update f i a j = if i == j then a else f j

module _ {K : Type 0} where
  -- `closed`, for each flow that has left its shard.
  abbrev pub close_each : List (K × ℕ) → (ℕ → Flow) → ℕ → Flow
  close_each [] flows = flows
  close_each ((k, id) ∷ rest) flows = close_each rest (update flows id (close_flow (flows id)).0)

  -- One shard of Sweep: the flows after `expire` of each, what stays, and the victims.
  abbrev pub sweep_shard : ℤ → List (K × ℕ) → (ℕ → Flow) → (ℕ → Flow) × List (K × ℕ) × List (K × ℕ)
  sweep_shard cutoff [] flows = (flows, [], [])
  sweep_shard cutoff ((k, id) ∷ m) flows =
      let (f', gone) = expire_flow cutoff (flows id) in
      let (flows', kept, victims) = sweep_shard cutoff m (update flows id f') in
      if gone then (flows', kept, (k, id) ∷ victims) else (flows', (k, id) ∷ kept, victims)

  abbrev pub sweep_shards :
      ℤ → List (List (K × ℕ)) → (ℕ → Flow) → (ℕ → Flow) × List (List (K × ℕ)) × List (K × ℕ)
  sweep_shards cutoff [] flows = (flows, [], [])
  sweep_shards cutoff (m ∷ ms) flows =
      let (flows', kept, victims) = sweep_shard cutoff m flows in
      let (flows'', kept', victims') = sweep_shards cutoff ms flows' in
      (flows'', kept ∷ kept', victims ++ victims')

  abbrev pub sizes : List (List (K × ℕ)) → ℕ
  sizes [] = 0
  sizes (m ∷ ms) = length m + sizes ms

  abbrev pub entries : List (List (K × ℕ)) → List (K × ℕ)
  entries [] = []
  entries (m ∷ ms) = m ++ entries ms

  abbrev pub emptied : List (List (K × ℕ)) → List (List (K × ℕ))
  emptied [] = []
  emptied (m ∷ ms) = [] ∷ emptied ms

  -- `rangeLocked`, with a callback that keeps a state: whether to go on, and the new state.
  abbrev pub range_locked : {S : Type 0} → (K → ℕ → S → S × Bool) → List (K × ℕ) → S → S × Bool
  range_locked fn [] s = (s, true)
  range_locked fn ((k, id) ∷ m) s =
      let (s', more) = fn k id s in
      let rest = range_locked fn m s' in if more then rest else (s', false)

  abbrev pub range_shards : {S : Type 0} → (K → ℕ → S → S × Bool) → List (List (K × ℕ)) → S → S
  range_shards fn [] s = s
  range_shards fn (m ∷ ms) s =
      let (s', more) = range_locked fn m s in
      let rest = range_shards fn ms s' in if more then rest else s'

module _ {K V : Type 0} where
  -- `NewTable`, at the time `start`. The IDs given out before and the flows that have them stay.
  unfoldable pub new_table : ℕ → ℤ → ℤ → Bool → ℤ → ℕ → (ℕ → Flow) → (ℕ → V) → Outcome (Table K V)
  new_table fuel wanted idle hook start last flows value = elim (shard_count fuel wanted) [
    | none ↦ runs_on
    | some size ↦ returns (record {
      shards = replicate (pos_part size) [];
      mask = pos_part size - 1;
      idle = idle;
      has_hook = hook;
      now = start;
      last_id = last;
      flows = flows;
      value = value;
    })
  ]

  -- What OnClose is called with, if it was given.
  abbrev pub hooked : Table K V → List (K × ℕ) → List (K × ℕ)
  hooked t ks = if t.has_hook then ks else []

  -- `advance`
  abbrev pub advance : ℤ → Table K V → Table K V
  advance ns t = record t { now = if leb_ℤ ns t.now then t.now else ns }

  unfoldable pub sweep : ℤ → Table K V → Table K V × ℕ × List (K × ℕ)
  sweep now t =
      let t' = advance now t in
      if leb_ℤ t.idle (pos 0)
      then (t', 0, [])
      else (let (flows', kept, victims) = sweep_shards (wrap64 (now -ℤ t.idle)) t.shards t.flows in
          (
            record t' { shards = kept; flows = close_each victims flows' },
            length victims,
            hooked t victims,
          ))

  unfoldable pub len : Table K V → ℕ
  len t = sizes t.shards

  -- `Close`
  unfoldable pub close_table : Table K V → Table K V × List (K × ℕ)
  close_table t = (
    record t { shards = emptied t.shards; flows = close_each (entries t.shards) t.flows },
    hooked t (entries t.shards),
  )

  -- `Range`
  unfoldable pub range : {S : Type 0} → (K → ℕ → S → S × Bool) → Table K V → S → S
  range fn t = range_shards fn t.shards

module _ {K V : Type 0} (dec : Discrete K) (hash : K → ℕ) where
  abbrev pub slot : Table K V → K → ℕ
  slot t k = bit_and (hash k) t.mask

  -- The map of the shard that `k` belongs to.
  abbrev pub shard : Table K V → K → List (K × ℕ)
  shard t k = get_or t.shards (slot t k) []

  abbrev pub with_shard : Table K V → K → List (K × ℕ) → Table K V
  with_shard t k m = record t { shards = set t.shards (slot t k) m }

  -- `Get`
  unfoldable pub lookup : K → Table K V → Option ℕ
  lookup k t = get dec k (shard t k)

  unfoldable pub get_and_touch : K → Table K V → Table K V × Option ℕ
  unfolding lookup
  get_and_touch k t = elim (lookup k t) [
    | none ↦ (t, none)
    | some id ↦ (record t { flows = update t.flows id (touch_flow t.now (t.flows id)) }, some id)
  ]

  -- `newInTable` and the store under `k`, with the next ID.
  abbrev pub insert_flow : K → V → Table K V → Table K V × (ℕ × Bool)
  insert_flow k v t =
      let id = inc64 t.last_id in
      (
        record (with_shard t k (put dec k id (shard t k))) {
          last_id = id;
          flows = update t.flows id (new_flow t.now);
          value = update t.value id v;
        },
        (id, true),
      )

  -- `GetOrOpen`: `zero_value` stands for a nil newValue; a panic of newValue leaves the table as it was.
  unfoldable pub get_or_open :
      V → K → Option (Outcome V) → Table K V → Table K V × Outcome (ℕ × Bool)
  unfolding lookup
  get_or_open zero_value k new_value t = elim (lookup k t) [
    | some id ↦ (t, returns (id, false))
    | none ↦ elim new_value [
      | none ↦ let (t', made) = insert_flow k zero_value t in (t', returns made)
      | some (returns v) ↦ let (t', made) = insert_flow k v t in (t', returns made)
      | some panics ↦ (t, panics)
      | some runs_on ↦ (t, runs_on)
    ]
  ]

  -- The part of Remove after the check.
  abbrev pub remove_flow : K → ℕ → Table K V → Table K V
  remove_flow k id t = record (with_shard t k (del dec k (shard t k))) {
    flows = update t.flows id (close_flow (freeze_word (t.flows id))).0;
  }

  unfoldable pub remove : K → ℕ → Table K V → Table K V × Bool × List (K × ℕ)
  unfolding lookup
  remove k id t = elim (lookup k t) [
    | none ↦ (t, false, [])
    | some found ↦
        if found == id then (remove_flow k id t, true, hooked t ((k, id) ∷ [])) else (t, false, [])
  ]
