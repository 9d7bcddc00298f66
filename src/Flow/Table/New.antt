-- ===== src/Flow/Table/New.antt =====
-- flow/table.go: the table that NewTable makes.
use go_netx.Base.{
  ℕ, ◌-◌, ◌^◌, ◌≤◌, ◌<◌, ◌≡◌, refl, Bool, List, [], none, returns, arith, length, get_or, replicate,
  length-replicate, zero, suc, ◌*◌, false,
}
use go_netx.Base.Int.{ℤ, pos, leb_ℤ}
use go_netx.Rounding.{round_up-Rounds}
use go_netx.Flow.Life.{Flow}
use go_netx.Flow.Table.{Table, shard_count, new_table, lookup, slot}
use go_netx.Flow.Table.Shards.{IsValid}

get_or-replicate : {K : Type 0} (n i : ℕ) → get_or (replicate {A = List (K × ℕ)} n []) i [] ≡ []
get_or-replicate zero i = refl
get_or-replicate (suc n) zero = refl
get_or-replicate (suc n) (suc i) = get_or-replicate n i

module _ {K V : Type 0} (dec : Discrete K) (hash : K → ℕ) where
  -- For a shard count from 1 to 2 ^ 62, NewTable ends within 63 rounds of its loop, with a valid table of at
  -- least that many shards, less than twice as many, and no flow under any key.
  pub new_table-IsValid :
      (wanted : ℕ) (idle : ℤ) (hook : Bool) (start : ℤ) (last : ℕ) (flows : ℕ → Flow)
      (value : ℕ → V)
      → 0 < wanted
      → wanted ≤ 2 ^ 62
      → (t : Table K V) × (new_table 63 (pos wanted) idle hook start last flows value ≡ returns t)
        × IsValid dec hash t
        × (wanted ≤ length t.shards)
        × (length t.shards < 2 * wanted)
        × ((k : K) → lookup dec hash k t ≡ none)
  unfolding new_table shard_count lookup
  new_table-IsValid wanted idle hook start last flows value some_shards small =
      let (s, e, enough, least, le) = round_up-Rounds wanted some_shards small in
      let size : length (replicate {A = List (K × ℕ)} (2 ^ s) []) ≡ 2 ^ s =
        length-replicate (2 ^ s) [] in
      let test : leb_ℤ (pos wanted) (pos 0) ≡ false = ground arith in
      (
        made s,
        rw (test, e, new_table, shard_count) refl,
        (s, refl, size, λ i. rw (get_or-replicate {K = K} (2 ^ s) i) tt),
        omega arith,
        omega arith,
        λ k. rw (get_or-replicate {K = K} (2 ^ s) (slot dec hash (made s) k)) refl,
      )
    where
      made : ℕ → Table K V
      made s = record {
        shards = replicate (2 ^ s) [];
        mask = 2 ^ s - 1;
        idle = idle;
        has_hook = hook;
        now = start;
        last_id = last;
        flows = flows;
        value = value;
      }
