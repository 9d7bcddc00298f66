-- ===== src/Queue/Fresh.antt =====
-- What New returns.
use native.Mathlib.Nat.{one-le-pow}
use go_netx.Base.{
  ℕ, ◌*◌, ◌^◌, ◌≤◌, ◌<◌, ◌≡◌, refl, false, [], arith, length-replicate, returns, runs_on,
}
use go_netx.Base.Int.{pos}
use go_netx.Rounding.{round_up-Rounds, round_up-none}
use go_netx.Queue.{Ring, Options, new, fresh, zero_stats}
use go_netx.Queue.View.{view}
use go_netx.Queue.Valid.{IsValid}

module _ {ℓ} {A : Type ℓ} (zero_value : A) where
  fresh-IsValid : (o : Options) (k : ℕ) → k ≤ 62 → IsValid k (fresh zero_value o (2 ^ k))
  fresh-IsValid o k small = record {
    slots = length-replicate (2 ^ k) zero_value;
    masked = refl;
    small = small;
    head_in = one-le-pow k 2 (omega arith);
    count_in = omega arith;
  }

  -- For a capacity of 1 to 2 ^ 62, New returns, after at most 63 rounds of its loop, a valid ring that
  -- stands for the empty open queue, and whose bound is the least power of two that is not below the
  -- capacity.
  pub new-fresh :
      (o : Options) (want : ℕ)
      → o.cap ≡ pos want
      → 0 < want
      → want ≤ 2 ^ 62
      → (k : ℕ) × (r : Ring A) × (new zero_value 63 o ≡ returns r)
        × IsValid k r
        × (want ≤ 2 ^ k)
        × (2 ^ k < 2 * want)
        × (view zero_value k r ≡ record {
          contents = [];
          bound = 2 ^ k;
          closed = false;
          policy = o.policy;
          has_hook = o.has_hook;
          stats = zero_stats;
        })
  unfolding new
  new-fresh o want e positive small =
      let (k, rounded, enough, least, bits) = round_up-Rounds want positive small in
      (k, fresh zero_value o (2 ^ k), ground arith, fresh-IsValid o k bits, enough, least, refl)

  -- A capacity above 2 ^ 62 keeps New in its loop for ever, whatever the number of rounds.
  pub new-unbounded :
      (o : Options) (fuel want : ℕ)
      → o.cap ≡ pos want
      → 2 ^ 62 < want
      → new zero_value fuel o ≡ runs_on
  unfolding new
  new-unbounded o fuel want e big = ground (arith, round_up-none fuel want big)
