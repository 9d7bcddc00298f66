-- ===== src/Limit/PerKey/Slots.antt =====
-- The slots of each key, through TryAcquire and Release.
use go_netx.Base.{
  ℕ, ◌+◌, ◌-◌, ◌≤◌, ◌<◌, ◌≡◌, refl, sym, subst, ◌≢◌, inl, inr, true, false, Outcome, returns,
  panics, Option, none, some, arith, ◌==◌, ltb, dec_lt, if◌then◌else◌, Option-cases, ℕ_discrete,
}
use mathlib.Core.Logic.{if_pos, if_neg}
use go_netx.Base.Assoc.{
  get, put, del, Distinct, get-put, put-Distinct, get-del_self, get-del_ne, del-Distinct,
  length-put_new, length-put_old, length-del,
}
use go_netx.Limit.PerKey.{PerKey, leave, keys, in_use, try_acquire, release}

module _ {K : Type 0} (dec : Discrete K) where
  -- Every entry is a key's count, from 1 to the maximum.
  pub record IsValid (p : PerKey K) : Type 0 where
    pub distinct : Distinct dec p.n
    pub counted : (k : K) (n : ℕ) → get dec k p.n ≡ some n → (0 < n) × (n ≤ p.max)

  -- Each key but `k` has the slots that it had.
  abbrev pub OthersKeep : K → PerKey K → PerKey K → Type 0
  OthersKeep k p p' = (j : K) → k ≢ j → in_use dec j p' ≡ in_use dec j p

  pub in_use-le : (k : K) (p : PerKey K) → IsValid p → in_use dec k p ≤ p.max
  unfolding in_use
  in_use-le k p v = elim (Option-cases (get dec k p.n)) [
    | inl none_held ↦ rw none_held (omega arith)
    | inr (n, held) ↦ rw held (v.counted k n held).1
  ]

  put-IsValid :
      (k : K) (n : ℕ) (p : PerKey K)
      → IsValid p
      → 0 < n
      → n ≤ p.max
      → IsValid (record p { n = put dec k n p.n })
  put-IsValid k n p v positive fits = record {
    distinct = put-Distinct dec k n p.n v.distinct;
    counted = λ j m e. ground (arith, get-put dec k j n p.n, v.counted j m);
  }

  del-IsValid : (k : K) (p : PerKey K) → IsValid p → IsValid (record p { n = del dec k p.n })
  del-IsValid k p v = record {
    distinct = del-Distinct dec k p.n v.distinct;
    counted = λ j m e. elim (dec k j) [
      | yes same ↦
          absurd (missing j m (subst (λ (i : K). get dec i (del dec k p.n) ≡ some m) (sym same) e))
      | no other ↦ v.counted j m (rw (← get-del_ne dec k j p.n other) e)
    ];
  }
    where
      missing : (j : K) (m : ℕ) → get dec k (del dec k p.n) ≢ some m
      missing j m e = ground (arith, get-del_self dec k p.n v.distinct)

  in_use-put_self :
      (k : K) (n : ℕ) (p : PerKey K) → in_use dec k (record p { n = put dec k n p.n }) ≡ n
  unfolding in_use
  in_use-put_self k n p = rw (get-put dec k k n p.n, if_pos (dec k k) refl)

  in_use-put_ne :
      (k j : K) (n : ℕ) (p : PerKey K)
      → k ≢ j
      → in_use dec j (record p { n = put dec k n p.n }) ≡ in_use dec j p
  unfolding in_use
  in_use-put_ne k j n p ne = rw (get-put dec k j n p.n, if_neg (dec k j) ne)

  full_lem : (k : K) (p : PerKey K) → p.max ≤ in_use dec k p → try_acquire dec k p ≡ (p, false)
  unfolding try_acquire
  full_lem k p full = ground arith

  room_lem :
      (k : K) (p : PerKey K)
      → in_use dec k p < p.max
      → try_acquire dec k p ≡ (record p { n = put dec k (in_use dec k p + 1) p.n }, true)
  unfolding try_acquire
  room_lem k p room = ground arith

  -- TryAcquire gives a key one slot more exactly when it has fewer than the maximum, and otherwise changes
  -- nothing; no other key's slots change, and the map stays valid.
  pub try_acquire_lem :
      (k : K) (p : PerKey K)
      → IsValid p
      → let (p', ok) = try_acquire dec k p in
        IsValid p'
        × OthersKeep k p p'
        × (ok ≡ ltb (in_use dec k p) p.max)
        × (in_use dec k p' ≡ in_use dec k p + (if ok then 1 else 0))
  try_acquire_lem k p v = elim (dec_lt (in_use dec k p) p.max) [
    | yes room ↦ rw (room_lem k p room) (
      put-IsValid k (in_use dec k p + 1) p v (omega arith) (omega arith),
      λ j ne. in_use-put_ne k j (in_use dec k p + 1) p ne,
      ground arith,
      in_use-put_self k (in_use dec k p + 1) p,
    )
    | no full ↦ rw (full_lem k p (omega arith)) (v, λ j ne. refl, ground arith, omega arith)
  ]

  -- The count of a key, and its entry.
  entry : (k : K) (p : PerKey K) (n : ℕ) → get dec k p.n ≡ some n → in_use dec k p ≡ n
  unfolding in_use
  entry k p n e = rw e

  -- What Release makes of an entry.
  abbrev pub Released : K → PerKey K → Outcome (PerKey K) → Type 0
  Released k p r =
      (p' : PerKey K) × (r ≡ returns p')
      × IsValid p'
      × OthersKeep k p p'
      × (in_use dec k p' + 1 ≡ in_use dec k p)

  leave-Released :
      (k : K) (p : PerKey K) (n : ℕ)
      → IsValid p
      → get dec k p.n ≡ some n
      → Released k p (leave dec k p (some n))
  leave-Released k p n v e = elim (ℕ_discrete n 1) [
    | yes last ↦ (
      record p { n = del dec k p.n },
      ground arith,
      del-IsValid k p v,
      λ j ne. unfold in_use in rw (get-del_ne dec k j p.n ne),
      gone last,
    )
    | no more ↦ (
      record p { n = put dec k (n - 1) p.n },
      ground arith,
      put-IsValid k (n - 1) p v (omega (arith, v.counted k n e)) (omega (arith, v.counted k n e)),
      λ j ne. in_use-put_ne k j (n - 1) p ne,
      omega (arith, in_use-put_self k (n - 1) p, entry k p n e, v.counted k n e),
    )
  ]
    where
      gone : n ≡ 1 → in_use dec k (record p { n = del dec k p.n }) + 1 ≡ in_use dec k p
      gone last = unfold in_use in ground (arith, get-del_self dec k p.n v.distinct)

  unheld : (k : K) (p : PerKey K) → get dec k p.n ≡ none → in_use dec k p ≡ 0
  unfolding in_use
  unheld k p e = rw e

  release_entry :
      (k : K) (p : PerKey K) (o : Option ℕ) → get dec k p.n ≡ o → release dec k p ≡ leave dec k p o
  unfolding release
  release_entry k p o e = rw e

  -- Release takes one slot from a key that has one; no other key's slots change, and the map stays valid.
  pub release_lem :
      (k : K) (p : PerKey K) → IsValid p → 0 < in_use dec k p → Released k p (release dec k p)
  release_lem k p v held = elim (Option-cases (get dec k p.n)) [
    | inl free ↦ absurd (omega (arith, unheld k p free))
    | inr (n, e) ↦ rw (release_entry k p (some n) e) (leave-Released k p n v e)
  ]

  -- Release panics on a key that has no slot.
  pub release-unheld :
      (k : K) (p : PerKey K) → IsValid p → in_use dec k p ≡ 0 → release dec k p ≡ panics
  release-unheld k p v none_held = elim (Option-cases (get dec k p.n)) [
    | inl free ↦ release_entry k p none free
    | inr (n, e) ↦ absurd (omega (arith, entry k p n e, v.counted k n e))
  ]

  -- Keys counts one key more when an acquired slot is its key's first, and else as before.
  pub keys-try_acquire :
      (k : K) (p : PerKey K)
      → IsValid p
      → in_use dec k p < p.max
      → keys (try_acquire dec k p).0 ≡ keys p + (if in_use dec k p == 0 then 1 else 0)
  unfolding keys in_use try_acquire
  keys-try_acquire k p v room = elim (Option-cases (get dec k p.n)) [
    | inl free ↦ ground (arith, free, length-put_new dec k (in_use dec k p + 1) p.n free)
    | inr (n, held) ↦
        ground
          (arith, held, v.counted k n held, length-put_old dec k (in_use dec k p + 1) n p.n held)
  ]

  -- Keys counts one key less when a released slot is its key's last, and else as before.
  pub keys-release :
      (k : K) (p p' : PerKey K)
      → IsValid p
      → release dec k p ≡ returns p'
      → keys p' + (if in_use dec k p == 1 then 1 else 0) ≡ keys p
  unfolding keys in_use release
  keys-release k p p' v e = elim (Option-cases (get dec k p.n)) [
    | inl free ↦ ground (arith, free)
    | inr (n, held) ↦ ground (
      arith,
      held,
      v.counted k n held,
      length-put_old dec k (n - 1) n p.n held,
      length-del dec k n p.n held,
    )
  ]
