-- ===== src/Queue/Spec.antt =====
-- What the ring promises: a bounded queue, oldest item first, with its policy and its counts.
use go_netx.Base.{
  ◌≡◌, refl, ℕ, Bool, true, false, List, [], ◌∷◌, ◌++◌, length, ◌==◌, if◌then◌else◌, inc64, add64,
}
use go_netx.Queue.{Policy, Stats, is_reject}

pub record Fifo {ℓ} (A : Type ℓ) : Type ℓ where
  pub contents : List A
  pub bound : ℕ
  pub closed : Bool
  pub policy : Policy
  pub has_hook : Bool
  pub stats : Stats

pub data Op {ℓ} (A : Type ℓ) : Type ℓ where
  pushes : A → Op A
  pops closes drains reads : Op A

-- What a call returns: Push's answer, Pop's item, Drain's count, Stats' snapshot.
pub data Reply {ℓ} (A : Type ℓ) : Type ℓ where
  answer : Bool → Reply A
  item : A → Reply A
  nothing : Reply A
  count : ℕ → Reply A
  snapshot : Stats → Reply A

-- A call's new state, its reply, and the items handed to OnDrop.
abbrev pub Effect {ℓ} : Type ℓ → Type ℓ → Type ℓ
Effect S A = S × Reply A × List A

module _ {ℓ} {A : Type ℓ} where
  abbrev pub hook : Fifo A → List A → List A
  hook q xs = if q.has_hook then xs else []

  abbrev refuse : Fifo A → Effect (Fifo A) A
  refuse q = (
    record q { stats = record (q.stats) { rejected = inc64 q.stats.rejected } },
    answer false,
    [],
  )

  abbrev accept : Fifo A → List A → A → ℕ → List A → Effect (Fifo A) A
  accept q kept v dropped out = (
    record q {
      contents = kept ++ v ∷ [];
      stats = record (q.stats) { pushed = inc64 q.stats.pushed; dropped = dropped };
    },
    answer true,
    out,
  )

  -- A full queue refuses, or lets its oldest item go.
  overflow : Fifo A → List A → A → Effect (Fifo A) A
  overflow q [] v = accept q [] v q.stats.dropped []
  overflow q (x ∷ xs) v =
      if is_reject q.policy
      then refuse q
      else accept q xs v (inc64 q.stats.dropped) (hook q (x ∷ []))

  unfoldable pub push : Fifo A → A → Effect (Fifo A) A
  unfolding overflow
  push q v =
      if q.closed
      then refuse q
      else if length q.contents == q.bound
      then overflow q q.contents v
      else accept q q.contents v q.stats.dropped []

  take_first : Fifo A → List A → Effect (Fifo A) A
  take_first q [] = (q, nothing, [])
  take_first q (x ∷ xs) = (
    record q { contents = xs; stats = record (q.stats) { popped = inc64 q.stats.popped } },
    item x,
    [],
  )

  unfoldable pub step : Fifo A → Op A → Effect (Fifo A) A
  unfolding push take_first
  step q (pushes v) = push q v
  step q pops = take_first q q.contents
  step q closes = (record q { closed = true }, nothing, [])
  step q drains = (
    record q {
      contents = [];
      stats = record (q.stats) { dropped = add64 q.stats.dropped (length q.contents) };
    },
    count (length q.contents),
    hook q q.contents,
  )
  step q reads = (q, snapshot (record (q.stats) { len = length q.contents }), [])

  unfoldable pub run : Fifo A → List (Op A) → List (Reply A × List A)
  run q [] = []
  run q (op ∷ ops) = let (q', reply, out) = step q op in (reply, out) ∷ run q' ops

  unfoldable pub final : Fifo A → List (Op A) → Fifo A
  final q [] = q
  final q (op ∷ ops) = final (step q op).0 ops

  -- Calls in two stretches.
  pub final-append : (xs ys : List (Op A)) (q : Fifo A) → final q (xs ++ ys) ≡ final (final q xs) ys
  unfolding final
  final-append [] ys q = refl
  final-append (x ∷ xs) ys q = final-append xs ys (step q x).0
