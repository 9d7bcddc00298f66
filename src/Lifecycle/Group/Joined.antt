-- ===== src/Lifecycle/Group/Joined.antt =====
-- What a group's Serve returns, whatever the order in which its services return.
use go_netx.Base.{
  ℕ, zero, suc, ◌+◌, ◌<◌, ◌≡◌, refl, sym, subst, ap, ap₂, ◌∙◌, ◌⊎◌, inl, inr, arith, Bool, true,
  false, not, ◌||◌, List, [], ◌∷◌, ◌++◌, Option, none, some, replicate, get_or, set, length,
  length-set, length-replicate, get_or-lt, ltb, ltb→lt, lt→ltb, ◌&&◌, ◌==◌, if◌then◌else◌,
  Bool-cases, true≢false,
}
use go_netx.Lifecycle.{Err, is_nil}
use go_netx.Lifecycle.Group.{
  Group, Event, service_returns, parent_ends, new_group, serve_returns, join, all_returned,
  group_result, group_serve,
}

-- The errors of `n` services from the `i`-th on, in the order of the services.
abbrev pub joined : (ℕ → List Err) → ℕ → ℕ → List Err
joined f i zero = []
joined f i (suc n) = f i ++ joined f (suc i) n

-- Service `k` returns.
abbrev pub member : ℕ → List Event → Bool
member k [] = false
member k (service_returns i ∷ events) = i == k || member k events
member k (parent_ends ∷ events) = member k events

-- One of the `n` services has returned with an error, or the context that Serve was given has ended.
abbrev pub aborts : (ℕ → List Err) → ℕ → List Event → Bool
aborts f n [] = false
aborts f n (service_returns i ∷ events) = (ltb i n && not (is_nil (f i))) || aborts f n events
aborts f n (parent_ends ∷ events) = true

-- Each slot is empty or holds the error of its service.
abbrev pub Holds : (ℕ → List Err) → ℕ → List (Option (List Err)) → Type 0
Holds f i [] = Unit
Holds f i (o ∷ errs) = ((o ≡ none) ⊎ (o ≡ some (f i))) × Holds f (suc i) errs

abbrev has : Option (List Err) → Bool
has none = false
has (some e) = true

new-Holds : (f : ℕ → List Err) (i n : ℕ) → Holds f i (replicate n none)
new-Holds f i zero = tt
new-Holds f i (suc n) = (inl refl, new-Holds f (suc i) n)

set-Holds :
    (f : ℕ → List Err) (i k : ℕ) (errs : List (Option (List Err)))
    → Holds f i errs
    → Holds f i (set errs k (some (f (i + k))))
set-Holds f i k [] h = tt
set-Holds f i zero (o ∷ errs) h = (inr (ap (λ n. some (f n)) (omega arith)), h.1)
set-Holds f i (suc k) (o ∷ errs) h = (
  h.0,
  subst (λ n. Holds f (suc i) (set errs k (some (f n)))) (shift i k)
      (set-Holds f (suc i) k errs h.1),
)
  where
    shift : (i k : ℕ) → suc i + k ≡ i + suc k
    shift i k = omega arith

-- When all have returned.
join-joined :
    (f : ℕ → List Err) (i : ℕ) (errs : List (Option (List Err)))
    → Holds f i errs
    → all_returned errs ≡ true
    → join errs ≡ joined f i (length errs)
join-joined f i [] h all = refl
join-joined f i (none ∷ errs) h all = absurd (ground arith)
join-joined f i (some e ∷ errs) h all = ap₂ ◌++◌ (own h.0) (join-joined f (suc i) errs h.1 all)
  where
    own : (some e ≡ none) ⊎ (some e ≡ some (f i)) → e ≡ f i
    own (inl n) = absurd (ground arith)
    own (inr same) = ground arith

-- Every slot that is there is filled.
all_returned-has :
    (errs : List (Option (List Err)))
    → ((k : ℕ) → k < length errs → has (get_or errs k (some [])) ≡ true)
    → all_returned errs ≡ true
all_returned-has [] h = refl
all_returned-has (none ∷ errs) h = absurd (true≢false (sym (h 0 (omega arith))))
all_returned-has (some e ∷ errs) h = all_returned-has errs (λ k lt. h (suc k) (omega arith))

has-set :
    (k j : ℕ) (e : List Err) (errs : List (Option (List Err)))
    → has (get_or (set errs k (some e)) j (some [])) ≡ (k == j || has (get_or errs j (some [])))
has-set k j e [] = ground arith
has-set zero zero e (o ∷ errs) = refl
has-set zero (suc j) e (o ∷ errs) = ground arith
has-set (suc k) zero e (o ∷ errs) = ground arith
has-set (suc k) (suc j) e (o ∷ errs) =
    has-set k j e errs ∙ ap (λ b. b || has (get_or errs j (some []))) (shift k j)
  where
    shift : (k j : ℕ) → (k == j) ≡ (suc k == suc j)
    shift k j = ground arith

-- A slot that is filled has the error of its service.
Holds-get :
    (f : ℕ → List Err) (i k : ℕ) (errs : List (Option (List Err))) (e : List Err)
    → Holds f i errs
    → k < length errs
    → get_or errs k (some []) ≡ some e
    → e ≡ f (i + k)
Holds-get f i k [] e h lt is = absurd (omega arith)
Holds-get f i zero (o ∷ errs) e h lt is = own h.0
  where
    shift : (i : ℕ) → i ≡ i + 0
    shift i = omega arith

    own : (o ≡ none) ⊎ (o ≡ some (f i)) → e ≡ f (i + 0)
    own (inl n) = absurd (ground (arith, n, is))
    own (inr same) = ground (arith, same, is, ap f (shift i))
Holds-get f i (suc k) (o ∷ errs) e h lt is =
    Holds-get f (suc i) k errs e h.1 (omega arith) is ∙ ap f (shift i k)
  where
    shift : (i k : ℕ) → suc i + k ≡ i + suc k
    shift i k = omega arith

-- What holds of a group at every moment: its slots are right, and an error in one has aborted the others.
record IsGood (f : ℕ → List Err) (g : Group) : Type 0 where
  pub holds : Holds f 0 g.errs
  pub told :
      (k : ℕ) (e : List Err)
      → get_or g.errs k (some []) ≡ some e
      → not (is_nil e) ≡ true
      → g.aborted ≡ true

new-told :
    (n k : ℕ) (e : List Err)
    → get_or (replicate n none) k (some []) ≡ some e
    → not (is_nil e) ≡ true
    → false ≡ true
new-told zero k e is bad = ground (arith, is, bad)
new-told (suc n) zero e is bad = ground (arith, is)
new-told (suc n) (suc k) e is bad = new-told n k e is bad

set-told :
    (k j : ℕ) (x e : List Err) (errs : List (Option (List Err)))
    → get_or (set errs k (some x)) j (some []) ≡ some e
    → (x ≡ e) ⊎ (get_or errs j (some []) ≡ some e)
set-told k j x e [] is = inr is
set-told zero zero x e (o ∷ errs) is = inl (ground (arith, is))
set-told zero (suc j) x e (o ∷ errs) is = inr is
set-told (suc k) zero x e (o ∷ errs) is = inr is
set-told (suc k) (suc j) x e (o ∷ errs) is = set-told k j x e errs is

-- After the return of a service the group is as it should be, and aborted if it was or if the service failed.
return-IsGood :
    (f : ℕ → List Err) (i : ℕ) (g : Group)
    → IsGood f g
    → IsGood f (serve_returns i (f i) g)
      × ((serve_returns i (f i) g).aborted
          ≡ (g.aborted || (ltb i (length g.errs) && not (is_nil (f i)))))
unfolding serve_returns
return-IsGood f i g good = go (get_or g.errs i (some [])) refl
  where
    zero_add : (i : ℕ) → 0 + i ≡ i
    zero_add i = omega arith

    or_true : (b : Bool) → (b || true) ≡ true
    or_true true = refl
    or_true false = refl

    or_false : (b : Bool) → (b || false) ≡ b
    or_false true = refl
    or_false false = refl

    filled :
        (e : List Err)
        → get_or g.errs i (some []) ≡ some e
        → (b : Bool) → not (is_nil e) ≡ b
        → g.aborted ≡ (g.aborted || b)
    filled e is true bad = good.told i e is bad ∙ sym (or_true g.aborted)
    filled e is false bad = sym (or_false g.aborted)

    go :
        (o : Option (List Err))
        → get_or g.errs i (some []) ≡ o
        → let g' : Group = elim o as (λ _. Group) [
          | some gone ↦ g
          | none ↦ record {
            errs = set g.errs i (some (f i));
            aborted = g.aborted || not (is_nil (f i));
          }
        ] in
          IsGood f g' × (g'.aborted ≡ (g.aborted || (ltb i (length g.errs) && not (is_nil (f i)))))
    go (some gone) e = (
      good,
      elim (Bool-cases (ltb i (length g.errs))) [
        | inl inside ↦ rw inside (
            filled gone e (not (is_nil (f i))) (
              ap (λ x. not (is_nil x))
                (Holds-get f 0 i g.errs gone good.holds (ltb→lt _ _ inside) e ∙ ap f (zero_add i))))
        | inr outside ↦ rw outside (sym (or_false g.aborted))
      ],
    )
    go none e = (
      record {
        holds =
            subst (λ n. Holds f 0 (set g.errs i (some (f n)))) (zero_add i)
              (set-Holds f 0 i g.errs good.holds);
        told = λ k x is bad. elim (set-told i k (f i) x g.errs is) [
          | inl same ↦
              ap (λ y. g.aborted || not (is_nil y)) same
              ∙ ap (λ b. g.aborted || b) bad
              ∙ or_true g.aborted
          | inr before ↦ ap (λ b. b || not (is_nil (f i))) (good.told k x before bad)
        ];
      },
      ap (λ b. g.aborted || (b && not (is_nil (f i))))
          (sym (lt→ltb _ _ (get_or-lt g.errs i (some []) (λ k. absurd (ground (arith, k, e)))))),
    )

-- A return fills one slot and no other.
return-has :
    (i j : ℕ) (e : List Err) (g : Group)
    → (has (get_or (serve_returns i e g).errs j (some []))
        ≡ (i == j || has (get_or g.errs j (some []))))
      × (length (serve_returns i e g).errs ≡ length g.errs)
unfolding serve_returns
return-has i j e g = go (get_or g.errs i (some [])) refl
  where
    go :
        (o : Option (List Err))
        → get_or g.errs i (some []) ≡ o
        → let g' : Group = elim o as (λ _. Group) [
          | some gone ↦ g
          | none ↦ record { errs = set g.errs i (some e); aborted = g.aborted || not (is_nil e) }
        ] in
          (has (get_or g'.errs j (some [])) ≡ (i == j || has (get_or g.errs j (some []))))
          × (length g'.errs ≡ length g.errs)
    go none h = (has-set i j e g.errs, length-set g.errs i (some e))
    go (some gone) h = (
      elim (Bool-cases (i == j)) [
        | inl same ↦
            rw same (ap (λ k. has (get_or g.errs k (some []))) (sym (==→eq same)) ∙ ap has h)
        | inr other ↦ rw other refl
      ],
      refl,
    )
      where
        ==→eq : (i == j) ≡ true → i ≡ j
        ==→eq e = ground arith

serve-IsGood :
    (f : ℕ → List Err) (events : List Event) (g : Group)
    → IsGood f g
    → IsGood f (group_serve f events g)
      × ((group_serve f events g).aborted ≡ (g.aborted || aborts f (length g.errs) events))
unfolding group_serve
serve-IsGood f [] g good = (good, sym (or_false g.aborted))
  where
    or_false : (b : Bool) → (b || false) ≡ b
    or_false true = refl
    or_false false = refl
serve-IsGood f (parent_ends ∷ events) g good =
    let (good', e) =
      serve-IsGood f events (record g { aborted = true })
        (record { holds = good.holds; told = λ k x is bad. refl }) in
    (good', ground (arith, e))
serve-IsGood f (service_returns i ∷ events) g good =
    let (good', told) = return-IsGood f i g good in
    let (good'', e) = serve-IsGood f events (serve_returns i (f i) g) good' in
    let size = (return-has i 0 (f i) g).1 in
    (
      good'',
      e
          ∙ ap (λ n. (serve_returns i (f i) g).aborted || aborts f n events) size
          ∙ ap (λ b. b || aborts f (length g.errs) events) told
          ∙ or_assoc g.aborted (ltb i (length g.errs) && not (is_nil (f i)))
              (aborts f (length g.errs) events),
    )
  where
    or_assoc : (a b c : Bool) → ((a || b) || c) ≡ (a || (b || c))
    or_assoc true b c = refl
    or_assoc false b c = refl

serve-has :
    (f : ℕ → List Err) (events : List Event) (g : Group) (j : ℕ)
    → (has (get_or (group_serve f events g).errs j (some []))
        ≡ (member j events || has (get_or g.errs j (some []))))
      × (length (group_serve f events g).errs ≡ length g.errs)
unfolding group_serve
serve-has f [] g j = (refl, refl)
serve-has f (parent_ends ∷ events) g j = serve-has f events (record g { aborted = true }) j
serve-has f (service_returns i ∷ events) g j =
    let (filled, size) = serve-has f events (serve_returns i (f i) g) j in
    let (one, same) = return-has i j (f i) g in (ground (arith, filled, one), size ∙ same)

new-IsGood : (f : ℕ → List Err) (n : ℕ) → IsGood f (new_group n)
new-IsGood f n = record { holds = new-Holds f 0 n; told = new-told n }

-- In whatever order its services return, once all have, the Serve of a group returns their errors joined in the order
-- of the services, which is nil exactly where every service gave nil. And at each moment before, and then, the
-- services' context is cancelled exactly where a service that has returned failed or Serve's own context has ended.
pub group_serve_lem :
    (f : ℕ → List Err) (n : ℕ) (before later : List Event)
    → ((k : ℕ) → k < n → member k (before ++ later) ≡ true)
    → (group_result (group_serve f (before ++ later) (new_group n)) ≡ some (joined f 0 n))
      × ((group_serve f before (new_group n)).aborted ≡ aborts f n before)
unfolding group_result
group_serve_lem f n before later covers =
    let events = before ++ later in
    let g = group_serve f events (new_group n) in
    let good : IsGood f g = (serve-IsGood f events (new_group n) (new-IsGood f n)).0 in
    let fresh : length (new_group n).errs ≡ n = length-replicate {A = Option (List Err)} n none in
    let size : length g.errs ≡ n = (serve-has f events (new_group n) 0).1 ∙ fresh in
    let all : all_returned g.errs ≡ true = all_returned-has g.errs (λ k lt.
      (serve-has f events (new_group n) k).0
      ∙ ap (λ b. b || has (get_or (new_group n).errs k (some [])))
          (covers k (omega (arith, size)))) in
    let errors : join g.errs ≡ joined f 0 n =
      join-joined f 0 g.errs good.holds all ∙ ap (joined f 0) size in
    (
      ap (λ b. if b then some (join g.errs) else none) all ∙ ap some errors,
      (serve-IsGood f before (new_group n) (new-IsGood f n)).1 ∙ ap (λ m. aborts f m before) fresh,
    )
