-- ===== src/Base/Assoc.antt =====
-- A Go map as an association list with one entry for each key.
use Prim.Native.Nat.{◌+◌}
use mathlib.Core.Path.{◌≡◌, refl}
use mathlib.Core.Logic.{◌≢◌, ite}
use mathlib.Core.List.{List, [], ◌∷◌}
use mathlib.Core.Option.{Option, none, some}
use native.Mathlib.Omega.{arith}
use go_netx.Base.Lists.{length}

module _ {ℓ} {K V : Type ℓ} (dec : Discrete K) where
  -- `m[k]`
  abbrev pub get : K → List (K × V) → Option V
  get sought [] = none
  get sought ((key, here) ∷ rest) = ite (dec key sought) (some here) (get sought rest)

  -- `delete(m, k)`
  abbrev pub del : K → List (K × V) → List (K × V)
  del gone [] = []
  del gone ((key, here) ∷ rest) = ite (dec key gone) rest ((key, here) ∷ del gone rest)

  -- `m[k] = v`, in the place of an entry that is there and else at the end.
  abbrev pub put : K → V → List (K × V) → List (K × V)
  put new value [] = (new, value) ∷ []
  put new value ((key, here) ∷ rest) =
      ite (dec key new) ((new, value) ∷ rest) ((key, here) ∷ put new value rest)

  -- One entry for each key.
  abbrev pub Distinct : List (K × V) → Type ℓ
  Distinct [] = Unit
  Distinct ((k, v) ∷ m) = (get k m ≡ none) × Distinct m

  pub get-put :
      (k j : K) (v : V) (m : List (K × V)) → get j (put k v m) ≡ ite (dec k j) (some v) (get j m)
  get-put k j v [] = refl
  get-put k j v ((i, w) ∷ m) = ground (arith, get-put k j v m)

  pub put-Distinct : (k : K) (v : V) (m : List (K × V)) → Distinct m → Distinct (put k v m)
  put-Distinct k v [] d = ground arith
  put-Distinct k v ((i, w) ∷ m) d = ground (arith, get-put k i v m, put-Distinct k v m d.1)

  pub get-del_self : (k : K) (m : List (K × V)) → Distinct m → get k (del k m) ≡ none
  get-del_self k [] d = refl
  get-del_self k ((i, w) ∷ m) d = ground (arith, get-del_self k m d.1)

  pub get-del_ne : (k j : K) (m : List (K × V)) → k ≢ j → get j (del k m) ≡ get j m
  get-del_ne k j [] ne = refl
  get-del_ne k j ((i, w) ∷ m) ne = ground (arith, get-del_ne k j m ne)

  pub del-Distinct : (k : K) (m : List (K × V)) → Distinct m → Distinct (del k m)
  del-Distinct k [] d = d
  del-Distinct k ((i, w) ∷ m) d = ground (arith, del-Distinct k m d.1, get-del_ne k i m)

  pub length-put_new :
      (k : K) (v : V) (m : List (K × V)) → get k m ≡ none → length (put k v m) ≡ length m + 1
  length-put_new k v [] e = refl
  length-put_new k v ((i, w) ∷ m) e = ground (arith, length-put_new k v m)

  pub length-put_old :
      (k : K) (v w : V) (m : List (K × V)) → get k m ≡ some w → length (put k v m) ≡ length m
  length-put_old k v w [] e = cc
  length-put_old k v w ((i, u) ∷ m) e = ground (arith, length-put_old k v w m)

  pub length-del :
      (k : K) (v : V) (m : List (K × V)) → get k m ≡ some v → length (del k m) + 1 ≡ length m
  length-del k v [] e = cc
  length-del k v ((i, u) ∷ m) e = ground (arith, length-del k v m)
