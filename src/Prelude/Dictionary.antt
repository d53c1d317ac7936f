-- ===== src/Prelude/Dictionary.antt =====
-- A JavaScript `Map`: its entries in insertion order. `put` keeps the place of a key that is there.
use Prim.Native.Nat.{◌+◌, ◌≤◌}
use mathlib.Core.Path.{◌≡◌, refl, ap}
use mathlib.Core.Bool.{Bool, false, ◌||◌}
use mathlib.Core.Option.{Option, none, some}
use mathlib.Core.List.{List, [], ◌∷◌}
use native.Mathlib.Omega.{arith}
use risoluto.Prelude.Tests.{if◌then◌else◌, is_some, first_some}
use risoluto.Prelude.Lists.{length}
use risoluto.Prelude.Equality.{Eq, ◌==◌}
use risoluto.Prelude.Sets.{includes, Distinct}

abbrev pub Dict {ℓ κ} : Type ℓ → Type κ → Type (ℓ ⊔ κ)
Dict K V = List (K × V)

module _ {ℓ κ} {K : Type ℓ} {V : Type κ} ⦃e : Eq K⦄ where
  unfoldable pub get : Dict K V → K → Option V
  get [] k = none
  get ((j, v) ∷ m) k = if j == k then some v else get m k

  abbrev pub has : Dict K V → K → Bool
  has m k = is_some (get m k)

  unfoldable pub put : Dict K V → K → V → Dict K V
  put [] k v = (k, v) ∷ []
  put ((j, w) ∷ m) k v = if j == k then (j, v) ∷ m else (j, w) ∷ put m k v

  unfoldable pub delete : Dict K V → K → Dict K V
  delete [] k = []
  delete ((j, w) ∷ m) k = if j == k then delete m k else (j, w) ∷ delete m k

  pub get-put :
      (m : Dict K V) (k j : K) (v : V) → get (put m k v) j ≡ (if k == j then some v else get m j)
  unfolding get put
  get-put [] k j v = refl
  get-put ((i, w) ∷ m) k j v = ground (arith, get-put m k j v)

  pub get-delete :
      (m : Dict K V) (k j : K) → get (delete m k) j ≡ (if k == j then none else get m j)
  unfolding get delete
  get-delete [] k j = ground arith
  get-delete ((i, w) ∷ m) k j = ground (arith, get-delete m k j)

  -- `new Map(entries)` is `put_all [] entries`.
  unfoldable pub put_all : Dict K V → List (K × V) → Dict K V
  put_all m [] = m
  put_all m ((k, v) ∷ es) = put_all (put m k v) es

  -- `for (const k of ks) m.set(k, f(k))`
  unfoldable pub fill : (K → V) → Dict K V → List K → Dict K V
  fill f m [] = m
  fill f m (k ∷ ks) = fill f (put m k (f k)) ks

  pub get-fill :
      (f : K → V) (m : Dict K V) (ks : List K) (k : K)
      → get (fill f m ks) k ≡ (if includes ks k then some (f k) else get m k)
  unfolding fill includes
  get-fill f m [] k = refl
  get-fill f m (j ∷ ks) k =
      rw (get-fill f (put m j (f j)) ks k, get-put m j k (f j)) (ground (arith, ap f))

  pub length-put :
      (m : Dict K V) (k : K) (v : V)
      → length (put m k v) ≡ (if has m k then length m else length m + 1)
  unfolding get put
  length-put [] k v = omega arith
  length-put ((i, w) ∷ m) k v = ground (arith, length-put m k v)

  pub length-delete-le : (m : Dict K V) (k : K) → length (delete m k) ≤ length m
  unfolding delete
  length-delete-le [] k = omega arith
  length-delete-le ((i, w) ∷ m) k = ground (arith, length-delete-le m k)

module _ {ℓ κ} {K : Type ℓ} {V : Type κ} where
  abbrev pub keys : Dict K V → List K
  keys [] = []
  keys ((k, v) ∷ m) = k ∷ keys m

  abbrev pub values : Dict K V → List V
  values [] = []
  values ((k, v) ∷ m) = v ∷ values m

module _ {ℓ κ} {K : Type ℓ} {V : Type κ} ⦃e : Eq K⦄ where
  -- The last entry under a key: what `new Map(entries)` keeps of it.
  unfoldable pub last_match : List (K × V) → K → Option V
  last_match [] k = none
  last_match ((j, v) ∷ es) k = elim (last_match es k) [
    | some w ↦ some w
    | none ↦ if j == k then some v else none
  ]

  pub get-put_all :
      (m : Dict K V) (es : List (K × V)) (k : K)
      → get (put_all m es) k ≡ first_some (last_match es k) (get m k)
  unfolding put_all last_match
  get-put_all m [] k = refl
  get-put_all m ((j, v) ∷ es) k = ground (arith, get-put_all (put m j v) es k, get-put m j k v)

  pub includes-keys-put :
      (m : Dict K V) (k j : K) (v : V)
      → includes (keys (put m k v)) j ≡ (k == j || includes (keys m) j)
  unfolding put includes
  includes-keys-put [] k j v = refl
  includes-keys-put ((i, w) ∷ m) k j v = ground (arith, includes-keys-put m k j v)

  pub keys-put-Distinct :
      (m : Dict K V) (k : K) (v : V) → Distinct (keys m) → Distinct (keys (put m k v))
  unfolding put includes
  keys-put-Distinct [] k v h = (refl, tt)
  keys-put-Distinct ((i, w) ∷ m) k v h =
      ground (arith, keys-put-Distinct m k v h.1, includes-keys-put m k i v)

  pub get-none_of_includes : (m : Dict K V) (k : K) → has m k ≡ includes (keys m) k
  unfolding get includes
  get-none_of_includes [] k = refl
  get-none_of_includes ((i, w) ∷ m) k = ground (arith, get-none_of_includes m k)

  pub includes-keys-delete :
      (m : Dict K V) (k j : K)
      → includes (keys (delete m k)) j ≡ (if k == j then false else includes (keys m) j)
  unfolding delete includes
  includes-keys-delete [] k j = ground arith
  includes-keys-delete ((i, w) ∷ m) k j = ground (arith, includes-keys-delete m k j)

  pub keys-delete-Distinct :
      (m : Dict K V) (k : K) → Distinct (keys m) → Distinct (keys (delete m k))
  unfolding delete
  keys-delete-Distinct [] k h = tt
  keys-delete-Distinct ((i, w) ∷ m) k h =
      ground (arith, keys-delete-Distinct m k h.1, includes-keys-delete m k i)
