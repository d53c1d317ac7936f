-- ===== src/Prelude/Sets.antt =====
-- A JavaScript `Set`, in insertion order.
use mathlib.Core.Path.{◌≡◌, refl}
use mathlib.Core.Bool.{Bool, false, ◌||◌}
use mathlib.Core.List.{List, [], ◌∷◌, ◌++◌}
use native.Mathlib.Omega.{arith}
use risoluto.Prelude.Tests.{if◌then◌else◌}
use risoluto.Prelude.Equality.{Eq, ◌==◌}

module _ {ℓ} {A : Type ℓ} ⦃e : Eq A⦄ where
  -- `xs.includes(a)` and `set.has(a)`
  unfoldable pub includes : List A → A → Bool
  includes [] a = false
  includes (x ∷ xs) a = x == a || includes xs a

  unfoldable pub add : List A → A → List A
  add xs a = if includes xs a then xs else xs ++ a ∷ []

  unfoldable pub remove : List A → A → List A
  remove [] a = []
  remove (x ∷ xs) a = if x == a then remove xs a else x ∷ remove xs a

  pub includes-append :
      (xs ys : List A) (a : A) → includes (xs ++ ys) a ≡ (includes xs a || includes ys a)
  unfolding includes
  includes-append [] ys a = refl
  includes-append (x ∷ xs) ys a = ground (arith, includes-append xs ys a)

  pub includes-add : (xs : List A) (a b : A) → includes (add xs a) b ≡ (a == b || includes xs b)
  unfolding includes add
  includes-add xs a b = ground (arith, includes-append xs (a ∷ []) b)

  pub includes-remove :
      (xs : List A) (a b : A) → includes (remove xs a) b ≡ (if a == b then false else includes xs b)
  unfolding includes remove
  includes-remove [] a b = ground arith
  includes-remove (x ∷ xs) a b = ground (arith, includes-remove xs a b)

  -- `for (const a of xs) set.add(a)`
  unfoldable pub add_all : List A → List A → List A
  add_all s [] = s
  add_all s (x ∷ xs) = add_all (add s x) xs

  pub includes-add_all :
      (s xs : List A) (a : A) → includes (add_all s xs) a ≡ (includes s a || includes xs a)
  unfolding add_all includes
  includes-add_all s [] a = ground arith
  includes-add_all s (x ∷ xs) a =
      ground (arith, includes-add_all (add s x) xs a, includes-add s x a)

  -- No element occurs twice.
  abbrev pub Distinct : List A → Type 0
  Distinct [] = Unit
  Distinct (x ∷ xs) = (includes xs x ≡ false) × Distinct xs

  pub append-Distinct :
      (xs : List A) (a : A) → Distinct xs → includes xs a ≡ false → Distinct (xs ++ a ∷ [])
  unfolding includes
  append-Distinct [] a h k = (refl, tt)
  append-Distinct (x ∷ xs) a h k =
      ground (arith, append-Distinct xs a h.1, includes-append xs (a ∷ []) x)

  pub add-Distinct : (xs : List A) (a : A) → Distinct xs → Distinct (add xs a)
  unfolding add
  add-Distinct xs a h = ground (arith, append-Distinct xs a h)

  pub add_all-Distinct : (s xs : List A) → Distinct s → Distinct (add_all s xs)
  unfolding add_all
  add_all-Distinct s [] h = h
  add_all-Distinct s (x ∷ xs) h = add_all-Distinct (add s x) xs (add-Distinct s x h)
