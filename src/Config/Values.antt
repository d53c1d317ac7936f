-- ===== src/Config/Values.antt =====
-- The values of src/config/overlay-helpers.ts: `unknown` as it comes from JSON or YAML. An object is
-- its entries in the order of insertion; a number stands for itself, without arithmetic.
use risoluto.Prelude.{
  ℕ, Bool, true, false, Option, none, some, Text, text_eq, if◌then◌else◌, ◌==◌, ◌≡◌, refl, arith,
}

mutual
  pub data Value : Type 0 where
    null : Value
    boolean : Bool → Value
    number : ℕ → Value
    string : Text → Value
    array : Items → Value
    object : Fields → Value

  pub data Items : Type 0 where
    nil : Items
    cons : Value → Items → Items

  pub data Fields : Type 0 where
    end : Fields
    field : Text → Value → Fields → Fields

-- `Object.hasOwn(target, key) ? target[key] : undefined`
unfoldable pub get_field : Fields → Text → Option Value
get_field end key = none
get_field (field k v rest) key = if k == key then some v else get_field rest key

-- `target[key] = value`
unfoldable pub put_field : Fields → Text → Value → Fields
put_field end key value = field key value end
put_field (field k v rest) key value =
    if k == key then field k value rest else field k v (put_field rest key value)

-- `delete target[key]`
unfoldable pub delete_field : Fields → Text → Fields
delete_field end key = end
delete_field (field k v rest) key = if k == key then rest else field k v (delete_field rest key)

-- `isRecord(value)`, with the record.
abbrev pub as_record : Option Value → Option Fields
as_record (some (object fields)) = some fields
as_record (some null) = none
as_record (some (boolean b)) = none
as_record (some (number n)) = none
as_record (some (string s)) = none
as_record (some (array xs)) = none
as_record none = none

abbrev pub is_end : Fields → Bool
is_end end = true
is_end (field k v rest) = false

-- The keys of an object are distinct, here and in every object within.
unfoldable mutual
  pub IsPlain : Value → Type 0
  IsPlain null = Unit
  IsPlain (boolean b) = Unit
  IsPlain (number n) = Unit
  IsPlain (string s) = Unit
  IsPlain (array xs) = IsPlainItems xs
  IsPlain (object fields) = IsPlainFields fields

  pub IsPlainItems : Items → Type 0
  IsPlainItems nil = Unit
  IsPlainItems (cons x xs) = IsPlain x × IsPlainItems xs

  pub IsPlainFields : Fields → Type 0
  IsPlainFields end = Unit
  IsPlainFields (field k v rest) = (get_field rest k ≡ none) × IsPlain v × IsPlainFields rest

pub get-put_field :
    (m : Fields) (k j : Text) (v : Value)
    → get_field (put_field m k v) j ≡ (if k == j then some v else get_field m j)
unfolding get_field put_field
get-put_field end k j v = refl
get-put_field (field i w m) k j v = ground (arith, get-put_field m k j v)

pub get-delete_field_other :
    (m : Fields) (k j : Text) → (k == j) ≡ false → get_field (delete_field m k) j ≡ get_field m j
unfolding get_field delete_field
get-delete_field_other end k j h = refl
get-delete_field_other (field i w m) k j h = ground (arith, get-delete_field_other m k j h)

pub get-delete_field :
    (m : Fields) (k : Text) → IsPlainFields m → get_field (delete_field m k) k ≡ none
unfolding get_field delete_field IsPlain
get-delete_field end k p = refl
get-delete_field (field i w m) k p = ground (arith, get-delete_field m k p.2)

pub delete-put_field :
    (m : Fields) (k : Text) (v : Value)
    → get_field m k ≡ none
    → delete_field (put_field m k v) k ≡ m
unfolding get_field put_field delete_field
delete-put_field end k v h = ground arith
delete-put_field (field i w m) k v h = ground (arith, delete-put_field m k v)
