-- ===== src/Config/Overlay/Removals.antt =====
-- removeOverlayPathValue of src/config/overlay-helpers.ts: what a removal leaves.
use risoluto.Prelude.{
  true, ◌≡◌, refl, sym, ◌∙◌, ap, List, [], ◌∷◌, Option, none, some, Text, text_eq, if◌then◌else◌,
  ◌==◌, Bool-cases, inl, inr, arith,
}
use risoluto.Config.Values.{
  Value, null, boolean, number, string, array, object, Fields, end, field, get_field, delete_field,
  as_record, IsPlain, IsPlainFields, get-put_field, get-delete_field, get-delete_field_other,
}
use risoluto.Config.Overlay.{
  is_dangerous_key, DangerousKeyMode, throw, ignore, Removal, refused, kept, removed, refuse, prune,
  remove_leaf, remove_overlay_path_value,
}
use risoluto.Config.Overlay.Laws.{look, look_at, part, look_same}

-- What stands at the key of a child after the removal in it.
abbrev child_left : Fields → Option Value
child_left end = none
child_left (field k v rest) = some (object (field k v rest))

look-child_left :
    (c : Fields) (k : Text) (ks : List Text) → look (child_left c) (k ∷ ks) ≡ look_at c (k ∷ ks)
unfolding look get_field
look-child_left end k ks = refl
look-child_left (field i v rest) k ks = refl

get-prune :
    (m c m' : Fields) (k q : Text)
    → IsPlainFields m
    → prune m k (removed c) ≡ removed m'
    → get_field m' q ≡ (if k == q then child_left c else get_field m q)
get-prune m end m' k q p h = ground (arith, get-delete_field m k p, get-delete_field_other m k q)
get-prune m (field i v rest) m' k q p h =
    ground (arith, get-put_field m k q (object (field i v rest)))

pub IsPlain-get :
    (m : Fields) (k : Text) (v : Value) → IsPlainFields m → get_field m k ≡ some v → IsPlain v
unfolding get_field IsPlain
IsPlain-get end k v p h = ground arith
IsPlain-get (field i w m) k v p h = elim (Bool-cases (i == k)) [
  | inl e ↦ ground (arith, ap (λ (o : Option Value). o) h)
  | inr e ↦ IsPlain-get m k v p.2 (ground arith)
]

record Step (mode : DangerousKeyMode) (m m' : Fields) (k : Text) (ks : List Text) : Type 0 where
  child : Fields
  left : Fields
  found : get_field m k ≡ some (object child)
  within : remove_overlay_path_value mode child ks ≡ removed left
  outcome : prune m k (removed left) ≡ removed m'

step_within :
    (mode : DangerousKeyMode) (m c m' : Fields) (k : Text) (ks : List Text) (r : Removal)
    → get_field m k ≡ some (object c)
    → remove_overlay_path_value mode c ks ≡ r
    → prune m k r ≡ removed m'
    → Step mode m m' k ks
step_within mode m c m' k ks refused f e h = absurd (ground arith)
step_within mode m c m' k ks kept f e h = absurd (ground arith)
step_within mode m c m' k ks (removed l) f e h = record {
  child = c;
  left = l;
  found = f;
  within = e;
  outcome = h;
}

step_of :
    (mode : DangerousKeyMode) (m m' : Fields) (k : Text) (ks : List Text) (v : Option Value)
    → get_field m k ≡ v
    → (elim (as_record v) as (λ _. Removal) [
      | none ↦ kept
      | some c ↦ prune m k (remove_overlay_path_value mode c ks)
    ])
      ≡ removed m'
    → Step mode m m' k ks
step_of mode m m' k ks none f h = absurd (ground arith)
step_of mode m m' k ks (some null) f h = absurd (ground arith)
step_of mode m m' k ks (some (boolean b)) f h = absurd (ground arith)
step_of mode m m' k ks (some (number n)) f h = absurd (ground arith)
step_of mode m m' k ks (some (string s)) f h = absurd (ground arith)
step_of mode m m' k ks (some (array xs)) f h = absurd (ground arith)
step_of mode m m' k ks (some (object c)) f h = step_within mode m c m' k ks _ f refl h

refuse-ne-removed : (mode : DangerousKeyMode) (m : Fields) → refuse mode ≡ removed m → ⊥
refuse-ne-removed throw m h = ground arith
refuse-ne-removed ignore m h = ground arith

remove_leaf-eq :
    (m m' : Fields) (k : Text) (v : Option Value)
    → remove_leaf m k v ≡ removed m'
    → m' ≡ delete_field m k
remove_leaf-eq m m' k none h = absurd (ground arith)
remove_leaf-eq m m' k (some v) h = ground arith

removed_leaf :
    (mode : DangerousKeyMode) (m m' : Fields) (k : Text)
    → remove_overlay_path_value mode m (k ∷ []) ≡ removed m'
    → m' ≡ delete_field m k
unfolding remove_overlay_path_value
removed_leaf mode m m' k h = elim (Bool-cases (is_dangerous_key k)) [
  | inl e ↦ absurd (refuse-ne-removed mode m' (rw e at h))
  | inr e ↦ remove_leaf-eq m m' k (get_field m k) (rw e at h)
]

get-removed_leaf :
    (m : Fields) (k q : Text)
    → IsPlainFields m
    → get_field (delete_field m k) q ≡ (if k == q then none else get_field m q)
get-removed_leaf m k q p = ground (arith, get-delete_field m k p, get-delete_field_other m k q)

remove-Step :
    (mode : DangerousKeyMode) (m m' : Fields) (k j : Text) (ks : List Text)
    → remove_overlay_path_value mode m (k ∷ j ∷ ks) ≡ removed m'
    → Step mode m m' k (j ∷ ks)
unfolding remove_overlay_path_value
remove-Step mode m m' k j ks h = elim (Bool-cases (is_dangerous_key k)) [
  | inl e ↦ absurd (refuse-ne-removed mode m' (rw e at h))
  | inr e ↦ step_of mode m m' k (j ∷ ks) (get_field m k) refl (rw e at h)
]

-- After a removal that answers true the path holds nothing. The keys of each object are distinct.
pub remove-look :
    (mode : DangerousKeyMode) (m m' : Fields) (k : Text) (ks : List Text)
    → IsPlainFields m
    → remove_overlay_path_value mode m (k ∷ ks) ≡ removed m'
    → look_at m' (k ∷ ks) ≡ none
unfolding look
remove-look mode m m' k [] p h =
    ap (λ w. get_field w k) (removed_leaf mode m m' k h) ∙ get-delete_field m k p
remove-look mode m m' k (j ∷ ks) p h =
    let s : Step mode m m' k (j ∷ ks) = remove-Step mode m m' k j ks h in
    look_same (j ∷ ks) (ground (arith, get-prune m s.left m' k k p s.outcome))
    ∙ look-child_left s.left j ks
    ∙ remove-look mode s.child s.left j ks
        (unfold IsPlain in IsPlain-get m k (object s.child) p s.found) s.within

-- What is read at a path that parts from the one that is removed has not changed.
pub remove-other :
    (mode : DangerousKeyMode) (m m' : Fields) (k : Text) (ks qs : List Text)
    → IsPlainFields m
    → remove_overlay_path_value mode m (k ∷ ks) ≡ removed m'
    → part (k ∷ ks) qs ≡ true
    → look_at m' qs ≡ look_at m qs
unfolding look part
remove-other mode m m' k ks [] p h d = ground arith
remove-other mode m m' k [] (q ∷ qs) p h d =
    look_same qs (
      ap (λ w. get_field w q) (removed_leaf mode m m' k h)
      ∙ get-removed_leaf m k q p
      ∙ ground arith)
remove-other mode m m' k (j ∷ ks) (q ∷ []) p h d =
    let s : Step mode m m' k (j ∷ ks) = remove-Step mode m m' k j ks h in
    ground (arith, get-prune m s.left m' k q p s.outcome)
remove-other mode m m' k (j ∷ ks) (q ∷ r ∷ qs) p h d =
    let s : Step mode m m' k (j ∷ ks) = remove-Step mode m m' k j ks h in
    elim (Bool-cases (k == q)) [
      | inr out ↦ look_same (r ∷ qs) (ground (arith, get-prune m s.left m' k q p s.outcome))
      | inl same ↦
          look_same {v = get_field m' q} {w = child_left s.left} (r ∷ qs)
            (ground (arith, get-prune m s.left m' k q p s.outcome))
          ∙ look-child_left s.left r qs
          ∙ remove-other mode s.child s.left j ks (r ∷ qs)
              (unfold IsPlain in IsPlain-get m k (object s.child) p s.found) s.within (ground arith)
          ∙ look_same (r ∷ qs) (sym s.found ∙ ap (get_field m) (ground arith))
    ]
