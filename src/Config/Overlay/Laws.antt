-- ===== src/Config/Overlay/Laws.antt =====
-- The paths and the merge of src/config/overlay-helpers.ts, against reading the tree at a path.
use risoluto.Prelude.{
  Bool, true, false, ◌||◌, ◌≡◌, refl, ◌∙◌, ap, List, [], ◌∷◌, Option, none, some, Text, text_eq,
  if◌then◌else◌, ◌==◌, any, not, Bool-cases, inl, inr, arith,
}
use risoluto.Config.Values.{
  Value, null, boolean, number, string, array, object, Fields, end, get_field, put_field, as_record,
  get-put_field, delete-put_field,
}
use risoluto.Config.Overlay.{
  is_dangerous_key, DangerousKeyMode, or_empty, set_overlay_path_value, removed, prune,
  remove_overlay_path_value,
}

abbrev pub field_of : Option Fields → Text → Option Value
field_of none k = none
field_of (some m) k = get_field m k

-- The value at a path: every step but the last goes through a record.
unfoldable pub look : Option Value → List Text → Option Value
look v [] = v
look v (k ∷ ks) = look (field_of (as_record v) k) ks

abbrev pub look_at : Fields → List Text → Option Value
look_at m ks = look (some (object m)) ks

-- Two paths part at some step, neither being a beginning of the other.
unfoldable pub part : List Text → List Text → Bool
part [] qs = false
part (k ∷ ks) [] = false
part (k ∷ ks) (q ∷ qs) = if k == q then part ks qs else true

abbrev pub is_safe : List Text → Bool
is_safe ks = not (any is_dangerous_key ks)

pub look_none : (ks : List Text) → look none ks ≡ none
unfolding look
look_none [] = refl
look_none (k ∷ ks) = look_none ks

look-or_empty :
    (v : Option Value) (k : Text) (ks : List Text)
    → look_at (or_empty (as_record v)) (k ∷ ks) ≡ look v (k ∷ ks)
unfolding look get_field
look-or_empty none k ks = refl
look-or_empty (some null) k ks = refl
look-or_empty (some (boolean b)) k ks = refl
look-or_empty (some (number n)) k ks = refl
look-or_empty (some (string s)) k ks = refl
look-or_empty (some (array xs)) k ks = refl
look-or_empty (some (object m)) k ks = refl

abbrev pub child_of : DangerousKeyMode → Fields → Text → List Text → Value → Fields
child_of mode m k ks v = (set_overlay_path_value mode (or_empty (as_record (get_field m k))) ks v).0

-- One step of a path that goes on.
get-set_step :
    (mode : DangerousKeyMode) (m : Fields) (k j : Text) (ks : List Text) (v : Value) (q : Text)
    → get_field (set_overlay_path_value mode m (k ∷ j ∷ ks) v).0 q ≡ (
        if is_dangerous_key k
        then get_field m q
        else if k == q
        then some (object (child_of mode m k (j ∷ ks) v))
        else get_field m q)
unfolding set_overlay_path_value
get-set_step mode m k j ks v q =
    ground (arith, get-put_field m k q (object (child_of mode m k (j ∷ ks) v)))

get-set_leaf :
    (mode : DangerousKeyMode) (m : Fields) (k : Text) (v : Value) (q : Text)
    → get_field (set_overlay_path_value mode m (k ∷ []) v).0 q
      ≡ (if is_dangerous_key k then get_field m q else if k == q then some v else get_field m q)
unfolding set_overlay_path_value
get-set_leaf mode m k v q = ground (arith, get-put_field m k q v)

-- A value that was set at a path without a dangerous key is read there.
pub set_overlay_path_value-look :
    (mode : DangerousKeyMode) (m : Fields) (k : Text) (ks : List Text) (v : Value)
    → is_safe (k ∷ ks) ≡ true
    → look_at (set_overlay_path_value mode m (k ∷ ks) v).0 (k ∷ ks) ≡ some v
unfolding look any
set_overlay_path_value-look mode m k [] v h = ground (arith, get-set_leaf mode m k v k)
set_overlay_path_value-look mode m k (j ∷ ks) v h =
    let step : get_field (set_overlay_path_value mode m (k ∷ j ∷ ks) v).0 k
        ≡ some (object (child_of mode m k (j ∷ ks) v)) =
      ground (arith, get-set_step mode m k j ks v k) in
    ap (λ w. look w (j ∷ ks)) step
    ∙ set_overlay_path_value-look mode (or_empty (as_record (get_field m k))) j ks v (ground arith)

pub look_same : {v w : Option Value} (ks : List Text) → v ≡ w → look v ks ≡ look w ks
look_same ks e = ap (λ v. look v ks) e

-- What is read at a path that parts from the one that is set does not change.
pub set_overlay_path_value-other :
    (mode : DangerousKeyMode) (m : Fields) (k : Text) (ks qs : List Text) (v : Value)
    → part (k ∷ ks) qs ≡ true
    → look_at (set_overlay_path_value mode m (k ∷ ks) v).0 qs ≡ look_at m qs
unfolding look part
set_overlay_path_value-other mode m k ks [] v h = ground arith
set_overlay_path_value-other mode m k [] (q ∷ qs) v h =
    look_same qs (ground (arith, get-set_leaf mode m k v q))
set_overlay_path_value-other mode m k (j ∷ ks) (q ∷ []) v h =
    ground (arith, get-set_step mode m k j ks v q)
set_overlay_path_value-other mode m k (j ∷ ks) (q ∷ r ∷ qs) v h =
    elim (Bool-cases (is_dangerous_key k || not (k == q))) [
      | inl out ↦ look_same (r ∷ qs) (ground (arith, get-set_step mode m k j ks v q))
      | inr through ↦
          look_same {v = get_field (set_overlay_path_value mode m (k ∷ j ∷ ks) v).0 q}
            {w = some (object (child_of mode m k (j ∷ ks) v))} (r ∷ qs)
            (ground (arith, get-set_step mode m k j ks v q))
          ∙ set_overlay_path_value-other mode (or_empty (as_record (get_field m k))) j ks (r ∷ qs) v
              (ground arith)
          ∙ look-or_empty (get_field m k) r qs
          ∙ look_same (r ∷ qs) (ap (get_field m) (ground arith))
    ]

get_end : (k : Text) → get_field end k ≡ none
unfolding get_field
get_end k = refl

pub get-put_self : (m : Fields) (k : Text) (v : Value) → get_field (put_field m k v) k ≡ some v
get-put_self m k v = ground (arith, get-put_field m k k v)

pub safe_head : (k : Text) (ks : List Text) → is_safe (k ∷ ks) ≡ true → is_dangerous_key k ≡ false
unfolding any
safe_head k ks h = ground arith

pub safe_tail : (k : Text) (ks : List Text) → is_safe (k ∷ ks) ≡ true → is_safe ks ≡ true
unfolding any
safe_tail k ks h = ground arith

pub set_step :
    (mode : DangerousKeyMode) (m : Fields) (k j : Text) (ks : List Text) (v : Value)
    → is_dangerous_key k ≡ false
    → (set_overlay_path_value mode m (k ∷ j ∷ ks) v).0
      ≡ put_field m k (object (child_of mode m k (j ∷ ks) v))
unfolding set_overlay_path_value
set_step mode m k j ks v h = rw h

remove_step :
    (mode : DangerousKeyMode) (m c : Fields) (k j : Text) (ks : List Text)
    → is_dangerous_key k ≡ false
    → get_field m k ≡ some (object c)
    → remove_overlay_path_value mode m (k ∷ j ∷ ks)
      ≡ prune m k (remove_overlay_path_value mode c (j ∷ ks))
unfolding remove_overlay_path_value
remove_step mode m c k j ks h e = rw (h, e)

-- A path that starts at a free key is set and removed again without a trace.
pub remove-set_overlay_path_value :
    (mode : DangerousKeyMode) (m : Fields) (k : Text) (ks : List Text) (v : Value)
    → is_safe (k ∷ ks) ≡ true
    → get_field m k ≡ none
    → remove_overlay_path_value mode (set_overlay_path_value mode m (k ∷ ks) v).0 (k ∷ ks)
      ≡ removed m
remove-set_overlay_path_value mode m k [] v h free =
    unfold remove_overlay_path_value set_overlay_path_value in
    rw (safe_head k [] h, get-put_self) (ap removed (delete-put_field m k v free))
remove-set_overlay_path_value mode m k (j ∷ ks) v h free =
    let c : Fields = child_of mode m k (j ∷ ks) v in
    let t : Fields = put_field m k (object c) in
    ap (λ w. remove_overlay_path_value mode w (k ∷ j ∷ ks))
      (set_step mode m k j ks v (safe_head k (j ∷ ks) h))
    ∙ remove_step mode t c k j ks (safe_head k (j ∷ ks) h) (get-put_self m k (object c))
    ∙ ap (prune t k) (
        ap
          (λ w.
            remove_overlay_path_value mode
              (set_overlay_path_value mode (or_empty (as_record w)) (j ∷ ks) v).0 (j ∷ ks))
          free
        ∙ remove-set_overlay_path_value mode end j ks v (safe_tail k (j ∷ ks) h) (get_end j))
    ∙ ap removed (delete-put_field m k (object c) free)
