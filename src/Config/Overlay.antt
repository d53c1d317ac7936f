-- ===== src/Config/Overlay.antt =====
-- src/config/overlay-helpers.ts: paths into the tree of overrides, and the merge of a patch.
pub mod Laws
pub mod Again
pub mod Removals
pub mod Merge
pub mod Untouched
pub mod Updates
use risoluto.Prelude.{
  Bool, true, false, ◌||◌, List, [], ◌∷◌, Option, none, some, map, Text, text_eq, codes, trim,
  is_empty, keep, not, if◌then◌else◌, ◌==◌,
}
use risoluto.Config.Values.{
  Value, null, boolean, number, string, array, object, Items, Fields, end, field, get_field,
  put_field, delete_field, as_record, is_end,
}

unfoldable pub is_dangerous_key : Text → Bool
is_dangerous_key key =
    key == codes "__proto__" || key == codes "constructor" || key == codes "prototype"

unfoldable mutual
  pub merge_overlay_maps : Fields → Fields → Fields
  merge_overlay_maps output end = output
  merge_overlay_maps output (field key patch_value patch) =
      merge_overlay_maps
        (if is_dangerous_key key
          then output
          else put_field output key (merge_value (get_field output key) patch_value))
        patch

  -- The value that a key takes: two records are merged, anything else is replaced.
  pub merge_value : Option Value → Value → Value
  merge_value (some (object base)) (object patch) = object (merge_overlay_maps base patch)
  merge_value (some null) (object patch) = object patch
  merge_value (some (boolean b)) (object patch) = object patch
  merge_value (some (number n)) (object patch) = object patch
  merge_value (some (string s)) (object patch) = object patch
  merge_value (some (array xs)) (object patch) = object patch
  merge_value none (object patch) = object patch
  merge_value base null = null
  merge_value base (boolean b) = boolean b
  merge_value base (number n) = number n
  merge_value base (string s) = string s
  merge_value base (array xs) = array xs

-- `options.dangerousKeyMode`
pub data DangerousKeyMode : Type 0 where
  throw ignore : DangerousKeyMode

abbrev pub throws : DangerousKeyMode → Bool
throws throw = true
throws ignore = false

abbrev pub or_empty : Option Fields → Fields
or_empty none = end
or_empty (some fields) = fields

-- The target as it is left, and whether the call threw. An empty path has the leaf `undefined`.
unfoldable pub set_overlay_path_value :
    DangerousKeyMode → Fields → List Text → Value → Fields × Bool
set_overlay_path_value mode target [] value = (put_field target (codes "undefined") value, false)
set_overlay_path_value mode target (key ∷ []) value =
    if is_dangerous_key key then (target, throws mode) else (put_field target key value, false)
set_overlay_path_value mode target (key ∷ next ∷ segments) value =
    let child : Fields × Bool =
      set_overlay_path_value mode (or_empty (as_record (get_field target key))) (next ∷ segments)
        value in
    if is_dangerous_key key
    then (target, throws mode)
    else (put_field target key (object child.0), child.1)

-- What a removal did: it threw, it answered false, or it answered true and left this target.
pub data Removal : Type 0 where
  refused : Removal
  kept : Removal
  removed : Fields → Removal

abbrev pub refuse : DangerousKeyMode → Removal
refuse throw = refused
refuse ignore = kept

-- The child is written back, or deleted when it was emptied.
abbrev pub prune : Fields → Text → Removal → Removal
prune target key refused = refused
prune target key kept = kept
prune target key (removed end) = removed (delete_field target key)
prune target key (removed (field k v rest)) =
    removed (put_field target key (object (field k v rest)))

abbrev pub remove_leaf : Fields → Text → Option Value → Removal
remove_leaf target key none = kept
remove_leaf target key (some v) = removed (delete_field target key)

unfoldable pub remove_overlay_path_value : DangerousKeyMode → Fields → List Text → Removal
remove_overlay_path_value mode target [] = kept
remove_overlay_path_value mode target (head ∷ []) =
    if is_dangerous_key head then refuse mode else remove_leaf target head (get_field target head)
remove_overlay_path_value mode target (head ∷ next ∷ tail) =
    let child : Removal = elim (as_record (get_field target head)) [
      | none ↦ kept
      | some fields ↦ prune target head (remove_overlay_path_value mode fields (next ∷ tail))
    ] in
    if is_dangerous_key head then refuse mode else child
