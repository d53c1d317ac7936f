-- ===== src/Config/Overlay/Updates.antt =====
-- The updates of src/config/overlay-helpers.ts as updates of a map from paths to values.
use risoluto.Prelude.{true, false, ◌≡◌, List, ◌∷◌, none, some, Text}
use risoluto.Config.Values.{Value, object, Fields, as_record, IsPlain, IsPlainFields}
use risoluto.Config.Overlay.{
  DangerousKeyMode, set_overlay_path_value, remove_overlay_path_value, removed, merge_overlay_maps,
}
use risoluto.Config.Overlay.Laws.{
  look_at, part, is_safe, set_overlay_path_value-look, set_overlay_path_value-other,
}
use risoluto.Config.Overlay.Removals.{remove-look, remove-other}
use risoluto.Config.Overlay.Merge.{merge-wins}
use risoluto.Config.Overlay.Untouched.{touches, merge-untouched}

-- After a value is set at a path without a dangerous key it is read there, and what is read at a
-- path that parts from it has not changed.
pub set_overlay_path_value_lem :
    (mode : DangerousKeyMode) (m : Fields) (k : Text) (ks : List Text) (v : Value)
    → is_safe (k ∷ ks) ≡ true
    → let m' = (set_overlay_path_value mode m (k ∷ ks) v).0 in
      (look_at m' (k ∷ ks) ≡ some v)
      × ((qs : List Text) → part (k ∷ ks) qs ≡ true → look_at m' qs ≡ look_at m qs)
set_overlay_path_value_lem mode m k ks v h = (
  set_overlay_path_value-look mode m k ks v h,
  λ qs d. set_overlay_path_value-other mode m k ks qs v d,
)

-- After a removal that answers true nothing is read at its path, and what is read at a path that
-- parts from it has not changed. The keys of each object are distinct.
pub remove_overlay_path_value_lem :
    (mode : DangerousKeyMode) (m m' : Fields) (k : Text) (ks : List Text)
    → IsPlainFields m
    → remove_overlay_path_value mode m (k ∷ ks) ≡ removed m'
    → (look_at m' (k ∷ ks) ≡ none)
      × ((qs : List Text) → part (k ∷ ks) qs ≡ true → look_at m' qs ≡ look_at m qs)
remove_overlay_path_value_lem mode m m' k ks p h =
    (remove-look mode m m' k ks p h, λ qs d. remove-other mode m m' k ks qs p h d)

-- A merge overrides the base by the patch, path by path: where the patch holds a value that is no
-- record, at a path without a dangerous key, this value is read after the merge, and where the patch
-- says nothing about a path, what the base holds is read. The keys of each object of the patch are
-- distinct.
pub merge_overlay_maps_lem :
    (base patch : Fields)
    → IsPlainFields patch
    → ((ks : List Text) (leaf : Value)
        → is_safe ks ≡ true
        → look_at patch ks ≡ some leaf
        → as_record (some leaf) ≡ none
        → look_at (merge_overlay_maps base patch) ks ≡ some leaf)
      × ((ks : List Text)
          → touches (some (object patch)) ks ≡ false
          → look_at (merge_overlay_maps base patch) ks ≡ look_at base ks)
merge_overlay_maps_lem base patch p = (
  λ ks leaf s h l.
      unfold merge_overlay_maps IsPlain in
      merge-wins ks (some (object base)) (object patch) leaf p s h l,
  λ ks h. merge-untouched ks base patch p h,
)
