-- ===== src/Config/Overlay/Again.antt =====
-- setOverlayPathValue of src/config/overlay-helpers.ts: setting a path again, and when it throws.
use risoluto.Prelude.{
  true, false, ◌≡◌, sym, ◌∙◌, ap, List, [], ◌∷◌, some, Text, text_eq, if◌then◌else◌, any,
  Bool-cases, inl, inr, arith,
}
use risoluto.Config.Values.{Value, object, Fields, end, field, get_field, put_field, as_record}
use risoluto.Config.Overlay.{
  is_dangerous_key, DangerousKeyMode, throws, or_empty, set_overlay_path_value,
}
use risoluto.Config.Overlay.Laws.{child_of, get-put_self, set_step}

put_field_same : (m : Fields) (k : Text) (v : Value) → get_field m k ≡ some v → put_field m k v ≡ m
unfolding get_field put_field
put_field_same end k v h = absurd (ground arith)
put_field_same (field i w m) k v h = ground (arith, put_field_same m k v)

set_stopped :
    (mode : DangerousKeyMode) (m : Fields) (k j : Text) (ks : List Text) (v : Value)
    → is_dangerous_key k ≡ true
    → (set_overlay_path_value mode m (k ∷ j ∷ ks) v).0 ≡ m
unfolding set_overlay_path_value
set_stopped mode m k j ks v h = rw h

-- A value that was set is set again without a change.
pub set-set_overlay_path_value :
    (mode : DangerousKeyMode) (m : Fields) (k : Text) (ks : List Text) (v : Value)
    → (set_overlay_path_value mode (set_overlay_path_value mode m (k ∷ ks) v).0 (k ∷ ks) v).0
      ≡ (set_overlay_path_value mode m (k ∷ ks) v).0
set-set_overlay_path_value mode m k [] v =
    unfold set_overlay_path_value in
    ground (arith, get-put_self m k v, put_field_same (put_field m k v) k v)
set-set_overlay_path_value mode m k (j ∷ ks) v = elim (Bool-cases (is_dangerous_key k)) [
  | inl d ↦
      ap (λ w. (set_overlay_path_value mode w (k ∷ j ∷ ks) v).0) (set_stopped mode m k j ks v d)
  | inr d ↦
      let c : Fields = child_of mode m k (j ∷ ks) v in
      let t : Fields = put_field m k (object c) in
      ap (λ w. (set_overlay_path_value mode w (k ∷ j ∷ ks) v).0) (set_step mode m k j ks v d)
      ∙ set_step mode t k j ks v d
      ∙ ap
          (λ w.
            put_field t k
              (object (set_overlay_path_value mode (or_empty (as_record w)) (j ∷ ks) v).0))
          (get-put_self m k (object c))
      ∙ ap (λ w. put_field t k (object w))
          (set-set_overlay_path_value mode (or_empty (as_record (get_field m k))) j ks v)
      ∙ put_field_same t k (object c) (get-put_self m k (object c))
      ∙ sym (set_step mode m k j ks v d)
]

-- Whether a call throws depends on the path and on the mode alone.
pub set_throws :
    (mode : DangerousKeyMode) (m : Fields) (k : Text) (ks : List Text) (v : Value)
    → (set_overlay_path_value mode m (k ∷ ks) v).1
      ≡ (if any is_dangerous_key (k ∷ ks) then throws mode else false)
unfolding set_overlay_path_value any
set_throws mode m k [] v = ground arith
set_throws mode m k (j ∷ ks) v =
    ground (arith, set_throws mode (or_empty (as_record (get_field m k))) j ks v)
