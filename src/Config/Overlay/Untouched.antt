-- ===== src/Config/Overlay/Untouched.antt =====
-- mergeOverlayMaps of src/config/overlay-helpers.ts: what a patch says nothing about.
use risoluto.Prelude.{
  Bool, false, ◌≡◌, refl, sym, ◌∙◌, ap, List, [], ◌∷◌, Option, none, some, Text, text_eq,
  if◌then◌else◌, is_some, Bool-cases, Option-cases, inl, inr, arith,
}
use risoluto.Config.Values.{
  Value, null, boolean, number, string, array, object, Fields, get_field, as_record, IsPlain,
  IsPlainFields,
}
use risoluto.Config.Overlay.{is_dangerous_key, merge_overlay_maps, merge_value}
use risoluto.Config.Overlay.Laws.{field_of, look, look_at, look_same, look_none}
use risoluto.Config.Overlay.Removals.{IsPlain-get}
use risoluto.Config.Overlay.Merge.{merged_at, unmerged, get_merge, over, merge_value_object}

-- A patch says something about a path: it has a value there, or no record on the way.
unfoldable pub touches : Option Value → List Text → Bool
touches v [] = is_some v
touches v (k ∷ ks) =
    let next = touches (field_of (as_record v) k) ks in
    if is_some (as_record v) then next else is_some v

untouched_look :
    (v : Value) (ks : List Text) → touches (some v) ks ≡ false → look (some v) ks ≡ none
unfolding touches look
untouched_look v [] h = absurd (ground arith)
untouched_look null (k ∷ ks) h = look_none ks
untouched_look (boolean x) (k ∷ ks) h = look_none ks
untouched_look (number n) (k ∷ ks) h = look_none ks
untouched_look (string s) (k ∷ ks) h = look_none ks
untouched_look (array xs) (k ∷ ks) h = look_none ks
untouched_look (object m) (k ∷ ks) h = elim (Option-cases (get_field m k)) [
  | inl e ↦ look_same ks e ∙ look_none ks
  | inr (w, e) ↦ look_same ks e ∙ untouched_look w ks (sym (ap (λ x. touches x ks) e) ∙ h)
]

touches_object :
    (w : Value) (ks : List Text) → touches (some w) ks ≡ false → (m : Fields) × (w ≡ object m)
unfolding touches
touches_object w [] h = absurd (ground arith)
touches_object null (k ∷ ks) h = absurd (ground arith)
touches_object (boolean x) (k ∷ ks) h = absurd (ground arith)
touches_object (number n) (k ∷ ks) h = absurd (ground arith)
touches_object (string s) (k ∷ ks) h = absurd (ground arith)
touches_object (array xs) (k ∷ ks) h = absurd (ground arith)
touches_object (object m) (k ∷ ks) h = (m, refl)

look_no_record :
    (v : Option Value) (k : Text) (ks : List Text) → as_record v ≡ none → look v (k ∷ ks) ≡ none
unfolding look
look_no_record v k ks h = rw h (look_none ks)

look_record :
    (v : Option Value) (k : Text) (ks : List Text) (m : Fields)
    → as_record v ≡ some m
    → look v (k ∷ ks) ≡ look_at m (k ∷ ks)
unfolding look
look_record v k ks m h = rw h

untouched_in :
    (j : Text) (ks : List Text) (vb : Option Value) (f : Option Fields) (p : Fields)
    → as_record vb ≡ f
    → ((b : Fields) → look_at (merge_overlay_maps b p) (j ∷ ks) ≡ look_at b (j ∷ ks))
    → touches (some (object p)) (j ∷ ks) ≡ false
    → look_at (over f p) (j ∷ ks) ≡ look vb (j ∷ ks)
untouched_in j ks vb none p e ih h =
    untouched_look (object p) (j ∷ ks) h ∙ sym (look_no_record vb j ks e)
untouched_in j ks vb (some b) p e ih h = ih b ∙ sym (look_record vb j ks b e)

untouched_value :
    (ks : List Text) (vb : Option Value) (w : Value)
    → ((b p : Fields)
        → IsPlainFields p
        → touches (some (object p)) ks ≡ false
        → look_at (merge_overlay_maps b p) ks ≡ look_at b ks)
    → IsPlain w
    → touches (some w) ks ≡ false
    → look (some (merge_value vb w)) ks ≡ look vb ks
unfolding IsPlain
untouched_value [] vb w ih q h = absurd (unfold touches in ground arith)
untouched_value (j ∷ ks) vb w ih q h =
    let (p, e) = touches_object w (j ∷ ks) h in
    let h' : touches (some (object p)) (j ∷ ks) ≡ false =
      ap (λ x. touches (some x) (j ∷ ks)) (sym e) ∙ h in
    look_same (j ∷ ks) (ap some (ap (merge_value vb) e ∙ merge_value_object vb p))
    ∙ untouched_in j ks vb (as_record vb) p refl (λ b. ih b p (rw e at q) h') h'

-- What is read at a path that a patch says nothing about does not change in the merge.
pub merge-untouched :
    (ks : List Text) (b p : Fields)
    → IsPlainFields p
    → touches (some (object p)) ks ≡ false
    → look_at (merge_overlay_maps b p) ks ≡ look_at b ks
unfolding look touches
merge-untouched [] b p q h = absurd (ground arith)
merge-untouched (k ∷ ks) b p q h = elim (Option-cases (get_field p k)) [
  | inl e ↦ look_same ks (
      get_merge b p k q
      ∙ ap (merged_at (is_dangerous_key k) (get_field b k)) e
      ∙ unmerged (is_dangerous_key k) (get_field b k))
  | inr (w, e) ↦ elim (Bool-cases (is_dangerous_key k)) [
    | inl d ↦
        look_same ks (get_merge b p k q ∙ ap (λ x. merged_at x (get_field b k) (get_field p k)) d)
    | inr d ↦
        look_same {v = get_field (merge_overlay_maps b p) k}
          {w = some (merge_value (get_field b k) w)} ks (ground (arith, get_merge b p k q))
        ∙ untouched_value ks (get_field b k) w (merge-untouched ks) (IsPlain-get p k w q e)
            (sym (ap (λ x. touches x ks) e) ∙ h)
  ]
]
