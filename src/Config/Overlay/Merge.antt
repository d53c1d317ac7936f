-- ===== src/Config/Overlay/Merge.antt =====
-- mergeOverlayMaps of src/config/overlay-helpers.ts: what is read in a tree that was patched.
use risoluto.Prelude.{
  Bool, true, false, ◌≡◌, refl, sym, ◌∙◌, ap, List, [], ◌∷◌, Option, none, some, Text, text_eq,
  if◌then◌else◌, ◌==◌, ==_iff, Bool-cases, Option-cases, inl, inr, arith,
}
use risoluto.Config.Values.{
  Value, null, boolean, number, string, array, object, Fields, end, field, get_field, put_field,
  as_record, IsPlain, IsPlainFields, get-put_field,
}
use risoluto.Config.Overlay.{is_dangerous_key, merge_overlay_maps, merge_value}
use risoluto.Config.Overlay.Laws.{look, is_safe, look_same, look_none, safe_head, safe_tail}
use risoluto.Config.Overlay.Removals.{IsPlain-get}

-- What a key holds, by what the base and the patch hold there.
abbrev pub merged_at : Bool → Option Value → Option Value → Option Value
merged_at true base patch = base
merged_at false base none = base
merged_at false base (some v) = some (merge_value base v)

abbrev stepped : Fields → Text → Value → Fields
stepped b j v = if is_dangerous_key j then b else put_field b j (merge_value (get_field b j) v)

pub unmerged : (d : Bool) (base : Option Value) → merged_at d base none ≡ base
unmerged true base = refl
unmerged false base = refl

merge_step :
    (b p : Fields) (j : Text) (v : Value)
    → merge_overlay_maps b (field j v p) ≡ merge_overlay_maps (stepped b j v) p
unfolding merge_overlay_maps
merge_step b p j v = refl

stepped_self :
    (b p : Fields) (j : Text) (v : Value)
    → get_field p j ≡ none
    → merged_at (is_dangerous_key j) (get_field (stepped b j v) j) (get_field p j)
      ≡ merged_at (is_dangerous_key j) (get_field b j) (if j == j then some v else get_field p j)
stepped_self b p j v h = ground (arith, get-put_field b j j (merge_value (get_field b j) v))

-- One entry of a patch, as it is seen at one key; no later entry has its key.
stepped-merged_at :
    (b p : Fields) (j : Text) (v : Value) (k : Text)
    → get_field p j ≡ none
    → merged_at (is_dangerous_key k) (get_field (stepped b j v) k) (get_field p k)
      ≡ merged_at (is_dangerous_key k) (get_field b k) (if j == k then some v else get_field p k)
stepped-merged_at b p j v k h = elim (Bool-cases (j == k)) [
  | inl e ↦ rw (sym ((==_iff j k).0 e)) (stepped_self b p j v h)
  | inr e ↦ ground (arith, get-put_field b j k (merge_value (get_field b j) v))
]

pub get_merge :
    (b p : Fields) (k : Text)
    → IsPlainFields p
    → get_field (merge_overlay_maps b p) k
      ≡ merged_at (is_dangerous_key k) (get_field b k) (get_field p k)
get_merge b end k h = unfold merge_overlay_maps get_field in ground arith
get_merge b (field j v p) k h =
    ap (λ w. get_field w k) (merge_step b p j v)
    ∙ get_merge (stepped b j v) p k (unfold IsPlain in h.2)
    ∙ unfold get_field in stepped-merged_at b p j v k (unfold IsPlain in h.0)

merge_value_leaf : (b : Option Value) (v : Value) → as_record (some v) ≡ none → merge_value b v ≡ v
unfolding merge_overlay_maps
merge_value_leaf b null h = refl
merge_value_leaf b (boolean x) h = refl
merge_value_leaf b (number n) h = refl
merge_value_leaf b (string s) h = refl
merge_value_leaf b (array xs) h = refl
merge_value_leaf b (object m) h = absurd (ground arith)

abbrev pub over : Option Fields → Fields → Fields
over none patch = patch
over (some base) patch = merge_overlay_maps base patch

pub merge_value_object :
    (b : Option Value) (patch : Fields)
    → merge_value b (object patch) ≡ object (over (as_record b) patch)
unfolding merge_overlay_maps
merge_value_object none patch = refl
merge_value_object (some null) patch = refl
merge_value_object (some (boolean x)) patch = refl
merge_value_object (some (number n)) patch = refl
merge_value_object (some (string s)) patch = refl
merge_value_object (some (array xs)) patch = refl
merge_value_object (some (object m)) patch = refl

look_object :
    (v : Value) (k : Text) (ks : List Text) (leaf : Value)
    → look (some v) (k ∷ ks) ≡ some leaf
    → (m : Fields) × (v ≡ object m)
unfolding look
look_object null k ks leaf h = absurd (ground (arith, look_none ks))
look_object (boolean x) k ks leaf h = absurd (ground (arith, look_none ks))
look_object (number n) k ks leaf h = absurd (ground (arith, look_none ks))
look_object (string s) k ks leaf h = absurd (ground (arith, look_none ks))
look_object (array xs) k ks leaf h = absurd (ground (arith, look_none ks))
look_object (object m) k ks leaf h = (m, refl)

merge_wins_in :
    (ks : List Text) (k : Text) (f : Option Fields) (patch : Fields) (leaf : Value)
    → ((b : Option Value) (v : Value)
        → IsPlain v
        → look (some v) ks ≡ some leaf
        → look (some (merge_value b v)) ks ≡ some leaf)
    → IsPlainFields patch
    → is_dangerous_key k ≡ false
    → look (get_field patch k) ks ≡ some leaf
    → look (get_field (over f patch) k) ks ≡ some leaf
merge_wins_in ks k none patch leaf ih p s h = h
merge_wins_in ks k (some base) patch leaf ih p s h = elim (Option-cases (get_field patch k)) [
  | inl e ↦ absurd (ground (arith, look_none ks))
  | inr (w, e) ↦
      look_same {v = get_field (merge_overlay_maps base patch) k}
        {w = some (merge_value (get_field base k) w)} ks (ground (arith, get_merge base patch k p))
      ∙ ih (get_field base k) w (IsPlain-get patch k w p e) (sym (look_same ks e) ∙ h)
]

-- The value of a patch at a path without a dangerous key, where it is no record, is the value after
-- the merge. The keys of each object of the patch are distinct.
pub merge-wins :
    (ks : List Text) (b : Option Value) (v leaf : Value)
    → IsPlain v
    → is_safe ks ≡ true
    → look (some v) ks ≡ some leaf
    → as_record (some leaf) ≡ none
    → look (some (merge_value b v)) ks ≡ some leaf
unfolding look IsPlain
merge-wins [] b v leaf p s h l = ground (arith, merge_value_leaf b v)
merge-wins (k ∷ ks) b v leaf p s h l =
    let o : (m : Fields) × (v ≡ object m) = look_object v k ks leaf h in
    look_same (k ∷ ks) (ap some (ap (merge_value b) o.1 ∙ merge_value_object b o.0))
    ∙ merge_wins_in ks k (as_record b) o.0 leaf
        (λ c w q r. merge-wins ks c w leaf q (safe_tail k ks s) r l) (rw o.1 at p)
        (safe_head k ks s) (sym (look_same (k ∷ ks) (ap some o.1)) ∙ h)
