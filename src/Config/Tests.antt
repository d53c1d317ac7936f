-- ===== src/Config/Tests.antt =====
-- Runs of the overlay of the configuration and of its store.
use risoluto.Prelude.{
  Bool, true, false, ◌≡◌, refl, List, [], ◌∷◌, none, some, Text, text_eq, Text-discrete, codes, any,
  leb, ℕ_discrete, trim, keep, length, arith,
}
use risoluto.Config.Values.{
  Value, number, object, Fields, end, field, get_field, put_field, delete_field, as_record, IsPlain,
  IsPlainFields,
}
use risoluto.Config.Overlay.{
  is_dangerous_key, throw, set_overlay_path_value, remove_overlay_path_value, removed,
  merge_overlay_maps,
}
use risoluto.Config.Overlay.Laws.{look_at, part, is_safe, remove-set_overlay_path_value}
use risoluto.Config.Overlay.Untouched.{touches}
use risoluto.Config.Overlay.Updates.{
  set_overlay_path_value_lem, remove_overlay_path_value_lem, merge_overlay_maps_lem,
}
use risoluto.Config.Store.{
  OverlayStore, ok, threw, write_failed, set, written, enoent, mutate, commit, is_deep_equal,
  stable_stringify, sort_for_stable_stringify, insert_field, normalize_path_expression, split_dot,
}
use risoluto.Config.Store.Laws.{IsWritten, mutate-IsWritten, set-lost}

abbrev agents : Text
agents = codes "agents"

abbrev limit : Text
limit = codes "limit"

abbrev port : Text
port = codes "port"

abbrev tree : Fields
tree = field agents (object (field limit (number 3) end)) end

abbrev patch : Fields
patch = field agents (object (field port (number 80) end)) end

abbrev both : Fields
both = field agents (object (field limit (number 3) (field port (number 80) end))) end

merged_both : merge_overlay_maps tree patch ≡ both
unfolding merge_overlay_maps is_dangerous_key get_field put_field Text-discrete
merged_both = refl

abbrev Plain-tree : IsPlainFields tree
unfolding IsPlain get_field
Plain-tree = (refl, (refl, tt, tt), tt)

removed_port : remove_overlay_path_value throw both (agents ∷ port ∷ []) ≡ removed tree
unfolding remove_overlay_path_value is_dangerous_key get_field put_field delete_field Text-discrete
removed_port = refl

removed_all : remove_overlay_path_value throw tree (agents ∷ limit ∷ []) ≡ removed end
unfolding remove_overlay_path_value is_dangerous_key get_field put_field delete_field Text-discrete
removed_all = refl

set_overlay_path_value_lem_example :
    let m' = (set_overlay_path_value throw tree (agents ∷ port ∷ []) (number 80)).0 in
    (look_at m' (agents ∷ port ∷ []) ≡ some (number 80))
    × ((qs : List Text) → part (agents ∷ port ∷ []) qs ≡ true → look_at m' qs ≡ look_at tree qs)
set_overlay_path_value_lem_example =
    set_overlay_path_value_lem throw tree agents (port ∷ []) (number 80)
      (unfold is_dangerous_key any Text-discrete in refl)

remove_overlay_path_value_lem_example :
    (look_at end (agents ∷ limit ∷ []) ≡ none)
    × ((qs : List Text) → part (agents ∷ limit ∷ []) qs ≡ true → look_at end qs ≡ look_at tree qs)
remove_overlay_path_value_lem_example =
    remove_overlay_path_value_lem throw tree end agents (limit ∷ []) Plain-tree removed_all

abbrev Plain-patch : IsPlainFields patch
unfolding IsPlain get_field
Plain-patch = (refl, (refl, tt, tt), tt)

merge_overlay_maps_lem_example :
    ((ks : List Text) (leaf : Value)
      → is_safe ks ≡ true
      → look_at patch ks ≡ some leaf
      → as_record (some leaf) ≡ none
      → look_at (merge_overlay_maps tree patch) ks ≡ some leaf)
    × ((ks : List Text)
        → touches (some (object patch)) ks ≡ false
        → look_at (merge_overlay_maps tree patch) ks ≡ look_at tree ks)
merge_overlay_maps_lem_example = merge_overlay_maps_lem tree patch Plain-patch

remove-set_overlay_path_value_example :
    remove_overlay_path_value throw
      (set_overlay_path_value throw tree (port ∷ limit ∷ []) (number 1)).0
      (port ∷ limit ∷ [])
    ≡ removed tree
remove-set_overlay_path_value_example =
    remove-set_overlay_path_value throw tree port (limit ∷ []) (number 1)
      (unfold is_dangerous_key any Text-discrete in refl) (unfold get_field Text-discrete in refl)

-- Keys by their length, and a value by the names it starts with: enough for the runs below.
abbrev shorter : Text → Text → Bool
shorter a b = leb (length a) (length b)

abbrev first_name : Value → Text
first_name (object (field k v rest)) = k
first_name _ = []

abbrev store : OverlayStore
store = record { overlay = end; file = some end; notified = 0; persist_sequence = 0 }

set_written : (mutate shorter first_name store (set port (number 1)) enoent written).1 ≡ ok true
unfolding mutate normalize_path_expression keep split_dot ℕ_discrete trim set_overlay_path_value
    is_dangerous_key Text-discrete commit is_deep_equal stable_stringify sort_for_stable_stringify
    put_field insert_field
set_written = refl

set_fails :
    (mutate shorter first_name store (set port (number 1)) enoent enoent).1 ≡ threw write_failed
unfolding mutate normalize_path_expression keep split_dot ℕ_discrete trim set_overlay_path_value
    is_dangerous_key Text-discrete commit is_deep_equal stable_stringify sort_for_stable_stringify
    put_field insert_field
set_fails = refl

mutate-IsWritten_example :
    IsWritten (mutate shorter first_name store (set port (number 1)) enoent written).0
mutate-IsWritten_example =
    mutate-IsWritten shorter first_name store (set port (number 1)) enoent written refl
      (λ e. ground (arith, set_written))

set-lost_example :
    let s' = (mutate shorter first_name store (set port (number 1)) enoent enoent).0 in
    (s'.file ≡ some end)
    × (mutate shorter first_name s' (set port (number 1)) written written ≡ (s', ok false))
set-lost_example =
    set-lost shorter first_name store port (number 1) enoent enoent written written set_fails
