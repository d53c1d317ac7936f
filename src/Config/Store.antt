-- ===== src/Config/Store.antt =====
-- src/config/overlay.ts: the store of overrides with its file. A write of the file has its outcome
-- from outside; mutations run one after another, as the chain of promises makes them.
pub mod Laws
use risoluto.Prelude.{
  ℕ, ◌+◌, Bool, true, false, not, List, [], ◌∷◌, Option, none, some, Text, text_eq, trim, is_empty,
  keep, map, if◌then◌else◌, ◌==◌, nat_eq,
}
use risoluto.Config.Values.{
  Value, null, boolean, number, string, array, object, Items, nil, cons, Fields, end, field,
  as_record,
}
use risoluto.Config.Overlay.{
  merge_overlay_maps, set_overlay_path_value, remove_overlay_path_value, Removal, refused, kept,
  removed, throw,
}

abbrev pub into_first : ℕ → List Text → List Text
into_first c [] = (c ∷ []) ∷ []
into_first c (t ∷ ts) = (c ∷ t) ∷ ts

-- `text.split(".")`
unfoldable pub split_dot : Text → List Text
split_dot [] = [] ∷ []
split_dot (c ∷ s) = let rest = split_dot s in if c == 46 then [] ∷ rest else into_first c rest

unfoldable pub normalize_path_expression : Text → List Text
normalize_path_expression path_expression =
    keep (λ segment. not (is_empty segment)) (map trim (split_dot path_expression))

-- How a write to the temporary file and its renaming ended.
pub data WriteOutcome : Type 0 where
  written enoent failed : WriteOutcome

-- The two rounds of `persist`: whether the file was written.
abbrev pub persist : WriteOutcome → WriteOutcome → Bool
persist written second = true
persist failed second = false
persist enoent written = true
persist enoent enoent = false
persist enoent failed = false

-- The rounds it took, each of which takes a number for its temporary file.
abbrev pub rounds : WriteOutcome → ℕ
rounds written = 1
rounds failed = 1
rounds enoent = 2

pub record OverlayStore : Type 0 where
  pub overlay : Fields
  pub file : Option Fields
  pub notified : ℕ
  pub persist_sequence : ℕ

pub data OverlayError : Type 0 where
  no_segment dangerous_key write_failed : OverlayError

pub data Answer : Type 0 where
  ok : Bool → Answer
  threw : OverlayError → Answer

pub data Mutation : Type 0 where
  replace : Fields → Mutation
  apply_patch : Fields → Mutation
  set : Text → Value → Mutation
  remove : Text → Mutation

-- What `reloadFromDisk` finds: no file, one that cannot be read or parsed, or its value.
pub data ReadOutcome : Type 0 where
  missing unreadable : ReadOutcome
  parsed : Value → ReadOutcome

-- `locale_le` is `left.localeCompare(right) <= 0`, `stringify` is `JSON.stringify`.
module _ (locale_le : Text → Text → Bool) (stringify : Value → Text) where
  unfoldable pub insert_field : Text → Value → Fields → Fields
  insert_field key value end = field key value end
  insert_field key value (field k v rest) =
      if locale_le key k
      then field key value (field k v rest)
      else field k v (insert_field key value rest)

  unfoldable mutual
    pub sort_for_stable_stringify : Value → Value
    sort_for_stable_stringify null = null
    sort_for_stable_stringify (boolean b) = boolean b
    sort_for_stable_stringify (number n) = number n
    sort_for_stable_stringify (string s) = string s
    sort_for_stable_stringify (array xs) = array (sort_items xs)
    sort_for_stable_stringify (object fields) = object (sort_fields fields)

    pub sort_items : Items → Items
    sort_items nil = nil
    sort_items (cons x xs) = cons (sort_for_stable_stringify x) (sort_items xs)

    pub sort_fields : Fields → Fields
    sort_fields end = end
    sort_fields (field k v rest) = insert_field k (sort_for_stable_stringify v) (sort_fields rest)

  unfoldable pub stable_stringify : Value → Text
  stable_stringify value = stringify (sort_for_stable_stringify value)

  unfoldable pub is_deep_equal : Fields → Fields → Bool
  is_deep_equal left right = stable_stringify (object left) == stable_stringify (object right)

  -- The overlay in memory is replaced before the file is written.
  unfoldable pub commit :
      OverlayStore → Fields → WriteOutcome → WriteOutcome → OverlayStore × Answer
  commit s next first second =
      let s' = record s { overlay = next; persist_sequence = s.persist_sequence + rounds first } in
      if is_deep_equal next s.overlay
      then (s, ok false)
      else if persist first second
      then (record s' { file = some next; notified = s.notified + 1 }, ok true)
      else (s', threw write_failed)

  abbrev pub set_segments :
      OverlayStore → List Text → Value → WriteOutcome → WriteOutcome → OverlayStore × Answer
  set_segments s [] value first second = (s, threw no_segment)
  set_segments s (k ∷ ks) value first second =
      let next = set_overlay_path_value throw s.overlay (k ∷ ks) value in
      if next.1 then (s, threw dangerous_key) else commit s next.0 first second

  -- `delete` answers true whatever the commit answers.
  abbrev pub answer_true : OverlayStore × Answer → OverlayStore × Answer
  answer_true (s, ok b) = (s, ok true)
  answer_true (s, threw e) = (s, threw e)

  abbrev pub commit_removal :
      OverlayStore → Removal → WriteOutcome → WriteOutcome → OverlayStore × Answer
  commit_removal s refused first second = (s, threw dangerous_key)
  commit_removal s kept first second = (s, ok false)
  commit_removal s (removed next) first second = answer_true (commit s next first second)

  abbrev pub delete_segments :
      OverlayStore → List Text → WriteOutcome → WriteOutcome → OverlayStore × Answer
  delete_segments s [] first second = (s, threw no_segment)
  delete_segments s (k ∷ ks) first second =
      commit_removal s (remove_overlay_path_value throw s.overlay (k ∷ ks)) first second

  unfoldable pub mutate :
      OverlayStore → Mutation → WriteOutcome → WriteOutcome → OverlayStore × Answer
  mutate s (replace next) first second = commit s next first second
  mutate s (apply_patch patch) first second =
      commit s (merge_overlay_maps s.overlay patch) first second
  mutate s (set path value) first second =
      set_segments s (normalize_path_expression path) value first second
  mutate s (remove path) first second =
      delete_segments s (normalize_path_expression path) first second

  abbrev pub adopt : OverlayStore → Fields → OverlayStore
  adopt s next =
      if is_deep_equal s.overlay next
      then s
      else record s { overlay = next; notified = s.notified + 1 }

  abbrev pub adopt_record : OverlayStore → Option Fields → OverlayStore
  adopt_record s none = s
  adopt_record s (some next) = adopt s next

  unfoldable pub reload_from_disk : OverlayStore → ReadOutcome → OverlayStore
  reload_from_disk s missing = adopt s end
  reload_from_disk s unreadable = s
  reload_from_disk s (parsed null) = adopt s end
  reload_from_disk s (parsed value) = adopt_record s (as_record (some value))
