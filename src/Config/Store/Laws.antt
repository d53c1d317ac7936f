-- ===== src/Config/Store/Laws.antt =====
-- The mutations of src/config/overlay.ts: the overlay in memory and the file.
use risoluto.Prelude.{
  Bool, true, false, ◌≡◌, ◌≢◌, sym, ◌∙◌, ap, List, [], ◌∷◌, some, Text, text_eq, Bool-cases, inl,
  inr, arith,
}
use risoluto.Config.Values.{Value, Fields}
use risoluto.Config.Overlay.{
  set_overlay_path_value, merge_overlay_maps, remove_overlay_path_value, Removal, refused, kept,
  removed, throw,
}
use risoluto.Config.Overlay.Again.{set-set_overlay_path_value, set_throws}
use risoluto.Config.Store.{
  OverlayStore, Answer, ok, threw, write_failed, Mutation, replace, apply_patch, set, remove,
  WriteOutcome, is_deep_equal, commit, set_segments, delete_segments, commit_removal, answer_true,
  mutate, normalize_path_expression,
}

-- The file holds the overlay.
abbrev pub IsWritten : OverlayStore → Type 0
IsWritten s = s.file ≡ some s.overlay

module _ (locale_le : Text → Text → Bool) (stringify : Value → Text) where
  deep_equal_self : (m : Fields) → is_deep_equal locale_le stringify m m ≡ true
  unfolding is_deep_equal
  deep_equal_self m = ground arith

  commit-IsWritten :
      (s : OverlayStore) (next : Fields) (first second : WriteOutcome)
      → IsWritten s
      → (commit locale_le stringify s next first second).1 ≢ threw write_failed
      → IsWritten (commit locale_le stringify s next first second).0
  unfolding commit
  commit-IsWritten s next first second w h = ground arith

  set_segments-IsWritten :
      (s : OverlayStore) (ks : List Text) (v : Value) (first second : WriteOutcome)
      → IsWritten s
      → (set_segments locale_le stringify s ks v first second).1 ≢ threw write_failed
      → IsWritten (set_segments locale_le stringify s ks v first second).0
  set_segments-IsWritten s [] v first second w h = w
  set_segments-IsWritten s (k ∷ ks) v first second w h =
      elim (Bool-cases (set_overlay_path_value throw s.overlay (k ∷ ks) v).1) [
        | inl e ↦ ground arith
        | inr e ↦ rw e (
            commit-IsWritten s (set_overlay_path_value throw s.overlay (k ∷ ks) v).0 first second w
              (rw e at h))
      ]

  answer_true-IsWritten :
      (r : OverlayStore × Answer)
      → (r.1 ≢ threw write_failed → IsWritten r.0)
      → (answer_true locale_le stringify r).1 ≢ threw write_failed
      → IsWritten (answer_true locale_le stringify r).0
  answer_true-IsWritten (s, ok b) f h = f (λ e. h (ground arith))
  answer_true-IsWritten (s, threw e) f h = f h

  commit_removal-IsWritten :
      (s : OverlayStore) (r : Removal) (first second : WriteOutcome)
      → IsWritten s
      → (commit_removal locale_le stringify s r first second).1 ≢ threw write_failed
      → IsWritten (commit_removal locale_le stringify s r first second).0
  commit_removal-IsWritten s refused first second w h = w
  commit_removal-IsWritten s kept first second w h = w
  commit_removal-IsWritten s (removed next) first second w h =
      answer_true-IsWritten (commit locale_le stringify s next first second)
        (commit-IsWritten s next first second w) h

  delete_segments-IsWritten :
      (s : OverlayStore) (ks : List Text) (first second : WriteOutcome)
      → IsWritten s
      → (delete_segments locale_le stringify s ks first second).1 ≢ threw write_failed
      → IsWritten (delete_segments locale_le stringify s ks first second).0
  delete_segments-IsWritten s [] first second w h = w
  delete_segments-IsWritten s (k ∷ ks) first second w h =
      commit_removal-IsWritten s (remove_overlay_path_value throw s.overlay (k ∷ ks)) first second w
        h

  -- A mutation that does not throw for a failed write leaves the file as the overlay is, if it was.
  pub mutate-IsWritten :
      (s : OverlayStore) (m : Mutation) (first second : WriteOutcome)
      → IsWritten s
      → (mutate locale_le stringify s m first second).1 ≢ threw write_failed
      → IsWritten (mutate locale_le stringify s m first second).0
  unfolding mutate
  mutate-IsWritten s (replace next) first second w h = commit-IsWritten s next first second w h
  mutate-IsWritten s (apply_patch patch) first second w h =
      commit-IsWritten s (merge_overlay_maps s.overlay patch) first second w h
  mutate-IsWritten s (set path value) first second w h =
      set_segments-IsWritten s (normalize_path_expression path) value first second w h
  mutate-IsWritten s (remove path) first second w h =
      delete_segments-IsWritten s (normalize_path_expression path) first second w h

  commit_failed :
      (s : OverlayStore) (next : Fields) (first second : WriteOutcome)
      → (commit locale_le stringify s next first second).1 ≡ threw write_failed
      → ((commit locale_le stringify s next first second).0.overlay ≡ next)
        × ((commit locale_le stringify s next first second).0.file ≡ s.file)
  unfolding commit
  commit_failed s next first second h = ground arith

  commit_again :
      (s : OverlayStore) (next : Fields) (first second : WriteOutcome)
      → s.overlay ≡ next
      → commit locale_le stringify s next first second ≡ (s, ok false)
  unfolding commit
  commit_again s next first second h =
      ground (arith, deep_equal_self next, ap (λ m. is_deep_equal locale_le stringify next m) h)

  set_again :
      (s : OverlayStore) (k : Text) (ks : List Text) (v : Value) (first second : WriteOutcome)
      → (set_overlay_path_value throw s.overlay (k ∷ ks) v).1 ≡ false
      → s.overlay ≡ (set_overlay_path_value throw s.overlay (k ∷ ks) v).0
      → set_segments locale_le stringify s (k ∷ ks) v first second ≡ (s, ok false)
  set_again s k ks v first second t e =
      rw t (commit_again s (set_overlay_path_value throw s.overlay (k ∷ ks) v).0 first second e)

  set_segments_safe :
      (s : OverlayStore) (k : Text) (ks : List Text) (v : Value) (first second : WriteOutcome)
      → (set_segments locale_le stringify s (k ∷ ks) v first second).1 ≡ threw write_failed
      → (set_overlay_path_value throw s.overlay (k ∷ ks) v).1 ≡ false
  set_segments_safe s k ks v first second h = ground arith

  set_segments_failed :
      (s : OverlayStore) (ks : List Text) (v : Value) (first second : WriteOutcome)
      → (set_segments locale_le stringify s ks v first second).1 ≡ threw write_failed
      → let s' = (set_segments locale_le stringify s ks v first second).0 in
        (s'.overlay ≡ (set_overlay_path_value throw s.overlay ks v).0) × (s'.file ≡ s.file)
  set_segments_failed s [] v first second h = absurd (ground arith)
  set_segments_failed s (k ∷ ks) v first second h =
      elim (Bool-cases (set_overlay_path_value throw s.overlay (k ∷ ks) v).1) [
        | inl e ↦ absurd (ground arith)
        | inr e ↦ rw e (
            commit_failed s (set_overlay_path_value throw s.overlay (k ∷ ks) v).0 first second
              (rw e at h))
      ]

  set_segments_lost :
      (s : OverlayStore) (ks : List Text) (v : Value) (first second first' second' : WriteOutcome)
      → (set_segments locale_le stringify s ks v first second).1 ≡ threw write_failed
      → let s' = (set_segments locale_le stringify s ks v first second).0 in
        (s'.file ≡ s.file)
        × (set_segments locale_le stringify s' ks v first' second' ≡ (s', ok false))
  set_segments_lost s [] v first second first' second' h = absurd (ground arith)
  set_segments_lost s (k ∷ ks) v first second first' second' h =
      let s' : OverlayStore = (set_segments locale_le stringify s (k ∷ ks) v first second).0 in
      let (held, file) = set_segments_failed s (k ∷ ks) v first second h in
      (
        file,
        set_again s' k ks v first' second'
            (set_throws throw s'.overlay k ks v
              ∙ sym (set_throws throw s.overlay k ks v)
              ∙ set_segments_safe s k ks v first second h)
            (held
              ∙ sym (set-set_overlay_path_value throw s.overlay k ks v)
              ∙ sym (ap (λ m. (set_overlay_path_value throw m (k ∷ ks) v).0) held)),
      )

  -- A value whose write failed is in memory and not in the file, and setting it again answers that
  -- nothing changed: no file is written, whatever the file system would do.
  pub set-lost :
      (s : OverlayStore) (path : Text) (v : Value) (first second first' second' : WriteOutcome)
      → (mutate locale_le stringify s (set path v) first second).1 ≡ threw write_failed
      → let s' = (mutate locale_le stringify s (set path v) first second).0 in
        (s'.file ≡ s.file)
        × (mutate locale_le stringify s' (set path v) first' second' ≡ (s', ok false))
  unfolding mutate
  set-lost s path v first second first' second' h =
      set_segments_lost s (normalize_path_expression path) v first second first' second' h
