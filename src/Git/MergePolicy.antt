-- ===== src/Git/MergePolicy.antt =====
-- src/git/merge-policy.ts, with `MergePolicy` of src/core/types/pr.ts and `DiffStats` of
-- src/git/port.ts: whether a pull request may be merged automatically.
pub mod Laws
use risoluto.Prelude.{
  ℕ, ◌+◌, Bool, true, false, not, ◌&&◌, List, [], ◌∷◌, Option, none, some, Text, codes, includes,
  keep, any, length, ltb, if◌then◌else◌, ◌==◌, text_eq, nat_eq,
}

pub data MergeMethod : Type 0 where
  merge : MergeMethod
  squash : MergeMethod
  rebase : MergeMethod

-- An absent limit and a `null` limit are both `none`.
pub record MergePolicy : Type 0 where
  pub enabled : Bool
  pub allowed_paths : List Text
  pub max_changed_files : Option ℕ
  pub max_diff_lines : Option ℕ
  pub require_labels : List Text
  pub exclude_labels : List Text
  pub merge_method : MergeMethod

pub record DiffStats : Type 0 where
  pub additions : ℕ
  pub deletions : ℕ

-- The reasons, each with what its message is filled with.
pub data Reason : Type 0 where
  merge_disabled : Reason
  excluded_label_present : Text → Reason
  required_labels_missing : List Text → Reason
  too_many_files : ℕ → ℕ → Reason
  too_many_lines : ℕ → ℕ → Reason
  outside_allowed_paths : List Text → Reason

pub record MergePolicyResult : Type 0 where
  pub allowed : Bool
  pub reason : Option Reason
  pub blocked_files : Option (List Text)

-- `text.startsWith(prefix)`
unfoldable pub starts_with : Text → Text → Bool
starts_with text [] = true
starts_with [] (c ∷ cs) = false
starts_with (d ∷ text) (c ∷ cs) = d == c && starts_with text cs

abbrev pub blocked : Reason → MergePolicyResult
blocked reason = record { allowed = false; reason = some reason; blocked_files = none }

-- The first of the excluded labels that the pull request has.
unfoldable pub first_excluded : List Text → List Text → Option Text
first_excluded pr_labels [] = none
first_excluded pr_labels (label ∷ labels) =
    if includes pr_labels label then some label else first_excluded pr_labels labels

unfoldable pub is_allowed_path : List Text → Text → Bool
is_allowed_path allowed_paths file = any (starts_with file) allowed_paths

-- The check of the paths, on the files that no prefix allows.
abbrev pub path_result : List Text → List Text → MergePolicyResult
path_result [] files = record { allowed = true; reason = none; blocked_files = none }
path_result (p ∷ ps) [] = record { allowed = true; reason = none; blocked_files = none }
path_result (p ∷ ps) (f ∷ fs) = record {
  allowed = false;
  reason = some (outside_allowed_paths (f ∷ fs));
  blocked_files = some (f ∷ fs);
}

abbrev pub files_limit : Option ℕ → ℕ → MergePolicyResult → MergePolicyResult
files_limit none n next = next
files_limit (some limit) n next = if ltb limit n then blocked (too_many_files n limit) else next

abbrev pub lines_limit : Option ℕ → ℕ → MergePolicyResult → MergePolicyResult
lines_limit none n next = next
lines_limit (some limit) n next = if ltb limit n then blocked (too_many_lines n limit) else next

abbrev pub require_all : List Text → MergePolicyResult → MergePolicyResult
require_all [] next = next
require_all (l ∷ ls) next = blocked (required_labels_missing (l ∷ ls))

abbrev pub exclude_none : Option Text → MergePolicyResult → MergePolicyResult
exclude_none none next = next
exclude_none (some label) next = blocked (excluded_label_present label)

unfoldable pub evaluate_merge_policy :
    MergePolicy → List Text → DiffStats → List Text → MergePolicyResult
evaluate_merge_policy policy changed_files diff_stats pr_labels =
    if policy.enabled
    then exclude_none (first_excluded pr_labels policy.exclude_labels) (
        require_all (keep (λ label. not (includes pr_labels label)) policy.require_labels) (
          files_limit policy.max_changed_files (length changed_files) (
            lines_limit policy.max_diff_lines (diff_stats.additions + diff_stats.deletions) (
              path_result policy.allowed_paths
                (keep (λ file. not (is_allowed_path policy.allowed_paths file)) changed_files)))))
    else blocked merge_disabled
