-- ===== src/Git/MergePolicy/Laws.antt =====
-- evaluateMergePolicy of src/git/merge-policy.ts: when it allows a merge, and what it names.
use risoluto.Prelude.{
  ℕ, ◌+◌, Bool, true, false, not, ◌&&◌, ◌||◌, ◌≡◌, refl, sym, text_eq, List, [], ◌∷◌, Option, none,
  some, Text, includes, keep, any, all, length, leb, is_some, if◌then◌else◌, arith,
}
use risoluto.Git.MergePolicy.{
  MergePolicy, DiffStats, MergePolicyResult, merge_disabled, starts_with, blocked, first_excluded,
  is_allowed_path, path_result, files_limit, lines_limit, require_all, exclude_none,
  evaluate_merge_policy,
}

abbrev pub is_nil {ℓ} : {A : Type ℓ} → List A → Bool
is_nil [] = true
is_nil (x ∷ xs) = false

abbrev pub is_within : Option ℕ → ℕ → Bool
is_within none n = true
is_within (some limit) n = leb n limit

any-first_excluded :
    (labels excluded : List Text)
    → is_some (first_excluded labels excluded) ≡ any (includes labels) excluded
unfolding first_excluded any
any-first_excluded labels [] = refl
any-first_excluded labels (l ∷ ls) = ground (arith, any-first_excluded labels ls)

is_nil-keep {ℓ} :
    {A : Type ℓ} (p : A → Bool) (xs : List A) → is_nil (keep (λ x. not (p x)) xs) ≡ all p xs
unfolding keep all
is_nil-keep p [] = refl
is_nil-keep p (x ∷ xs) = ground (arith, is_nil-keep p xs)

enabled-allowed :
    (b : Bool) (next : MergePolicyResult)
    → (if b then next else blocked merge_disabled).allowed ≡ (b && next.allowed)
enabled-allowed true next = refl
enabled-allowed false next = refl

exclude_none-allowed :
    (o : Option Text) (next : MergePolicyResult)
    → (exclude_none o next).allowed ≡ (not (is_some o) && next.allowed)
exclude_none-allowed none next = refl
exclude_none-allowed (some l) next = refl

require_all-allowed :
    (ls : List Text) (next : MergePolicyResult)
    → (require_all ls next).allowed ≡ (is_nil ls && next.allowed)
require_all-allowed [] next = refl
require_all-allowed (l ∷ ls) next = refl

files_limit-allowed :
    (o : Option ℕ) (n : ℕ) (next : MergePolicyResult)
    → (files_limit o n next).allowed ≡ (is_within o n && next.allowed)
files_limit-allowed none n next = refl
files_limit-allowed (some limit) n next = ground arith

lines_limit-allowed :
    (o : Option ℕ) (n : ℕ) (next : MergePolicyResult)
    → (lines_limit o n next).allowed ≡ (is_within o n && next.allowed)
lines_limit-allowed none n next = refl
lines_limit-allowed (some limit) n next = ground arith

path_result-allowed :
    (ps files : List Text) → (path_result ps files).allowed ≡ (is_nil ps || is_nil files)
path_result-allowed [] files = refl
path_result-allowed (p ∷ ps) [] = refl
path_result-allowed (p ∷ ps) (f ∷ fs) = refl

-- A pull request may be merged just if the policy is enabled, no label of it is excluded, every
-- required label is among its labels, its files and its lines are within the limits that are set,
-- and, where prefixes are listed, each of its files starts with one of them.
pub evaluate_merge_policy-allowed :
    (policy : MergePolicy) (changed_files : List Text) (diff_stats : DiffStats)
    (pr_labels : List Text)
    → (evaluate_merge_policy policy changed_files diff_stats pr_labels).allowed ≡ (
        policy.enabled
        && (not (any (includes pr_labels) policy.exclude_labels)
            && (all (includes pr_labels) policy.require_labels
                && (is_within policy.max_changed_files (length changed_files)
                    && (is_within policy.max_diff_lines
                          (diff_stats.additions + diff_stats.deletions)
                        && (is_nil policy.allowed_paths
                            || all (is_allowed_path policy.allowed_paths) changed_files))))))
unfolding evaluate_merge_policy
evaluate_merge_policy-allowed policy changed_files diff_stats pr_labels =
    rw
      (
        enabled-allowed,
        exclude_none-allowed,
        require_all-allowed,
        files_limit-allowed,
        lines_limit-allowed,
        path_result-allowed,
        any-first_excluded,
        is_nil-keep (includes pr_labels),
        is_nil-keep (is_allowed_path policy.allowed_paths),
      )
      refl

includes-keep :
    (p : Text → Bool) (xs : List Text) (x : Text) → includes (keep p xs) x ≡ (includes xs x && p x)
unfolding includes keep
includes-keep p [] x = refl
includes-keep p (y ∷ xs) x = ground (arith, includes-keep p xs x)

exclude_none-blocked_files :
    (o : Option Text) (next : MergePolicyResult) (fs : List Text)
    → (exclude_none o next).blocked_files ≡ some fs
    → next.blocked_files ≡ some fs
exclude_none-blocked_files none next fs h = h
exclude_none-blocked_files (some l) next fs h = ground arith

require_all-blocked_files :
    (ls : List Text) (next : MergePolicyResult) (fs : List Text)
    → (require_all ls next).blocked_files ≡ some fs
    → next.blocked_files ≡ some fs
require_all-blocked_files [] next fs h = h
require_all-blocked_files (l ∷ ls) next fs h = ground arith

files_limit-blocked_files :
    (o : Option ℕ) (n : ℕ) (next : MergePolicyResult) (fs : List Text)
    → (files_limit o n next).blocked_files ≡ some fs
    → next.blocked_files ≡ some fs
files_limit-blocked_files none n next fs h = h
files_limit-blocked_files (some limit) n next fs h = ground arith

lines_limit-blocked_files :
    (o : Option ℕ) (n : ℕ) (next : MergePolicyResult) (fs : List Text)
    → (lines_limit o n next).blocked_files ≡ some fs
    → next.blocked_files ≡ some fs
lines_limit-blocked_files none n next fs h = h
lines_limit-blocked_files (some limit) n next fs h = ground arith

enabled-blocked_files :
    (b : Bool) (next : MergePolicyResult) (fs : List Text)
    → (if b then next else blocked merge_disabled).blocked_files ≡ some fs
    → next.blocked_files ≡ some fs
enabled-blocked_files true next fs h = h
enabled-blocked_files false next fs h = ground arith

path_result-blocked_files :
    (ps files fs : List Text) → (path_result ps files).blocked_files ≡ some fs → files ≡ fs
path_result-blocked_files [] files fs h = ground arith
path_result-blocked_files (p ∷ ps) [] fs h = ground arith
path_result-blocked_files (p ∷ ps) (f ∷ files) fs h = ground arith

-- Where blocked files are named, a file is among them just if it is a changed file that starts with
-- none of the listed prefixes.
pub evaluate_merge_policy-blocked_files :
    (policy : MergePolicy) (changed_files : List Text) (diff_stats : DiffStats)
    (pr_labels fs : List Text)
    → (evaluate_merge_policy policy changed_files diff_stats pr_labels).blocked_files ≡ some fs
    → (file : Text)
    → includes fs file
      ≡ (includes changed_files file && not (any (starts_with file) policy.allowed_paths))
unfolding evaluate_merge_policy is_allowed_path
evaluate_merge_policy-blocked_files policy changed_files diff_stats pr_labels fs h file =
    let allow : Text → Bool = λ f. not (is_allowed_path policy.allowed_paths f) in
    let named : keep allow changed_files ≡ fs = path_result-blocked_files _ _ fs (
      lines_limit-blocked_files policy.max_diff_lines _ _ fs (
        files_limit-blocked_files policy.max_changed_files _ _ fs (
          require_all-blocked_files _ _ fs
            (exclude_none-blocked_files _ _ fs (enabled-blocked_files policy.enabled _ fs h))))) in
    rw (sym named) (includes-keep allow changed_files file)
