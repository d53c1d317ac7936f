-- ===== src/Git/Tests.antt =====
-- Runs of the merge policy and of the repository router.
use risoluto.Prelude.{
  trim, ℕ_discrete, true, ◌≡◌, refl, List, [], ◌∷◌, some, Text, text_eq, Text-discrete, codes,
  includes, to_lower_case, Bool, false, none, ◌==◌, ◌⊎◌, keep, any, all,
}
use risoluto.Git.MergePolicy.{
  MergePolicy, DiffStats, squash, starts_with, first_excluded, is_allowed_path,
  evaluate_merge_policy,
}
use risoluto.Git.MergePolicy.Laws.{evaluate_merge_policy-allowed}
use risoluto.Core.Types.{Issue}
use risoluto.Git.RepoRouter.{
  RepoRoute, by_label, by_identifier_prefix, to_match, match_first, has_label, has_prefix,
  match_issue, before_dash, issue_prefix, passes,
}
use risoluto.Git.RepoRouter.Laws.{IsFirst, match_issue_lem}

abbrev docs_policy : MergePolicy
docs_policy = record {
  enabled = true;
  allowed_paths = codes "docs/" ∷ codes "README" ∷ [];
  max_changed_files = some 3;
  max_diff_lines = some 100;
  require_labels = codes "automerge" ∷ [];
  exclude_labels = codes "hold" ∷ [];
  merge_method = squash;
}

abbrev small_diff : DiffStats
small_diff = record { additions = 40; deletions = 60 }

abbrev docs_files : List Text
docs_files = codes "docs/a.md" ∷ codes "README.md" ∷ []

abbrev mixed_files : List Text
mixed_files = codes "docs/a.md" ∷ codes "src/a.ts" ∷ []

abbrev labels : List Text
labels = codes "docs" ∷ codes "automerge" ∷ []

evaluate_merge_policy-allowed_example :
    (evaluate_merge_policy docs_policy docs_files small_diff labels).allowed ≡ true
unfolding first_excluded keep any all includes is_allowed_path starts_with Text-discrete
evaluate_merge_policy-allowed_example =
    evaluate_merge_policy-allowed docs_policy docs_files small_diff labels

mixed_blocked :
    (evaluate_merge_policy docs_policy mixed_files small_diff labels).blocked_files
    ≡ some (codes "src/a.ts" ∷ [])
unfolding evaluate_merge_policy first_excluded keep any includes is_allowed_path starts_with
    Text-discrete
mixed_blocked = refl

abbrev same_lower : Text → Text → Bool
same_lower a b = to_lower_case a == to_lower_case b

abbrev prefix_route : RepoRoute
prefix_route = record {
  repo_url = codes "u1";
  default_branch = none;
  identifier_prefix = some (codes " eng ");
  label = none;
  github_owner = none;
  github_repo = none;
  github_token_env = none;
}

abbrev label_route : RepoRoute
label_route = record prefix_route {
  repo_url = codes "u2";
  identifier_prefix = none;
  label = some (codes "Docs");
}

abbrev routes : List RepoRoute
routes = prefix_route ∷ label_route ∷ []

abbrev docs_issue : Issue
docs_issue = record {
  id = codes "1";
  identifier = codes "ENG-7";
  title = [];
  description = none;
  priority = none;
  state = codes "todo";
  branch_name = none;
  url = none;
  labels = codes "docs" ∷ [];
  blocked_by = [];
  created_at = none;
  updated_at = none;
}

label_first : match_issue same_lower docs_issue routes ≡ some (to_match label_route by_label)
unfolding match_issue match_first has_label passes any trim ℕ_discrete Text-discrete to_lower_case
label_first = refl

prefix_next :
    match_issue same_lower (record docs_issue { labels = [] }) routes
    ≡ some (to_match prefix_route by_identifier_prefix)
unfolding match_issue match_first has_label has_prefix passes any before_dash issue_prefix trim
    ℕ_discrete Text-discrete to_lower_case
prefix_next = refl

match_issue_lem_example :
    IsFirst (has_label same_lower docs_issue) by_label routes (to_match label_route by_label)
    ⊎ ((any (has_label same_lower docs_issue) routes ≡ false)
        × IsFirst
            (has_prefix same_lower docs_issue)
            by_identifier_prefix
            routes
            (to_match label_route by_label))
match_issue_lem_example =
    match_issue_lem same_lower docs_issue routes (to_match label_route by_label) label_first
