-- ===== src/Git/RepoRouter.antt =====
-- src/git/repo-router.ts: which repository an issue is worked on in. `RepoRouter` only keeps the
-- routes. The comparison of `equalsIgnoreCase` is the host's and a parameter; routes are an array.
pub mod Laws
use risoluto.Prelude.{
  ℕ, Bool, true, false, not, ◌&&◌, List, [], ◌∷◌, Option, none, some, map, Text, text_eq, nat_eq,
  codes, any, trim, is_empty, first_some, if◌then◌else◌, ◌==◌,
}
use risoluto.Core.Types.{Issue}

pub record RepoRoute : Type 0 where
  pub repo_url : Text
  pub default_branch : Option Text
  pub identifier_prefix : Option Text
  pub label : Option Text
  pub github_owner : Option Text
  pub github_repo : Option Text
  pub github_token_env : Option Text

pub data MatchedBy : Type 0 where
  by_identifier_prefix : MatchedBy
  by_label : MatchedBy

pub record RepoMatch : Type 0 where
  pub repo_url : Text
  pub default_branch : Text
  pub identifier_prefix : Option Text
  pub label : Option Text
  pub github_owner : Option Text
  pub github_repo : Option Text
  pub github_token_env : Text
  pub matched_by : MatchedBy

-- `value.split("-", 1)[0]`
unfoldable pub before_dash : Text → Text
before_dash [] = []
before_dash (c ∷ cs) = let rest = before_dash cs in if c == 45 then [] else c ∷ rest

unfoldable pub issue_prefix : Text → Text
issue_prefix identifier = trim (before_dash identifier)

-- `value?.trim()`
abbrev pub trimmed : Option Text → Option Text
trimmed none = none
trimmed (some value) = some (trim value)

abbrev pub non_empty : Text → Option Text
non_empty [] = none
non_empty (c ∷ cs) = some (c ∷ cs)

-- `value?.trim() || undefined`
abbrev pub trimmed_or_none : Option Text → Option Text
trimmed_or_none none = none
trimmed_or_none (some value) = non_empty (trim value)

-- `value?.trim() || fallback`
abbrev pub trimmed_or : Option Text → Text → Text
trimmed_or value fallback = elim (trimmed_or_none value) [ none ↦ fallback | some v ↦ v ]

unfoldable pub to_match : RepoRoute → MatchedBy → RepoMatch
to_match route matched_by = record {
  repo_url = route.repo_url;
  default_branch = trimmed_or route.default_branch (codes "main");
  identifier_prefix = trimmed route.identifier_prefix;
  label = trimmed route.label;
  github_owner = trimmed_or_none route.github_owner;
  github_repo = trimmed_or_none route.github_repo;
  github_token_env = trimmed_or route.github_token_env (codes "GITHUB_TOKEN");
  matched_by = matched_by;
}

-- A guard of a loop: a route with a repository and a key, whose trimmed key passes the test.
abbrev pub key_passes : (Text → Bool) → Option Text → Bool
key_passes test none = false
key_passes test (some key) = not (is_empty key) && test key

unfoldable pub passes : (Text → Bool) → RepoRoute → Option Text → Bool
passes test route key = not (is_empty (trim route.repo_url)) && key_passes test (trimmed key)

unfoldable pub match_first : (RepoRoute → Bool) → MatchedBy → List RepoRoute → Option RepoMatch
match_first p matched_by [] = none
match_first p matched_by (route ∷ routes) =
    if p route then some (to_match route matched_by) else match_first p matched_by routes

module _ (equals_ignore_case : Text → Text → Bool) where
  unfoldable pub has_label : Issue → RepoRoute → Bool
  has_label issue route =
      passes
        (λ label. any (λ issue_label. equals_ignore_case issue_label label) (map trim issue.labels))
        route route.label

  unfoldable pub has_prefix : Issue → RepoRoute → Bool
  has_prefix issue route =
      passes (λ prefix. equals_ignore_case prefix (issue_prefix issue.identifier)) route
        route.identifier_prefix

  unfoldable pub match_issue : Issue → List RepoRoute → Option RepoMatch
  match_issue issue routes =
      first_some (match_first (has_label issue) by_label routes)
        (match_first (has_prefix issue) by_identifier_prefix routes)
