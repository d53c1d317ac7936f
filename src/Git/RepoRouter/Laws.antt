-- ===== src/Git/RepoRouter/Laws.antt =====
-- matchIssue of src/git/repo-router.ts: which route is taken, and when none is.
use risoluto.Prelude.{
  Bool, true, false, ◌||◌, ◌≡◌, refl, ap, List, [], ◌∷◌, ◌++◌, some, Text, any, is_some,
  Option-cases, Bool-cases, inl, inr, arith, ◌⊎◌,
}
use risoluto.Core.Types.{Issue}
use risoluto.Git.RepoRouter.{
  RepoRoute, RepoMatch, MatchedBy, by_label, by_identifier_prefix, to_match, match_first, has_label,
  has_prefix, match_issue,
}

-- The match is of a route that passes, while no route before it does.
pub IsFirst : (RepoRoute → Bool) → MatchedBy → List RepoRoute → RepoMatch → Type 0
IsFirst p by routes m =
    (before : List RepoRoute) × (route : RepoRoute) × (after : List RepoRoute) × (routes
      ≡ before ++ route ∷ after)
    × (any p before ≡ false)
    × (p route ≡ true)
    × (m ≡ to_match route by)

later :
    (p : RepoRoute → Bool) (by : MatchedBy) (r : RepoRoute) (rs : List RepoRoute) (m : RepoMatch)
    → p r ≡ false
    → IsFirst p by rs m
    → IsFirst p by (r ∷ rs) m
unfolding any IsFirst
later p by r rs m e (before, route, after, split, none_before, passed, same) =
    (r ∷ before, route, after, ap (λ xs. r ∷ xs) split, ground arith, passed, same)

match_first-IsFirst :
    (p : RepoRoute → Bool) (by : MatchedBy) (routes : List RepoRoute) (m : RepoMatch)
    → match_first p by routes ≡ some m
    → IsFirst p by routes m
unfolding match_first any IsFirst
match_first-IsFirst p by [] m h = absurd (ground arith)
match_first-IsFirst p by (r ∷ rs) m h = elim (Bool-cases (p r)) [
  | inl e ↦ ([], r, rs, refl, refl, e, ground arith)
  | inr e ↦ later p by r rs m e (match_first-IsFirst p by rs m (ground arith))
]

is_some-match_first :
    (p : RepoRoute → Bool) (by : MatchedBy) (routes : List RepoRoute)
    → is_some (match_first p by routes) ≡ any p routes
unfolding match_first any
is_some-match_first p by [] = refl
is_some-match_first p by (route ∷ routes) = ground (arith, is_some-match_first p by routes)

module _ (equals_ignore_case : Text → Text → Bool) where
  -- An issue is matched just if some route passes the test of its label or that of its prefix.
  pub is_some-match_issue :
      (issue : Issue) (routes : List RepoRoute)
      → is_some (match_issue equals_ignore_case issue routes) ≡ (
          any (has_label equals_ignore_case issue) routes
          || any (has_prefix equals_ignore_case issue) routes)
  unfolding match_issue
  is_some-match_issue issue routes = ground (
    arith,
    is_some-match_first (has_label equals_ignore_case issue) by_label routes,
    is_some-match_first (has_prefix equals_ignore_case issue) by_identifier_prefix routes,
  )

  -- The match of an issue is of the first route that passes the test of its label, or, where no
  -- route passes that test, of the first route that passes the test of its prefix.
  pub match_issue_lem :
      (issue : Issue) (routes : List RepoRoute) (m : RepoMatch)
      → match_issue equals_ignore_case issue routes ≡ some m
      → IsFirst (has_label equals_ignore_case issue) by_label routes m
        ⊎ ((any (has_label equals_ignore_case issue) routes ≡ false)
            × IsFirst (has_prefix equals_ignore_case issue) by_identifier_prefix routes m)
  unfolding match_issue
  match_issue_lem issue routes m h =
      elim (Option-cases (match_first (has_label equals_ignore_case issue) by_label routes)) [
        | inr (n, e) ↦ inl (match_first-IsFirst _ by_label routes m (ground arith))
        | inl e ↦ inr (
          ground (arith, is_some-match_first (has_label equals_ignore_case issue) by_label routes),
          match_first-IsFirst _ by_identifier_prefix routes m (ground arith),
        )
      ]
