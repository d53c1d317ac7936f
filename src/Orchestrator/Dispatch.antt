-- ===== src/Orchestrator/Dispatch.antt =====
-- src/orchestrator/core/dispatch.ts: the order in which issues are dispatched, and blockers.
-- `Date.parse` and `localeCompare` are those of the host.
pub mod Order
use Prim.Native.Nat.{compare, Ordering}
use risoluto.Prelude.{
  ℕ, Bool, true, false, not, ◌||◌, ◌≡◌, ◌≢◌, refl, List, [], ◌∷◌, Option, none, some, any, All,
  Text, arith, if◌then◌else◌, ◌==◌, nat_eq, or_else,
}
use risoluto.Core.Types.{Issue, IssueBlockerRef, ServiceConfig}
use risoluto.State.Policy.{is_terminal_state}

-- The sign of the number that a comparison function returns.
abbrev pub flip : Ordering → Ordering
flip Ordering.lt = Ordering.gt
flip Ordering.eq = Ordering.eq
flip Ordering.gt = Ordering.lt

abbrev pub is_gt : Ordering → Bool
is_gt Ordering.gt = true
is_gt _ = false

-- `parse_date` is `null` where `Date.parse` gives NaN. ECMAScript wants `localeCompare` to be a
-- consistent comparison: these are its laws.
pub record Host : Type 0 where
  pub parse_date : Text → Option ℕ
  pub locale_compare : Text → Text → Ordering
  pub locale_flip : (a b : Text) → locale_compare b a ≡ flip (locale_compare a b)
  pub locale_trans :
      (a b c : Text)
      → locale_compare a b ≢ Ordering.gt
      → locale_compare b c ≢ Ordering.gt
      → locale_compare a c ≢ Ordering.gt

-- `Number.MAX_SAFE_INTEGER`
abbrev pub max_safe_integer : ℕ
max_safe_integer = 9007199254740991

module _ (host : Host) where
  unfoldable pub sortable_created_at : Option Text → ℕ
  sortable_created_at none = max_safe_integer
  sortable_created_at (some []) = max_safe_integer
  sortable_created_at (some (c ∷ s)) = or_else (host.parse_date (c ∷ s)) max_safe_integer

  -- The comparison that `sortIssuesForDispatch` sorts by.
  unfoldable pub compare_issues : Issue → Issue → Ordering
  unfolding sortable_created_at
  compare_issues left right =
      let left_priority = or_else left.priority max_safe_integer in
      let right_priority = or_else right.priority max_safe_integer in
      let left_created_at = sortable_created_at left.created_at in
      let right_created_at = sortable_created_at right.created_at in
      if not (left_priority == right_priority)
      then compare left_priority right_priority
      else if not (left_created_at == right_created_at)
      then compare left_created_at right_created_at
      else host.locale_compare left.identifier right.identifier

  abbrev pub after : Issue → Issue → Bool
  after left right = is_gt (compare_issues left right)

  -- The host's sort is stable: an issue goes before the first that it is not after.
  unfoldable pub insert_issue : Issue → List Issue → List Issue
  insert_issue issue [] = issue ∷ []
  insert_issue issue (next ∷ issues) =
      if after issue next then next ∷ insert_issue issue issues else issue ∷ next ∷ issues

  unfoldable pub sort_issues_for_dispatch : List Issue → List Issue
  unfolding insert_issue
  sort_issues_for_dispatch [] = []
  sort_issues_for_dispatch (issue ∷ issues) = insert_issue issue (sort_issues_for_dispatch issues)

-- `blocker.state === null || !isTerminalState(blocker.state, config)`
abbrev pub is_open_blocker : ServiceConfig → IssueBlockerRef → Bool
is_open_blocker config blocker = elim blocker.state [
  | none ↦ true
  | some state ↦ not (is_terminal_state state config)
]

unfoldable pub is_blocked_by_non_terminal : Issue → ServiceConfig → Bool
is_blocked_by_non_terminal issue config = any (is_open_blocker config) issue.blocked_by
