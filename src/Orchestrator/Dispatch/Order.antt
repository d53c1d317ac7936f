-- ===== src/Orchestrator/Dispatch/Order.antt =====
-- The order of dispatch.
use Prim.Native.Nat.{compare, Ordering}
use mathlib.Core.List.{Perm}
use mathlib.Core.List.Perm
use risoluto.Prelude.{
  ℕ, sym, Bool-cases, inl, inr, ◌<◌, Option, none, some, Text, ltb, keep, ◌∙◌, Bool, true, false,
  not, ◌||◌, ◌≡◌, ◌≢◌, refl, List, [], ◌∷◌, All, arith, if◌then◌else◌, ◌==◌, nat_eq, or_else,
}
use risoluto.Core.Types.{Issue}
use risoluto.Orchestrator.Dispatch.{
  is_gt, Host, max_safe_integer, sortable_created_at, compare_issues, after, insert_issue,
  sort_issues_for_dispatch,
}

-- One key of a comparison, and what decides where it is equal.
abbrev by_key : ℕ → ℕ → Ordering → Ordering
by_key a b rest = if not (a == b) then compare a b else rest

by_key_trans :
    (a b c : ℕ) (o p q : Ordering)
    → (o ≢ Ordering.gt → p ≢ Ordering.gt → q ≢ Ordering.gt)
    → by_key a b o ≢ Ordering.gt
    → by_key b c p ≢ Ordering.gt
    → by_key a c q ≢ Ordering.gt
by_key_trans a b c o p q h k l = ground arith

is_gt-false : (o : Ordering) → is_gt o ≡ false → o ≢ Ordering.gt
is_gt-false o h = ground arith

is_gt_of_ne : (o : Ordering) → o ≢ Ordering.gt → is_gt o ≡ false
is_gt_of_ne Ordering.lt h = refl
is_gt_of_ne Ordering.eq h = refl
is_gt_of_ne Ordering.gt h = absurd (h refl)

module _ (host : Host) where
  -- No issue stands before one that it is after.
  abbrev pub IsSorted : List Issue → Type 0
  IsSorted [] = Unit
  IsSorted (x ∷ xs) = All (λ y. after host x y ≡ false) xs × IsSorted xs

  after_trans :
      (a b c : Issue) → after host a b ≡ false → after host b c ≡ false → after host a c ≡ false
  unfolding compare_issues
  after_trans a b c h k =
      let p = λ (x : Issue). or_else x.priority max_safe_integer in
      let d = λ (x : Issue). sortable_created_at host x.created_at in
      let l = host.locale_compare in
      is_gt_of_ne _ (
        by_key_trans (p a) (p b) (p c) (by_key (d a) (d b) (l a.identifier b.identifier))
          (by_key (d b) (d c) (l b.identifier c.identifier))
          (by_key (d a) (d c) (l a.identifier c.identifier))
          (by_key_trans (d a) (d b) (d c) (l a.identifier b.identifier)
            (l b.identifier c.identifier) (l a.identifier c.identifier)
            (host.locale_trans a.identifier b.identifier c.identifier))
          (is_gt-false _ h) (is_gt-false _ k))

  after_flip : (a b : Issue) → after host a b ≡ true → after host b a ≡ false
  unfolding compare_issues
  after_flip a b h = ground (arith, host.locale_flip a.identifier b.identifier)

  All-insert_issue :
      (y x : Issue) (xs : List Issue)
      → after host y x ≡ false
      → All (λ z. after host y z ≡ false) xs
      → All (λ z. after host y z ≡ false) (insert_issue host x xs)
  unfolding insert_issue
  All-insert_issue y x [] h k = (h, tt)
  All-insert_issue y x (z ∷ xs) h k = ground (arith, All-insert_issue y x xs h k.1)

  All-after_trans :
      (x y : Issue) (xs : List Issue)
      → after host x y ≡ false
      → All (λ z. after host y z ≡ false) xs
      → All (λ z. after host x z ≡ false) xs
  All-after_trans x y [] h k = tt
  All-after_trans x y (z ∷ xs) h k = (after_trans x y z h k.0, All-after_trans x y xs h k.1)

  insert_issue-IsSorted :
      (x : Issue) (xs : List Issue) → IsSorted xs → IsSorted (insert_issue host x xs)
  unfolding insert_issue
  insert_issue-IsSorted x [] h = (tt, tt)
  insert_issue-IsSorted x (y ∷ xs) h = ground (
    arith,
    insert_issue-IsSorted x xs h.1,
    All-insert_issue y x xs,
    after_flip x y,
    All-after_trans x y xs,
  )

  insert_issue-perm : (x : Issue) (xs : List Issue) → Perm (insert_issue host x xs) (x ∷ xs)
  unfolding insert_issue
  insert_issue-perm x [] = Perm.refl (x ∷ [])
  insert_issue-perm x (y ∷ xs) = ground (
    arith,
    Perm.refl (x ∷ y ∷ xs),
    Perm.trans (Perm.cons y (insert_issue-perm x xs)) (Perm.swap x y xs),
  )

  -- The two compare as equal.
  abbrev pub is_tied : Issue → Issue → Bool
  is_tied x y = not (after host x y || after host y x)

  keep-insert_issue :
      (k x : Issue) (xs : List Issue)
      → keep (is_tied k) (insert_issue host x xs) ≡ keep (is_tied k) (x ∷ xs)
  unfolding insert_issue keep
  keep-insert_issue k x [] = refl
  keep-insert_issue k x (y ∷ xs) = ground (arith, keep-insert_issue k x xs, after_trans x k y)

  keep-cons :
      (k x : Issue) (xs ys : List Issue)
      → keep (is_tied k) xs ≡ keep (is_tied k) ys
      → keep (is_tied k) (x ∷ xs) ≡ keep (is_tied k) (x ∷ ys)
  unfolding keep
  keep-cons k x xs ys h = ground arith

  keep-sort :
      (k : Issue) (issues : List Issue)
      → keep (is_tied k) (sort_issues_for_dispatch host issues) ≡ keep (is_tied k) issues
  unfolding sort_issues_for_dispatch
  keep-sort k [] = refl
  keep-sort k (x ∷ issues) =
      let rest = sort_issues_for_dispatch host issues in
      keep-insert_issue k x rest ∙ keep-cons k x rest issues (keep-sort k issues)

  -- The order of dispatch, without the numbers of the source: by priority, those without one last;
  -- then by the time of creation, those without one last; then by the identifier.
  abbrev pub is_earlier : Option ℕ → Option ℕ → Bool
  is_earlier none key = false
  is_earlier (some a) none = true
  is_earlier (some a) (some b) = ltb a b

  abbrev pub created_ms : Option Text → Option ℕ
  created_ms none = none
  created_ms (some []) = none
  created_ms (some (c ∷ s)) = host.parse_date (c ∷ s)

  abbrev pub precedes : Issue → Issue → Bool
  precedes a b =
      if is_earlier a.priority b.priority
      then true
      else if is_earlier b.priority a.priority
      then false
      else if is_earlier (created_ms a.created_at) (created_ms b.created_at)
      then true
      else if is_earlier (created_ms b.created_at) (created_ms a.created_at)
      then false
      else is_gt (host.locale_compare b.identifier a.identifier)

  -- The numbers are below the greatest safe integer.
  abbrev pub IsBelow : Option ℕ → Type 0
  IsBelow none = Unit
  IsBelow (some n) = n < 9007199254740991

  abbrev pub IsSafe : Issue → Type 0
  IsSafe issue = IsBelow issue.priority × IsBelow (created_ms issue.created_at)

  key_lem :
      (a b : Option ℕ)
      → IsBelow a
      → IsBelow b
      → (is_earlier a b ≡ ltb (or_else a max_safe_integer) (or_else b max_safe_integer))
  key_lem none none h k = ground arith
  key_lem none (some b) h k = ground arith
  key_lem (some a) none h k = ground arith
  key_lem (some a) (some b) h k = refl

  created_lem :
      (t : Option Text) → sortable_created_at host t ≡ or_else (created_ms t) max_safe_integer
  unfolding sortable_created_at
  created_lem none = refl
  created_lem (some []) = refl
  created_lem (some (c ∷ s)) = refl

  after-precedes : (a b : Issue) → IsSafe a → IsSafe b → after host a b ≡ precedes b a
  unfolding compare_issues
  after-precedes a b h k =
      rw (created_lem a.created_at, created_lem b.created_at)
        (ground (
          arith,
          key_lem a.priority b.priority h.0 k.0,
          key_lem b.priority a.priority k.0 h.0,
          key_lem (created_ms a.created_at) (created_ms b.created_at) h.1 k.1,
          key_lem (created_ms b.created_at) (created_ms a.created_at) k.1 h.1,
        ))

  sort_keeps :
      (issues : List Issue)
      → Perm (sort_issues_for_dispatch host issues) issues
        × IsSorted (sort_issues_for_dispatch host issues)
        × ((k : Issue)
            → keep (is_tied k) (sort_issues_for_dispatch host issues) ≡ keep (is_tied k) issues)
  unfolding sort_issues_for_dispatch
  sort_keeps [] = (Perm.refl [], tt, λ k. keep-sort k [])
  sort_keeps (x ∷ issues) =
      let (same, sorted, _) = sort_keeps issues in
      let rest = sort_issues_for_dispatch host issues in
      (
        Perm.trans (insert_issue-perm x rest) (Perm.cons x same),
        insert_issue-IsSorted x rest sorted,
        λ k. keep-sort k (x ∷ issues),
      )

  -- No issue stands before one that precedes it.
  abbrev pub IsOrdered : List Issue → Type 0
  IsOrdered [] = Unit
  IsOrdered (x ∷ xs) = All (λ y. precedes y x ≡ false) xs × IsOrdered xs

  -- Neither precedes the other.
  abbrev pub is_level : Issue → Issue → Bool
  is_level x y = not (precedes x y || precedes y x)

  insert_issue-IsSafe :
      (x : Issue) (xs : List Issue) → IsSafe x → All IsSafe xs → All IsSafe (insert_issue host x xs)
  unfolding insert_issue
  insert_issue-IsSafe x [] h k = (h, tt)
  insert_issue-IsSafe x (y ∷ xs) h k = elim (Bool-cases (after host x y)) [
    | inl e ↦ rw e (k.0, insert_issue-IsSafe x xs h k.1)
    | inr e ↦ rw e (h, k)
  ]

  sort-IsSafe :
      (issues : List Issue) → All IsSafe issues → All IsSafe (sort_issues_for_dispatch host issues)
  unfolding sort_issues_for_dispatch
  sort-IsSafe [] h = tt
  sort-IsSafe (x ∷ issues) h =
      insert_issue-IsSafe x (sort_issues_for_dispatch host issues) h.0 (sort-IsSafe issues h.1)

  All-precedes :
      (x : Issue) (xs : List Issue)
      → IsSafe x
      → All IsSafe xs
      → All (λ y. after host x y ≡ false) xs
      → All (λ y. precedes y x ≡ false) xs
  All-precedes x [] h k sorted = tt
  All-precedes x (y ∷ xs) h k sorted =
      (sym (after-precedes x y h k.0) ∙ sorted.0, All-precedes x xs h k.1 sorted.1)

  IsSorted-IsOrdered : (xs : List Issue) → All IsSafe xs → IsSorted xs → IsOrdered xs
  IsSorted-IsOrdered [] k sorted = tt
  IsSorted-IsOrdered (x ∷ xs) k sorted =
      (All-precedes x xs k.0 k.1 sorted.0, IsSorted-IsOrdered xs k.1 sorted.1)

  keep-is_level :
      (k : Issue) (xs : List Issue)
      → IsSafe k
      → All IsSafe xs
      → keep (is_level k) xs ≡ keep (is_tied k) xs
  unfolding keep
  keep-is_level k [] h safe = refl
  keep-is_level k (x ∷ xs) h safe =
      rw (after-precedes k x h safe.0, after-precedes x k safe.0 h)
        (ground (arith, keep-is_level k xs h safe.1))

  -- The sorted list holds the issues that were given, as often; an issue with a smaller priority
  -- number stands first and one without a priority last, then the one that was created first and one
  -- without a date last, then the one whose identifier is first; and those that are level in all of
  -- this, as `k` is, keep their order. Priorities and dates are below the greatest safe integer.
  pub sort_issues_for_dispatch_lem :
      (issues : List Issue) (k : Issue)
      → All IsSafe issues
      → IsSafe k
      → Perm (sort_issues_for_dispatch host issues) issues
        × IsOrdered (sort_issues_for_dispatch host issues)
        × (keep (is_level k) (sort_issues_for_dispatch host issues) ≡ keep (is_level k) issues)
  sort_issues_for_dispatch_lem issues k safe here =
      let (same, sorted, stable) = sort_keeps issues in
      let safe_sorted = sort-IsSafe issues safe in
      (
        same,
        IsSorted-IsOrdered (sort_issues_for_dispatch host issues) safe_sorted sorted,
        keep-is_level k (sort_issues_for_dispatch host issues) here safe_sorted
            ∙ (stable k ∙ sym (keep-is_level k issues here safe)),
      )
