-- ===== src/Orchestrator/Queue/Seeds.antt =====
-- Which attempt of an issue is taken as its latest.
use risoluto.Prelude.{
  true, false, ◌||◌, ◌≡◌, refl, List, [], ◌∷◌, Option, none, some, Dict, get, put, get-put, All,
  Text, text_eq, nat_eq, arith, if◌then◌else◌, ==_iff,
}
use risoluto.Orchestrator.Runtime.{AttemptRecord}
use risoluto.Orchestrator.Queue.{text_greater, is_newer, latest_by_issue}

text_greater_trans :
    (a b c : Text) → text_greater a b ≡ true → text_greater b c ≡ true → text_greater a c ≡ true
unfolding text_greater
text_greater_trans [] b c h k = ground arith
text_greater_trans (x ∷ a) [] c h k = ground arith
text_greater_trans (x ∷ a) (y ∷ b) [] h k = refl
text_greater_trans (x ∷ a) (y ∷ b) (z ∷ c) h k = ground (arith, text_greater_trans a b c)

text_greater_irrefl : (a : Text) → text_greater a a ≡ false
unfolding text_greater
text_greater_irrefl [] = refl
text_greater_irrefl (x ∷ a) = ground (arith, text_greater_irrefl a)

-- The attempt, if it is for the issue, was not started after the one that is given.
abbrev pub IsNoLater : Text → AttemptRecord → AttemptRecord → Type 0
IsNoLater identifier latest attempt =
    attempt.issue_identifier ≡ identifier
    → text_greater attempt.started_at latest.started_at ≡ false

text_greater_split :
    (a b c : Text) → text_greater a c ≡ true → (text_greater a b || text_greater b c) ≡ true
unfolding text_greater
text_greater_split [] b c h = ground arith
text_greater_split (x ∷ a) [] [] h = refl
text_greater_split (x ∷ a) [] (z ∷ c) h = refl
text_greater_split (x ∷ a) (y ∷ b) [] h = ground arith
text_greater_split (x ∷ a) (y ∷ b) (z ∷ c) h = ground (arith, text_greater_split a b c)

first_lem :
    (x latest : AttemptRecord) (found : Option AttemptRecord)
    → (is_newer x found ≡ true → text_greater x.started_at latest.started_at ≡ false)
    → ((e : AttemptRecord)
        → found ≡ some e
        → is_newer x found ≡ false
        → text_greater e.started_at latest.started_at ≡ false)
    → text_greater x.started_at latest.started_at ≡ false
first_lem x latest none h k = h refl
first_lem x latest (some e) h k =
    ground (arith, k e refl, text_greater_split x.started_at e.started_at latest.started_at)

latest_from :
    (m : Dict Text AttemptRecord) (attempts : List AttemptRecord) (identifier : Text)
    (latest : AttemptRecord)
    → get (latest_by_issue m attempts) identifier ≡ some latest
    → All (IsNoLater identifier latest) attempts
      × ((e : AttemptRecord)
          → get m identifier ≡ some e
          → text_greater e.started_at latest.started_at ≡ false)
unfolding latest_by_issue
latest_from m [] identifier latest h =
    (tt, λ e k. ground (arith, text_greater_irrefl latest.started_at))
latest_from m (x ∷ attempts) identifier latest h =
    let newer = is_newer x (get m x.issue_identifier) in
    let m' = if newer then put m x.issue_identifier x else m in
    let (rest, seen) = latest_from m' attempts identifier latest h in
    let at_identifier = get-put m x.issue_identifier identifier x in
    (
      (
        (λ same.
            first_lem x latest (get m x.issue_identifier)
              (λ e. seen x (ground (arith, at_identifier, ==_iff x.issue_identifier identifier)))
              (λ e found old. seen e (ground (arith, old, found, same)))),
        rest,
      ),
      λ e found. ground (
        arith,
        seen x,
        seen e,
        at_identifier,
        ==_iff x.issue_identifier identifier,
        text_greater_trans x.started_at e.started_at latest.started_at,
      ),
    )

-- The attempt that is kept for an issue is one that no attempt of the same issue was started after.
pub latest_by_issue_lem :
    (attempts : List AttemptRecord) (identifier : Text) (latest : AttemptRecord)
    → get (latest_by_issue [] attempts) identifier ≡ some latest
    → All (IsNoLater identifier latest) attempts
latest_by_issue_lem attempts identifier latest h = (latest_from [] attempts identifier latest h).0
