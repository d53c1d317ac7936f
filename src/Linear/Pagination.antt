-- ===== src/Linear/Pagination.antt =====
-- src/linear/issue-pagination.ts: the checks of an answer, the pages of a query and the chunks of ids.
-- The service is the parameter `ask`: it answers a query for ids, at its n-th page, after a cursor.
-- `fuel` bounds the pages of a query; what takes more is `none`.
pub mod Laws
use risoluto.Prelude.{
  ℕ, zero, suc, ◌+◌, Bool, true, false, not, ◌&&◌, List, [], ◌∷◌, ◌++◌, Option, none, some, map,
  take, drop, length, Text, text_eq, codes, is_empty, ltb, if◌then◌else◌,
}
use risoluto.Config.Values.{
  Value, null, boolean, number, string, array, object, Items, nil, cons, Fields, end, get_field,
  as_record,
}

pub data LinearError : Type 0 where
  request_failed : Text → LinearError
  unknown_payload : Text → LinearError
  missing_end_cursor : ℕ → LinearError

pub data Fetched (A : Type 0) : Type 0 where
  fetched : A → Fetched A
  failed : LinearError → Fetched A

-- `and_then` goes on with what was fetched.
abbrev pub and_then : {A B : Type 0} → Fetched A → (A → Fetched B) → Fetched B
and_then (fetched a) f = f a
and_then (failed e) f = failed e

abbrev pub required : {A : Type 0} → Text → Option A → Fetched A
required message none = failed (unknown_payload message)
required message (some a) = fetched a

pub record IssuesConnection : Type 0 where
  pub nodes : List Value
  pub has_next_page : Bool
  pub end_cursor : Option Text

-- A non-null value of `typeof` "object": an array has none of the fields that are read.
abbrev pub as_object : Option Value → Option Fields
as_object (some (object fields)) = some fields
as_object (some (array items)) = some end
as_object (some null) = none
as_object (some (boolean b)) = none
as_object (some (number n)) = none
as_object (some (string s)) = none
as_object none = none

abbrev pub to_list : Items → List Value
to_list nil = []
to_list (cons v items) = v ∷ to_list items

abbrev pub as_list : Option Value → Option (List Value)
as_list (some (array items)) = some (to_list items)
as_list (some (object fields)) = none
as_list (some null) = none
as_list (some (boolean b)) = none
as_list (some (number n)) = none
as_list (some (string s)) = none
as_list none = none

abbrev pub as_flag : Option Value → Option Bool
as_flag (some (boolean b)) = some b
as_flag (some (object fields)) = none
as_flag (some null) = none
as_flag (some (array items)) = none
as_flag (some (number n)) = none
as_flag (some (string s)) = none
as_flag none = none

abbrev pub as_cursor : Option Value → Option (Option Text)
as_cursor (some (string s)) = some (some s)
as_cursor (some null) = some none
as_cursor (some (object fields)) = none
as_cursor (some (array items)) = none
as_cursor (some (number n)) = none
as_cursor (some (boolean b)) = none
as_cursor none = none

unfoldable pub extract_issues_connection : Fields → Fetched IssuesConnection
extract_issues_connection payload =
    and_then (required (codes "data object") (as_object (get_field payload (codes "data"))))
      (λ root.
        and_then
          (required (codes "issues connection") (as_record (get_field root (codes "issues"))))
          (λ issues.
            and_then
              (required (codes "issues.nodes array") (as_list (get_field issues (codes "nodes"))))
              (λ nodes.
                and_then
                  (required (codes "pageInfo object")
                    (as_record (get_field issues (codes "pageInfo"))))
                  (λ page_info.
                    and_then
                      (required (codes "boolean pageInfo.hasNextPage")
                        (as_flag (get_field page_info (codes "hasNextPage"))))
                      (λ has_next_page.
                        and_then
                          (required (codes "pageInfo.endCursor")
                            (as_cursor (get_field page_info (codes "endCursor"))))
                          (λ end_cursor. fetched (record {
                            nodes = nodes;
                            has_next_page = has_next_page;
                            end_cursor = end_cursor;
                          })))))))

abbrev pub is_cursor : Option Text → Bool
is_cursor none = false
is_cursor (some cursor) = not (is_empty cursor)

module _ {B : Type 0} (normalize_issue : Value → B)
    (ask : List Text → ℕ → Option Text → Fetched Fields) where
  abbrev pub page_end :
      (Option Text → List B → Option (Fetched (List B)))
      → List B
      → Fetched IssuesConnection
      → Option (Fetched (List B))
  page_end again issues (failed e) = some (failed e)
  page_end again issues (fetched connection) =
      let all_issues = issues ++ map normalize_issue connection.nodes in
      if connection.has_next_page && not (is_cursor connection.end_cursor)
      then some (failed (missing_end_cursor (length all_issues)))
      else if connection.has_next_page
      then again connection.end_cursor all_issues
      else some (fetched all_issues)

  unfoldable pub paginate_loop :
      ℕ → ℕ → List Text → Option Text → List B → Option (Fetched (List B))
  paginate_loop zero n ids after issues = none
  paginate_loop (suc fuel) n ids after issues =
      page_end (λ next all_issues. paginate_loop fuel (n + 1) ids next all_issues) issues
        (and_then (ask ids n after) extract_issues_connection)

  unfoldable pub paginate_query : ℕ → List Text → Option (Fetched (List B))
  paginate_query fuel ids = paginate_loop fuel 0 ids none []

  abbrev pub chunk_end :
      (List B → Option (Fetched (List B)))
      → List B
      → Option (Fetched (List B))
      → Option (Fetched (List B))
  chunk_end again results none = none
  chunk_end again results (some (failed e)) = some (failed e)
  chunk_end again results (some (fetched issues)) = again (results ++ issues)

  -- The loop over the chunks takes a step of `steps` each; the results are flat from the start.
  unfoldable pub chunk_loop : ℕ → ℕ → ℕ → List Text → ℕ → List B → Option (Fetched (List B))
  chunk_loop zero fuel page_size ids index results = none
  chunk_loop (suc steps) fuel page_size ids index results =
      if ltb index (length ids)
      then chunk_end (λ next. chunk_loop steps fuel page_size ids (index + page_size) next) results
          (paginate_query fuel (take page_size (drop index ids)))
      else some (fetched results)

  unfoldable pub fetch_issue_states_by_ids : ℕ → ℕ → List Text → Option (Fetched (List B))
  fetch_issue_states_by_ids fuel page_size ids = chunk_loop (length ids + 1) fuel page_size ids 0 []

  -- The rest of the variables and the text of the query are those of `ask`.
  unfoldable pub fetch_candidate_issues : ℕ → List Text → List Text → Option (Fetched (List B))
  fetch_candidate_issues fuel active_states terminal_states =
      paginate_query fuel (active_states ++ terminal_states)

  unfoldable pub fetch_candidate_issues_by_state_ids : ℕ → List Text → Option (Fetched (List B))
  fetch_candidate_issues_by_state_ids fuel [] = some (fetched [])
  fetch_candidate_issues_by_state_ids fuel (id ∷ ids) = paginate_query fuel (id ∷ ids)

  unfoldable pub fetch_issues_by_states : ℕ → List Text → Option (Fetched (List B))
  fetch_issues_by_states fuel [] = some (fetched [])
  fetch_issues_by_states fuel (state ∷ states) = paginate_query fuel (state ∷ states)
