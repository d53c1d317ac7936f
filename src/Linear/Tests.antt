-- ===== src/Linear/Tests.antt =====
-- A service that gives an empty first page, then its issues with one of the ids.
use mathlib.Core.Path.{subst}
use mathlib.Core.List.{Perm}
use mathlib.Core.List.Perm
use risoluto.Prelude.{
  sym, keep, includes, Distinct, Text-discrete, ℕ, zero, suc, Bool, true, false, ◌≡◌, refl, ap,
  List, [], ◌∷◌, ◌++◌, Option, none, some, map, Text, text_eq, codes, arith,
}
use risoluto.Config.Values.{
  get_field, Value, null, boolean, number, string, array, object, Items, nil, cons, Fields, end,
  field,
}
use risoluto.Linear.Pagination.{
  extract_issues_connection, Fetched, fetched, to_list, fetch_issue_states_by_ids,
}
use risoluto.Linear.Pagination.Laws.{AnswersFrom, found_by, Serves, fetch_issue_states_by_ids_lem}

abbrev items_of : List Text → Items
items_of [] = nil
items_of (id ∷ ids) = cons (string id) (items_of ids)

abbrev page_of : Items → Bool → Value → Fields
page_of items has_next cursor =
    field (codes "data")
      (object (
        field (codes "issues")
          (object (
            field (codes "nodes") (array items) (
              field (codes "pageInfo")
                (object (
                  field (codes "hasNextPage") (boolean has_next)
                    (field (codes "endCursor") cursor end)))
                end)))
          end))
      end

abbrev id_of : Value → Text
id_of (string s) = s
id_of null = []
id_of (boolean b) = []
id_of (number n) = []
id_of (array items) = []
id_of (object fields) = []

-- The issues of the service, which are not in the order of the ids that are asked for below.
abbrev store : List Value
store = string (codes "c") ∷ string (codes "a") ∷ string (codes "b") ∷ []

abbrev to_items : List Value → Items
to_items [] = nil
to_items (v ∷ vs) = cons v (to_items vs)

abbrev service : List Text → ℕ → Option Text → Fetched Fields
service ids zero after = fetched (page_of nil true (string (codes "c")))
service ids (suc n) after =
    fetched (page_of (to_items (keep (λ v. includes ids (id_of v)) store)) false null)

list_again : (vs : List Value) → to_list (to_items vs) ++ [] ≡ vs
list_again [] = refl
list_again (v ∷ vs) = ap (λ l. v ∷ l) (list_again vs)

service-AnswersFrom : AnswersFrom id_of service id_of store 2 2
unfolding AnswersFrom Serves extract_issues_connection get_field Text-discrete
service-AnswersFrom chunk distinct pos small =
    let here = found_by id_of service id_of store chunk in
    (
      [] ∷ to_list (to_items here) ∷ [],
      (
        (some (codes "c"), (refl, (refl, (none, refl)))),
        (omega arith, subst (λ l. Perm l here) (sym (list_again here)) (Perm.refl here)),
      ),
    )

abbrev ids : List Text
ids = codes "a" ∷ codes "b" ∷ codes "c" ∷ []

ids-Distinct : Distinct ids
unfolding includes Text-discrete
ids-Distinct = (refl, (refl, (refl, tt)))

fetch_issue_states_by_ids_lem_example :
    (issues : List Text) × ((fetch_issue_states_by_ids id_of service 2 2 ids
        ≡ some (fetched issues))
      × Perm issues (map id_of (found_by id_of service id_of store ids)))
fetch_issue_states_by_ids_lem_example =
    fetch_issue_states_by_ids_lem id_of service id_of store 2 2 ids (omega arith)
      service-AnswersFrom ids-Distinct
