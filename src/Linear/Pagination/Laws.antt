-- ===== src/Linear/Pagination/Laws.antt =====
-- The pages and the chunks of src/linear/issue-pagination.ts: what is fetched, and that it ends.
use mathlib.Core.Path.{subst}
use mathlib.Core.List.{Perm, perm_middle}
use mathlib.Core.List.Perm
use risoluto.Prelude.{
  Bool, Distinct, includes, includes-append, keep, text_eq, false, ◌&&◌, ◌||◌, ◌==◌, ==_iff, ℕ,
  zero, suc, ◌+◌, ◌-◌, ◌≤◌, ◌<◌, true, false, ◌≡◌, refl, ap, sym, ◌∙◌, List, [], ◌∷◌, ◌++◌, Option,
  none, some, map, take, drop, drop-drop, length, length-drop, append_assoc, append_nil,
  length-take, Text, ltb, Bool-cases, inl, inr, arith,
}
use risoluto.Config.Values.{Value, Fields}
use risoluto.Linear.Pagination.{
  Fetched, fetched, and_then, IssuesConnection, extract_issues_connection, is_cursor, paginate_loop,
  paginate_query, chunk_loop, fetch_issue_states_by_ids,
}

take-drop : {A : Type 0} → (n : ℕ) (xs : List A) → take n xs ++ drop n xs ≡ xs
take-drop zero xs = refl
take-drop (suc n) [] = refl
take-drop (suc n) (x ∷ xs) = ap (λ l. x ∷ l) (take-drop n xs)

length_zero : {A : Type 0} → (xs : List A) → length xs ≡ 0 → xs ≡ []
length_zero [] h = refl
length_zero (x ∷ xs) h = absurd (omega (arith, h))

drop-Distinct : (n : ℕ) (ids : List Text) → Distinct ids → Distinct (drop n ids)
drop-Distinct zero ids h = h
drop-Distinct (suc n) [] h = h
drop-Distinct (suc n) (id ∷ ids) h = drop-Distinct n ids h.1

-- A list without repetition, cut in two: both parts are so, and have nothing in common.
append_apart :
    (xs ys : List Text)
    → Distinct (xs ++ ys)
    → Distinct xs × ((id : Text) → (includes xs id && includes ys id) ≡ false)
unfolding includes
append_apart [] ys h = (tt, λ id. refl)
append_apart (x ∷ xs) ys h =
    let (rest, apart) = append_apart xs ys h.1 in
    (
      (ground (arith, includes-append xs ys x, h.0), rest),
      λ id. elim (Bool-cases (x == id)) [
        | inl e ↦
            ground
              (arith, apart id, includes-append xs ys x, h.0, ap (includes ys) ((==_iff x id).0 e))
        | inr e ↦ ground (arith, apart id)
      ],
    )

keep_split {ℓ} :
    {A : Type ℓ}
    → (p q r : A → Bool) (xs : List A) → ((a : A) → r a ≡ (p a || q a))
    → ((a : A) → (p a && q a) ≡ false)
    → Perm (keep p xs ++ keep q xs) (keep r xs)
unfolding keep
keep_split p q r [] either apart = Perm.refl []
keep_split p q r (x ∷ xs) either apart =
    let rest = keep_split p q r xs either apart in
    elim (Bool-cases (p x)) [
      | inl e ↦
          let no : q x ≡ false = ground (arith, apart x, e) in
          rw (either x, e, no) (Perm.cons x rest)
      | inr e ↦ elim (Bool-cases (q x)) [
        | inl f ↦
            rw (either x, e, f)
              (Perm.trans (perm_middle (keep p xs) (keep q xs)) (Perm.cons x rest))
        | inr f ↦ rw (either x, e, f) rest
      ]
    ]

map_append : {A B : Type 0} → (f : A → B) (xs ys : List A) → map f (xs ++ ys) ≡ map f xs ++ map f ys
map_append f [] ys = refl
map_append f (x ∷ xs) ys = ap (λ l. f x ∷ l) (map_append f xs ys)

abbrev pub flat : List (List Value) → List Value
flat [] = []
flat (nodes ∷ pages) = nodes ++ flat pages

module _ {B : Type 0} (normalize_issue : Value → B)
    (ask : List Text → ℕ → Option Text → Fetched Fields) where
  -- The page after a cursor, as it is read.
  abbrev answer : List Text → ℕ → Option Text → Fetched IssuesConnection
  answer ids n after = and_then (ask ids n after) extract_issues_connection

  -- The service has these pages left: each but the last gives the cursor of the next.
  unfoldable pub Serves : List Text → ℕ → Option Text → List (List Value) → Type 0
  Serves ids n after [] = ⊥
  Serves ids n after (nodes ∷ []) =
      (cursor : Option Text) × (answer ids n after
        ≡ fetched (record { nodes = nodes; has_next_page = false; end_cursor = cursor }))
  Serves ids n after (nodes ∷ next ∷ pages) =
      (cursor : Option Text) × ((is_cursor cursor ≡ true)
        × ((answer ids n after
              ≡ fetched (record { nodes = nodes; has_next_page = true; end_cursor = cursor }))
            × Serves ids (n + 1) cursor (next ∷ pages)))

  abbrev pub issues_of : List (List Value) → List B
  issues_of [] = []
  issues_of (nodes ∷ pages) = map normalize_issue nodes ++ issues_of pages

  paginate_loop_lem :
      (fuel n : ℕ) (ids : List Text) (after : Option Text) (issues : List B)
      (pages : List (List Value))
      → Serves ids n after pages
      → length pages ≤ fuel
      → paginate_loop normalize_issue ask fuel n ids after issues
        ≡ some (fetched (issues ++ issues_of pages))
  unfolding paginate_loop Serves
  paginate_loop_lem fuel n ids after issues [] serves enough = absurd serves
  paginate_loop_lem zero n ids after issues (nodes ∷ pages) serves enough =
      absurd (omega (arith, enough))
  paginate_loop_lem (suc fuel) n ids after issues (nodes ∷ []) serves enough =
      rw serves.1
        (ap (λ l. some (fetched (issues ++ l))) (sym (append_nil (map normalize_issue nodes))))
  paginate_loop_lem (suc fuel) n ids after issues (nodes ∷ next ∷ pages) serves enough =
      rw (serves.1.1.0, serves.1.0)
        (paginate_loop_lem fuel (n + 1) ids serves.0 (issues ++ map normalize_issue nodes)
            (next ∷ pages) serves.1.1.1 (omega (arith, enough))
          ∙ ap (λ l. some (fetched l))
              (append_assoc issues (map normalize_issue nodes) (issues_of (next ∷ pages))))

  -- The issues of the service with one of the ids, in the order of the service.
  abbrev pub found_by : (Value → Text) → List Value → List Text → List Value
  found_by id_of store ids = keep (λ v. includes ids (id_of v)) store

  -- The service has the issues `store`: it answers a query for 1 to `page_size` distinct ids with
  -- those that have one of the ids, in any order, in at most `fuel` pages.
  unfoldable pub AnswersFrom : (Value → Text) → List Value → ℕ → ℕ → Type 0
  AnswersFrom id_of store fuel page_size =
      (chunk : List Text)
      → Distinct chunk
      → 0 < length chunk
      → length chunk ≤ page_size
      → (pages : List (List Value)) × (Serves chunk 0 none pages
          × ((length pages ≤ fuel) × Perm (flat pages) (found_by id_of store chunk)))

  issues_of-flat : (pages : List (List Value)) → issues_of pages ≡ map normalize_issue (flat pages)
  issues_of-flat [] = refl
  issues_of-flat (nodes ∷ pages) =
      ap (λ l. map normalize_issue nodes ++ l) (issues_of-flat pages)
      ∙ sym (map_append normalize_issue nodes (flat pages))

  -- What is fetched in the end: the issues so far and those of the ids that are left.
  abbrev HasFetched :
      (Value → Text) → List Value → List Text → List B → Option (Fetched (List B)) → Type 0
  HasFetched id_of store ids results answer =
      (issues : List B) × ((answer ≡ some (fetched (results ++ issues)))
        × Perm issues (map normalize_issue (found_by id_of store ids)))

  -- A chunk and the rest of the ids find what all of them find.
  chunk-Perm :
      (id_of : Value → Text) (store : List Value) (ids : List Text) (index page_size : ℕ)
      → Distinct ids
      → Perm
          (found_by id_of store (take page_size (drop index ids))
            ++ found_by id_of store (drop (index + page_size) ids))
          (found_by id_of store (drop index ids))
  chunk-Perm id_of store ids index page_size h =
      let left = drop index ids in
      let chunk = take page_size left in
      let rest = drop (index + page_size) ids in
      let whole : chunk ++ rest ≡ left =
        ap (λ l. chunk ++ l) (sym (drop-drop page_size index ids)) ∙ take-drop page_size left in
      let apart =
        append_apart chunk rest (subst Distinct (sym whole) (drop-Distinct index ids h)) in
      keep_split (λ v. includes chunk (id_of v)) (λ v. includes rest (id_of v))
        (λ v. includes left (id_of v)) store
        (λ v. ap (λ l. includes l (id_of v)) (sym whole) ∙ includes-append chunk rest (id_of v))
        (λ v. apart.1 (id_of v))

  chunk-Distinct :
      (ids : List Text) (index page_size : ℕ)
      → Distinct ids
      → Distinct (take page_size (drop index ids))
  chunk-Distinct ids index page_size h =
      let left = drop index ids in
      (append_apart (take page_size left) (drop page_size left)
        (subst Distinct (sym (take-drop page_size left)) (drop-Distinct index ids h))).0

  none_found : (id_of : Value → Text) (store : List Value) → found_by id_of store [] ≡ []
  unfolding keep includes
  none_found id_of [] = refl
  none_found id_of (v ∷ store) = none_found id_of store

  joined :
      (id_of : Value → Text) (store : List Value) (ids : List Text) (index page_size : ℕ)
      (pages : List (List Value)) (later : List B)
      → Distinct ids
      → Perm (flat pages) (found_by id_of store (take page_size (drop index ids)))
      → Perm later (map normalize_issue (found_by id_of store (drop (index + page_size) ids)))
      → Perm
          (issues_of pages ++ later)
          (map normalize_issue (found_by id_of store (drop index ids)))
  joined id_of store ids index page_size pages later h mine rest =
      let here = found_by id_of store (take page_size (drop index ids)) in
      let there = found_by id_of store (drop (index + page_size) ids) in
      Perm.trans
        (subst (λ l. Perm (l ++ later) (map normalize_issue here ++ map normalize_issue there))
          (sym (issues_of-flat pages)) (Perm.append (Perm.map normalize_issue mine) rest))
        (subst (λ l. Perm l (map normalize_issue (found_by id_of store (drop index ids))))
          (map_append normalize_issue here there)
          (Perm.map normalize_issue (chunk-Perm id_of store ids index page_size h)))

  chunk_loop_lem :
      (id_of : Value → Text) (store : List Value) (steps fuel page_size : ℕ) (ids : List Text)
      (index : ℕ) (results : List B)
      → 0 < page_size
      → AnswersFrom id_of store fuel page_size
      → Distinct ids
      → length ids - index < steps
      → HasFetched id_of store
          (drop index ids)
          results
          (chunk_loop normalize_issue ask steps fuel page_size ids index results)
  unfolding chunk_loop paginate_query AnswersFrom
  chunk_loop_lem id_of store zero fuel page_size ids index results pos answers h enough =
      absurd (omega (arith, enough))
  chunk_loop_lem id_of store (suc steps) fuel page_size ids index results pos answers h enough =
      elim (Bool-cases (ltb index (length ids))) [
        | inl more ↦
            let chunk = take page_size (drop index ids) in
            let served =
              answers chunk (chunk-Distinct ids index page_size h)
                (ground (arith, length-take page_size (drop index ids), length-drop index ids))
                (ground (arith, length-take page_size (drop index ids))) in
            let mine = issues_of served.0 in
            let later =
              chunk_loop_lem id_of store steps fuel page_size ids (index + page_size)
                (results ++ mine) pos answers h (ground (arith, enough)) in
            rw (more, paginate_loop_lem fuel 0 chunk none [] served.0 served.1.0 served.1.1.0)
              (
                mine ++ later.0,
                (
                  later.1.0 ∙ ap (λ l. some (fetched l)) (append_assoc results mine later.0),
                  joined id_of store ids index page_size served.0 later.0 h served.1.1.1 later.1.1,
                ),
              )
        | inr done ↦
            rw (done, length_zero (drop index ids) (ground (arith, length-drop index ids)))
              (
                [],
                (
                  ap (λ l. some (fetched l)) (sym (append_nil results)),
                  subst (λ l. Perm [] (map normalize_issue l)) (sym (none_found id_of store))
                      (Perm.refl []),
                ),
              )
      ]

  -- However many ids there are, the chunks end, and they fetch the issues that the service has with
  -- one of the ids, each as often as the service has it, in an order that is not said. The ids are
  -- distinct, the page size is not 0, and the service answers a query for a page's size of ids with
  -- its issues of these ids, in pages that end, at most `fuel` of them.
  pub fetch_issue_states_by_ids_lem :
      (id_of : Value → Text) (store : List Value) (fuel page_size : ℕ) (ids : List Text)
      → 0 < page_size
      → AnswersFrom id_of store fuel page_size
      → Distinct ids
      → (issues : List B) × ((fetch_issue_states_by_ids normalize_issue ask fuel page_size ids
            ≡ some (fetched issues))
          × Perm issues (map normalize_issue (found_by id_of store ids)))
  unfolding fetch_issue_states_by_ids
  fetch_issue_states_by_ids_lem id_of store fuel page_size ids pos answers h =
      chunk_loop_lem id_of store (length ids + 1) fuel page_size ids 0 [] pos answers h
        (omega arith)
