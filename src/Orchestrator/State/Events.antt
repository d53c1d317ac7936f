-- ===== src/Orchestrator/State/Events.antt =====
-- The bounded list of recent events, and the claims.
use risoluto.Prelude.{
  drop-nil, ℕ, ◌+◌, ◌-◌, ◌≤◌, false, ◌≡◌, sym, ap, ◌∙◌, List, [], ◌∷◌, ◌++◌, length, drop, text_eq,
  arith, ltb, ltb→lt, length-append, length-drop, drop-append, drop-drop, Bool-cases, inl, inr,
}
use mathlib.Core.List.{append_assoc, append-nil}
use risoluto.Orchestrator.State.{push_bounded}

le_of_ltb : (a b : ℕ) → ltb a b ≡ false → b ≤ a
le_of_ltb a b h = ground arith

module _ {ℓ} {A : Type ℓ} (max_events : ℕ) where
  -- The events pushed one after the other.
  pub push_each : List A → List A → List A
  push_each events [] = events
  push_each events (e ∷ es) = push_each (push_bounded max_events events e) es

  abbrev pub last_events : List A → List A
  last_events history = drop (length history - max_events) history

  push_bounded-last_events :
      (history : List A) (e : A)
      → push_bounded max_events (last_events history) e ≡ last_events (history ++ e ∷ [])
  unfolding push_bounded
  push_bounded-last_events history e =
      let k = length history - max_events in
      let pushed = last_events history ++ e ∷ [] in
      let same : pushed ≡ drop k (history ++ e ∷ []) =
        sym (drop-append k history (e ∷ []) (omega arith)) in
      let size : length pushed ≡ length history - k + 1 =
        omega (arith, length-append (last_events history) (e ∷ []), length-drop k history) in
      let whole : length (history ++ e ∷ []) ≡ length history + 1 =
        length-append history (e ∷ []) in
      elim (Bool-cases (ltb max_events (length pushed))) [
        | inl over ↦ rw over (
            ap (drop (length pushed - max_events)) same
            ∙ drop-drop (length pushed - max_events) k (history ++ e ∷ [])
            ∙ ap (λ j. drop j (history ++ e ∷ []))
                (omega (arith, size, whole, ltb→lt max_events (length pushed) over)))
        | inr under ↦ rw under (
            same
            ∙ ap (λ j. drop j (history ++ e ∷ []))
                (omega (arith, size, whole, le_of_ltb max_events (length pushed) under)))
      ]

  push_each-last_events :
      (history es : List A) → push_each (last_events history) es ≡ last_events (history ++ es)
  unfolding push_each
  push_each-last_events history [] = ap last_events (sym (append-nil history))
  push_each-last_events history (e ∷ es) = rw (push_bounded-last_events history e) (
      push_each-last_events (history ++ e ∷ []) es
      ∙ ap last_events (append_assoc history (e ∷ []) es))

  -- What is kept is always the last events of the whole history, at most the bound.
  pub push_each-eq :
      (es : List A) → (push_each [] es ≡ last_events es) × (length (push_each [] es) ≤ max_events)
  unfolding push_each
  push_each-eq es =
      let same : push_each [] es ≡ last_events es = rw drop-nil at (push_each-last_events [] es) in
      (same, omega (arith, ap length same, length-drop (length es - max_events) es))
