-- ===== src/Orchestrator/State/Usage.antt =====
-- How token usage is counted.
use risoluto.Prelude.{
  ◌+◌, ◌≤◌, ◌≡◌, refl, List, [], ◌∷◌, Option, some, get, get-put, Text, text_eq, arith, or_else,
}
use risoluto.Core.Types.{TokenUsageSnapshot}
use risoluto.Orchestrator.Runtime.{RunningEntry}
use risoluto.Orchestrator.State.{
  LifecycleState, CodexTotals, UsageMode, absolute_total, delta, empty_usage, usage_delta,
  add_totals, session_key, previous_usage, apply_usage_event_in_state,
}

-- No count of the first is above that of the second.
abbrev pub IsUpTo : TokenUsageSnapshot → TokenUsageSnapshot → Type 0
IsUpTo u v =
    (u.input_tokens ≤ v.input_tokens)
    × (u.output_tokens ≤ v.output_tokens)
    × (u.total_tokens ≤ v.total_tokens)

-- The snapshots never go down.
abbrev pub IsGrowing : TokenUsageSnapshot → List TokenUsageSnapshot → Type 0
IsGrowing u [] = Unit
IsGrowing u (v ∷ us) = IsUpTo u v × IsGrowing v us

abbrev pub last_usage : TokenUsageSnapshot → List TokenUsageSnapshot → TokenUsageSnapshot
last_usage u [] = u
last_usage u (v ∷ us) = last_usage v us

-- A run of events of one mode for one entry.
pub apply_events :
    UsageMode
    → LifecycleState
    → RunningEntry
    → List TokenUsageSnapshot
    → LifecycleState × RunningEntry
apply_events mode s entry [] = (s, entry)
apply_events mode s entry (u ∷ us) =
    let (s', entry') = apply_usage_event_in_state s entry u mode in apply_events mode s' entry' us

-- The totals, less what was counted before, moved from `u` to `v`.
abbrev pub MovedBy : CodexTotals → TokenUsageSnapshot → CodexTotals → TokenUsageSnapshot → Type 0
MovedBy before u after v =
    (after.input_tokens + u.input_tokens ≡ before.input_tokens + v.input_tokens)
    × (after.output_tokens + u.output_tokens ≡ before.output_tokens + v.output_tokens)
    × (after.total_tokens + u.total_tokens ≡ before.total_tokens + v.total_tokens)

abbrev pub seen_usage : LifecycleState → RunningEntry → TokenUsageSnapshot
seen_usage s entry = or_else (previous_usage s (session_key entry.session_id)) empty_usage

absolute_step :
    (s : LifecycleState) (entry : RunningEntry) (id : Text) (u : TokenUsageSnapshot)
    → session_key entry.session_id ≡ some id
    → let (s', entry') = apply_usage_event_in_state s entry u absolute_total in
      (seen_usage s' entry' ≡ u) × (entry'.session_id ≡ entry.session_id)
unfolding apply_usage_event_in_state
absolute_step s entry id u h = (rw h (ground (arith, get-put s.session_usage_totals id id u)), refl)

usage_delta-MovedBy :
    (t : CodexTotals) (p : Option TokenUsageSnapshot) (u : TokenUsageSnapshot)
    → IsUpTo (or_else p empty_usage) u
    → MovedBy t (or_else p empty_usage) (add_totals t (usage_delta p u)) u
unfolding usage_delta
usage_delta-MovedBy t p u h = omega arith

absolute_totals :
    (s : LifecycleState) (entry : RunningEntry) (id : Text) (u : TokenUsageSnapshot)
    → session_key entry.session_id ≡ some id
    → IsUpTo (seen_usage s entry) u
    → MovedBy s.codex_totals
        (seen_usage s entry)
        (apply_usage_event_in_state s entry u absolute_total).0.codex_totals
        u
unfolding apply_usage_event_in_state
absolute_totals s entry id u h le =
    rw h (usage_delta-MovedBy s.codex_totals (get s.session_usage_totals id) u (rw h at le))

absolute_run :
    (s : LifecycleState) (entry : RunningEntry) (id : Text) (us : List TokenUsageSnapshot)
    → session_key entry.session_id ≡ some id
    → IsGrowing (seen_usage s entry) us
    → MovedBy s.codex_totals
        (seen_usage s entry)
        (apply_events absolute_total s entry us).0.codex_totals
        (last_usage (seen_usage s entry) us)
unfolding apply_events
absolute_run s entry id [] h grow = (refl, refl, refl)
absolute_run s entry id (u ∷ us) h (le, grow) =
    let (s', entry') = apply_usage_event_in_state s entry u absolute_total in
    let (seen, session) = absolute_step s entry id u h in
    let ih = absolute_run s' entry' id us (rw session h) (rw seen grow) in
    let later : MovedBy s'.codex_totals u (apply_events absolute_total s' entry' us).0.codex_totals
        (last_usage u us) =
      rw seen at ih in
    omega (arith, later, absolute_totals s entry id u h le)

final_absolute :
    (s : LifecycleState) (entry : RunningEntry) (u : TokenUsageSnapshot)
    (us : List TokenUsageSnapshot)
    → (apply_events absolute_total s entry (u ∷ us)).1.token_usage ≡ some (last_usage u us)
unfolding apply_events apply_usage_event_in_state
final_absolute s entry u [] = refl
final_absolute s entry u (v ∷ us) =
    let (s', entry') = apply_usage_event_in_state s entry u absolute_total in
    final_absolute s' entry' v us

-- Snapshots of a session that never go down are counted once: the totals grow by what the last
-- snapshot adds to the first one known of the session, and the entry keeps the last snapshot.
pub apply_events-absolute :
    (s : LifecycleState) (entry : RunningEntry) (id : Text) (u : TokenUsageSnapshot)
    (us : List TokenUsageSnapshot)
    → session_key entry.session_id ≡ some id
    → IsGrowing (seen_usage s entry) (u ∷ us)
    → MovedBy s.codex_totals
        (seen_usage s entry)
        (apply_events absolute_total s entry (u ∷ us)).0.codex_totals
        (last_usage u us)
      × ((apply_events absolute_total s entry (u ∷ us)).1.token_usage ≡ some (last_usage u us))
apply_events-absolute s entry id u us h grow =
    (absolute_run s entry id (u ∷ us) h grow, final_absolute s entry u us)

-- Increments go to the totals and to the entry alike.
pub apply_events-delta :
    (s : LifecycleState) (entry : RunningEntry) (us : List TokenUsageSnapshot)
    → let (s', entry') = apply_events delta s entry us in
      MovedBy s.codex_totals
        (or_else entry.token_usage empty_usage)
        s'.codex_totals
        (or_else entry'.token_usage empty_usage)
unfolding apply_events apply_usage_event_in_state
apply_events-delta s entry [] = (refl, refl, refl)
apply_events-delta s entry (u ∷ us) =
    let (s', entry') = apply_usage_event_in_state s entry u delta in
    omega (arith, apply_events-delta s' entry' us)
