-- ===== src/Orchestrator/Worker/Events.antt =====
-- The handler of the agent's events, for an entry that stands in the state.
use risoluto.Prelude.{
  ℕ, ◌≤◌, ◌++◌, ◌-◌, ◌≡◌, refl, ap, ◌∙◌, List, [], ◌∷◌, Option, none, some, Text, text_eq, arith,
  length, first_some, length-append, length-drop, get, get-put, sym, ==_iff, ◌==◌, false,
}
use mathlib.Core.Path.{subst}
use risoluto.Core.Types.{Issue, TokenUsageSnapshot}
use risoluto.Orchestrator.Runtime.{RunningEntry, RecentEvent, StopSignal}
use risoluto.Orchestrator.State.{
  LifecycleState, UsageMode, absolute_total, delta, apply_usage_event_in_state,
  apply_absolute_usage_event_in_state, apply_delta_usage_event_in_state, push_event, push_bounded,
  push_recent_event_in_state, set_rate_limits_in_state, max_recent_events,
}
use risoluto.Orchestrator.Worker.{
  AgentEvent, usage_applied, heard_entry, limits_applied, on_agent_event, hear_event,
}

-- The two states agree on workers, retries and claims.
abbrev pub IsSameWork : LifecycleState → LifecycleState → Type 0
IsSameWork s s' =
    (s'.running_entries ≡ s.running_entries)
    × (s'.retry_entries ≡ s.retry_entries)
    × (s'.claimed_issue_ids ≡ s.claimed_issue_ids)

-- The usage of an event changes neither the work nor what the entry has heard.
usage_applied_lem :
    (s : LifecycleState) (entry : RunningEntry) (usage : Option TokenUsageSnapshot)
    (mode : Option UsageMode)
    → let (s', entry') = usage_applied (s, entry) usage mode in
      IsSameWork s s'
      × (s'.recent_events ≡ s.recent_events)
      × (entry'.last_stop_signal ≡ entry.last_stop_signal)
      × (entry'.issue ≡ entry.issue)
unfolding apply_usage_event_in_state apply_absolute_usage_event_in_state
    apply_delta_usage_event_in_state
usage_applied_lem s entry none mode = ((refl, refl, refl), refl, refl, refl)
usage_applied_lem s entry (some usage) none = ((refl, refl, refl), refl, refl, refl)
usage_applied_lem s entry (some usage) (some delta) = ((refl, refl, refl), refl, refl, refl)
usage_applied_lem s entry (some usage) (some absolute_total) = ground (arith)

push_bounded-le :
    (max_events : ℕ) (events : List RecentEvent) (event : RecentEvent)
    → length events ≤ max_events
    → length (push_bounded max_events events event) ≤ max_events
unfolding push_bounded
push_bounded-le max_events events event h =
    let pushed = events ++ event ∷ [] in
    ground
      (arith, length-append events (event ∷ []), length-drop (length pushed - max_events) pushed)

limits_applied_lem :
    (r : LifecycleState × RunningEntry) (limits : Option Text)
    → let (s', entry') = limits_applied r limits in
      IsSameWork r.0 s' × (s'.recent_events ≡ r.0.recent_events) × (entry' ≡ r.1)
unfolding set_rate_limits_in_state
limits_applied_lem (s, entry) none = ((refl, refl, refl), refl, refl)
limits_applied_lem (s, entry) (some limits) = ((refl, refl, refl), refl, refl)

pub on_agent_event-IsSameWork :
    (now_ms : ℕ) (s : LifecycleState) (entry : RunningEntry) (event : AgentEvent)
    → IsSameWork s (on_agent_event now_ms s entry event).0
unfolding on_agent_event push_event push_recent_event_in_state
on_agent_event-IsSameWork now_ms s entry event =
    let heard = heard_entry now_ms entry event in
    let pushed = push_event s event.recent in
    let used = (usage_applied_lem pushed heard event.usage event.usage_mode).0 in
    let kept =
      (limits_applied_lem (usage_applied (pushed, heard) event.usage event.usage_mode)
        event.rate_limits).0 in
    (kept.0 ∙ used.0, kept.1 ∙ used.1, kept.2 ∙ used.2)

on_agent_event_lem :
    (now_ms : ℕ) (s : LifecycleState) (entry : RunningEntry) (event : AgentEvent)
    → length s.recent_events ≤ max_recent_events
    → let (s', entry') = on_agent_event now_ms s entry event in
      IsSameWork s s'
      × (length s'.recent_events ≤ max_recent_events)
      × (entry'.last_stop_signal ≡ first_some event.stop_signal entry.last_stop_signal)
      × (entry'.issue ≡ entry.issue)
unfolding on_agent_event push_event push_recent_event_in_state set_rate_limits_in_state
on_agent_event_lem now_ms s entry event h =
    let heard = heard_entry now_ms entry event in
    let pushed = push_event s event.recent in
    let (used, events, signal, same) =
      usage_applied_lem pushed heard event.usage event.usage_mode in
    let (kept, later, whole) =
      limits_applied_lem (usage_applied (pushed, heard) event.usage event.usage_mode)
        event.rate_limits in
    let size = push_bounded-le max_recent_events s.recent_events event.recent h in
    (
      (kept.0 ∙ used.0, kept.1 ∙ used.1, kept.2 ∙ used.2),
      omega (arith, ap length later, ap length events, size),
      ap (λ (e : RunningEntry). e.last_stop_signal) whole ∙ signal,
      ap (λ (e : RunningEntry). e.issue) whole ∙ same,
    )

-- The events of an agent, one after the other, for the entry that then stands in the map.
abbrev pub heard_while :
    ℕ → LifecycleState → Text → Option RunningEntry → List AgentEvent → LifecycleState
heard_while now_ms s id none events = s
heard_while now_ms s id (some entry) [] = s
heard_while now_ms s id (some entry) (event ∷ events) =
    let s' = hear_event now_ms s id entry event in
    heard_while now_ms s' id (get s'.running_entries id) events

abbrev pub hear_each : ℕ → LifecycleState → Text → List AgentEvent → LifecycleState
hear_each now_ms s id events = heard_while now_ms s id (get s.running_entries id) events

-- The last signal that the events carry, or the earlier one.
abbrev pub last_signal : Option StopSignal → List AgentEvent → Option StopSignal
last_signal earlier [] = earlier
last_signal earlier (event ∷ events) = last_signal (first_some event.stop_signal earlier) events

-- What an entry is for, and the signal it has heard.
abbrev pub signal_and_issue : Option RunningEntry → Option (Option StopSignal × Issue)
signal_and_issue none = none
signal_and_issue (some entry) = some (entry.last_stop_signal, entry.issue)

hear_event_lem :
    (now_ms : ℕ) (s : LifecycleState) (id other : Text) (entry : RunningEntry) (event : AgentEvent)
    → length s.recent_events ≤ max_recent_events
    → let s' = hear_event now_ms s id entry event in
      ((id == other) ≡ false → get s'.running_entries other ≡ get s.running_entries other)
      × (s'.retry_entries ≡ s.retry_entries)
      × (s'.claimed_issue_ids ≡ s.claimed_issue_ids)
      × (length s'.recent_events ≤ max_recent_events)
      × (get s'.running_entries id ≡ some (on_agent_event now_ms s entry event).1)
unfolding hear_event
hear_event_lem now_ms s id other entry event h =
    let (work, size, last, same) = on_agent_event_lem now_ms s entry event h in
    let (s', entry') = on_agent_event now_ms s entry event in
    (
      λ e. ground (arith, get-put s'.running_entries id other entry', work.0),
      work.1,
      work.2,
      size,
      ground (arith, get-put s'.running_entries id id entry', ==_iff id id),
    )

heard_while_lem :
    (now_ms : ℕ) (s : LifecycleState) (id other : Text) (entry : RunningEntry)
    (events : List AgentEvent)
    → get s.running_entries id ≡ some entry
    → length s.recent_events ≤ max_recent_events
    → let s' = heard_while now_ms s id (some entry) events in
      (signal_and_issue (get s'.running_entries id)
        ≡ some (last_signal entry.last_stop_signal events, entry.issue))
      × ((id == other) ≡ false → get s'.running_entries other ≡ get s.running_entries other)
      × (s'.retry_entries ≡ s.retry_entries)
      × (s'.claimed_issue_ids ≡ s.claimed_issue_ids)
      × (length s'.recent_events ≤ max_recent_events)
heard_while_lem now_ms s id other entry [] here h =
    (ap signal_and_issue here, λ e. refl, refl, refl, h)
heard_while_lem now_ms s id other entry (event ∷ events) here h =
    let s' = hear_event now_ms s id entry event in
    let entry' = (on_agent_event now_ms s entry event).1 in
    let (kept, retries, claims, size, stands) = hear_event_lem now_ms s id other entry event h in
    let (work, bound, last, same) = on_agent_event_lem now_ms s entry event h in
    let (after, kept', retries', claims', size') =
      heard_while_lem now_ms s' id other entry' events stands size in
    subst
      (λ found.
        let t = heard_while now_ms s' id found events in
        (signal_and_issue (get t.running_entries id)
          ≡ some (
            last_signal (first_some event.stop_signal entry.last_stop_signal) events,
            entry.issue,
          ))
        × ((id == other) ≡ false → get t.running_entries other ≡ get s.running_entries other)
        × (t.retry_entries ≡ s.retry_entries)
        × (t.claimed_issue_ids ≡ s.claimed_issue_ids)
        × (length t.recent_events ≤ max_recent_events))
      (sym stands)
      (
        after
            ∙ ap (λ (p : Option StopSignal × Issue). some (last_signal p.0 events, p.1))
                (λ i. (last i, same i)),
        λ e. kept' e ∙ kept e,
        retries' ∙ retries,
        claims' ∙ claims,
        size',
      )

-- Whatever events the agent of a running worker sends, the worker's entry stays in the map with its
-- issue and with the last stop signal that any of them carried; the entries of all other workers,
-- the retries and the claims stay as they are, and the recent events stay within their bound.
pub hear_each_lem :
    (now_ms : ℕ) (s : LifecycleState) (id other : Text) (entry : RunningEntry)
    (events : List AgentEvent)
    → get s.running_entries id ≡ some entry
    → length s.recent_events ≤ max_recent_events
    → let s' = hear_each now_ms s id events in
      (signal_and_issue (get s'.running_entries id)
        ≡ some (last_signal entry.last_stop_signal events, entry.issue))
      × ((id == other) ≡ false → get s'.running_entries other ≡ get s.running_entries other)
      × (s'.retry_entries ≡ s.retry_entries)
      × (s'.claimed_issue_ids ≡ s.claimed_issue_ids)
      × (length s'.recent_events ≤ max_recent_events)
hear_each_lem now_ms s id other entry events here h =
    rw here (heard_while_lem now_ms s id other entry events here h)
