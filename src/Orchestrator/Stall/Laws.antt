-- ===== src/Orchestrator/Stall/Laws.antt =====
-- Which workers the stall detector aborts.
use risoluto.Prelude.{
  ℕ, ◌+◌, ◌-◌, ◌≤◌, Bool, true, false, ◌&&◌, ltb, codes, ◌≡◌, refl, List, [], ◌∷◌, ◌++◌, Option,
  none, some, Dict, get, values, length, keep, Text, text_eq, arith, if◌then◌else◌, length-drop,
}
use risoluto.Core.Types.{ServiceConfig}
use risoluto.Orchestrator.Runtime.{stopping, RunningEntry, RecentEvent}
use risoluto.Orchestrator.State.{LifecycleState, push_recent_event_in_state, max_recent_events}
use risoluto.Orchestrator.Stall.{
  is_stalled, kill, detect, push_all, max_stall_events, detect_and_kill_stalled_workers,
}

abbrev pub after_scan :
    (RunningEntry → Bool)
    → (RunningEntry → RunningEntry)
    → Option RunningEntry
    → Option RunningEntry
after_scan stalled killed none = none
after_scan stalled killed (some entry) = some (if stalled entry then killed entry else entry)

module _ (now_ms : ℕ) (now_iso : Text) (message : ℕ → Text) where
  pub detect_lem :
      (timeout_ms : ℕ) (entries : Dict Text RunningEntry) (id : Text)
      → let found = detect now_ms now_iso message timeout_ms entries in
        (get found.entries id
          ≡ after_scan
              (is_stalled now_ms now_iso message timeout_ms)
              (kill now_ms now_iso message)
              (get entries id))
        × (length found.events
            ≡ length (keep (is_stalled now_ms now_iso message timeout_ms) (values entries)))
  unfolding detect get keep
  detect_lem timeout_ms [] id = (refl, refl)
  detect_lem timeout_ms ((j, entry) ∷ entries) id = ground (arith, detect_lem timeout_ms entries id)

  pub push_all_lem :
      (s : LifecycleState) (events : List RecentEvent)
      → let s' = push_all now_ms now_iso message s events in
        (s'.running_entries ≡ s.running_entries)
        × (s'.retry_entries ≡ s.retry_entries)
        × (s'.claimed_issue_ids ≡ s.claimed_issue_ids)
  unfolding push_recent_event_in_state
  push_all_lem s [] = (refl, refl, refl)
  push_all_lem s (event ∷ events) =
      push_all_lem (push_recent_event_in_state s event max_recent_events) events

  -- A worker that is to be aborted: it is not aborted yet and has been silent for longer.
  abbrev pub is_silent : ℕ → RunningEntry → Bool
  is_silent timeout_ms entry =
      elim entry.abort_reason [ none ↦ true | some reason ↦ false ]
      && ltb (entry.last_event_at_ms + timeout_ms) now_ms

  abbrev pub aborted : RunningEntry → RunningEntry
  aborted entry = record entry { abort_reason = some (codes "stalled"); status = stopping }

  scan_silent :
      (timeout_ms : ℕ) (entry : RunningEntry)
      → is_stalled now_ms now_iso message timeout_ms entry ≡ is_silent timeout_ms entry
  scan_silent timeout_ms entry = ground arith

  keep_silent :
      (timeout_ms : ℕ) (entries : List RunningEntry)
      → keep (is_stalled now_ms now_iso message timeout_ms) entries
        ≡ keep (is_silent timeout_ms) entries
  unfolding keep
  keep_silent timeout_ms [] = refl
  keep_silent timeout_ms (entry ∷ entries) =
      ground (arith, keep_silent timeout_ms entries, scan_silent timeout_ms entry)

  after_silent :
      (timeout_ms : ℕ) (found : Option RunningEntry)
      → after_scan
          (is_stalled now_ms now_iso message timeout_ms)
          (kill now_ms now_iso message)
          found
        ≡ after_scan (is_silent timeout_ms) aborted found
  after_silent timeout_ms none = refl
  after_silent timeout_ms (some entry) = rw (scan_silent timeout_ms entry) refl

  -- With a timeout, exactly the workers that are not aborted yet and have been silent for longer are
  -- aborted, as stalled, and are stopping; all other entries stay as they are, the number of them is
  -- returned, and at most a hundred stall events are kept. Without a timeout nothing changes.
  pub detect_and_kill_stalled_workers_lem :
      (config : ServiceConfig) (s : LifecycleState) (id : Text)
      → let timeout_ms = config.codex.stall_timeout_ms in
        let (s', killed) = detect_and_kill_stalled_workers now_ms now_iso message config s in
        (timeout_ms ≡ 0 → (s' ≡ s) × (killed ≡ 0))
        × (1 ≤ timeout_ms
            → (get s'.running_entries id
                ≡ after_scan (is_silent timeout_ms) aborted (get s.running_entries id))
              × (killed ≡ length (keep (is_silent timeout_ms) (values s.running_entries)))
              × (length s'.stall_events ≤ 100))
  unfolding detect_and_kill_stalled_workers
  detect_and_kill_stalled_workers_lem config s id =
      let timeout_ms = config.codex.stall_timeout_ms in
      let found = detect now_ms now_iso message timeout_ms s.running_entries in
      let all_events = s.stall_events ++ found.events in
      ground (
        arith,
        detect_lem timeout_ms s.running_entries id,
        after_silent timeout_ms (get s.running_entries id),
        keep_silent timeout_ms (values s.running_entries),
        push_all_lem (record s { running_entries = found.entries }) found.pushed,
        length-drop (length all_events - max_stall_events) all_events,
      )
