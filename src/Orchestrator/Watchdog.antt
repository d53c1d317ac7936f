-- ===== src/Orchestrator/Watchdog.antt =====
-- src/orchestrator/watchdog.ts: the periodic check of the orchestrator's health. The host writes the
-- numbers of a message and reads the dates; a date that it cannot read is in no window.
use risoluto.Prelude.{
  ℕ, ◌-◌, Bool, false, not, ◌&&◌, List, ◌++◌, Option, none, some, keep, length, ltb, leb, Text,
  codes, if◌then◌else◌,
}
use risoluto.Orchestrator.State.{StallEvent}

pub data HealthStatus : Type 0 where
  healthy degraded critical : HealthStatus

pub record WatchdogHealth : Type 0 where
  pub status : HealthStatus
  pub checked_at : Text
  pub running_count : ℕ
  pub recent_stalls : List StallEvent
  pub message : Text

abbrev pub stall_window_ms : ℕ
stall_window_ms = 300000

module _ (parse_date : Text → Option ℕ) (number : ℕ → Text) where
  abbrev pub is_from : ℕ → Option ℕ → Bool
  is_from cutoff_ms none = false
  is_from cutoff_ms (some at_ms) = leb cutoff_ms at_ms

  abbrev pub is_recent : ℕ → StallEvent → Bool
  is_recent now_ms stall = is_from (now_ms - stall_window_ms) (parse_date stall.at)

  -- The status and the message.
  abbrev pub verdict : ℕ → ℕ → ℕ → HealthStatus × Text
  verdict stall_count running_count queued_count =
      if ltb 0 stall_count
      then (degraded, number stall_count ++ codes " stall(s) detected in last 5 min")
      else if not (ltb 0 running_count) && ltb 0 queued_count
      then (critical, number queued_count ++ codes " issue(s) queued but no agents running")
      else (
        healthy,
        if ltb 0 running_count
            then number running_count ++ codes " agent(s) running"
            else codes "idle — no issues queued",
      )

  unfoldable pub run_check : ℕ → Text → ℕ → ℕ → List StallEvent → WatchdogHealth
  run_check now_ms checked_at running_count queued_count all_stalls =
      let recent_stalls = keep (is_recent now_ms) all_stalls in
      let (status, message) = verdict (length recent_stalls) running_count queued_count in
      record {
        status = status;
        checked_at = checked_at;
        running_count = running_count;
        recent_stalls = recent_stalls;
        message = message;
      }
