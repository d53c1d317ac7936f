-- ===== src/Automation/Scheduler.antt =====
-- src/automation/scheduler.ts: the entries of the scheduler and the tasks it has at node-cron.
-- `live` holds the tasks that were scheduled and are not destroyed, by the number of their call,
-- with the configuration each runs.
pub mod Laws
pub mod Syncs
pub mod Configs
pub mod Runs
use risoluto.Prelude.{
  ℕ, zero, suc, ◌-◌, ◌+◌, Bool, true, false, not, ◌&&◌, List, [], ◌∷◌, ◌++◌, Option, none, some,
  map, Dict, get, put, delete, keys, values, has, includes, add_all, Text, text_eq, nat_eq, codes,
  if◌then◌else◌, ◌==◌,
}

pub data AutomationMode : Type 0 where
  implement : AutomationMode
  report : AutomationMode
  findings : AutomationMode

pub record AutomationConfig : Type 0 where
  pub name : Text
  pub schedule : Text
  pub mode : AutomationMode
  pub prompt : Text
  pub enabled : Bool
  pub repo_url : Option Text

pub record ScheduledAutomationEntry : Type 0 where
  pub config : AutomationConfig
  pub signature : Text
  pub task : Option ℕ
  pub valid : Bool
  pub last_error : Option Text

-- The listeners at the configuration store, and whether the scheduler holds the function that ends the
-- last of them.
pub record Subscription : Type 0 where
  pub listeners : ℕ
  pub has_unsubscribe : Bool

-- `this.unsubscribe = configStore.subscribe(..)`: a function that was held is lost.
abbrev pub subscribe : Subscription → Subscription
subscribe p = record { listeners = p.listeners + 1; has_unsubscribe = true }

-- `this.unsubscribe?.(); this.unsubscribe = null`
abbrev pub unsubscribe : Subscription → Subscription
unsubscribe p = record {
  listeners = if p.has_unsubscribe then p.listeners - 1 else p.listeners;
  has_unsubscribe = false;
}

pub record AutomationScheduler : Type 0 where
  pub entries : Dict Text ScheduledAutomationEntry
  pub subscription : Subscription
  pub live : Dict ℕ AutomationConfig
  pub next_task : ℕ

abbrev pub new_scheduler : AutomationScheduler
new_scheduler = record {
  entries = [];
  subscription = record { listeners = 0; has_unsubscribe = false };
  live = [];
  next_task = 0;
}

-- `task?.destroy()`
unfoldable pub destroy : Option ℕ → AutomationScheduler → AutomationScheduler
destroy none s = s
destroy (some t) s = record s { live = delete s.live t }

abbrev pub config_names : List AutomationConfig → List Text
config_names [] = []
config_names (c ∷ cs) = c.name ∷ config_names cs

abbrev pub drop_found :
    Text → Option ScheduledAutomationEntry → AutomationScheduler → AutomationScheduler
drop_found name none s = s
drop_found name (some entry) s = record (destroy entry.task s) {
  entries = delete (destroy entry.task s).entries name;
}

abbrev pub drop_missing : List Text → AutomationScheduler → Text → AutomationScheduler
drop_missing names s name =
    if includes names name then s else drop_found name (get s.entries name) s

-- The entries that have no configuration left.
unfoldable pub drop_all_missing : List Text → List Text → AutomationScheduler → AutomationScheduler
drop_all_missing names [] s = s
drop_all_missing names (k ∷ ks) s = drop_all_missing names ks (drop_missing names s k)

-- `validate` is `cron.validate`, `stringify` is `JSON.stringify`.
module _ (validate : Text → Bool) (stringify : AutomationConfig → Text) where
  -- The notification and the log line on an invalid expression are output and left out.
  unfoldable pub create_entry :
      AutomationConfig → Text → AutomationScheduler → AutomationScheduler × ScheduledAutomationEntry
  create_entry config signature s =
      let entry : ScheduledAutomationEntry = record {
        config = config;
        signature = signature;
        task = none;
        valid = true;
        last_error = none;
      } in
      if not config.enabled
      then (s, entry)
      else if not (validate config.schedule)
      then (
        s,
        record entry {
          valid = false;
          last_error = some (
              codes "Invalid cron expression for automation "
              ++ (config.name ++ (codes ": " ++ config.schedule)));
        },
      )
      else (
        record s { live = put s.live s.next_task config; next_task = s.next_task + 1 },
        record entry { task = some s.next_task },
      )

  abbrev pub entry_put : Text → AutomationScheduler × ScheduledAutomationEntry → AutomationScheduler
  entry_put name (s, entry) = record s { entries = put s.entries name entry }

  unfoldable pub replace :
      AutomationConfig → Option ScheduledAutomationEntry → AutomationScheduler → AutomationScheduler
  replace config none s = entry_put config.name (create_entry config (stringify config) s)
  replace config (some existing) s =
      if existing.signature == stringify config
      then s
      else entry_put config.name (create_entry config (stringify config) (destroy existing.task s))

  unfoldable pub sync_each : List AutomationConfig → AutomationScheduler → AutomationScheduler
  sync_each [] s = s
  sync_each (config ∷ configs) s = sync_each configs (replace config (get s.entries config.name) s)

  unfoldable pub sync : List AutomationConfig → AutomationScheduler → AutomationScheduler
  sync configs s =
      sync_each configs (drop_all_missing (add_all [] (config_names configs)) (keys s.entries) s)

  unfoldable pub start : List AutomationConfig → AutomationScheduler → AutomationScheduler
  start configs s =
      let synced = sync configs s in record synced { subscription = subscribe synced.subscription }

  -- A change of the configuration: each listener syncs.
  unfoldable pub told : ℕ → List AutomationConfig → AutomationScheduler → AutomationScheduler
  told zero configs s = s
  told (suc n) configs s = told n configs (sync configs s)

unfoldable pub destroy_all :
    List ScheduledAutomationEntry → AutomationScheduler → AutomationScheduler
destroy_all [] s = s
destroy_all (e ∷ es) s = destroy_all es (destroy e.task s)

unfoldable pub stop : AutomationScheduler → AutomationScheduler
stop s =
    record (destroy_all (values s.entries)
      (record s { subscription = unsubscribe s.subscription })) { entries = [] }
