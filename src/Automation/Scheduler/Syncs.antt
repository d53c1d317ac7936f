-- ===== src/Automation/Scheduler/Syncs.antt =====
-- `sync` and `stop` of src/automation/scheduler.ts: what runs after them.
use risoluto.Prelude.{
  ℕ, ◌+◌, Bool, false, not, ◌&&◌, ◌||◌, ◌≡◌, refl, ap, sym, ◌∙◌, Option, none, some, get, put,
  get-put, Text, text_eq, nat_eq, is_some, or_else, if◌then◌else◌, ◌==◌, ==_iff, Bool-cases, inl,
  inr, arith,
}
use risoluto.Automation.Scheduler.{
  AutomationConfig, ScheduledAutomationEntry, AutomationScheduler, destroy, create_entry, entry_put,
  replace,
}
use risoluto.Automation.Scheduler.Laws.{
  Running, IsMatched, IsMatched-more, IsMatched-idle, with_task, running, IsScheduled, without,
  destroy-entries, destroyed_entry, without_k,
}

module _ (validate : Text → Bool) (stringify : AutomationConfig → Text) where
  -- Whether a configuration gets a task.
  abbrev pub is_live : AutomationConfig → Bool
  is_live c = c.enabled && validate c.schedule

  abbrev entry_task : AutomationConfig → AutomationScheduler → Option ℕ
  entry_task c s = if is_live c then some s.next_task else none

  created :
      (c : AutomationConfig) (signature : Text) (s : AutomationScheduler)
      → ((create_entry validate stringify c signature s).0.entries ≡ s.entries)
        × ((create_entry validate stringify c signature s).1.task ≡ entry_task c s)
  unfolding create_entry
  created c signature s = (ground arith, ground arith)

  created_entry :
      (c : AutomationConfig) (signature : Text) (s : AutomationScheduler)
      → let entry = (create_entry validate stringify c signature s).1 in
        (entry.config ≡ c)
        × ((entry.signature ≡ signature) × (entry.valid ≡ (not c.enabled || validate c.schedule)))
  unfolding create_entry
  created_entry c signature s = (ground arith, (ground arith, ground arith))

  created_live :
      (c : AutomationConfig) (signature : Text) (s : AutomationScheduler)
      → let t = (create_entry validate stringify c signature s).0 in
        (t.live ≡ (if is_live c then put s.live s.next_task c else s.live))
        × (t.next_task ≡ (if is_live c then s.next_task + 1 else s.next_task))
  unfolding create_entry
  created_live c signature s = (ground arith, ground arith)

  created-IsMatched :
      (c : AutomationConfig) (signature : Text) (s : AutomationScheduler) (r q : Running)
      → r c.name ≡ none
      → q c.name ≡ with_task (entry_task c s) c
      → ((j : Text) → (c.name == j) ≡ false → q j ≡ r j)
      → IsMatched r s.live s.next_task
      → IsMatched q
          (create_entry validate stringify c signature s).0.live
          (create_entry validate stringify c signature s).0.next_task
  created-IsMatched c signature s r q before after same i =
      let grown = created_live c signature s in
      rw (grown.0, grown.1)
        (elim (Bool-cases (is_live c)) [
          | inl e ↦
              rw e (IsMatched-more r q s.live s.next_task c before (ground (arith, after)) same i)
          | inr e ↦
              rw e
                (IsMatched-idle r q s.live s.next_task c.name before (ground (arith, after)) same i)
        ])

  -- A new entry is put where the task of the old one is destroyed.
  entry_put-IsScheduled :
      (c : AutomationConfig) (signature : Text) (s t : AutomationScheduler)
      → t.entries ≡ s.entries
      → IsMatched (without s c.name) t.live t.next_task
      → IsScheduled
          (entry_put validate stringify c.name (create_entry validate stringify c signature t))
  entry_put-IsScheduled c signature s t same i =
      let made = create_entry validate stringify c signature t in
      let kept = created c signature t in
      let formed = created_entry c signature t in
      let after = entry_put validate stringify c.name made in
      created-IsMatched c signature t (without s c.name) (running after) (without_k s c.name).0
        (ground (arith, get-put made.0.entries c.name c.name made.1, kept.1, formed.0))
        (λ j e.
          ground
            (arith, get-put made.0.entries c.name j made.1, kept.0, (without_k s c.name).1 j e))
        i

  -- An entry is what `createEntry` makes of its configuration.
  abbrev pub IsEntry : Text → ScheduledAutomationEntry → Type 0
  IsEntry k e =
      (e.config.name ≡ k)
      × ((e.signature ≡ stringify e.config)
          × ((is_some e.task ≡ is_live e.config)
              × (e.valid ≡ (not e.config.enabled || validate e.config.schedule))))

  abbrev pub AreEntries : AutomationScheduler → Type 0
  AreEntries s = (k : Text) (e : ScheduledAutomationEntry) → get s.entries k ≡ some e → IsEntry k e

  -- The configuration of the entry under a name.
  abbrev pub config_of : Option ScheduledAutomationEntry → Option AutomationConfig
  config_of none = none
  config_of (some e) = some e.config

  abbrev pub config_at : AutomationScheduler → Text → Option AutomationConfig
  config_at s k = config_of (get s.entries k)

  made-IsEntry :
      (c : AutomationConfig) (t : AutomationScheduler)
      → IsEntry c.name (create_entry validate stringify c (stringify c) t).1
  made-IsEntry c t =
      let kept = created c (stringify c) t in
      let formed = created_entry c (stringify c) t in
      rw (formed.0) (refl, (formed.1.0, (ground (arith, kept.1), formed.1.1)))

  entry_put-AreEntries :
      (c : AutomationConfig) (s t : AutomationScheduler)
      → t.entries ≡ s.entries
      → AreEntries s
      → AreEntries
          (entry_put validate stringify c.name (create_entry validate stringify c (stringify c) t))
  entry_put-AreEntries c s t same i k e h =
      let made = create_entry validate stringify c (stringify c) t in
      let kept = created c (stringify c) t in
      let formed = created_entry c (stringify c) t in
      elim (Bool-cases (c.name == k)) [
        | inl at ↦
            let found : some made.1 ≡ some e =
              ground (arith, get-put made.0.entries c.name k made.1) in
            let is_made : made.1 ≡ e = ap (λ o. or_else o made.1) found in
            rw (sym is_made, sym ((==_iff c.name k).0 at)) (made-IsEntry c t)
        | inr other ↦ i k e (ground (arith, get-put made.0.entries c.name k made.1, kept.0))
      ]

  entry_put-config :
      (c : AutomationConfig) (s t : AutomationScheduler) (k : Text)
      → t.entries ≡ s.entries
      → config_at
          (entry_put validate stringify c.name (create_entry validate stringify c (stringify c) t))
          k
        ≡ (if c.name == k then some c else config_at s k)
  entry_put-config c s t k same =
      let made = create_entry validate stringify c (stringify c) t in
      let kept = created c (stringify c) t in
      let formed = created_entry c (stringify c) t in
      ground (arith, get-put made.0.entries c.name k made.1, kept.0, formed.0)

  pub replace-IsScheduled :
      (c : AutomationConfig) (found : Option ScheduledAutomationEntry) (s : AutomationScheduler)
      → get s.entries c.name ≡ found
      → IsScheduled s
      → IsScheduled (replace validate stringify c found s)
  unfolding replace
  replace-IsScheduled c none s h i = entry_put-IsScheduled c (stringify c) s s refl (
      IsMatched-idle (running s) (without s c.name) s.live s.next_task c.name (ground (arith, h))
        (without_k s c.name).0 (without_k s c.name).1 i)
  replace-IsScheduled c (some existing) s h i =
      elim (Bool-cases (existing.signature == stringify c)) [
        | inl e ↦ rw e i
        | inr e ↦ rw e (
            entry_put-IsScheduled c (stringify c) s (destroy existing.task s)
              (destroy-entries existing.task s) (destroyed_entry c.name existing s h i))
      ]

  pub replace-AreEntries :
      (c : AutomationConfig) (found : Option ScheduledAutomationEntry) (s : AutomationScheduler)
      → AreEntries s
      → AreEntries (replace validate stringify c found s)
  unfolding replace
  replace-AreEntries c none s i = entry_put-AreEntries c s s refl i
  replace-AreEntries c (some existing) s i = elim (Bool-cases (existing.signature == stringify c)) [
    | inl e ↦ rw e i
    | inr e ↦
        rw e
          (entry_put-AreEntries c s (destroy existing.task s) (destroy-entries existing.task s) i)
  ]

  -- `JSON.stringify` gives two configurations different texts.
  abbrev pub IsFaithful : Type 0
  IsFaithful = (c d : AutomationConfig) → stringify c ≡ stringify d → c ≡ d

  pub replace_lem :
      (c : AutomationConfig) (found : Option ScheduledAutomationEntry) (s : AutomationScheduler)
      (k : Text)
      → IsFaithful
      → get s.entries c.name ≡ found
      → AreEntries s
      → config_at (replace validate stringify c found s) k
        ≡ (if c.name == k then some c else config_at s k)
  unfolding replace
  replace_lem c none s k f h i = entry_put-config c s s k refl
  replace_lem c (some existing) s k f h i = elim (Bool-cases (existing.signature == stringify c)) [
    | inl e ↦
        let same =
          f existing.config c
            (sym (i c.name existing h).1.0 ∙ (==_iff existing.signature (stringify c)).0 e) in
        rw e (elim (Bool-cases (c.name == k)) [
          | inl at ↦
              rw at (
                ap config_of (ap (get s.entries) (sym ((==_iff c.name k).0 at)) ∙ h) ∙ ap some same)
          | inr other ↦ rw other refl
        ])
    | inr e ↦
        rw e (entry_put-config c s (destroy existing.task s) k (destroy-entries existing.task s))
  ]
