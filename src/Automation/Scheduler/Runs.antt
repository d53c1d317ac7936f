-- ===== src/Automation/Scheduler/Runs.antt =====
-- `sync` and `stop` of src/automation/scheduler.ts, in any order: what runs at node-cron.
use risoluto.Prelude.{
  zero, suc, ◌↔◌, ℕ, Bool, true, false, ◌||◌, ◌≡◌, refl, ap, sym, ◌∙◌, List, [], ◌∷◌, Option, none,
  some, Dict, get, keys, values, get-delete, last_match, add_all, Text, text_eq, nat_eq, or_else,
  if◌then◌else◌, ◌==◌, Option-cases, Bool-cases, inl, inr, arith,
}
use mathlib.Core.Path.{subst}
use risoluto.Automation.Scheduler.{
  Subscription, subscribe, unsubscribe, told, sync, create_entry, AutomationConfig,
  ScheduledAutomationEntry, AutomationScheduler, new_scheduler, destroy, config_names, drop_missing,
  drop_all_missing, replace, sync_each, sync, start, destroy_all, stop,
}
use risoluto.Automation.Scheduler.Laws.{
  run_of, with_task, running, new_scheduler-IsScheduled, destroy-subscription, pair_eq,
}
use risoluto.Automation.Scheduler.Configs.{named, IsSound, sync_lem}
use risoluto.Automation.Scheduler.Syncs.{is_live, AreEntries, config_of, config_at, IsFaithful}

abbrev has_task : List ScheduledAutomationEntry → ℕ → Bool
has_task [] t = false
has_task (e ∷ es) t = elim e.task [ none ↦ false | some u ↦ u == t ] || has_task es t

get-destroy_all :
    (es : List ScheduledAutomationEntry) (s : AutomationScheduler) (t : ℕ)
    → get (destroy_all es s).live t ≡ (if has_task es t then none else get s.live t)
unfolding destroy_all destroy
get-destroy_all [] s t = refl
get-destroy_all (e ∷ es) s t = elim (Option-cases e.task) [
  | inl none_there ↦ ground (arith, get-destroy_all es (destroy e.task s) t)
  | inr (u, there) ↦ ground (arith, get-destroy_all es (destroy e.task s) t, get-delete s.live u t)
]

has_task-values :
    (m : Dict Text ScheduledAutomationEntry) (k : Text) (e : ScheduledAutomationEntry) (t : ℕ)
    → get m k ≡ some e
    → e.task ≡ some t
    → has_task (values m) t ≡ true
unfolding get
has_task-values [] k e t h at = absurd (ground arith)
has_task-values ((j, f) ∷ m) k e t h at = elim (Bool-cases (j == k)) [
  | inl here ↦
      let found : some f ≡ some e = ground (arith, h, here) in
      let task_of : f.task ≡ some t = ap (λ o. (or_else o f).task) found ∙ at in
      ground (arith, task_of)
  | inr other ↦ ground (arith, has_task-values m k e t)
]

-- What happens to a scheduler: it is started or stopped, or the configuration changes.
pub data Change : Type 0 where
  started : List AutomationConfig → Change
  changed : List AutomationConfig → Change
  stopped : Change

-- The subscription, and the configuration that is in force: what the scheduler was last started with
-- or was told by a listener that is left, and none after a stop.
abbrev pub when_told : ℕ → List AutomationConfig → List AutomationConfig → List AutomationConfig
when_told zero old new = old
when_told (suc n) old new = new

abbrev pub after_change :
    Subscription × List AutomationConfig → Change → Subscription × List AutomationConfig
after_change p (started configs) = (subscribe p.0, configs)
after_change p (changed configs) = (p.0, when_told p.0.listeners p.1 configs)
after_change p stopped = (unsubscribe p.0, [])

abbrev pub unstarted : Subscription × List AutomationConfig
unstarted = (record { listeners = 0; has_unsubscribe = false }, [])

pub in_force :
    Subscription × List AutomationConfig → List Change → Subscription × List AutomationConfig
in_force p [] = p
in_force p (c ∷ cs) = in_force (after_change p c) cs

has_task-running :
    (s : AutomationScheduler) (k : Text) (t : ℕ) (c : AutomationConfig)
    → running s k ≡ some (t, c)
    → has_task (values s.entries) t ≡ true
has_task-running s k t c h = elim (Option-cases (get s.entries k)) [
  | inl e ↦ absurd (ground (arith))
  | inr (entry, e) ↦ elim (Option-cases entry.task) [
    | inl d ↦ absurd (ground (arith))
    | inr (u, d) ↦ has_task-values s.entries k entry t e (
        d
        ∙ ap some
            (pair_eq u t entry.config c
              (sym (ap run_of e ∙ ap (λ o. with_task o entry.config) d) ∙ h)).0)
  ]
]

-- What a name has at node-cron.
abbrev pub cron_config : Option (ℕ × AutomationConfig) → Option AutomationConfig
cron_config none = none
cron_config (some (t, c)) = some c

module _ (validate : Text → Bool) (stringify : AutomationConfig → Text) where
  abbrev apply_change : AutomationScheduler → Change → AutomationScheduler
  apply_change s (started configs) = start validate stringify configs s
  apply_change s (changed configs) = told validate stringify s.subscription.listeners configs s
  apply_change s stopped = stop s

  pub run_changes : AutomationScheduler → List Change → AutomationScheduler
  run_changes s [] = s
  run_changes s (c ∷ cs) = run_changes (apply_change s c) cs

  destroy_all-subscription :
      (es : List ScheduledAutomationEntry) (s : AutomationScheduler)
      → (destroy_all es s).subscription ≡ s.subscription
  unfolding destroy_all
  destroy_all-subscription [] s = refl
  destroy_all-subscription (e ∷ es) s =
      destroy_all-subscription es (destroy e.task s) ∙ destroy-subscription e.task s

  stop-gone :
      (s : AutomationScheduler)
      → IsSound validate stringify s
      → (t : ℕ) → get (stop s).live t ≡ none
  unfolding stop
  stop-gone s i t =
      let destroyed =
        get-destroy_all (values s.entries) (record s { subscription = unsubscribe s.subscription })
          t in
      elim (Option-cases (get s.live t)) [
        | inl e ↦ ground (arith, destroyed)
        | inr (c, e) ↦ ground (arith, destroyed, has_task-running s c.name t c (i.0.owned t c e))
      ]

  stop-IsSound :
      (s : AutomationScheduler) → IsSound validate stringify s → IsSound validate stringify (stop s)
  unfolding stop get
  stop-IsSound s i = (
    record {
      owned = λ t c h. absurd (ground (arith, stop-gone s i t));
      held = λ k t c h. absurd (ground arith);
    },
    λ k e h. absurd (ground arith),
  )

  dropped-subscription :
      (names ks : List Text) (s : AutomationScheduler)
      → (drop_all_missing names ks s).subscription ≡ s.subscription
  unfolding drop_all_missing
  dropped-subscription names [] s = refl
  dropped-subscription names (k ∷ ks) s = elim (Option-cases (get s.entries k)) [
    | inl e ↦ ground (arith, dropped-subscription names ks (drop_missing names s k))
    | inr (entry, e) ↦ ground (
      arith,
      dropped-subscription names ks (drop_missing names s k),
      destroy-subscription entry.task s,
    )
  ]

  made-subscription :
      (c : AutomationConfig) (signature : Text) (s : AutomationScheduler)
      → (create_entry validate stringify c signature s).0.subscription ≡ s.subscription
  unfolding create_entry
  made-subscription c signature s = ground arith

  replaced-subscription :
      (c : AutomationConfig) (found : Option ScheduledAutomationEntry) (s : AutomationScheduler)
      → (replace validate stringify c found s).subscription ≡ s.subscription
  unfolding replace
  replaced-subscription c none s = made-subscription c (stringify c) s
  replaced-subscription c (some e) s =
      ground
        (arith, made-subscription c (stringify c) (destroy e.task s), destroy-subscription e.task s)

  each-subscription :
      (cs : List AutomationConfig) (s : AutomationScheduler)
      → (sync_each validate stringify cs s).subscription ≡ s.subscription
  unfolding sync_each
  each-subscription [] s = refl
  each-subscription (c ∷ cs) s =
      each-subscription cs (replace validate stringify c (get s.entries c.name) s)
      ∙ replaced-subscription c (get s.entries c.name) s

  sync-subscription :
      (cs : List AutomationConfig) (s : AutomationScheduler)
      → (sync validate stringify cs s).subscription ≡ s.subscription
  unfolding sync
  sync-subscription cs s =
      let names = add_all [] (config_names cs) in
      each-subscription cs (drop_all_missing names (keys s.entries) s)
      ∙ dropped-subscription names (keys s.entries) s

  -- The scheduler has an entry for each configuration in force, and no other.
  abbrev pub Follows : Subscription × List AutomationConfig → AutomationScheduler → Type 0
  Follows p s =
      (s.subscription ≡ p.0)
      × (IsSound validate stringify s
          × ((k : Text) → config_at validate stringify s k ≡ last_match (named p.1) k))

  synced-Follows :
      (cs : List AutomationConfig) (s : AutomationScheduler)
      → IsFaithful validate stringify
      → IsSound validate stringify s
      → Follows (s.subscription, cs) (sync validate stringify cs s)
  synced-Follows cs s f i = (
    sync-subscription cs s,
    ((sync_lem validate stringify cs s [] f i).0, λ k. (sync_lem validate stringify cs s k f i).1),
  )

  same_told :
      (n : ℕ) (cs : List AutomationConfig) (p : Subscription) (s : AutomationScheduler)
      → Follows (p, when_told n cs cs) s
      → Follows (p, cs) s
  same_told zero cs p s h = h
  same_told (suc n) cs p s h = h

  told-Follows :
      (n : ℕ) (cs old : List AutomationConfig) (p : Subscription) (s : AutomationScheduler)
      → IsFaithful validate stringify
      → Follows (p, old) s
      → Follows (p, when_told n old cs) (told validate stringify n cs s)
  unfolding told
  told-Follows zero cs old p s f h = h
  told-Follows (suc n) cs old p s f h =
      let once = synced-Follows cs s f h.1.0 in
      same_told n cs p _
        (told-Follows n cs cs p (sync validate stringify cs s) f (once.0 ∙ h.0, once.1))

  told-changed :
      (cs : List AutomationConfig) (p : Subscription × List AutomationConfig)
      (s : AutomationScheduler)
      → Follows
          (p.0, when_told s.subscription.listeners p.1 cs)
          (told validate stringify s.subscription.listeners cs s)
      → s.subscription ≡ p.0
      → Follows
          (after_change p (changed cs))
          (told validate stringify s.subscription.listeners cs s)
  told-changed cs p s h e =
      subst
        (λ n.
          Follows (p.0, when_told n p.1 cs) (told validate stringify s.subscription.listeners cs s))
        (ap (λ x. x.listeners) e) h

  change-Follows :
      (c : Change) (p : Subscription × List AutomationConfig) (s : AutomationScheduler)
      → IsFaithful validate stringify
      → Follows p s
      → Follows (after_change p c) (apply_change s c)
  unfolding start stop get last_match
  change-Follows (started cs) p s f h =
      let done = synced-Follows cs s f h.1.0 in (ap subscribe (done.0 ∙ h.0), (done.1.0, done.1.1))
  change-Follows (changed cs) p s f h =
      told-changed cs p s (told-Follows s.subscription.listeners cs p.1 p.0 s f h) h.0
  change-Follows stopped p s f h = (
    destroy_all-subscription (values s.entries)
          (record s { subscription = unsubscribe s.subscription })
        ∙ ap unsubscribe h.0,
    (stop-IsSound s h.1.0, λ k. refl),
  )

  runs-Follows :
      (changes : List Change) (p : Subscription × List AutomationConfig) (s : AutomationScheduler)
      → IsFaithful validate stringify
      → Follows p s
      → Follows (in_force p changes) (run_changes s changes)
  unfolding in_force run_changes
  runs-Follows [] p s f h = h
  runs-Follows (c ∷ cs) p s f h =
      runs-Follows cs (after_change p c) (apply_change s c) f (change-Follows c p s f h)

  new-Follows : Follows unstarted new_scheduler
  unfolding get last_match
  new-Follows = (refl, ((new_scheduler-IsScheduled, λ k e h. absurd (ground arith)), λ k. refl))

  -- What a configuration asks for: a task where it is enabled and its expression is valid.
  abbrev pub wanted : Option AutomationConfig → Option AutomationConfig
  wanted none = none
  wanted (some c) = if is_live validate stringify c then some c else none

  entry_wanted :
      (s : AutomationScheduler) (k : Text) (found : Option ScheduledAutomationEntry)
      → get s.entries k ≡ found
      → AreEntries validate stringify s
      → cron_config (run_of found) ≡ wanted (config_of validate stringify found)
  entry_wanted s k none h i = refl
  entry_wanted s k (some e) h i =
      let formed = i k e h in
      elim (Option-cases e.task) [
        | inl d ↦ ground (arith, d, formed.1.1.0)
        | inr (t, d) ↦ ground (arith, d, formed.1.1.0)
      ]

  -- However the scheduler is started, stopped and told of new configurations, node-cron runs just
  -- the automations that the configuration in force enables with a valid expression, each in its
  -- latest form, and each task there is the one of the entry of its name: none is left over. In force
  -- is what the scheduler was last started with or told by a listener, also one that a second start
  -- left behind, and nothing after a stop. The texts of two configurations differ.
  pub run_changes_lem :
      (changes : List Change) (k : Text) (t : ℕ) (c : AutomationConfig)
      → IsFaithful validate stringify
      → let s = run_changes new_scheduler changes in
        let configs = (in_force unstarted changes).1 in
        (cron_config (running s k) ≡ wanted (last_match (named configs) k))
        × ((get s.live t ≡ some c) ↔ (running s c.name ≡ some (t, c)))
  run_changes_lem changes k t c f =
      let s = run_changes new_scheduler changes in
      let done = runs-Follows changes unstarted new_scheduler f new-Follows in
      (
        entry_wanted s k (get s.entries k) refl done.1.0.1 ∙ ap wanted (done.1.1 k),
        (done.1.0.0.owned t c, λ h. (done.1.0.0.held c.name t c h).0),
      )
