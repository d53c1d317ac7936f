-- ===== src/Automation/Scheduler/Laws.antt =====
-- What the scheduler of src/automation/scheduler.ts has running at node-cron.
use risoluto.Prelude.{
  ℕ, ◌+◌, ◌<◌, false, ◌≡◌, refl, ap, sym, ◌∙◌, List, [], ◌∷◌, Option, none, some, Dict, get, put,
  delete, get-put, get-delete, includes, Text, text_eq, nat_eq, ◌==◌, ==_iff, Bool-cases, inl, inr,
  arith,
}
use risoluto.Automation.Scheduler.{
  AutomationConfig, ScheduledAutomationEntry, AutomationScheduler, new_scheduler, destroy,
  drop_found, drop_missing, drop_all_missing,
}

-- Of the names `r` gives a task, the tasks at node-cron are those, each under the name of its
-- configuration, and none is numbered beyond `n`.
pub record IsMatched (r : Text → Option (ℕ × AutomationConfig)) (live : Dict ℕ AutomationConfig)
    (n : ℕ) : Type 0 where
  pub owned : (t : ℕ) (c : AutomationConfig) → get live t ≡ some c → r c.name ≡ some (t, c)
  pub held :
      (k : Text) (t : ℕ) (c : AutomationConfig)
      → r k ≡ some (t, c)
      → (get live t ≡ some c) × ((c.name ≡ k) × (t < n))

abbrev pub Running : Type 0
Running = Text → Option (ℕ × AutomationConfig)

pub IsMatched-same :
    (r q : Running) (live : Dict ℕ AutomationConfig) (n : ℕ)
    → ((j : Text) → q j ≡ r j)
    → IsMatched r live n
    → IsMatched q live n
IsMatched-same r q live n same i = record {
  owned = λ t c h. same c.name ∙ i.owned t c h;
  held = λ k t c h. i.held k t c (sym (same k) ∙ h);
}

pub pair_eq :
    (t u : ℕ) (c d : AutomationConfig)
    → ◌≡◌ {A = Option (ℕ × AutomationConfig)} (some (t, c)) (some (u, d))
    → (t ≡ u) × (c ≡ d)
pair_eq t u c d h = (
  ap (λ (o : Option (ℕ × AutomationConfig)). elim o [ none ↦ t | some p ↦ p.0 ]) h,
  ap (λ (o : Option (ℕ × AutomationConfig)). elim o [ none ↦ c | some p ↦ p.1 ]) h,
)

pub IsMatched-idle :
    (r q : Running) (live : Dict ℕ AutomationConfig) (n : ℕ) (k : Text)
    → r k ≡ none
    → q k ≡ none
    → ((j : Text) → (k == j) ≡ false → q j ≡ r j)
    → IsMatched r live n
    → IsMatched q live n
IsMatched-idle r q live n k at_k gone same i =
    IsMatched-same r q live n
      (λ j. elim (Bool-cases (k == j)) [
        | inl e ↦ sym (ap q ((==_iff k j).0 e)) ∙ (gone ∙ (sym at_k ∙ ap r ((==_iff k j).0 e)))
        | inr e ↦ same j e
      ])
      i

differ :
    (t u : ℕ) (c d : AutomationConfig)
    → (t == u) ≡ false
    → ¬ (◌≡◌ {A = Option (ℕ × AutomationConfig)} (some (t, c)) (some (u, d)))
differ t u c d e h = absurd (ground (arith, (==_iff t u).1 (pair_eq t u c d h).0))

none_some : (p : ℕ × AutomationConfig) → ¬ (◌≡◌ {A = Option (ℕ × AutomationConfig)} none (some p))
none_some p h = absurd (ground (arith, h))

some_eq : (c d : AutomationConfig) → some c ≡ some d → c ≡ d
some_eq c d h = ap (λ (o : Option AutomationConfig). elim o [ none ↦ c | some x ↦ x ]) h

-- Two names have no task in common.
apart :
    (r : Running) (live : Dict ℕ AutomationConfig) (n : ℕ) (k j : Text) (t u : ℕ)
    (c d : AutomationConfig)
    → r k ≡ some (t, c)
    → IsMatched r live n
    → t ≡ u
    → r j ≡ some (u, d)
    → ¬ ((k == j) ≡ false)
apart r live n k j t u c d at_k i e at_j other =
    let held_k = i.held k t c at_k in
    let held_j = i.held j u d at_j in
    let names : c.name ≡ d.name =
      ap (λ x. x.name) (some_eq c d (sym held_k.0 ∙ (ap (get live) e ∙ held_j.0))) in
    absurd (ground (arith, (==_iff k j).1 (sym held_k.1.0 ∙ (names ∙ held_j.1.0))))

-- The task of the name `k` is destroyed.
IsMatched-less :
    (r q : Running) (live : Dict ℕ AutomationConfig) (n : ℕ) (k : Text) (t : ℕ)
    (c : AutomationConfig)
    → r k ≡ some (t, c)
    → q k ≡ none
    → ((j : Text) → (k == j) ≡ false → q j ≡ r j)
    → IsMatched r live n
    → IsMatched q (delete live t) n
IsMatched-less r q live n k t c at_k gone same i = record {
  owned = λ u d h. elim (Bool-cases (t == u)) [
    | inl e ↦ absurd (ground (arith, get-delete live t u))
    | inr e ↦
        let there : get live u ≡ some d = ground (arith, get-delete live t u) in
        elim (Bool-cases (k == d.name)) [
          | inl at_d ↦
              absurd (
                differ t u c d e (sym at_k ∙ (ap r ((==_iff k d.name).0 at_d) ∙ i.owned u d there)))
          | inr other ↦ same d.name other ∙ i.owned u d there
        ]
  ];
  held = λ j u d h. elim (Bool-cases (k == j)) [
    | inl at_j ↦ absurd (none_some (u, d) (sym gone ∙ (ap q ((==_iff k j).0 at_j) ∙ h)))
    | inr other ↦
        let kept = i.held j u d (sym (same j other) ∙ h) in
        (
          elim (Bool-cases (t == u)) [
            | inl e ↦ absurd (
                apart r live n k j t u c d at_k i ((==_iff t u).0 e) (sym (same j other) ∙ h) other)
            | inr e ↦ ground (arith, get-delete live t u, kept.0)
          ],
          kept.1,
        )
  ];
}

-- The name `k` gets a new task.
pub IsMatched-more :
    (r q : Running) (live : Dict ℕ AutomationConfig) (n : ℕ) (c : AutomationConfig)
    → r c.name ≡ none
    → q c.name ≡ some (n, c)
    → ((j : Text) → (c.name == j) ≡ false → q j ≡ r j)
    → IsMatched r live n
    → IsMatched q (put live n c) (n + 1)
IsMatched-more r q live n c before after same i = record {
  owned = λ u d h. elim (Bool-cases (n == u)) [
    | inl e ↦
        rw (sym (some_eq c d (ground (arith, get-put live n u c))), sym ((==_iff n u).0 e)) after
    | inr e ↦
        let there : get live u ≡ some d = ground (arith, get-put live n u c) in
        let at_d = i.owned u d there in
        elim (Bool-cases (c.name == d.name)) [
          | inl at_c ↦
              absurd (none_some (u, d) (sym before ∙ (ap r ((==_iff c.name d.name).0 at_c) ∙ at_d)))
          | inr other ↦ same d.name other ∙ at_d
        ]
  ];
  held = λ j u d h. elim (Bool-cases (c.name == j)) [
    | inl at_j ↦
        let same_run = pair_eq n u c d (sym after ∙ (ap q ((==_iff c.name j).0 at_j) ∙ h)) in
        rw (sym same_run.0, sym same_run.1)
          (ground (arith, get-put live n n c), ((==_iff c.name j).0 at_j, omega arith))
    | inr other ↦
        let kept = i.held j u d (sym (same j other) ∙ h) in
        (ground (arith, get-put live n u c, kept.0, kept.1.1), (kept.1.0, omega (arith, kept.1.1)))
  ];
}

abbrev pub with_task : Option ℕ → AutomationConfig → Option (ℕ × AutomationConfig)
with_task none config = none
with_task (some t) config = some (t, config)

abbrev pub run_of : Option ScheduledAutomationEntry → Option (ℕ × AutomationConfig)
run_of none = none
run_of (some e) = with_task e.task e.config

-- The task of an entry, with what it runs.
abbrev pub running : AutomationScheduler → Running
running s name = run_of (get s.entries name)

-- The tasks at node-cron are those of the entries.
abbrev pub IsScheduled : AutomationScheduler → Type 0
IsScheduled s = IsMatched (running s) s.live s.next_task

pub new_scheduler-IsScheduled : IsScheduled new_scheduler
unfolding get
new_scheduler-IsScheduled = record {
  owned = λ t c h. absurd (ground arith);
  held = λ k t c h. absurd (ground arith);
}

pub destroy-entries :
    (task : Option ℕ) (s : AutomationScheduler) → (destroy task s).entries ≡ s.entries
unfolding destroy
destroy-entries none s = refl
destroy-entries (some t) s = refl

pub destroy-subscription :
    (task : Option ℕ) (s : AutomationScheduler) → (destroy task s).subscription ≡ s.subscription
unfolding destroy
destroy-subscription none s = refl
destroy-subscription (some t) s = refl

destroyed :
    (task : Option ℕ) (config : AutomationConfig) (r q : Running) (s : AutomationScheduler)
    (k : Text)
    → r k ≡ with_task task config
    → q k ≡ none
    → ((j : Text) → (k == j) ≡ false → q j ≡ r j)
    → IsMatched r s.live s.next_task
    → IsMatched q (destroy task s).live (destroy task s).next_task
unfolding destroy
destroyed none config r q s k at_k gone same i =
    IsMatched-idle r q s.live s.next_task k at_k gone same i
destroyed (some t) config r q s k at_k gone same i =
    IsMatched-less r q s.live s.next_task k t config at_k gone same i

-- What the names run once the entry of `k` is gone.
abbrev pub without : AutomationScheduler → Text → Running
without s k j = run_of (get (delete s.entries k) j)

pub without_k :
    (s : AutomationScheduler) (k : Text)
    → (without s k k ≡ none) × ((j : Text) → (k == j) ≡ false → without s k j ≡ running s j)
without_k s k =
    (ground (arith, get-delete s.entries k k), λ j e. ground (arith, get-delete s.entries k j))

pub destroyed_entry :
    (k : Text) (entry : ScheduledAutomationEntry) (s : AutomationScheduler)
    → get s.entries k ≡ some entry
    → IsScheduled s
    → IsMatched (without s k) (destroy entry.task s).live (destroy entry.task s).next_task
destroyed_entry k entry s h i =
    destroyed entry.task entry.config (running s) (without s k) s k (ap run_of h) (without_k s k).0
      (without_k s k).1 i

pub drop_found-IsScheduled :
    (name : Text) (found : Option ScheduledAutomationEntry) (s : AutomationScheduler)
    → get s.entries name ≡ found
    → IsScheduled s
    → IsScheduled (drop_found name found s)
drop_found-IsScheduled name none s h i = i
drop_found-IsScheduled name (some entry) s h i =
    rw (destroy-entries entry.task s) (destroyed_entry name entry s h i)

pub drop_all_missing-IsScheduled :
    (names ks : List Text) (s : AutomationScheduler)
    → IsScheduled s
    → IsScheduled (drop_all_missing names ks s)
unfolding drop_all_missing
drop_all_missing-IsScheduled names [] s i = i
drop_all_missing-IsScheduled names (k ∷ ks) s i =
    drop_all_missing-IsScheduled names ks (drop_missing names s k)
      (elim (Bool-cases (includes names k)) [
        | inl e ↦ rw e i
        | inr e ↦ rw e (drop_found-IsScheduled k (get s.entries k) s refl i)
      ])
