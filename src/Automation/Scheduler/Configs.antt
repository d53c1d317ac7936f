-- ===== src/Automation/Scheduler/Configs.antt =====
-- `sync` of src/automation/scheduler.ts: the entries it leaves.
use risoluto.Prelude.{
  Bool, not, ◌&&◌, ◌≡◌, refl, ap, ◌∙◌, List, [], ◌∷◌, Option, none, some, get, keys, get-delete,
  get-none_of_includes, last_match, includes, includes-add_all, add_all, first_some, Text, text_eq,
  nat_eq, is_some, if◌then◌else◌, ◌==◌, ==_iff, Option-cases, Bool-cases, inl, inr, arith,
}
use risoluto.Automation.Scheduler.{
  AutomationConfig, AutomationScheduler, config_names, drop_missing, drop_all_missing, replace,
  sync_each, sync,
}
use risoluto.Automation.Scheduler.Laws.{IsScheduled, drop_all_missing-IsScheduled, destroy-entries}
use risoluto.Automation.Scheduler.Syncs.{
  AreEntries, config_at, IsFaithful, replace-IsScheduled, replace-AreEntries, replace_lem,
}

abbrev pub named : List AutomationConfig → List (Text × AutomationConfig)
named [] = []
named (c ∷ cs) = (c.name, c) ∷ named cs

last_match-named :
    (cs : List AutomationConfig) (k : Text)
    → is_some (last_match (named cs) k) ≡ includes (config_names cs) k
unfolding last_match includes
last_match-named [] k = refl
last_match-named (c ∷ cs) k = elim (Option-cases (last_match (named cs) k)) [
  | inl e ↦ ground (arith, last_match-named cs k)
  | inr (d, e) ↦ ground (arith, last_match-named cs k)
]

get-drop_missing :
    (names : List Text) (s : AutomationScheduler) (j k : Text)
    → get (drop_missing names s j).entries k
      ≡ (if j == k && not (includes names j) then none else get s.entries k)
get-drop_missing names s j k = elim (Option-cases (get s.entries j)) [
  | inl e ↦ ground (arith, ap (get s.entries), (==_iff j k).0)
  | inr (entry, e) ↦ ground (arith, get-delete s.entries j k, destroy-entries entry.task s)
]

get-drop_all_missing :
    (names ks : List Text) (s : AutomationScheduler) (k : Text)
    → get (drop_all_missing names ks s).entries k
      ≡ (if includes ks k && not (includes names k) then none else get s.entries k)
unfolding drop_all_missing includes
get-drop_all_missing names [] s k = refl
get-drop_all_missing names (j ∷ ks) s k = elim (Bool-cases (j == k)) [
  | inl e ↦ ground (
    arith,
    get-drop_all_missing names ks (drop_missing names s j) k,
    get-drop_missing names s j k,
    ap (includes names) ((==_iff j k).0 e),
  )
  | inr e ↦ ground (
    arith,
    get-drop_all_missing names ks (drop_missing names s j) k,
    get-drop_missing names s j k,
  )
]

first_of :
    (o : Option AutomationConfig) (c : AutomationConfig) (b : Bool) (q : Option AutomationConfig)
    → first_some o (if b then some c else q)
      ≡ first_some (elim o [ some w ↦ some w | none ↦ if b then some c else none ]) q
first_of none c b q = ground arith
first_of (some d) c b q = refl

module _ (validate : Text → Bool) (stringify : AutomationConfig → Text) where
  abbrev pub IsSound : AutomationScheduler → Type 0
  IsSound s = IsScheduled s × AreEntries validate stringify s

  sync_each_lem :
      (cs : List AutomationConfig) (s : AutomationScheduler) (k : Text)
      → IsFaithful validate stringify
      → IsSound s
      → IsSound (sync_each validate stringify cs s)
        × (config_at validate stringify (sync_each validate stringify cs s) k
            ≡ first_some (last_match (named cs) k) (config_at validate stringify s k))
  unfolding sync_each last_match
  sync_each_lem [] s k f i = (i, refl)
  sync_each_lem (c ∷ cs) s k f i =
      let found = get s.entries c.name in
      let next = replace validate stringify c found s in
      let rest = sync_each_lem cs next k f (
        replace-IsScheduled validate stringify c found s refl i.0,
        replace-AreEntries validate stringify c found s i.1,
      ) in
      let here = replace_lem validate stringify c found s k f refl i.1 in
      (
        rest.0,
        rest.1
            ∙ (ap (first_some (last_match (named cs) k)) here
                ∙ first_of (last_match (named cs) k) c (c.name == k)
                    (config_at validate stringify s k)),
      )

  dropped-AreEntries :
      (names ks : List Text) (s : AutomationScheduler)
      → AreEntries validate stringify s
      → AreEntries validate stringify (drop_all_missing names ks s)
  dropped-AreEntries names ks s i k e h = i k e (ground (arith, get-drop_all_missing names ks s k))

  pub sync_lem :
      (cs : List AutomationConfig) (s : AutomationScheduler) (k : Text)
      → IsFaithful validate stringify
      → IsSound s
      → IsSound (sync validate stringify cs s)
        × (config_at validate stringify (sync validate stringify cs s) k ≡ last_match (named cs) k)
  unfolding sync includes
  sync_lem cs s k f i =
      let names = add_all [] (config_names cs) in
      let left = drop_all_missing names (keys s.entries) s in
      let each = sync_each_lem cs left k f (
        drop_all_missing-IsScheduled names (keys s.entries) s i.0,
        dropped-AreEntries names (keys s.entries) s i.1,
      ) in
      (
        each.0,
        each.1 ∙ elim (Option-cases (last_match (named cs) k)) [
          | inl e ↦ ground (
            arith,
            last_match-named cs k,
            get-drop_all_missing names (keys s.entries) s k,
            includes-add_all [] (config_names cs) k,
            get-none_of_includes s.entries k,
          )
          | inr (c, e) ↦ ground arith
        ],
      )
