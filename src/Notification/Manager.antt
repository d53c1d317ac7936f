-- ===== src/Notification/Manager.antt =====
-- src/notification/manager.ts: the channels and the window in which a notification is a duplicate.
-- The inbox that keeps the records and the events on the bus are left out.
pub mod Window
pub mod Delivery
use risoluto.Prelude.{
  ℕ, ◌-◌, Bool, true, false, not, ◌&&◌, ◌||◌, List, [], ◌∷◌, ◌++◌, Option, none, some, map, Dict,
  get, put, delete, keys, values, has, includes, add_all, keep, Text, text_eq, nat_eq, codes,
  is_empty, ltb, or_else, if◌then◌else◌, ◌==◌,
}

-- What the key and the channels read of an event.
pub record NotificationEvent : Type 0 where
  pub type : Text
  pub severity : Text
  pub message : Text
  pub identifier : Text
  pub attempt : Option ℕ
  pub dedupe_key : Option Text

pub record NotificationDeliverySummary : Type 0 where
  pub delivered_channels : List Text
  pub failed_channels : List (Text × Text)
  pub skipped_duplicate : Bool

-- A channel by its name: `none` where `notify` succeeds, or the text of its error.
abbrev pub Channels : Type 0
Channels = Dict Text (NotificationEvent → Option Text)

pub record NotificationManager : Type 0 where
  pub channels : Channels
  pub dedupe_window_ms : ℕ
  pub recently_delivered : Dict Text ℕ

unfoldable pub register_channel :
    NotificationManager → Text → (NotificationEvent → Option Text) → NotificationManager
register_channel m name notify = record m { channels = put m.channels name notify }

unfoldable pub remove_channel : NotificationManager → Text → NotificationManager × Bool
remove_channel m name = (record m { channels = delete m.channels name }, has m.channels name)

-- A time of 0 counts as none.
unfoldable pub is_duplicate : ℕ → NotificationManager → Text → NotificationManager × Bool
is_duplicate now m key = elim (get m.recently_delivered key) [
  | none ↦ (m, false)
  | some seen_at ↦
      if seen_at == 0
      then (m, false)
      else if ltb m.dedupe_window_ms (now - seen_at)
      then (record m { recently_delivered = delete m.recently_delivered key }, false)
      else (m, true)
]

-- The entries that are not too old.
unfoldable pub drop_old : ℕ → ℕ → Dict Text ℕ → Dict Text ℕ
drop_old now window_ms [] = []
drop_old now window_ms ((key, seen_at) ∷ entries) =
    let rest = drop_old now window_ms entries in
    if ltb window_ms (now - seen_at) then rest else (key, seen_at) ∷ rest

unfoldable pub remember : ℕ → NotificationManager → Text → NotificationManager
remember now m key = record m {
  recently_delivered = drop_old now m.dedupe_window_ms (put m.recently_delivered key now);
}

-- `locale_le` is `left.localeCompare(right) <= 0`, `show` is the text of a number.
module _ (locale_le : Text → Text → Bool) (show : ℕ → Text) where
  unfoldable pub event_dedupe_key : NotificationEvent → Text
  event_dedupe_key event =
      let own =
        event.type
        ++ (codes "|"
            ++ (event.identifier
                ++ (codes "|"
                    ++ (elim event.attempt [ none ↦ codes "none" | some n ↦ show n ]
                        ++ (codes "|" ++ (event.severity ++ (codes "|" ++ event.message))))))) in
      elim event.dedupe_key [ none ↦ own | some key ↦ if is_empty key then own else key ]

  unfoldable pub insert_name : Text → List Text → List Text
  insert_name name [] = name ∷ []
  insert_name name (n ∷ names) =
      if locale_le name n then name ∷ n ∷ names else n ∷ insert_name name names

  unfoldable pub insert_failure : Text × Text → List (Text × Text) → List (Text × Text)
  insert_failure f [] = f ∷ []
  insert_failure f (g ∷ fs) = if locale_le f.0 g.0 then f ∷ g ∷ fs else g ∷ insert_failure f fs

  -- The names that were asked for and are no channels.
  unfoldable pub unregistered : Channels → List Text → List (Text × Text)
  unregistered channels [] = []
  unregistered channels (name ∷ names) =
      let rest = unregistered channels names in
      if has channels name then rest else insert_failure (name, codes "channel not registered") rest

  abbrev pub is_allowed : Option (List Text) → Text → Bool
  is_allowed none name = true
  is_allowed (some names) name = includes names name

  abbrev pub count_result :
      Text → Option Text → NotificationDeliverySummary → NotificationDeliverySummary
  count_result name none s = record s { delivered_channels = insert_name name s.delivered_channels }
  count_result name (some error) s = record s {
    failed_channels = insert_failure (name, error) s.failed_channels;
  }

  -- Every allowed channel is notified, whatever the others do. Both lists are sorted by name.
  unfoldable pub deliver_each :
      Option (List Text)
      → NotificationEvent
      → Channels
      → NotificationDeliverySummary
      → NotificationDeliverySummary
  deliver_each names event [] s = s
  deliver_each names event ((name, notify) ∷ channels) s =
      let rest = deliver_each names event channels s in
      if is_allowed names name then count_result name (notify event) rest else rest

  abbrev pub asked_unregistered : Channels → Option (List Text) → List (Text × Text)
  asked_unregistered channels none = []
  asked_unregistered channels (some names) = unregistered channels (add_all [] names)

  unfoldable pub deliver :
      Channels → NotificationEvent → Option (List Text) → NotificationDeliverySummary
  deliver channels event names = deliver_each names event channels (record {
    delivered_channels = [];
    failed_channels = asked_unregistered channels names;
    skipped_duplicate = false;
  })

  abbrev pub duplicate_summary : NotificationDeliverySummary
  duplicate_summary = record {
    delivered_channels = [];
    failed_channels = [];
    skipped_duplicate = true;
  }

  abbrev pub notify_checked :
      ℕ
      → NotificationEvent
      → Option (List Text)
      → Text
      → NotificationManager × Bool
      → NotificationManager × NotificationDeliverySummary
  notify_checked now event names key (m, true) = (m, duplicate_summary)
  notify_checked now event names key (m, false) =
      (remember now m key, deliver m.channels event names)

  unfoldable pub notify :
      ℕ
      → NotificationManager
      → NotificationEvent
      → Option (List Text)
      → NotificationManager × NotificationDeliverySummary
  notify now m event names =
      let key = event_dedupe_key event in
      notify_checked now event names key (is_duplicate now m key)
