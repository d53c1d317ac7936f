-- ===== src/Notification/Tests.antt =====
-- The notification manager with two channels, one of which fails.
use risoluto.Prelude.{
  Text-discrete, ℕ, Bool, false, ◌≡◌, refl, List, [], ◌∷◌, none, some, Text, text_eq, nat_eq, codes,
  length, arith, get, includes, keys, Distinct, ◌&&◌, not, All, ltb,
}
use risoluto.Notification.Manager.{
  deliver_each, is_duplicate, NotificationEvent, Channels, NotificationManager, deliver, notify,
  duplicate_summary,
}
use risoluto.Notification.Manager.Window.{Call, notify_all, key_of, notify_once}
use risoluto.Notification.Manager.Delivery.{names_of, succeeds, is_asked, deliver_lem}

-- The names of the channels differ in length.
abbrev shorter : Text → Text → Bool
shorter a b = ltb (length a) (length b)

abbrev digits : ℕ → Text
digits n = n ∷ []

abbrev fired : NotificationEvent
fired = record {
  type = codes "alert_fired";
  severity = codes "critical";
  message = codes "m";
  identifier = codes "ENG-1";
  attempt = none;
  dedupe_key = some (codes "k");
}

abbrev two_channels : Channels
two_channels = (codes "log", λ e. none) ∷ (codes "slack", λ e. some (codes "down")) ∷ []

abbrev manager : NotificationManager
manager = record { channels = two_channels; dedupe_window_ms = 30000; recently_delivered = [] }

abbrev first_call : Call shorter digits
first_call = record { now = 1000; event = fired; names = none }

abbrev later : List (Call shorter digits)
later =
    record { now = 1500; event = record fired { dedupe_key = none }; names = none }
    ∷ record { now = 31000; event = fired; names = none }
    ∷ []

first_is_new : (notify shorter digits 1000 manager fired none).1.skipped_duplicate ≡ false
unfolding notify is_duplicate get deliver deliver_each
first_is_new = refl

notify_once_example :
    All
      (λ r.
        key_of shorter digits r.0 ≡ key_of shorter digits fired
        → r.1 ≡ duplicate_summary shorter digits)
      (notify_all shorter digits (notify shorter digits 1000 manager fired none).0 later)
notify_once_example =
    notify_once shorter digits first_call manager later (omega arith) first_is_new
      (omega arith, (omega arith, tt))

abbrev names : List Text
names = codes "slack" ∷ codes "mail" ∷ []

two_channels-Distinct : Distinct (keys two_channels)
unfolding includes Text-discrete
two_channels-Distinct = (refl, (refl, tt))

deliver_lem_example :
    (includes
        (deliver shorter digits two_channels fired (some names)).delivered_channels
        (codes "log")
      ≡ (is_asked two_channels (some names) (codes "log")
          && succeeds two_channels fired (codes "log")))
    × (includes
          (names_of (deliver shorter digits two_channels fired (some names)).failed_channels)
          (codes "log")
        ≡ (is_asked two_channels (some names) (codes "log")
            && not (succeeds two_channels fired (codes "log"))))
deliver_lem_example =
    deliver_lem shorter digits two_channels fired (some names) (codes "log") two_channels-Distinct
