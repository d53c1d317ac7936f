-- ===== src/Notification/Manager/Window.antt =====
-- The window of src/notification/manager.ts in which a notification is a duplicate.
use risoluto.Prelude.{
  ℕ, ◌+◌, ◌-◌, ◌≤◌, ◌<◌, Bool, true, false, ◌≡◌, refl, ap, ◌∙◌, List, [], ◌∷◌, Option, some, Dict,
  get, put, get-put, get-delete, All, Text, text_eq, nat_eq, ◌==◌, ==_iff, Option-cases, Bool-cases,
  inl, inr, arith,
}
use risoluto.Notification.Manager.{
  NotificationEvent, NotificationDeliverySummary, Channels, NotificationManager, is_duplicate,
  drop_old, remember, event_dedupe_key, deliver_each, duplicate_summary, notify_checked, notify,
}

get-drop_old :
    (now window_ms : ℕ) (m : Dict Text ℕ) (k : Text) (t : ℕ)
    → get m k ≡ some t
    → now - t ≤ window_ms
    → get (drop_old now window_ms m) k ≡ some t
unfolding get drop_old
get-drop_old now window_ms [] k t h e = h
get-drop_old now window_ms ((j, s) ∷ m) k t h e = ground (arith, get-drop_old now window_ms m k t)

-- A time that is in the window stays, whatever is notified.
remember_keeps :
    (now : ℕ) (m : NotificationManager) (key k : Text) (t : ℕ)
    → get m.recently_delivered k ≡ some t
    → now - t ≤ m.dedupe_window_ms
    → (key == k) ≡ false
    → get (remember now m key).recently_delivered k ≡ some t
unfolding remember
remember_keeps now m key k t h e other =
    get-drop_old now m.dedupe_window_ms (put m.recently_delivered key now) k t
      (ground (arith, get-put m.recently_delivered key k now)) e

duplicate_keeps :
    (now : ℕ) (m : NotificationManager) (key k : Text)
    → (key == k) ≡ false
    → get (is_duplicate now m key).0.recently_delivered k ≡ get m.recently_delivered k
unfolding is_duplicate
duplicate_keeps now m key k other = ground (arith, get-delete m.recently_delivered key k)

duplicate_window :
    (now : ℕ) (m : NotificationManager) (key : Text)
    → (is_duplicate now m key).0.dedupe_window_ms ≡ m.dedupe_window_ms
unfolding is_duplicate
duplicate_window now m key = ground arith

duplicate_in_window :
    (now : ℕ) (m : NotificationManager) (k : Text) (t : ℕ)
    → get m.recently_delivered k ≡ some t
    → 0 < t
    → now - t ≤ m.dedupe_window_ms
    → is_duplicate now m k ≡ (m, true)
unfolding is_duplicate
duplicate_in_window now m k t h pos e = ground arith

module _ (locale_le : Text → Text → Bool) (show : ℕ → Text) where
  checked_keeps :
      (now : ℕ) (event : NotificationEvent) (names : Option (List Text)) (key k : Text) (t : ℕ)
      (checked : NotificationManager × Bool)
      → get checked.0.recently_delivered k ≡ some t
      → now - t ≤ checked.0.dedupe_window_ms
      → (key == k) ≡ false
      → (get (notify_checked locale_le show now event names key checked).0.recently_delivered k
          ≡ some t)
        × ((notify_checked locale_le show now event names key checked).0.dedupe_window_ms
            ≡ checked.0.dedupe_window_ms)
  checked_keeps now event names key k t (m, true) h e other = (h, refl)
  checked_keeps now event names key k t (m, false) h e other =
      (remember_keeps now m key k t h e other, unfold remember in refl)

  -- The calls of `notify`, each at its time, with what they answer.
  pub record Call : Type 0 where
    pub now : ℕ
    pub event : NotificationEvent
    pub names : Option (List Text)

  pub notify_all :
      NotificationManager → List Call → List (NotificationEvent × NotificationDeliverySummary)
  notify_all m [] = []
  notify_all m (c ∷ calls) =
      let rest = notify_all (notify locale_le show c.now m c.event c.names).0 calls in
      (c.event, (notify locale_le show c.now m c.event c.names).1) ∷ rest

  abbrev pub key_of : NotificationEvent → Text
  key_of = event_dedupe_key locale_le show

  notify_other :
      (c : Call) (m : NotificationManager) (k : Text) (t : ℕ)
      → get m.recently_delivered k ≡ some t
      → c.now - t ≤ m.dedupe_window_ms
      → (key_of c.event == k) ≡ false
      → (get (notify locale_le show c.now m c.event c.names).0.recently_delivered k ≡ some t)
        × ((notify locale_le show c.now m c.event c.names).0.dedupe_window_ms ≡ m.dedupe_window_ms)
  unfolding notify
  notify_other c m k t h e other =
      let checked : NotificationManager × Bool = is_duplicate c.now m (key_of c.event) in
      let kept =
        checked_keeps c.now c.event c.names (key_of c.event) k t checked
          (duplicate_keeps c.now m (key_of c.event) k other ∙ h)
          (ground (arith, duplicate_window c.now m (key_of c.event))) other in
      (kept.0, kept.1 ∙ duplicate_window c.now m (key_of c.event))

  notify_same :
      (c : Call) (m : NotificationManager) (k : Text) (t : ℕ)
      → get m.recently_delivered k ≡ some t
      → 0 < t
      → c.now - t ≤ m.dedupe_window_ms
      → key_of c.event ≡ k
      → notify locale_le show c.now m c.event c.names ≡ (m, duplicate_summary locale_le show)
  unfolding notify
  notify_same c m k t h pos e same =
      ap (notify_checked locale_le show c.now c.event c.names (key_of c.event))
        (ap (is_duplicate c.now m) same ∙ duplicate_in_window c.now m k t h pos e)

  quiet :
      (calls : List Call) (m : NotificationManager) (k : Text) (t w : ℕ)
      → get m.recently_delivered k ≡ some t
      → 0 < t
      → m.dedupe_window_ms ≡ w
      → All (λ c. c.now ≤ t + w) calls
      → All (λ r. key_of r.0 ≡ k → r.1 ≡ duplicate_summary locale_le show) (notify_all m calls)
  unfolding notify_all
  quiet [] m k t w h pos same_window within = tt
  quiet (c ∷ calls) m k t w h pos same_window within = elim (Bool-cases (key_of c.event == k)) [
    | inl same ↦
        rw
          (notify_same c m k t h pos (omega (arith, same_window, within.0))
            ((==_iff (key_of c.event) k).0 same))
          (λ _. refl, quiet calls m k t w h pos same_window within.1)
    | inr other ↦
        let kept = notify_other c m k t h (omega (arith, same_window, within.0)) other in
        (
          λ e. absurd (ground (arith, (==_iff (key_of c.event) k).1 e)),
          quiet calls (notify locale_le show c.now m c.event c.names).0 k t w kept.0 pos
              (kept.1 ∙ same_window) within.1,
        )
  ]

  delivered_flag :
      (names : Option (List Text)) (event : NotificationEvent) (channels : Channels)
      (s : NotificationDeliverySummary)
      → (deliver_each locale_le show names event channels s).skipped_duplicate ≡ s.skipped_duplicate
  unfolding deliver_each
  delivered_flag names event [] s = refl
  delivered_flag names event ((name, send) ∷ channels) s = elim (Option-cases (send event)) [
    | inl e ↦ ground (arith, delivered_flag names event channels s)
    | inr (x, e) ↦ ground (arith, delivered_flag names event channels s)
  ]

  remembered :
      (now : ℕ) (m : NotificationManager) (key : Text)
      → get (remember now m key).recently_delivered key ≡ some now
  unfolding remember
  remembered now m key =
      get-drop_old now m.dedupe_window_ms (put m.recently_delivered key now) key now
        (ground (arith, get-put m.recently_delivered key key now)) (omega arith)

  checked_delivered :
      (now : ℕ) (event : NotificationEvent) (names : Option (List Text)) (key : Text)
      (checked : NotificationManager × Bool)
      → (notify_checked locale_le show now event names key checked).1.skipped_duplicate ≡ false
      → (get (notify_checked locale_le show now event names key checked).0.recently_delivered key
          ≡ some now)
        × ((notify_checked locale_le show now event names key checked).0.dedupe_window_ms
            ≡ checked.0.dedupe_window_ms)
  checked_delivered now event names key (m, true) h = absurd (ground arith)
  checked_delivered now event names key (m, false) h =
      (remembered now m key, unfold remember in refl)

  -- After a notification is delivered, every notification with its key is held back as a duplicate
  -- until the window has passed, whatever else is notified in between. The clock is not at 0.
  pub notify_once :
      (c : Call) (m : NotificationManager) (calls : List Call)
      → 0 < c.now
      → (notify locale_le show c.now m c.event c.names).1.skipped_duplicate ≡ false
      → All (λ l. l.now ≤ c.now + m.dedupe_window_ms) calls
      → All
          (λ r. key_of r.0 ≡ key_of c.event → r.1 ≡ duplicate_summary locale_le show)
          (notify_all (notify locale_le show c.now m c.event c.names).0 calls)
  unfolding notify
  notify_once c m calls pos h within =
      let done =
        checked_delivered c.now c.event c.names (key_of c.event)
          (is_duplicate c.now m (key_of c.event)) h in
      quiet calls (notify locale_le show c.now m c.event c.names).0 (key_of c.event) c.now
        m.dedupe_window_ms done.0 pos (done.1 ∙ duplicate_window c.now m (key_of c.event)) within
