-- ===== src/Notification/Manager/Delivery.antt =====
-- `deliver` of src/notification/manager.ts: every channel that is asked for is accounted for.
use risoluto.Prelude.{
  ℕ, Bool-cases, Bool, true, false, not, ◌&&◌, ◌||◌, ◌≡◌, refl, ap, List, [], ◌∷◌, Option, none,
  some, get, has, keys, includes, add_all, includes-add_all, Distinct, get-none_of_includes, Text,
  text_eq, codes, is_some, ◌==◌, ==_iff, Option-cases, inl, inr, arith,
}
use risoluto.Notification.Manager.{
  NotificationEvent, NotificationDeliverySummary, Channels, insert_name, insert_failure,
  unregistered, is_allowed, count_result, deliver_each, deliver, asked_unregistered,
}

abbrev pub names_of : List (Text × Text) → List Text
names_of [] = []
names_of ((n, e) ∷ fs) = n ∷ names_of fs

abbrev sends : Option (NotificationEvent → Option Text) → NotificationEvent → Bool
sends none event = false
sends (some send) event = not (is_some (send event))

-- The channel is there and takes the event.
abbrev pub succeeds : Channels → NotificationEvent → Text → Bool
succeeds channels event name = sends (get channels name) event

-- The channel is asked for: by its name, or by no names at all.
abbrev pub is_asked : Channels → Option (List Text) → Text → Bool
is_asked channels none name = has channels name
is_asked channels (some names) name = includes names name

module _ (locale_le : Text → Text → Bool) (show : ℕ → Text) where
  includes-insert_name :
      (a : Text) (xs : List Text) (n : Text)
      → includes (insert_name locale_le show a xs) n ≡ (a == n || includes xs n)
  unfolding includes insert_name
  includes-insert_name a [] n = refl
  includes-insert_name a (x ∷ xs) n = ground (arith, includes-insert_name a xs n)

  includes-insert_failure :
      (f : Text × Text) (fs : List (Text × Text)) (n : Text)
      → includes (names_of (insert_failure locale_le show f fs)) n
        ≡ (f.0 == n || includes (names_of fs) n)
  unfolding includes insert_failure
  includes-insert_failure (a, e) [] n = refl
  includes-insert_failure (a, e) ((b, d) ∷ fs) n =
      ground (arith, includes-insert_failure (a, e) fs n)

  unregistered_added :
      (channels : Channels) (names : List Text) (x n : Text)
      → includes
          (names_of (
            insert_failure locale_le show
              (x, codes "channel not registered")
              (unregistered locale_le show channels names)))
          n
        ≡ (x == n || includes (names_of (unregistered locale_le show channels names)) n)
  unregistered_added channels names x n =
      includes-insert_failure (x, codes "channel not registered")
        (unregistered locale_le show channels names) n

  includes-unregistered :
      (channels : Channels) (names : List Text) (n : Text)
      → includes (names_of (unregistered locale_le show channels names)) n
        ≡ (includes names n && not (has channels n))
  unfolding includes unregistered
  includes-unregistered channels [] n = refl
  includes-unregistered channels (x ∷ names) n = elim (Bool-cases (x == n)) [
    | inl e ↦ ground (
      arith,
      includes-unregistered channels names n,
      unregistered_added channels names x n,
      ap (has channels) ((==_iff x n).0 e),
    )
    | inr e ↦
        ground
          (arith, includes-unregistered channels names n, unregistered_added channels names x n)
  ]

  counted :
      (name : Text) (result : Option Text) (s : NotificationDeliverySummary) (n : Text)
      → (includes (count_result locale_le show name result s).delivered_channels n
          ≡ ((name == n && not (is_some result)) || includes s.delivered_channels n))
        × (includes (names_of (count_result locale_le show name result s).failed_channels) n
            ≡ ((name == n && is_some result) || includes (names_of s.failed_channels) n))
  counted name none s n =
      (ground (arith, includes-insert_name name s.delivered_channels n), ground arith)
  counted name (some e) s n =
      (ground arith, ground (arith, includes-insert_failure (name, e) s.failed_channels n))

  absent :
      (channels : Channels) (name n : Text)
      → includes (keys channels) name ≡ false
      → (name == n) ≡ true
      → get channels n ≡ none
  absent channels name n d e = elim (Option-cases (get channels n)) [
    | inl here ↦ here
    | inr (f, here) ↦ absurd (
        ground (arith, get-none_of_includes channels name, ap (get channels) ((==_iff name n).0 e)))
  ]

  -- What a pass over the channels adds to both lists.
  each_counted :
      (names : Option (List Text)) (event : NotificationEvent) (channels : Channels)
      (s : NotificationDeliverySummary) (n : Text)
      → Distinct (keys channels)
      → (includes (deliver_each locale_le show names event channels s).delivered_channels n ≡ (
          (is_allowed locale_le show names n && succeeds channels event n)
          || includes s.delivered_channels n))
        × (includes
              (names_of (deliver_each locale_le show names event channels s).failed_channels)
              n
            ≡ ((is_allowed locale_le show names n
                  && (has channels n && not (succeeds channels event n)))
                || includes (names_of s.failed_channels) n))
  unfolding deliver_each get
  each_counted names event [] s n d = (ground arith, ground arith)
  each_counted names event ((name, send) ∷ channels) s n d =
      let rest = deliver_each locale_le show names event channels s in
      let ih = each_counted names event channels s n d.1 in
      let now = counted name (send event) rest n in
      elim (Bool-cases (name == n)) [
        | inl e ↦ (
          ground (
            arith,
            ih.0,
            now.0,
            absent channels name n d.0 e,
            ap (is_allowed locale_le show names) ((==_iff name n).0 e),
          ),
          ground (
            arith,
            ih.1,
            now.1,
            absent channels name n d.0 e,
            ap (is_allowed locale_le show names) ((==_iff name n).0 e),
          ),
        )
        | inr e ↦ (ground (arith, ih.0, now.0), ground (arith, ih.1, now.1))
      ]

  asked_failed :
      (channels : Channels) (names : Option (List Text)) (n : Text)
      → includes (names_of (asked_unregistered locale_le show channels names)) n
        ≡ (is_asked channels names n && not (has channels n))
  unfolding includes
  asked_failed channels none n = ground arith
  asked_failed channels (some names) n =
      ground
        (arith, includes-unregistered channels (add_all [] names) n, includes-add_all [] names n)

  allowed_asked :
      (channels : Channels) (names : Option (List Text)) (n : Text)
      → (is_allowed locale_le show names n && has channels n)
        ≡ (is_asked channels names n && has channels n)
  allowed_asked channels none n = ground arith
  allowed_asked channels (some names) n = refl

  -- A delivery names a channel as delivered just if it was asked for, is registered and took the
  -- event, and as failed just if it was asked for and did not take it, or is not registered. The
  -- channels have distinct names.
  pub deliver_lem :
      (channels : Channels) (event : NotificationEvent) (names : Option (List Text)) (n : Text)
      → Distinct (keys channels)
      → let summary = deliver locale_le show channels event names in
        (includes summary.delivered_channels n
          ≡ (is_asked channels names n && succeeds channels event n))
        × (includes (names_of summary.failed_channels) n
            ≡ (is_asked channels names n && not (succeeds channels event n)))
  unfolding deliver includes
  deliver_lem channels event names n d =
      let start : NotificationDeliverySummary = record {
        delivered_channels = [];
        failed_channels = asked_unregistered locale_le show channels names;
        skipped_duplicate = false;
      } in
      let each = each_counted names event channels start n d in
      let failed = asked_failed channels names n in
      let allowed = allowed_asked channels names n in
      elim (Option-cases (get channels n)) [
        | inl e ↦ (ground (arith, each.0, allowed), ground (arith, each.1, failed, allowed))
        | inr (f, e) ↦ (ground (arith, each.0, allowed), ground (arith, each.1, failed, allowed))
      ]
