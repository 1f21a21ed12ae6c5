-- ===== src/Tests/NotificationRuns.antt =====
-- Runs of reading notifications.
use vixa_system_config_be.Base.{
  ◌+◌, none, false, inl, inr, arith, [], ◌∷◌, ◌≡◌, refl, not, find, filter, count,
}
use vixa_system_config_be.Models.Notification.{Notification, info}
use vixa_system_config_be.Notifications.{
  owned_by, is_unread_of, read_since, notification_to_read, get_unread_count,
  mark_notification_read, mark_all_read,
}
use vixa_system_config_be.Notifications.Counts.{mark_all_read_clears, mark_read_once}
use vixa_system_config_be.Tx.{World, ok, request, ◌>>=◌}
use vixa_system_config_be.Tests.Demo.{demo, blank}

abbrev note : Notification
note = record {
  id = 3;
  user_id = 1;
  severity = info;
  category = "audit";
  title = "t";
  body = "b";
  source = "s";
  link = none;
  is_read = false;
  read_at = none;
  created_at = 0;
}

abbrev inbox : World
inbox = record blank {
  database = record blank.database {
    notifications = note ∷ record note { id = 4; user_id = 2 } ∷ [];
  };
}

unread_runs : (request (get_unread_count 1) inbox).0 ≡ ok (record { unread = 1; total = 1 })
unfolding request get_unread_count count ◌>>=◌
unread_runs = refl

mark_all_read_clears_example :
    let w' = (request (mark_all_read 1) inbox).1 in
    ((request (mark_all_read 1) inbox).0
      ≡ ok (record { detail = "All notifications marked read"; marked_read = 1 }))
    × ((request (get_unread_count 1) w').0 ≡ ok (record { unread = 0; total = 1 }))
    × (filter (λ r. not (owned_by 1 r)) w'.database.notifications
        ≡ filter (λ r. not (owned_by 1 r)) inbox.database.notifications)
mark_all_read_clears_example =
    mark_all_read_clears 1 inbox (record { unread = 1; total = 1 }) unread_runs

mark_read_once_example :
    let (r, w') = request (mark_notification_read 1 3) inbox in
    let (r', w'') = request (mark_notification_read 1 3) w' in
    (r ≡ ok (notification_to_read (read_since (demo.now 0) note)))
    × (count (is_unread_of 1) w'.database.notifications + 1
        ≡ count (is_unread_of 1) inbox.database.notifications)
    × (r' ≡ r)
    × (w''.database ≡ w'.database)
unfolding find
mark_read_once_example =
    mark_read_once 1 inbox note
      (
        (λ q i. elim i [ inl e ↦ λ same. ground arith | inr nowhere ↦ absurd nowhere ]),
        ((λ q i. absurd i), tt),
      )
      refl refl
