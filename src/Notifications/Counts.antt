-- ===== src/Notifications/Counts.antt =====
-- The counters of a user's notifications.
use vixa_system_config_be.Base.{
  ◌+◌, some, Bool, true, List, [], ◌∷◌, ◌≡◌, ◌≢◌, refl, ap, sym, ◌∙◌, inl, inr, arith, ◌==◌, ==_iff,
  not, find, find-update, filter, count, update, In, IsPairwise, Bool-cases,
}
use vixa_system_config_be.Runtime.{Runtime, Key, Time}
use vixa_system_config_be.Models.Notification.{Notification}
use vixa_system_config_be.Database.{Database}
use vixa_system_config_be.Tx.{World, Session, ok, request, open_session, ◌>>=◌}
use vixa_system_config_be.Notifications.{
  owned_by, is_unread_of, read_since, UnreadCountResponse, notification_to_read, get_unread_count,
  mark_read, mark_notification_read, mark_all_read,
}

module _ (user_id : Key) (at : Time) where
  -- after all of a user's notifications are read
  none_unread :
      (t : List Notification)
      → count (is_unread_of user_id) (update (is_unread_of user_id) (read_since at) t) ≡ 0
  unfolding count update read_since
  none_unread [] = refl
  none_unread (r ∷ rs) = ground (arith, none_unread rs)

  same_total :
      (p : Notification → Bool) (t : List Notification)
      → count (owned_by user_id) (update p (read_since at) t) ≡ count (owned_by user_id) t
  unfolding count update read_since
  same_total p [] = refl
  same_total p (r ∷ rs) = ground (arith, same_total p rs)

  same_others :
      (t : List Notification)
      → filter (λ r. not (owned_by user_id r)) (update (is_unread_of user_id) (read_since at) t)
        ≡ filter (λ r. not (owned_by user_id r)) t
  unfolding filter update read_since
  same_others [] = refl
  same_others (r ∷ rs) = ground (arith, same_others rs)

module _ ⦃rt : Runtime⦄ where
  -- Marking all read answers how many of the user's notifications were unread; after it none is, all
  -- are still there, and the notifications of the other users are as they were.
  pub mark_all_read_clears :
      (user_id : Key) (w : World) (before : UnreadCountResponse)
      → (request (get_unread_count user_id) w).0 ≡ ok before
      → let w' = (request (mark_all_read user_id) w).1 in
        ((request (mark_all_read user_id) w).0
          ≡ ok (record { detail = "All notifications marked read"; marked_read = before.unread }))
        × ((request (get_unread_count user_id) w').0
            ≡ ok (record { unread = 0; total = before.total }))
        × (filter (λ r. not (owned_by user_id r)) w'.database.notifications
            ≡ filter (λ r. not (owned_by user_id r)) w.database.notifications)
  unfolding request get_unread_count mark_all_read ◌>>=◌
  mark_all_read_clears user_id w before h =
      let cleared = none_unread user_id (rt.now w.calls) w.database.notifications in
      let all =
        same_total user_id (rt.now w.calls) (is_unread_of user_id) w.database.notifications in
      let others = same_others user_id (rt.now w.calls) w.database.notifications in
      (ground arith, ground arith, others)

abbrev Distinct : List Notification → Type 0
Distinct t = IsPairwise (λ (a b : Notification). a.id ≢ b.id) t

abbrev marked : Key → Time → List Notification → List Notification
marked id at t = update (λ (r : Notification). r.id == id) (read_since at) t

-- a table that does not have the key is not changed
marked_elsewhere :
    (id : Key) (at : Time) (t : List Notification)
    → ((q : Notification) → In q t → id ≢ q.id)
    → marked id at t ≡ t
unfolding update
marked_elsewhere id at [] h = refl
marked_elsewhere id at (r ∷ rs) h =
    let rest = marked_elsewhere id at rs (λ q i. h q (inr i)) in
    let other = h r (inl refl) in ground arith

one_fewer :
    (user_id id : Key) (at : Time) (t : List Notification) (n : Notification)
    → Distinct t
    → find (λ (r : Notification). r.id == id) t ≡ some n
    → is_unread_of user_id n ≡ true
    → count (is_unread_of user_id) (marked id at t) + 1 ≡ count (is_unread_of user_id) t
unfolding count update find
one_fewer user_id id at [] n d h u = absurd (ground arith)
one_fewer user_id id at (r ∷ rs) n d h u = elim (Bool-cases (r.id == id)) [
  | inl here ↦
      let same : r ≡ n = ground arith in
      let rest = marked_elsewhere id at rs (λ q i e. d.0 q i ((==_iff r.id id).0 here ∙ e)) in
      let unread : is_unread_of user_id r ≡ true = ap (is_unread_of user_id) same ∙ u in
      rw (here, rest) (unfold read_since in ground arith)
  | inr later ↦ let rest = one_fewer user_id id at rs n d.1 (ground arith) u in ground arith
]

module _ ⦃rt : Runtime⦄ where
  marking :
      (user_id : Key) (s : Session) (n : Notification)
      → find (λ (r : Notification). r.id == n.id) s.db.notifications ≡ some n
      → is_unread_of user_id n ≡ true
      → ((mark_notification_read user_id n.id s).0
          ≡ ok (notification_to_read (read_since (rt.now s.calls) n)))
        × ((mark_notification_read user_id n.id s).1.saved
            ≡ record s.db { notifications = marked n.id (rt.now s.calls) s.db.notifications })
  unfolding mark_notification_read mark_read ◌>>=◌
  marking user_id s n found unread = ground arith

  again :
      (user_id : Key) (s : Session) (n : Notification)
      → find (λ (r : Notification). r.id == n.id) s.db.notifications ≡ some n
      → owned_by user_id n ≡ true
      → n.is_read ≡ true
      → ((mark_notification_read user_id n.id s).0 ≡ ok (notification_to_read n))
        × ((mark_notification_read user_id n.id s).1.saved ≡ s.saved)
  unfolding mark_notification_read mark_read ◌>>=◌
  again user_id s n found mine read = ground arith

  -- Ids being distinct, a user who marks an unread notification of theirs as read gets it back as
  -- read, and has one unread notification less; marking it again answers the same and changes nothing.
  pub mark_read_once :
      (user_id : Key) (w : World) (n : Notification)
      → Distinct w.database.notifications
      → find (λ (r : Notification). r.id == n.id) w.database.notifications ≡ some n
      → is_unread_of user_id n ≡ true
      → let (r, w') = request (mark_notification_read user_id n.id) w in
        let (r', w'') = request (mark_notification_read user_id n.id) w' in
        (r ≡ ok (notification_to_read (read_since (rt.now w.calls) n)))
        × (count (is_unread_of user_id) w'.database.notifications + 1
            ≡ count (is_unread_of user_id) w.database.notifications)
        × (r' ≡ r)
        × (w''.database ≡ w'.database)
  unfolding request read_since
  mark_read_once user_id w n distinct found unread =
      let at = rt.now w.calls in
      let (answer, saved) = marking user_id (open_session w) n found unread in
      let s' = open_session (request (mark_notification_read user_id n.id) w).1 in
      let (answer', saved') =
        again user_id s' (read_since at n)
          (ap (λ (d : Database). find (λ (r : Notification). r.id == n.id) d.notifications) saved
            ∙ find-update _ (read_since at) w.database.notifications n found (λ q e. e))
          (ground arith) refl in
      (
        answer,
        ap (λ (d : Database). count (is_unread_of user_id) d.notifications + 1) saved
            ∙ one_fewer user_id n.id at w.database.notifications n distinct found unread,
        answer' ∙ sym answer,
        saved',
      )
