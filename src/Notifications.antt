-- ===== src/Notifications.antt =====
-- Notifications and alert rules, app/services/notification_service.py.
pub mod Rules
pub mod Counts
use vixa_system_config_be.Base.{
  ℕ, String, Option, none, some, Bool, true, false, List, [], ◌∷◌, ◌++◌, ◌&&◌, ◌||◌, not, str_eq,
  ◌==◌, map, filter, find, any, count, sort_by, order_desc, update, delete, take, is_some,
  if◌then◌else◌,
}
use vixa_system_config_be.Runtime.{Runtime, Key, Time}
use vixa_system_config_be.Models.Notification.{
  Notification, NotificationSeverity, critical, warning, info, AlertChannel, in_app, email, slack,
  webhook, AlertRule,
}
use vixa_system_config_be.Database.{Database}
use vixa_system_config_be.Patch.{Patch, unset, null, given, is_null, patch, patch_nullable}
use vixa_system_config_be.Tx.{
  Tx, World, http, integrity, lookup, ◌>>=◌, ◌>>◌, pure, raise, raise_if, or_raise, gets, modify,
  add_unless, commit, now, uuid4, request, discard,
}

unfoldable pub notification_severity_value : NotificationSeverity → String
notification_severity_value critical = "critical"
notification_severity_value warning = "warning"
notification_severity_value info = "info"

unfoldable pub alert_channel_value : AlertChannel → String
alert_channel_value in_app = "in_app"
alert_channel_value email = "email"
alert_channel_value slack = "slack"
alert_channel_value webhook = "webhook"

pub record NotificationRead : Type 0 where
  pub id : Key
  pub severity : String
  pub category : String
  pub title : String
  pub body : String
  pub source : String
  pub link : Option String
  pub is_read : Bool
  pub read_at : Option Time
  pub created_at : Time

unfoldable pub notification_to_read : Notification → NotificationRead
notification_to_read r = record {
  id = r.id;
  severity = notification_severity_value r.severity;
  category = r.category;
  title = r.title;
  body = r.body;
  source = r.source;
  link = r.link;
  is_read = r.is_read;
  read_at = r.read_at;
  created_at = r.created_at;
}

pub record UnreadCountResponse : Type 0 where
  pub unread : ℕ
  pub total : ℕ

pub record MarkAllReadResponse : Type 0 where
  pub detail : String
  pub marked_read : ℕ

abbrev pub owned_by : Key → Notification → Bool
owned_by user_id r = r.user_id == user_id

abbrev pub is_unread_of : Key → Notification → Bool
is_unread_of user_id r = owned_by user_id r && not r.is_read

-- the conditions of `list_notifications`
unfoldable pub notification_matches : Key → Bool → Option String → Notification → Bool
notification_matches user_id unread_only category r =
    owned_by user_id r
    && ((not unread_only || not r.is_read)
        && elim category [ none ↦ true | some c ↦ str_eq c "" || str_eq r.category c ])

unfoldable pub list_notifications : Key → Bool → Option String → ℕ → Tx (List NotificationRead)
list_notifications user_id unread_only category limit = gets (λ d. map notification_to_read (
    take limit (
      order_desc (λ (r : Notification). r.created_at)
        (filter (notification_matches user_id unread_only category) d.notifications))))

unfoldable pub get_unread_count : Key → Tx UnreadCountResponse
get_unread_count user_id = do
  total ← gets (λ d. count (owned_by user_id) d.notifications)
  unread ← gets (λ d. count (is_unread_of user_id) d.notifications)
  pure (record { unread = unread; total = total })

-- the two attributes that a reading sets
unfoldable pub read_since : Time → Notification → Notification
read_since at r = record r { is_read = true; read_at = some at }

module _ ⦃rt : Runtime⦄ where
  -- the branch on `is_read`
  unfoldable pub mark_read : Notification → Tx NotificationRead
  mark_read n =
      if n.is_read
      then pure (notification_to_read n)
      else (now >>= λ t.
          modify (λ d. record d {
            notifications =
                update (λ (r : Notification). r.id == n.id) (read_since t) d.notifications;
          })
          >>= λ _. commit >>= λ _. pure (notification_to_read (read_since t n)))

  unfoldable pub mark_notification_read : Key → Key → Tx NotificationRead
  mark_notification_read user_id notification_id = do
    found ← gets (λ d. find (λ (r : Notification). r.id == notification_id) d.notifications)
    n ← or_raise found (http 404 "Notification not found")
    raise_if (not (owned_by user_id n)) (http 404 "Notification not found")
    mark_read n

  unfoldable pub mark_all_read : Key → Tx MarkAllReadResponse
  mark_all_read user_id = do
    t ← now
    marked ← gets (λ d. count (is_unread_of user_id) d.notifications)
    modify (λ d. record d {
      notifications = update (is_unread_of user_id) (read_since t) d.notifications;
    })
    commit
    pure (record { detail = "All notifications marked read"; marked_read = marked })
