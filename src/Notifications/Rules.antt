-- ===== src/Notifications/Rules.antt =====
-- The alert rules of app/services/notification_service.py.
use vixa_system_config_be.Base.{
  ℕ, String, Option, none, some, Bool, true, List, [], ◌∷◌, ◌++◌, ◌&&◌, ◌||◌, not, str_eq, ◌==◌,
  map, filter, find, any, sort_by, update, delete, is_some,
}
use vixa_system_config_be.Runtime.{Runtime, Key, Time}
use vixa_system_config_be.Models.Notification.{NotificationSeverity, AlertChannel, AlertRule}
use vixa_system_config_be.Patch.{Patch, given, is_null, patch, patch_nullable}
use vixa_system_config_be.Tx.{
  Tx, http, integrity, ◌>>=◌, ◌>>◌, pure, raise_if, or_raise, gets, modify, add_unless, commit, now,
  uuid4,
}
use vixa_system_config_be.Rbac.Reads.{same_bool}
use vixa_system_config_be.Notifications.{notification_severity_value, alert_channel_value}

pub record AlertRuleRead : Type 0 where
  pub id : Key
  pub name : String
  pub description : Option String
  pub source : String
  pub condition : String
  pub threshold_severity : String
  pub channel : String
  pub target : String
  pub is_enabled : Bool
  pub created_by : String
  pub last_triggered_at : Option Time
  pub trigger_count : ℕ
  pub created_at : Time

unfoldable pub alert_rule_to_read : AlertRule → AlertRuleRead
alert_rule_to_read r = record {
  id = r.id;
  name = r.name;
  description = r.description;
  source = r.source;
  condition = r.condition;
  threshold_severity = notification_severity_value r.threshold_severity;
  channel = alert_channel_value r.channel;
  target = r.target;
  is_enabled = r.is_enabled;
  created_by = r.created_by;
  last_triggered_at = r.last_triggered_at;
  trigger_count = r.trigger_count;
  created_at = r.created_at;
}

pub record AlertRuleCreate : Type 0 where
  pub name : String
  pub description : Option String
  pub source : String
  pub condition : String
  pub threshold_severity : NotificationSeverity
  pub channel : AlertChannel
  pub target : String
  pub is_enabled : Bool

pub record AlertRuleUpdate : Type 0 where
  pub name : Patch String
  pub description : Patch String
  pub source : Patch String
  pub condition : Patch String
  pub threshold_severity : Patch NotificationSeverity
  pub channel : Patch AlertChannel
  pub target : Patch String
  pub is_enabled : Patch Bool

-- a `None` for a column that cannot be null
unfoldable pub rule_nulls : AlertRuleUpdate → Bool
rule_nulls p =
    is_null p.name
    || (is_null p.source
        || (is_null p.condition
            || (is_null p.threshold_severity
                || (is_null p.channel || (is_null p.target || is_null p.is_enabled)))))

unfoldable pub patched_rule : AlertRuleUpdate → AlertRule → AlertRule
patched_rule p r = record r {
  name = patch p.name r.name;
  description = patch_nullable p.description r.description;
  source = patch p.source r.source;
  condition = patch p.condition r.condition;
  threshold_severity = patch p.threshold_severity r.threshold_severity;
  channel = patch p.channel r.channel;
  target = patch p.target r.target;
  is_enabled = patch p.is_enabled r.is_enabled;
}

unfoldable pub rule_matches : Option String → Option Bool → AlertRule → Bool
rule_matches source is_enabled r =
    elim source [ none ↦ true | some s ↦ str_eq s "" || str_eq r.source s ]
    && elim is_enabled [ none ↦ true | some b ↦ same_bool r.is_enabled b ]

-- `_get_rule_orm`
unfoldable pub get_rule_orm : Key → Tx AlertRule
get_rule_orm rule_id = do
  found ← gets (λ d. find (λ (r : AlertRule). r.id == rule_id) d.alert_rules)
  or_raise found (http 404 "Alert rule not found")

unfoldable pub add_rule : AlertRule → Tx (Unit {0})
add_rule x =
    add_unless (λ d. any (λ (r : AlertRule). r.id == x.id || str_eq r.name x.name) d.alert_rules)
      (integrity "alert_rules") (λ d. record d { alert_rules = d.alert_rules ++ x ∷ [] })

-- `new_name is not None and new_name != rule.name`, and then the select
unfoldable pub check_new_name : AlertRule → Patch String → Tx (Unit {0})
check_new_name rule (given name) = do
  clash ←
      gets
        (λ d. find (λ (r : AlertRule). str_eq r.name name && not (r.id == rule.id)) d.alert_rules)
  raise_if (not (str_eq name rule.name) && is_some clash)
      (http 409 "An alert rule with this name already exists")
check_new_name rule _ = pure tt

unfoldable pub update_alert_rule : Key → AlertRuleUpdate → Tx AlertRuleRead
update_alert_rule rule_id payload = do
  rule ← get_rule_orm rule_id
  check_new_name rule payload.name
  raise_if (rule_nulls payload) (integrity "alert_rules")
  modify (λ d. record d {
    alert_rules = update (λ (r : AlertRule). r.id == rule.id) (patched_rule payload) d.alert_rules;
  })
  commit
  pure (alert_rule_to_read (patched_rule payload rule))

unfoldable pub delete_alert_rule : Key → Tx (Unit {0})
delete_alert_rule rule_id = do
  rule ← get_rule_orm rule_id
  modify (λ d. record d { alert_rules = delete (λ (r : AlertRule). r.id == rule.id) d.alert_rules })
  commit

module _ ⦃rt : Runtime⦄ where
  unfoldable pub list_alert_rules : Option String → Option Bool → Tx (List AlertRuleRead)
  list_alert_rules source is_enabled = gets (λ d. map alert_rule_to_read (
      filter (rule_matches source is_enabled)
        (sort_by (λ (a b : AlertRule). rt.collate a.name b.name) d.alert_rules)))

  unfoldable pub create_alert_rule : AlertRuleCreate → String → Tx AlertRuleRead
  create_alert_rule payload created_by = do
    existing ← gets (λ d. find (λ (r : AlertRule). str_eq r.name payload.name) d.alert_rules)
    raise_if (is_some existing) (http 409 "An alert rule with this name already exists")
    id ← uuid4
    t ← now
    let rule : AlertRule = record {
      id = id;
      name = payload.name;
      description = payload.description;
      source = payload.source;
      condition = payload.condition;
      threshold_severity = payload.threshold_severity;
      channel = payload.channel;
      target = payload.target;
      is_enabled = payload.is_enabled;
      created_by = created_by;
      last_triggered_at = none;
      trigger_count = 0;
      created_at = t;
    }
    add_rule rule
    commit
    pure (alert_rule_to_read rule)
