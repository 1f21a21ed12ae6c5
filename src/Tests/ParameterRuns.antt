-- ===== src/Tests/ParameterRuns.antt =====
-- Runs of the staged parameters.
use vixa_system_config_be.Base.{
  none, some, false, [], ◌∷◌, ◌≡◌, refl, map, length, filter, find, update, last_by, order_desc,
  any, str, sort_by, insert_by,
}
use vixa_system_config_be.Models.Config.{
  ConfigParameter, critical, string, ConfigChange, pending, applied,
}
use vixa_system_config_be.Parameters.{
  apply_pending_changes, promote_and_commit, apply_all, apply_staged, apply_one, is_open_change,
  write_parameter, close_change, audit_value,
}
use vixa_system_config_be.Audit.{
  append_entry_in_transaction, get_tail, insert_entry, lacks_named_tenant, compute_entry_hash,
  canonical_payload,
}
use vixa_system_config_be.Models.Audit.{
  severity_of, event_type_of, is_event_type_name, event_type_named, event_type_valued,
}
use vixa_system_config_be.Metadata.{sanitize_fields, is_sensitive_key}
use vixa_system_config_be.Json.{member}
use vixa_system_config_be.Parameters.Apply.{promote, is_staged, apply_promotes}
use vixa_system_config_be.Tx.{undo, rolling_back, World, ok, request, ◌>>=◌}
use vixa_system_config_be.Tests.Demo.{demo, blank}

abbrev parameter : ConfigParameter
parameter = record {
  id = 1;
  key = "mode";
  section = "core";
  tier = critical;
  value_type = string;
  active_value = "slow";
  pending_value = some "fast";
  allowed_values = none;
  is_sensitive = false;
  requires_restart = false;
  description = none;
}

abbrev first_change : ConfigChange
first_change = record {
  id = 2;
  parameter_id = 1;
  previous_value = "slow";
  new_value = "medium";
  reason = none;
  changed_by = "admin";
  status = pending;
  applied_at = none;
}

-- the parameter was staged twice
abbrev staged : World
staged = record blank {
  database = record blank.database {
    parameters = parameter ∷ [];
    changes = first_change ∷ record first_change { id = 3; new_value = "fast" } ∷ [];
  };
}

apply_runs : (request (apply_pending_changes "admin") staged).0 ≡ ok 1
unfolding request apply_pending_changes promote_and_commit rolling_back undo apply_all apply_staged
    apply_one filter find update is_open_change write_parameter close_change audit_value
    append_entry_in_transaction get_tail last_by order_desc severity_of event_type_of
    is_event_type_name event_type_named event_type_valued insert_entry lacks_named_tenant any str
    compute_entry_hash canonical_payload sanitize_fields is_sensitive_key member sort_by insert_by
    ◌>>=◌
apply_runs = refl

-- One change is marked as applied, the one whose value was replaced; the other stays pending.
change_left_pending :
    map
      (λ (c : ConfigChange). c.status)
      (request (apply_pending_changes "admin") staged).1.database.changes
    ≡ applied ∷ pending ∷ []
unfolding request apply_pending_changes promote_and_commit rolling_back undo apply_all apply_staged
    apply_one filter find update is_open_change write_parameter close_change audit_value
    append_entry_in_transaction get_tail last_by order_desc severity_of event_type_of
    is_event_type_name event_type_named event_type_valued insert_entry lacks_named_tenant any str
    compute_entry_hash canonical_payload sanitize_fields is_sensitive_key member sort_by insert_by
    ◌>>=◌
change_left_pending = refl

apply_promotes_example :
    ((request (apply_pending_changes "admin") staged).1.database.parameters
      ≡ map promote (parameter ∷ []))
    × (1 ≡ length (filter is_staged (parameter ∷ [])))
apply_promotes_example = apply_promotes "admin" staged 1 ((λ q i. absurd i), tt) apply_runs
