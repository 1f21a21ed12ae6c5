-- ===== src/Parameters.antt =====
-- Staged configuration parameters, the first half of app/services/config_service.py.
pub mod Apply
use vixa_system_config_be.Base.{
  ℕ, suc, ◌+◌, String, ◌⧺◌, Option, none, some, Bool, true, false, List, [], ◌∷◌, ◌++◌, ◌&&◌, ◌||◌,
  not, str_eq, ◌==◌, map, filter, find, any, update, is_some, if◌then◌else◌,
}
use vixa_system_config_be.Json.{Json, Fields, bool, text, end, field, member}
use vixa_system_config_be.Runtime.{Runtime, Key, Time}
use vixa_system_config_be.Models.Config.{
  ConfigParameter, ConfigTier, ConfigValueType, enum, integer, boolean, ConfigChange,
  ConfigChangeStatus, pending, applied, reverted, is_pending, has_pending_change,
}
use vixa_system_config_be.Database.{Database}
use vixa_system_config_be.Payload.{mask}
use vixa_system_config_be.Audit.{append_entry_in_transaction}
use vixa_system_config_be.Tx.{
  rolling_back, Tx, Error, Result, Session, http, integrity, ok, err, ◌>>=◌, ◌>>◌, pure, raise,
  raise_if, or_raise, gets, modify, add_unless, commit, now, uuid4,
}

-- `_REDACTED_CONFIG_VALUE`
abbrev pub redacted_config_value : String
redacted_config_value = "[REDACTED]"

abbrev pub is_enum : ConfigValueType → Bool
is_enum enum = true
is_enum _ = false

abbrev pub is_integer : ConfigValueType → Bool
is_integer integer = true
is_integer _ = false

abbrev pub is_boolean : ConfigValueType → Bool
is_boolean boolean = true
is_boolean _ = false

pub record ConfigParameterStage : Type 0 where
  pub value : String
  pub reason : Option String
  pub changed_by : String

-- `ConfigParameterRead`; the enums keep their members in place of their values
pub record ConfigParameterRead : Type 0 where
  pub id : Key
  pub key : String
  pub section : String
  pub tier : ConfigTier
  pub value_type : ConfigValueType
  pub active_value : String
  pub pending_value : Option String
  pub has_pending : Bool
  pub allowed_values : Option (List String)
  pub is_sensitive : Bool
  pub requires_restart : Bool
  pub description : Option String

-- writes to attributes of the parameter with this primary key
unfoldable pub write_parameter : Key → (ConfigParameter → ConfigParameter) → Tx (Unit {0})
write_parameter id f =
    modify
      (λ d. record d { parameters = update (λ (r : ConfigParameter). r.id == id) f d.parameters })

unfoldable pub get_parameter : Key → Tx ConfigParameter
get_parameter id = do
  found ← gets (λ d. find (λ (p : ConfigParameter). p.id == id) d.parameters)
  or_raise found (http 404 "Parameter not found")

unfoldable pub add_change : ConfigChange → Tx (Unit {0})
add_change c =
    add_unless (λ d. any (λ (r : ConfigChange). r.id == c.id) d.changes)
      (integrity "config_changes") (λ d. record d { changes = d.changes ++ c ∷ [] })

unfoldable pub is_open_change : Key → ConfigChange → Bool
is_open_change id c = c.parameter_id == id && is_pending c.status

unfoldable pub revert_config_change : Key → Tx ConfigParameter
revert_config_change parameter_id = do
  parameter ← get_parameter parameter_id
  write_parameter parameter_id (λ p. record p { pending_value = none })
  modify (λ d. record d {
    changes = update (is_open_change parameter_id) (λ c. record c { status = reverted }) d.changes;
  })
  commit
  get_parameter parameter_id

-- the value that the log shows
unfoldable pub audit_value : Bool → String → String
audit_value is_sensitive value = if is_sensitive then redacted_config_value else value

module _ ⦃rt : Runtime⦄ where
  -- `ConfigParameterRead.from_model`; an empty text of allowed values counts as none, and so does
  -- an empty pending value where it would be masked
  unfoldable pub read_parameter : ConfigParameter → ConfigParameterRead
  read_parameter p = record {
    id = p.id;
    key = p.key;
    section = p.section;
    tier = p.tier;
    value_type = p.value_type;
    active_value = if p.is_sensitive then mask else p.active_value;
    pending_value = elim p.pending_value [
      | none ↦ none
      | some v ↦ some (if p.is_sensitive && not (str_eq v "") then mask else v)
    ];
    has_pending = has_pending_change p;
    allowed_values = elim p.allowed_values [
      | none ↦ none
      | some a ↦ if str_eq a "" then none else some (rt.split_commas a)
    ];
    is_sensitive = p.is_sensitive;
    requires_restart = p.requires_restart;
    description = p.description;
  }

  -- what `_validate_value` refuses, by the type of the parameter
  unfoldable pub is_not_allowed : ConfigParameter → String → Bool
  is_not_allowed p value = elim p.allowed_values [
    | none ↦ false
    | some a ↦
        is_enum p.value_type
        && (not (str_eq a "") && not (member value (map rt.strip (rt.split_commas a))))
  ]

  unfoldable pub allowed_text : ConfigParameter → String
  allowed_text p = elim p.allowed_values [
    | none ↦ ""
    | some a ↦ rt.repr_sorted (map rt.strip (rt.split_commas a))
  ]

  -- `_validate_value`
  unfoldable pub validate_value : ConfigParameter → String → Tx (Unit {0})
  validate_value p value = do
    raise_if (is_not_allowed p value) (
        http 422
          ("'" ⧺ value ⧺ "' is not one of the allowed values for " ⧺ p.key ⧺ ": " ⧺ allowed_text p))
    raise_if (is_integer p.value_type && not (rt.is_integer_text value))
        (http 422 (p.key ⧺ " expects an integer value"))
    raise_if (is_boolean p.value_type && not (member (rt.lower value) ("true" ∷ "false" ∷ [])))
        (http 422 (p.key ⧺ " expects a boolean value ('true'/'false')"))

  -- the value that is active already withdraws what was staged
  unfoldable pub stage_value : ConfigParameter → ConfigParameterStage → Tx (Unit {0})
  stage_value parameter payload =
      if str_eq payload.value parameter.active_value
      then write_parameter parameter.id (λ p. record p { pending_value = none })
      else (write_parameter parameter.id (λ p. record p { pending_value = some payload.value })
          >>= λ _. uuid4 >>= λ id. add_change (record {
            id = id;
            parameter_id = parameter.id;
            previous_value = parameter.active_value;
            new_value = payload.value;
            reason = payload.reason;
            changed_by = payload.changed_by;
            status = pending;
            applied_at = none;
          }))

  unfoldable pub stage_config_change : Key → ConfigParameterStage → Tx ConfigParameter
  stage_config_change parameter_id payload = do
    parameter ← get_parameter parameter_id
    validate_value parameter payload.value
    stage_value parameter payload
    commit
    get_parameter parameter_id

  unfoldable pub close_change : Option ConfigChange → Tx (Unit {0})
  close_change none = pure tt
  close_change (some change) = do
    t ← now
    modify (λ d. record d {
      changes =
          update (λ (c : ConfigChange). c.id == change.id)
            (λ c. record c { status = applied; applied_at = some t }) d.changes;
    })

  -- the body of the loop, for a parameter with a staged value
  unfoldable pub apply_one : ConfigParameter → String → String → Tx (Unit {0})
  apply_one p value changed_by = do
    change ← gets (λ d. find (is_open_change p.id) d.changes)
    write_parameter p.id (λ r. record r { active_value = value; pending_value = none })
    close_change change
    append_entry_in_transaction (record {
      severity = "info";
      event_type = "config_change";
      event_subtype = "PARAMETER_UPDATED";
      actor = changed_by;
      description =
          "Config parameter '"
          ⧺ p.key
          ⧺ "' updated: "
          ⧺ rt.repr (audit_value p.is_sensitive p.active_value)
          ⧺ " -> "
          ⧺ rt.repr (audit_value p.is_sensitive value);
      tenant_id = none;
      tenant_slug = none;
      source_ip = none;
      metadata_json = field "parameter_key" (text p.key) (
          field "previous_value" (text (audit_value p.is_sensitive p.active_value)) (
            field "new_value" (text (audit_value p.is_sensitive value))
              (field "requires_restart" (bool p.requires_restart) end)));
    })
    pure tt

  unfoldable pub apply_staged : ConfigParameter → Option String → String → Tx (Unit {0})
  apply_staged p none changed_by = pure tt
  apply_staged p (some value) changed_by = apply_one p value changed_by

  -- the loop over the selected parameters, with its counter
  unfoldable pub apply_all : List ConfigParameter → String → Tx ℕ
  apply_all [] changed_by = pure 0
  apply_all (p ∷ ps) changed_by = do
    apply_staged p p.pending_value changed_by
    n ← apply_all ps changed_by
    pure (suc n)

  -- the body of the `try`
  unfoldable pub promote_and_commit : String → Tx ℕ
  promote_and_commit changed_by = do
    ps ← gets (λ d. filter (λ (p : ConfigParameter). is_some p.pending_value) d.parameters)
    applied_count ← apply_all ps changed_by
    commit
    pure applied_count

  unfoldable pub apply_pending_changes : String → Tx ℕ
  apply_pending_changes changed_by = rolling_back (promote_and_commit changed_by)
