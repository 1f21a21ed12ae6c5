-- ===== src/Hsm.antt =====
-- Master keys, the key part of app/services/hsm_service.py: registering, rotating and disabling.
-- The keys of new rows are drawn where the rows are made.
pub mod Ceremonies
pub mod Reads
use vixa_system_config_be.Base.{
  ℕ, ◌+◌, String, ◌⧺◌, Option, none, some, Bool, true, false, List, [], ◌∷◌, ◌++◌, ◌&&◌, ◌||◌, not,
  str_eq, ◌==◌, ltb, find, any, update, is_some, str, if◌then◌else◌,
}
use vixa_system_config_be.Json.{Json, Fields, null, text, num, end, field}
use vixa_system_config_be.Runtime.{Runtime, Key, Time}
use vixa_system_config_be.Models.Hsm.{
  HsmSlot, MasterKey, MasterKeyStatus, active, expiring, retired, pending, disabled,
  key_status_value, SecurityOperation, SecurityOperationType, key_create, key_rotate, key_disable,
  success,
}
use vixa_system_config_be.Database.{Database}
use vixa_system_config_be.Auth.{days}
use vixa_system_config_be.Audit.{append_entry_in_transaction, opt_text}
use vixa_system_config_be.Tx.{
  Tx, Error, http, integrity, ◌>>=◌, ◌>>◌, pure, raise, raise_if, or_raise, gets, modify,
  add_unless, commit, now, uuid4,
}

-- `_EXPIRING_WITHIN_DAYS`
abbrev pub expiring_within_days : ℕ
expiring_within_days = 30

-- `expires_at and (expires_at - now).days <= 30`: the days are rounded down
unfoldable pub expires_soon : Option Time → Time → Bool
expires_soon none t = false
expires_soon (some e) t = ltb e (t + days (expiring_within_days + 1))

-- `_effective_key_status`
unfoldable pub effective_key_status : MasterKey → Time → String
effective_key_status k t = elim k.status [
  | retired ↦ "retired"
  | pending ↦ "pending"
  | disabled ↦ "disabled"
  | _ ↦ if expires_soon k.expires_at t then "expiring" else "active"
]

-- `MasterKeyRead` without the two figures on the rotation period
pub record MasterKeyRead : Type 0 where
  pub id : Key
  pub key_label : String
  pub slot_label : Option String
  pub algorithm : String
  pub status : String
  pub effective_status : String
  pub rotation_policy_days : ℕ
  pub activated_at : Option Time
  pub expires_at : Option Time
  pub wraps_dek_count : ℕ
  pub throughput_ops : String

abbrev pub slot_label_of : Option HsmSlot → Option String
slot_label_of none = none
slot_label_of (some s) = some s.label

abbrev pub slot_of : Option Key → Database → Option HsmSlot
slot_of none d = none
slot_of (some id) d = find (λ (s : HsmSlot). s.id == id) d.hsm_slots

-- `_master_key_to_read`
unfoldable pub master_key_to_read : Database → MasterKey → Time → MasterKeyRead
master_key_to_read d k t = record {
  id = k.id;
  key_label = k.key_label;
  slot_label = slot_label_of (slot_of k.slot_id d);
  algorithm = k.algorithm;
  status = key_status_value k.status;
  effective_status = effective_key_status k t;
  rotation_policy_days = k.rotation_policy_days;
  activated_at = k.activated_at;
  expires_at = k.expires_at;
  wraps_dek_count = k.wraps_dek_count;
  throughput_ops = k.throughput_ops;
}

pub record MasterKeyCreate : Type 0 where
  pub key_label : String
  pub algorithm : String
  pub slot_id : Option Key
  pub rotation_policy_days : ℕ

abbrev pub can_rotate : MasterKeyStatus → Bool
can_rotate active = true
can_rotate expiring = true
can_rotate _ = false

abbrev pub can_disable : MasterKeyStatus → Bool
can_disable retired = false
can_disable disabled = false
can_disable _ = true

-- `db.add(key)`: the primary key and the unique label
unfoldable pub add_key : MasterKey → Tx (Unit {0})
add_key k =
    add_unless
      (λ d. any (λ (r : MasterKey). r.id == k.id || str_eq r.key_label k.key_label) d.master_keys)
      (integrity "master_keys") (λ d. record d { master_keys = d.master_keys ++ k ∷ [] })

-- writes to attributes of the key with this primary key
unfoldable pub write_key : Key → (MasterKey → MasterKey) → Tx (Unit {0})
write_key id f =
    modify (λ d. record d { master_keys = update (λ (r : MasterKey). r.id == id) f d.master_keys })

-- `_get_key_orm`
unfoldable pub get_key_orm : Key → Tx MasterKey
get_key_orm key_id = do
  found ← gets (λ d. find (λ (k : MasterKey). k.id == key_id) d.master_keys)
  or_raise found (http 404 "Key not found")

-- `_assert_label_available`
unfoldable pub assert_label_available : String → Tx (Unit {0})
assert_label_available label = do
  existing ← gets (λ d. find (λ (k : MasterKey). str_eq k.key_label label) d.master_keys)
  raise_if (is_some existing) (http 409 ("Key label '" ⧺ label ⧺ "' already exists"))

unfoldable pub require_slot : Option Key → Tx (Unit {0})
require_slot none = pure tt
require_slot (some id) = do
  slot ← gets (λ d. find (λ (s : HsmSlot). s.id == id) d.hsm_slots)
  or_raise slot (http 404 "Slot not found")
  pure tt

module _ ⦃rt : Runtime⦄ where
  -- `_record_operation`
  unfoldable pub record_operation :
      SecurityOperationType → Option Key → Option String → String → String → Time → Tx (Unit {0})
  record_operation operation_type master_key_id key_label actor detail occurred_at = do
    id ← uuid4
    add_unless (λ d. any (λ (o : SecurityOperation). o.id == id) d.operations)
        (integrity "security_operations")
        (λ d. record d {
          operations =
              d.operations
              ++ record {
                id = id;
                operation_type = operation_type;
                master_key_id = master_key_id;
                key_label = key_label;
                actor = actor;
                status = success;
                detail = detail;
                occurred_at = occurred_at;
              }
                ∷ [];
        })

  -- the entry that each operation on keys writes
  unfoldable pub audit_key : String → String → String → String → Fields → Tx (Unit {0})
  audit_key severity subtype actor description metadata = do
    append_entry_in_transaction (record {
      severity = severity;
      event_type = "key_operation";
      event_subtype = subtype;
      actor = actor;
      description = description;
      tenant_id = none;
      tenant_slug = none;
      source_ip = none;
      metadata_json = metadata;
    })
    pure tt

  -- `_next_version_label`
  unfoldable pub next_version_label : String → String
  next_version_label label = elim (rt.search_version label) [
    | none ↦ label ⧺ "-v2"
    | some (prefix, n) ↦ prefix ⧺ "-v" ⧺ str (n + 1)
  ]

  unfoldable pub successor_label : Option String → String → String
  successor_label none label = next_version_label label
  successor_label (some new) label = if str_eq new "" then next_version_label label else new

  unfoldable pub get_key : Key → Tx MasterKeyRead
  get_key key_id = do key ← get_key_orm key_id; t ← now; gets (λ d. master_key_to_read d key t)

  unfoldable pub create_key : MasterKeyCreate → String → Tx MasterKeyRead
  create_key payload actor = do
    assert_label_available payload.key_label
    require_slot payload.slot_id
    t ← now
    id ← uuid4
    add_key (record {
      id = id;
      key_label = payload.key_label;
      slot_id = payload.slot_id;
      hsm_object_id = none;
      algorithm = payload.algorithm;
      status = pending;
      rotation_policy_days = payload.rotation_policy_days;
      activated_at = none;
      expires_at = none;
      retired_at = none;
      superseded_by_id = none;
      wraps_dek_count = 0;
      throughput_ops = "0.0";
    })
    record_operation key_create (some id) (some payload.key_label) actor
        ("Registered key reference " ⧺ payload.key_label ⧺ " (" ⧺ payload.algorithm
          ⧺ ") — pending ceremony")
        t
    audit_key "info" "KEY_REFERENCE_REGISTERED" actor
        ("Registered key reference " ⧺ payload.key_label)
        (field "master_key_id" (text (rt.uuid_text id)) (
          field "key_label" (text payload.key_label) (
            field "algorithm" (text payload.algorithm) (
              field "slot_id"
                (elim payload.slot_id [ none ↦ null | some s ↦ text (rt.uuid_text s) ])
                (field "rotation_policy_days" (num (str payload.rotation_policy_days)) end)))))
    commit
    get_key id

  -- the key that takes over
  abbrev pub successor_of : MasterKey → Key → String → Time → MasterKey
  successor_of key id label t = record {
    id = id;
    key_label = label;
    slot_id = key.slot_id;
    hsm_object_id = none;
    algorithm = key.algorithm;
    status = active;
    rotation_policy_days = key.rotation_policy_days;
    activated_at = some t;
    expires_at = some (t + days key.rotation_policy_days);
    retired_at = none;
    superseded_by_id = none;
    wraps_dek_count = key.wraps_dek_count;
    throughput_ops = key.throughput_ops;
  }

  unfoldable pub rotate_key : Key → String → Option String → Tx MasterKeyRead
  rotate_key key_id actor new_label = do
    key ← get_key_orm key_id
    raise_if (not (can_rotate key.status)) (
        http 409 (
          "Only active or expiring keys can be rotated (key is "
          ⧺ key_status_value key.status
          ⧺ ")"))
    let label = successor_label new_label key.key_label
    assert_label_available label
    t ← now
    id ← uuid4
    add_key (successor_of key id label t)
    write_key key.id (λ k. record k {
      status = retired;
      retired_at = some t;
      superseded_by_id = some id;
      throughput_ops = "0.0";
    })
    record_operation key_rotate (some id) (some label) actor
        ("Rotated "
          ⧺ key.key_label
          ⧺ " -> "
          ⧺ label
          ⧺ " via provider abstraction ("
          ⧺ str key.wraps_dek_count
          ⧺ " DEKs re-wrapped)")
        t
    audit_key "info" "KEY_ROTATED" actor ("Rotated " ⧺ key.key_label ⧺ " to " ⧺ label) (
        field "predecessor_key_id" (text (rt.uuid_text key.id)) (
          field "predecessor_label" (text key.key_label) (
            field "successor_key_id" (text (rt.uuid_text id)) (
              field "successor_label" (text label)
                (field "wraps_dek_count" (num (str key.wraps_dek_count)) end)))))
    commit
    get_key id

  unfoldable pub disable_key : Key → String → Tx MasterKeyRead
  disable_key key_id actor = do
    key ← get_key_orm key_id
    raise_if (not (can_disable key.status))
        (http 409 ("Key is already " ⧺ key_status_value key.status))
    t ← now
    write_key key.id
        (λ k. record k { status = disabled; retired_at = some t; throughput_ops = "0.0" })
    record_operation key_disable (some key.id) (some key.key_label) actor
        ("Disabled key " ⧺ key.key_label) t
    audit_key "warning" "KEY_DISABLED" actor ("Disabled key " ⧺ key.key_label) (
        field "master_key_id" (text (rt.uuid_text key.id)) (
          field "key_label" (text key.key_label)
            (field "previous_status" (text (key_status_value key.status)) end)))
    commit
    get_key key.id
