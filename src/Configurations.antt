-- ===== src/Configurations.antt =====
-- Versioned configuration documents, the second half of app/services/config_service.py:
-- the operations that write. The children hold the selects, the import and the proofs.
pub mod Queries
pub mod Import
pub mod Requests
pub mod Consistency
pub mod Atomic
pub mod Invariant
pub mod Keeps
pub mod Serving
pub mod Versions
use vixa_system_config_be.Base.{
  ℕ, zero, suc, ◌+◌, String, ◌⧺◌, Option, none, some, Bool, true, false, List, [], ◌∷◌, ◌++◌, ◌&&◌,
  ◌||◌, not, str_eq, ◌==◌, ltb, map, length, filter, find, any, update, last_by, order_desc,
  order_asc, is_some, is_none, or_else, str, if◌then◌else◌,
}
use vixa_system_config_be.Json.{Json, Fields, null, text, num, obj, end, field, keys, member}
use vixa_system_config_be.Runtime.{Runtime, Key, Time}
use vixa_system_config_be.Models.Audit.{AuditLogEntryCreate}
use vixa_system_config_be.Models.Config.{
  Configuration, ConfigurationStatus, draft, active, archived, is_active, is_archived,
}
use vixa_system_config_be.Database.{Database}
use vixa_system_config_be.Payload.{checksum_of, mask_payload, validate_payload}
use vixa_system_config_be.Audit.{append_entry_in_transaction}
use vixa_system_config_be.Tx.{
  Tx, Error, http, integrity, err, ok, ◌>>=◌, ◌>>◌, pure, raise, raise_if, or_raise, gets, modify,
  commit, now, uuid4,
}

-- `ConfigurationRead` without the timestamps of the mixin
pub record ConfigurationRead : Type 0 where
  pub id : Key
  pub name : String
  pub version : ℕ
  pub status : ConfigurationStatus
  pub payload : Fields
  pub sensitive_keys : List String
  pub checksum : String
  pub description : Option String
  pub created_by : String
  pub activated_at : Option Time
  pub archived_at : Option Time
  pub deleted_at : Option Time
  pub is_deleted : Bool

-- `_to_read`
unfoldable pub to_read : Configuration → ConfigurationRead
to_read c = record {
  id = c.id;
  name = c.name;
  version = c.version;
  status = c.status;
  payload = mask_payload c.payload c.sensitive_keys;
  sensitive_keys = c.sensitive_keys;
  checksum = c.checksum;
  description = c.description;
  created_by = c.created_by;
  activated_at = c.activated_at;
  archived_at = c.archived_at;
  deleted_at = c.deleted_at;
  is_deleted = is_some c.deleted_at;
}

pub record ConfigurationCreate : Type 0 where
  pub name : String
  pub payload : Fields
  pub description : Option String
  pub sensitive_keys : List String

pub record ConfigurationUpdate : Type 0 where
  pub payload : Fields
  pub description : Option String
  pub sensitive_keys : Option (List String)

-- the mapped object writes its row
unfoldable pub save : Configuration → Tx (Unit {0})
save c =
    modify (λ d. record d { configurations = update (λ r. r.id == c.id) (λ _. c) d.configurations })

-- `db.add(config); db.flush()`: the primary key and the constraint `uq_configurations_name_version`
unfoldable pub clashes : Configuration → Configuration → Bool
clashes c r = r.id == c.id || (str_eq r.name c.name && r.version == c.version)

unfoldable pub add : Configuration → Tx (Unit {0})
unfolding clashes
add c s =
    if any (clashes c) s.db.configurations
    then (err (integrity "configurations"), s)
    else (ok tt, record s { db = record s.db { configurations = s.db.configurations ++ c ∷ [] } })

-- `_get_configuration_orm`
unfoldable pub get_configuration_orm : Key → Tx Configuration
get_configuration_orm config_id = do
  found ← gets (λ d. find (λ (c : Configuration). c.id == config_id) d.configurations)
  config ← or_raise found (http 404 "Configuration not found")
  raise_if (is_some config.deleted_at) (http 404 "Configuration not found")
  pure config

-- `func.max(version)` over all rows of a name, soft-deleted ones included, or 0
unfoldable pub max_version : String → List Configuration → ℕ
max_version name [] = 0
max_version name (c ∷ cs) =
    let rest = max_version name cs in
    if str_eq c.name name then (if ltb rest c.version then c.version else rest) else rest

-- `_next_version`
unfoldable pub next_version : String → List Configuration → ℕ
unfolding max_version
next_version name t = max_version name t + 1

-- `_active_configuration`
unfoldable pub is_active_of : String → Configuration → Bool
is_active_of name c = str_eq c.name name && (is_active c.status && is_none c.deleted_at)

unfoldable pub active_configuration : String → List Configuration → Option Configuration
unfolding is_active_of
active_configuration name t =
    last_by (λ (c : Configuration). c.version) (filter (is_active_of name) t)

-- archives the version that was active, unless it is the one that is activated
unfoldable pub archive_current : Option Configuration → Key → Time → Tx (Unit {0})
unfolding save
archive_current none config_id at = pure tt
archive_current (some c) config_id at =
    if c.id == config_id
    then pure tt
    else save (record c { status = archived; archived_at = some at })

unfoldable pub join : List String → String
join [] = ""
join (x ∷ []) = x
join (x ∷ y ∷ ys) = x ⧺ "; " ⧺ join (y ∷ ys)

-- `if errors: raise HTTPException(422, "; ".join(errors))`
unfoldable pub raise_errors : List String → Tx (Unit {0})
raise_errors [] = pure tt
raise_errors (e ∷ es) = raise (http 422 (join (e ∷ es)))

-- `sensitive_keys if given, else those of the base version`, and likewise the description
abbrev pub given_or : {A : Type 0} → Option A → Option A → Option A
given_or none b = b
given_or (some a) b = some a

abbrev pub draft_of :
    Key → String → ℕ → Fields → List String → String → Option String → String → Configuration
draft_of id name version payload sensitive_keys checksum description created_by = record {
  id = id;
  name = name;
  version = version;
  status = draft;
  payload = payload;
  sensitive_keys = sensitive_keys;
  checksum = checksum;
  description = description;
  created_by = created_by;
  activated_at = none;
  archived_at = none;
  deleted_at = none;
}

module _ ⦃rt : Runtime⦄ where
  -- `_audit_config`
  unfoldable pub audit_config : String → String → String → Fields → Tx (Unit {0})
  audit_config actor subtype description metadata = do
    append_entry_in_transaction (record {
      severity = "info";
      event_type = "config_change";
      event_subtype = subtype;
      actor = actor;
      description = description;
      tenant_id = none;
      tenant_slug = none;
      source_ip = none;
      metadata_json = metadata;
    })
    pure tt

  unfoldable pub create_configuration : ConfigurationCreate → String → Tx ConfigurationRead
  create_configuration payload created_by = do
    existing ← gets (λ d. find (λ (c : Configuration). str_eq c.name payload.name) d.configurations)
    raise_if (is_some existing) (
        http 409 ("Configuration '" ⧺ payload.name ⧺ "' already exists; PATCH it to add a version"))
    raise_errors (validate_payload rt payload.payload payload.sensitive_keys)
    id ← uuid4
    let config =
        draft_of id payload.name 1 payload.payload payload.sensitive_keys
          (checksum_of rt payload.payload) payload.description created_by
    add config
    commit
    pure (to_read config)

  unfoldable pub create_successor_version :
      Key → ConfigurationUpdate → String → Tx ConfigurationRead
  create_successor_version config_id payload created_by = do
    base ← get_configuration_orm config_id
    let sensitive = or_else payload.sensitive_keys base.sensitive_keys
    raise_errors (validate_payload rt payload.payload sensitive)
    id ← uuid4
    version ← gets (λ d. next_version base.name d.configurations)
    let config =
        draft_of id base.name version payload.payload sensitive (checksum_of rt payload.payload)
          (given_or payload.description base.description) created_by
    add config
    commit
    pure (to_read config)

  unfoldable pub delete_configuration : Key → Tx (Unit {0})
  delete_configuration config_id = do
    config ← get_configuration_orm config_id
    raise_if (is_active config.status)
        (http 409 "Cannot delete an active configuration; archive it first")
    t ← now
    save (record config { deleted_at = some t })
    commit

  unfoldable pub activate_configuration : Key → String → Tx ConfigurationRead
  activate_configuration config_id actor = do
    config ← get_configuration_orm config_id
    raise_if (is_active config.status) (http 409 "Configuration version is already active")
    t ← now
    current ← gets (λ d. active_configuration config.name d.configurations)
    archive_current current config.id t
    let config' = record config { status = active; activated_at = some t; archived_at = none }
    save config'
    audit_config actor "CONFIGURATION_ACTIVATED"
        ("Configuration '" ⧺ config.name ⧺ "' v" ⧺ str config.version ⧺ " activated")
        (field "name" (text config.name) (
          field "version" (num (str config.version)) (field "checksum" (text config.checksum) end)))
    commit
    pure (to_read config')

  unfoldable pub archive_configuration : Key → String → Tx ConfigurationRead
  archive_configuration config_id actor = do
    config ← get_configuration_orm config_id
    raise_if (is_archived config.status) (http 409 "Configuration version is already archived")
    t ← now
    let config' = record config { status = archived; archived_at = some t }
    save config'
    commit
    pure (to_read config')

  unfoldable pub rollback_configuration : Key → String → Tx ConfigurationRead
  rollback_configuration config_id actor = do
    base ← get_configuration_orm config_id
    t ← now
    version ← gets (λ d. next_version base.name d.configurations)
    id ← uuid4
    let config =
        draft_of id base.name version base.payload base.sensitive_keys base.checksum
          (some ("Rollback of '" ⧺ base.name ⧺ "' to v" ⧺ str base.version)) actor
    add config
    current ← gets (λ d. active_configuration base.name d.configurations)
    archive_current current config.id t
    let config' = record config { status = active; activated_at = some t }
    save config'
    audit_config actor "CONFIGURATION_ROLLED_BACK"
        ("Configuration '"
          ⧺ base.name
          ⧺ "' rolled back to v"
          ⧺ str base.version
          ⧺ " (activated as v"
          ⧺ str version
          ⧺ ")")
        (field "name" (text base.name) (
          field "restored_from_version" (num (str base.version))
            (field "new_version" (num (str version)) end)))
    commit
    pure (to_read config')
