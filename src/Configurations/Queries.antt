-- ===== src/Configurations/Queries.antt =====
-- The operations on configuration documents that only read, app/services/config_service.py.
use vixa_system_config_be.Base.{
  ℕ, ◌+◌, String, ◌⧺◌, Option, none, some, Bool, true, false, List, [], ◌∷◌, ◌&&◌, ◌||◌, str_eq,
  ◌==◌, leb, map, length, filter, find, last_by, sort_by, order_desc, is_none, str, if◌then◌else◌,
}
use vixa_system_config_be.Json.{Json, Fields, keys, member}
use vixa_system_config_be.Runtime.{Runtime, Key}
use vixa_system_config_be.Models.Config.{
  Configuration, ConfigurationStatus, draft, active, archived,
}
use vixa_system_config_be.Payload.{checksum_of, mask_payload, validate_payload}
use vixa_system_config_be.Payload.Masking.{entry_of}
use vixa_system_config_be.Configurations.{
  ConfigurationRead, to_read, get_configuration_orm, active_configuration,
}
use vixa_system_config_be.Tx.{Tx, http, ◌>>=◌, pure, or_raise, gets}

abbrev pub same_status : ConfigurationStatus → ConfigurationStatus → Bool
same_status draft draft = true
same_status active active = true
same_status archived archived = true
same_status _ _ = false

-- the conditions of `list_configurations`
unfoldable pub listed : Option String → Option ConfigurationStatus → Bool → Configuration → Bool
listed name config_status include_deleted c =
    (include_deleted || is_none c.deleted_at)
    && (elim name [ none ↦ true | some n ↦ str_eq c.name n ]
        && elim config_status [ none ↦ true | some s ↦ same_status c.status s ])

-- `order_by(name, version.desc())` and `order_by(name, version)`
abbrev pub by_name_desc : Runtime → Configuration → Configuration → Bool
by_name_desc rt a b =
    if str_eq a.name b.name then leb b.version a.version else rt.collate a.name b.name

abbrev pub by_name_asc : Runtime → Configuration → Configuration → Bool
by_name_asc rt a b =
    if str_eq a.name b.name then leb a.version b.version else rt.collate a.name b.name

unfoldable pub list_configurations :
    Runtime
    → Option String
    → Option ConfigurationStatus
    → Bool
    → List Configuration
    → List ConfigurationRead
list_configurations rt name config_status include_deleted t =
    map to_read (sort_by (by_name_desc rt) (filter (listed name config_status include_deleted) t))

-- the versions of a name that are not deleted, newest first
unfoldable pub is_live_of : String → Configuration → Bool
is_live_of name c = str_eq c.name name && is_none c.deleted_at

unfoldable pub get_configuration : Key → Tx ConfigurationRead
get_configuration config_id = do config ← get_configuration_orm config_id; pure (to_read config)

unfoldable pub get_latest_configuration : String → Tx ConfigurationRead
get_latest_configuration name = do
  found ←
      gets (λ d.
        last_by (λ (c : Configuration). c.version) (filter (is_live_of name) d.configurations))
  config ← or_raise found (http 404 ("No configuration found for name '" ⧺ name ⧺ "'"))
  pure (to_read config)

unfoldable pub get_latest_active_configuration : String → Tx ConfigurationRead
get_latest_active_configuration name = do
  found ← gets (λ d. active_configuration name d.configurations)
  config ← or_raise found (http 404 ("No active configuration for name '" ⧺ name ⧺ "'"))
  pure (to_read config)

unfoldable pub get_configuration_history : Key → Tx (List ConfigurationRead)
get_configuration_history config_id = do
  config ← get_configuration_orm config_id
  gets (λ d. map to_read (
      order_desc (λ (c : Configuration). c.version)
        (filter (is_live_of config.name) d.configurations)))

pub record ConfigurationValidateResponse : Type 0 where
  pub valid : Bool
  pub errors : List String
  pub checksum : Option String

-- `validate_configuration_payload`
unfoldable pub validate_configuration_payload :
    Runtime → Fields → List String → ConfigurationValidateResponse
validate_configuration_payload rt payload sensitive =
    let errors = validate_payload rt payload sensitive in
    elim errors [
      | [] ↦ record { valid = true; errors = []; checksum = some (checksum_of rt payload) }
      | e ∷ es ↦ record { valid = false; errors = e ∷ es; checksum = none }
    ]

-- `ConfigurationExportItem`: no payload
pub record ConfigurationExportItem : Type 0 where
  pub name : String
  pub version : ℕ
  pub status : ConfigurationStatus
  pub checksum : String
  pub description : Option String
  pub created_by : String

unfoldable pub export_item : Configuration → ConfigurationExportItem
export_item c = record {
  name = c.name;
  version = c.version;
  status = c.status;
  checksum = c.checksum;
  description = c.description;
  created_by = c.created_by;
}

-- `export_configurations`: the count and the items
unfoldable pub export_configurations :
    Runtime → List Configuration → ℕ × List ConfigurationExportItem
export_configurations rt t =
    let items = map export_item (sort_by (by_name_asc rt) (filter (λ c. is_none c.deleted_at) t)) in
    (length items, items)

pub record Change : Type 0 where
  pub key : String
  pub before : Option Json
  pub after : Option Json

pub record ConfigurationCompareResponse : Type 0 where
  pub name : String
  pub base_version : ℕ
  pub other_version : ℕ
  pub added : List (String × Option Json)
  pub removed : List (String × Option Json)
  pub changed : List Change
  pub unchanged_count : ℕ

-- `_compare`'s parts. The loops over sets of keys run in the order of a payload here.
-- `{k: other_m[k] for k in other_keys - base_keys}`, with the masked values `m`
unfoldable pub only_in : List String → List String → Fields → List (String × Option Json)
only_in [] others m = []
only_in (k ∷ ks) others m =
    let rest = only_in ks others m in if member k others then rest else (k, entry_of k m) ∷ rest

abbrev pub opt_equal : Runtime → Option Json → Option Json → Bool
opt_equal rt (some a) (some b) = rt.equal a b
opt_equal rt none none = true
opt_equal rt _ _ = false

-- the loop over `base_keys & other_keys`: the changes with their masked values, and the count of
-- the keys that did not change
unfoldable pub compare_common :
    Runtime → List String → Fields → Fields → Fields → Fields → List Change × ℕ
compare_common rt [] base_p other_p base_m other_m = ([], 0)
compare_common rt (k ∷ ks) base_p other_p base_m other_m =
    let (changed, unchanged) = compare_common rt ks base_p other_p base_m other_m in
    if member k (keys other_p)
    then if opt_equal rt (entry_of k base_p) (entry_of k other_p)
      then (changed, unchanged + 1)
      else (
        record { key = k; before = entry_of k base_m; after = entry_of k other_m } ∷ changed,
        unchanged,
      )
    else (changed, unchanged)

unfoldable pub compare_rows : Runtime → Configuration → Configuration → ConfigurationCompareResponse
compare_rows rt base other =
    let base_m = mask_payload base.payload base.sensitive_keys in
    let other_m = mask_payload other.payload other.sensitive_keys in
    let common = compare_common rt (keys base.payload) base.payload other.payload base_m other_m in
    record {
      name = base.name;
      base_version = base.version;
      other_version = other.version;
      added = only_in (keys other.payload) (keys base.payload) other_m;
      removed = only_in (keys base.payload) (keys other.payload) base_m;
      changed = common.0;
      unchanged_count = common.1;
    }

unfoldable pub compare_configurations : Runtime → Key → ℕ → Tx ConfigurationCompareResponse
compare_configurations rt config_id other_version = do
  base ← get_configuration_orm config_id
  found ← gets (λ d.
      find (λ (c : Configuration). is_live_of base.name c && c.version == other_version)
        d.configurations)
  other ← or_raise found (
      http 404
        ("Version " ⧺ str other_version ⧺ " not found for configuration '" ⧺ base.name ⧺ "'"))
  pure (compare_rows rt base other)
