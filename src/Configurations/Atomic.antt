-- ===== src/Configurations/Atomic.antt =====
-- A call on configuration documents that raises has changed nothing.
use vixa_system_config_be.Base.{String, Option, none, some, List, [], ◌∷◌, ◌≡◌, refl, arith}
use vixa_system_config_be.Json.{Fields}
use vixa_system_config_be.Runtime.{Runtime, Key, Time}
use vixa_system_config_be.Models.Config.{Configuration}
use vixa_system_config_be.Payload.{validate_payload}
use vixa_system_config_be.Audit.Append.{append-IsQuiet}
use vixa_system_config_be.Configurations.{
  ConfigurationCreate, ConfigurationUpdate, save, add, get_configuration_orm, archive_current,
  raise_errors, audit_config, create_configuration, create_successor_version, delete_configuration,
  activate_configuration, archive_configuration, rollback_configuration,
}
use vixa_system_config_be.Configurations.Requests.{
  Operation, create, successor, delete, activate, archive, rollback, import_all, perform,
}
use vixa_system_config_be.Configurations.Import.{import_item, import_items, import_configurations}
use vixa_system_config_be.Tx.{Error, err, ◌>>=◌, World, request, open_session}
use vixa_system_config_be.Tx.Rules.{
  IsQuiet, IsAtomic, IsAtomic-discard, IsQuiet-bind, IsQuiet-pure, quiet_rules, atomic_rules,
}

save-IsQuiet : (c : Configuration) → IsQuiet (save c)
unfolding save
save-IsQuiet c = search quiet_rules

add-IsQuiet : (c : Configuration) → IsQuiet (add c)
unfolding add
add-IsQuiet c = record { saved = λ s. ground arith }

get_orm-IsQuiet : (id : Key) → IsQuiet (get_configuration_orm id)
unfolding get_configuration_orm
get_orm-IsQuiet id = search quiet_rules

archive_current-IsQuiet :
    (current : Option Configuration) (id : Key) (at : Time)
    → IsQuiet (archive_current current id at)
unfolding archive_current ◌>>=◌
archive_current-IsQuiet none id at = record { saved = λ s. refl }
archive_current-IsQuiet (some c) id at = record { saved = λ s. ground arith }

raise_errors-IsQuiet : (es : List String) → IsQuiet (raise_errors es)
unfolding raise_errors
raise_errors-IsQuiet [] = search quiet_rules
raise_errors-IsQuiet (e ∷ es) = search quiet_rules

module _ ⦃rt : Runtime⦄ where
  audit_config-IsQuiet :
      (actor subtype description : String) (metadata : Fields)
      → IsQuiet (audit_config actor subtype description metadata)
  unfolding audit_config
  audit_config-IsQuiet actor subtype description metadata = search (quiet_rules, append-IsQuiet)

ruleset config_rules = (
  atomic_rules, save-IsQuiet, add-IsQuiet, get_orm-IsQuiet, archive_current-IsQuiet,
  raise_errors-IsQuiet, audit_config-IsQuiet,
)

module _ ⦃rt : Runtime⦄ where
  create-IsAtomic : (p : ConfigurationCreate) (by : String) → IsAtomic (create_configuration p by)
  unfolding create_configuration
  create-IsAtomic p by = search config_rules depth 12

  successor-IsAtomic :
      (id : Key) (p : ConfigurationUpdate) (by : String)
      → IsAtomic (create_successor_version id p by)
  unfolding create_successor_version
  successor-IsAtomic id p by = search config_rules depth 12

  delete-IsAtomic : (id : Key) → IsAtomic (delete_configuration id)
  unfolding delete_configuration
  delete-IsAtomic id = search config_rules depth 12

  activate-IsAtomic : (id : Key) (actor : String) → IsAtomic (activate_configuration id actor)
  unfolding activate_configuration
  activate-IsAtomic id actor = search config_rules depth 16

  archive-IsAtomic : (id : Key) (actor : String) → IsAtomic (archive_configuration id actor)
  unfolding archive_configuration
  archive-IsAtomic id actor = search config_rules depth 12

  rollback-IsAtomic : (id : Key) (actor : String) → IsAtomic (rollback_configuration id actor)
  unfolding rollback_configuration
  rollback-IsAtomic id actor = search config_rules depth 20

  import_item-IsQuiet :
      (errors : List String) (item : ConfigurationCreate) (by : String)
      → IsQuiet (import_item errors item by)
  unfolding import_item
  import_item-IsQuiet [] item by = search config_rules depth 10
  import_item-IsQuiet (e ∷ es) item by = search config_rules

  import_items-IsQuiet :
      (items : List ConfigurationCreate) (by : String) → IsQuiet (import_items items by)
  unfolding import_items
  import_items-IsQuiet [] by = search quiet_rules
  import_items-IsQuiet (item ∷ items) by =
      IsQuiet-bind _ _
        (import_item-IsQuiet (validate_payload rt item.payload item.sensitive_keys) item by)
        (λ row.
          IsQuiet-bind _ _ (import_items-IsQuiet items by) (λ rows. IsQuiet-pure (row ∷ rows)))

  import-IsAtomic :
      (items : List ConfigurationCreate) (by : String) → IsAtomic (import_configurations items by)
  unfolding import_configurations
  import-IsAtomic items by = search (config_rules, import_items-IsQuiet)

  perform-IsAtomic : (o : Operation) → IsAtomic (perform o)
  unfolding perform
  perform-IsAtomic (create p by) = IsAtomic-discard _ (create-IsAtomic p by)
  perform-IsAtomic (successor id p by) = IsAtomic-discard _ (successor-IsAtomic id p by)
  perform-IsAtomic (delete id) = IsAtomic-discard _ (delete-IsAtomic id)
  perform-IsAtomic (activate id actor) = IsAtomic-discard _ (activate-IsAtomic id actor)
  perform-IsAtomic (archive id actor) = IsAtomic-discard _ (archive-IsAtomic id actor)
  perform-IsAtomic (rollback id actor) = IsAtomic-discard _ (rollback-IsAtomic id actor)
  perform-IsAtomic (import_all items by) = IsAtomic-discard _ (import-IsAtomic items by)

  -- A request on configuration documents that fails, whatever the operation and the reason, leaves
  -- every stored table as it was: no half of an activation, a rollback or an import is kept.
  pub failed_request_changes_nothing :
      (o : Operation) (w : World) (e : Error)
      → (request (perform o) w).0 ≡ err e
      → (request (perform o) w).1.database ≡ w.database
  unfolding request
  failed_request_changes_nothing o w e h = (perform-IsAtomic o).kept (open_session w) e h
