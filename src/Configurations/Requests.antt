-- ===== src/Configurations/Requests.antt =====
-- The requests that write configuration documents, app/api/v1/endpoints/config_manager.py, and
-- sequences of them.
use vixa_system_config_be.Base.{String, List, [], ◌∷◌}
use vixa_system_config_be.Runtime.{Runtime, Key}
use vixa_system_config_be.Configurations.{
  ConfigurationCreate, ConfigurationUpdate, create_configuration, create_successor_version,
  delete_configuration, activate_configuration, archive_configuration, rollback_configuration,
}
use vixa_system_config_be.Configurations.Import.{import_configurations}
use vixa_system_config_be.Tx.{Tx, World, request, discard}

pub data Operation : Type 0 where
  create : ConfigurationCreate → String → Operation
  successor : Key → ConfigurationUpdate → String → Operation
  delete : Key → Operation
  activate archive rollback : Key → String → Operation
  import_all : List ConfigurationCreate → String → Operation

module _ ⦃rt : Runtime⦄ where
  unfoldable pub perform : Operation → Tx (Unit {0})
  perform (create p by) = discard (create_configuration p by)
  perform (successor id p by) = discard (create_successor_version id p by)
  perform (delete id) = discard (delete_configuration id)
  perform (activate id actor) = discard (activate_configuration id actor)
  perform (archive id actor) = discard (archive_configuration id actor)
  perform (rollback id actor) = discard (rollback_configuration id actor)
  perform (import_all items by) = discard (import_configurations items by)

  -- one request after another, each with its own session
  unfoldable pub serve : World → List Operation → World
  serve w [] = w
  serve w (o ∷ os) = serve (request (perform o) w).1 os
