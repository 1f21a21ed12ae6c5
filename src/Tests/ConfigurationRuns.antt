-- ===== src/Tests/ConfigurationRuns.antt =====
-- Runs of the configuration documents.
use vixa_system_config_be.Base.{none, some, List, [], ◌∷◌, ◌≡◌, ◌⊎◌, refl, arith, find}
use vixa_system_config_be.Json.{text, end, field, member}
use vixa_system_config_be.Models.Config.{Configuration, draft, active}
use vixa_system_config_be.Payload.{mask_payload, validate_payload}
use vixa_system_config_be.Payload.Masking.{mask_payload_hides}
use vixa_system_config_be.Configurations.{
  ConfigurationCreate, ConfigurationUpdate, create_successor_version, activate_configuration,
  get_configuration_orm, raise_errors, join,
}
use vixa_system_config_be.Configurations.Consistency.{IsConsistent}
use vixa_system_config_be.Configurations.Requests.{
  Operation, create, activate, rollback, perform, serve,
}
use vixa_system_config_be.Configurations.Serving.{serve-IsConsistent}
use vixa_system_config_be.Configurations.Versions.{successor_never_clashes}
use vixa_system_config_be.Configurations.Atomic.{failed_request_changes_nothing}
use vixa_system_config_be.Tx.{World, Error, http, err, status_code, request, discard, ◌>>=◌}
use vixa_system_config_be.Tests.Demo.{demo, blank}

abbrev form : ConfigurationCreate
form = record {
  name = "core";
  payload = field "mode" (text "fast") end;
  description = none;
  sensitive_keys = [];
}

abbrev script : List Operation
script =
    create form "admin" ∷ activate 100 "admin" ∷ rollback 100 "admin" ∷ create form "admin" ∷ []

empty-IsConsistent : IsConsistent []
empty-IsConsistent = record { apart = tt; live = λ c i. absurd i }

serve-IsConsistent_example : IsConsistent (serve blank script).database.configurations
serve-IsConsistent_example = serve-IsConsistent script blank empty-IsConsistent

abbrev stored : Configuration
stored = record {
  id = 7;
  name = "core";
  version = 1;
  status = draft;
  payload = field "mode" (text "fast") end;
  sensitive_keys = [];
  checksum = "sum";
  description = none;
  created_by = "admin";
  activated_at = none;
  archived_at = none;
  deleted_at = none;
}

abbrev one : World
one = record blank { database = record blank.database { configurations = stored ∷ [] } }

missing_fails :
    (request (perform (activate 9 "admin")) one).0 ≡ err (http 404 "Configuration not found")
unfolding request perform activate_configuration get_configuration_orm ◌>>=◌ find discard
missing_fails = refl

failed_request_changes_nothing_example :
    (request (perform (activate 9 "admin")) one).1.database ≡ one.database
failed_request_changes_nothing_example =
    failed_request_changes_nothing (activate 9 "admin") one (http 404 "Configuration not found")
      missing_fails

abbrev activated : Configuration
activated = record stored { status = active; activated_at = some 0 }

abbrev void : ConfigurationUpdate
void = record { payload = end; description = none; sensitive_keys = none }

abbrev refusal : Error
refusal = http 422 "payload must be a non-empty object"

void_fails : (request (create_successor_version 7 void "admin") one).0 ≡ err refusal
unfolding request create_successor_version get_configuration_orm raise_errors validate_payload join
    find ◌>>=◌
void_fails = refl

successor_never_clashes_example : (status_code refusal ≡ 404) ⊎ (status_code refusal ≡ 422)
successor_never_clashes_example =
    successor_never_clashes 7 void "admin" one refusal (λ q i. ground arith) void_fails

mask_payload_hides_example :
    mask_payload (field "dsn" (text "a") end) ("dsn" ∷ [])
    ≡ mask_payload (field "dsn" (text "b") end) ("dsn" ∷ [])
unfolding member
mask_payload_hides_example =
    mask_payload_hides ("dsn" ∷ []) (field "dsn" (text "a") end) (field "dsn" (text "b") end)
      (refl, (λ h. cc), tt)
