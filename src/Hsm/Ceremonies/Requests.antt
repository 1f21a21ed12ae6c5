-- ===== src/Hsm/Ceremonies/Requests.antt =====
-- The requests that write keys and ceremonies, app/api/v1/endpoints/hsm.py, and sequences of them.
use vixa_system_config_be.Base.{String, Option, List, [], ◌∷◌}
use vixa_system_config_be.Runtime.{Runtime, Key}
use vixa_system_config_be.Hsm.{MasterKeyCreate, create_key, rotate_key, disable_key}
use vixa_system_config_be.Hsm.Ceremonies.{
  KeyCeremonyCreate, create_ceremony, approve_ceremony, complete_ceremony,
}
use vixa_system_config_be.Tx.{Tx, World, request, discard}

pub data KeyRequest : Type 0 where
  registering : MasterKeyCreate → String → KeyRequest
  rotating : Key → String → Option String → KeyRequest
  disabling : Key → String → KeyRequest
  initiating : KeyCeremonyCreate → String → KeyRequest
  approving completing : Key → String → KeyRequest

module _ ⦃rt : Runtime⦄ where
  unfoldable pub run_key_request : KeyRequest → Tx (Unit {0})
  run_key_request (registering p actor) = discard (create_key p actor)
  run_key_request (rotating id actor label) = discard (rotate_key id actor label)
  run_key_request (disabling id actor) = discard (disable_key id actor)
  run_key_request (initiating p actor) = discard (create_ceremony p actor)
  run_key_request (approving id custodian) = discard (approve_ceremony id custodian)
  run_key_request (completing id actor) = discard (complete_ceremony id actor)

  unfoldable pub run_key_requests : World → List KeyRequest → World
  run_key_requests w [] = w
  run_key_requests w (o ∷ os) = run_key_requests (request (run_key_request o) w).1 os
