-- ===== src/Tests/HsmRuns.antt =====
-- Runs of keys and ceremonies.
use vixa_system_config_be.Base.{
  none, some, List, [], ◌∷◌, ◌≡◌, refl, find, map, update, any, last_by, order_desc, count, str,
  sort_by, insert_by,
}
use vixa_system_config_be.Models.Hsm.{
  MasterKey, active, pending, KeyCeremony, ceremony_pending, KeyCustodianApproval, key_status_value,
  quorum_met, approval_count, is_approval_of,
}
use vixa_system_config_be.Hsm.{
  MasterKeyCreate, disable_key, get_key_orm, write_key, record_operation, audit_key, get_key,
  master_key_to_read,
}
use vixa_system_config_be.Hsm.Ceremonies.{
  KeyCeremonyCreate, complete_ceremony, get_pending_ceremony, finish, master_key_of, retire,
  close_ceremony, get_ceremony,
}
use vixa_system_config_be.Audit.{
  append_entry_in_transaction, get_tail, insert_entry, lacks_named_tenant, compute_entry_hash,
  canonical_payload,
}
use vixa_system_config_be.Models.Audit.{
  severity_of, event_type_of, is_event_type_name, event_type_named, event_type_valued,
}
use vixa_system_config_be.Metadata.{sanitize_fields, is_sensitive_key}
use vixa_system_config_be.Json.{member}
use vixa_system_config_be.Tx.{World, request, discard, ◌>>=◌}
use vixa_system_config_be.Hsm.Ceremonies.Quorum.{HasQuorum}
use vixa_system_config_be.Hsm.Ceremonies.Invariant.{quorum_always_reached}
use vixa_system_config_be.Hsm.Ceremonies.Requests.{
  KeyRequest, registering, disabling, initiating, completing, run_key_request, run_key_requests,
}
use vixa_system_config_be.Tests.Demo.{demo, blank}

abbrev key_form : MasterKeyCreate
key_form = record {
  key_label = "root";
  algorithm = "AES-256";
  slot_id = none;
  rotation_policy_days = 180;
}

abbrev ceremony_form : KeyCeremonyCreate
ceremony_form = record {
  master_key_id = 101;
  predecessor_key_id = none;
  required_approvals = 1;
  scheduled_at = none;
}

abbrev script : List KeyRequest
script = registering key_form "admin" ∷ initiating ceremony_form "admin" ∷ []

no_ceremonies : HasQuorum [] []
no_ceremonies = record { refs = tt; custodians = tt; reached = λ c i. absurd i }

quorum_always_reached_example :
    let d = (run_key_requests blank script).database in HasQuorum d.ceremonies d.approvals
quorum_always_reached_example = quorum_always_reached script blank no_ceremonies

abbrev key : MasterKey
key = record {
  id = 1;
  key_label = "root";
  slot_id = none;
  hsm_object_id = none;
  algorithm = "AES-256";
  status = pending;
  rotation_policy_days = 180;
  activated_at = none;
  expires_at = none;
  retired_at = none;
  superseded_by_id = none;
  wraps_dek_count = 0;
  throughput_ops = "0.0";
}

abbrev ceremony : KeyCeremony
ceremony = record {
  id = 2;
  ceremony_ref = "CER";
  master_key_id = 1;
  predecessor_label = none;
  required_approvals = 1;
  status = ceremony_pending;
  scheduled_at = none;
  completed_at = none;
}

abbrev approval : KeyCustodianApproval
approval = record { id = 3; ceremony_id = 2; custodian_email = "c"; approved_at = some 0 }

abbrev approved : World
approved = record blank {
  database = record blank.database {
    master_keys = key ∷ [];
    ceremonies = ceremony ∷ [];
    approvals = approval ∷ [];
  };
}

-- A key that is disabled while its ceremony is pending becomes active when the ceremony completes.
disabled_then_completed :
    map
      (λ (k : MasterKey). k.status)
      (run_key_requests approved
        (disabling 1 "admin" ∷ completing 2 "admin" ∷ [])).database.master_keys
    ≡ active ∷ []
unfolding run_key_requests run_key_request request discard disable_key get_key_orm find write_key
    update record_operation any audit_key append_entry_in_transaction get_tail last_by order_desc
    severity_of event_type_of is_event_type_name event_type_named event_type_valued insert_entry
    lacks_named_tenant key_status_value get_key master_key_to_read complete_ceremony
    get_pending_ceremony quorum_met approval_count is_approval_of count finish master_key_of retire
    close_ceremony get_ceremony str compute_entry_hash canonical_payload sanitize_fields
    is_sensitive_key member sort_by insert_by ◌>>=◌
disabled_then_completed = refl
