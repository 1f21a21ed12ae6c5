-- ===== src/Hsm/Reads.antt =====
-- Ceremonies and the history of operations as app/services/hsm_service.py answers them.
use vixa_system_config_be.Base.{
  ℕ, String, Option, none, some, Bool, true, List, ◌==◌, str_eq, map, filter, take, order_desc,
}
use vixa_system_config_be.Runtime.{Key, Time}
use vixa_system_config_be.Models.Hsm.{
  MasterKey, KeyCeremony, ceremony_status_value, KeyCustodianApproval, approval_count, quorum_met,
  SecurityOperation, SecurityOperationType, key_create, key_rotate, key_disable, attestation_run,
  ceremony_complete, SecurityOperationStatus, success, failed,
}
use vixa_system_config_be.Tx.{Tx, gets, ◌>>=◌}
use vixa_system_config_be.Hsm.Ceremonies.{master_key_of}

unfoldable pub operation_type_value : SecurityOperationType → String
operation_type_value key_create = "key_create"
operation_type_value key_rotate = "key_rotate"
operation_type_value key_disable = "key_disable"
operation_type_value attestation_run = "attestation_run"
operation_type_value ceremony_complete = "ceremony_complete"

unfoldable pub operation_status_value : SecurityOperationStatus → String
operation_status_value success = "success"
operation_status_value failed = "failed"

pub record CustodianApprovalRead : Type 0 where
  pub custodian_email : String
  pub approved_at : Option Time

pub record KeyCeremonyRead : Type 0 where
  pub id : Key
  pub ceremony_ref : String
  pub master_key_label : String
  pub predecessor_label : Option String
  pub required_approvals : ℕ
  pub approval_count : ℕ
  pub quorum_met : Bool
  pub status : String
  pub scheduled_at : Option Time
  pub completed_at : Option Time
  pub approvals : List CustodianApprovalRead

unfoldable pub ceremony_to_read :
    KeyCeremony → MasterKey → List KeyCustodianApproval → KeyCeremonyRead
ceremony_to_read c key t = record {
  id = c.id;
  ceremony_ref = c.ceremony_ref;
  master_key_label = key.key_label;
  predecessor_label = c.predecessor_label;
  required_approvals = c.required_approvals;
  approval_count = approval_count c.id t;
  quorum_met = quorum_met c t;
  status = ceremony_status_value c.status;
  scheduled_at = c.scheduled_at;
  completed_at = c.completed_at;
  approvals =
      map
        (λ (a : KeyCustodianApproval). record {
          custodian_email = a.custodian_email;
          approved_at = a.approved_at;
        })
        (filter (λ (a : KeyCustodianApproval). a.ceremony_id == c.id) t);
}

-- `c.master_key`, whose label the answer reads
unfoldable pub read_ceremony : KeyCeremony → Tx KeyCeremonyRead
read_ceremony c = do key ← master_key_of c; gets (λ d. ceremony_to_read c key d.approvals)

pub record SecurityOperationRead : Type 0 where
  pub id : Key
  pub operation_type : String
  pub master_key_id : Option Key
  pub key_label : Option String
  pub actor : String
  pub status : String
  pub detail : String
  pub occurred_at : Time

unfoldable pub operation_to_read : SecurityOperation → SecurityOperationRead
operation_to_read o = record {
  id = o.id;
  operation_type = operation_type_value o.operation_type;
  master_key_id = o.master_key_id;
  key_label = o.key_label;
  actor = o.actor;
  status = operation_status_value o.status;
  detail = o.detail;
  occurred_at = o.occurred_at;
}

unfoldable pub is_of_type : Option SecurityOperationType → SecurityOperation → Bool
is_of_type none o = true
is_of_type (some t) o = str_eq (operation_type_value o.operation_type) (operation_type_value t)

-- newest first
unfoldable pub list_operations : Option SecurityOperationType → ℕ → Tx (List SecurityOperationRead)
list_operations operation_type limit = gets (λ d. map operation_to_read (
    take limit (
      order_desc (λ (o : SecurityOperation). o.occurred_at)
        (filter (is_of_type operation_type) d.operations))))
