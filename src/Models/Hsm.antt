-- ===== src/Models/Hsm.antt =====
-- Keys, ceremonies and the history of operations, app/models/hsm.py. A float column is kept as its
-- literal.
use vixa_system_config_be.Base.{
  ℕ, String, Option, Bool, true, false, List, ◌&&◌, ◌==◌, leb, is_some, count,
}
use vixa_system_config_be.Runtime.{Key, Time}

-- the columns of a slot that the keys read
pub record HsmSlot : Type 0 where
  pub id : Key
  pub slot_number : ℕ
  pub label : String

pub data MasterKeyStatus : Type 0 where
  active expiring retired pending disabled : MasterKeyStatus

-- the values of the enum
unfoldable pub key_status_value : MasterKeyStatus → String
key_status_value active = "active"
key_status_value expiring = "expiring"
key_status_value retired = "retired"
key_status_value pending = "pending"
key_status_value disabled = "disabled"

pub record MasterKey : Type 0 where
  pub id : Key
  pub key_label : String
  pub slot_id : Option Key
  pub hsm_object_id : Option String
  pub algorithm : String
  pub status : MasterKeyStatus
  pub rotation_policy_days : ℕ
  pub activated_at : Option Time
  pub expires_at : Option Time
  pub retired_at : Option Time
  pub superseded_by_id : Option Key
  pub wraps_dek_count : ℕ
  pub throughput_ops : String

pub data CeremonyStatus : Type 0 where
  ceremony_pending complete aborted : CeremonyStatus

unfoldable pub ceremony_status_value : CeremonyStatus → String
ceremony_status_value ceremony_pending = "pending"
ceremony_status_value complete = "complete"
ceremony_status_value aborted = "aborted"

abbrev pub is_pending_ceremony : CeremonyStatus → Bool
is_pending_ceremony ceremony_pending = true
is_pending_ceremony _ = false

pub record KeyCeremony : Type 0 where
  pub id : Key
  pub ceremony_ref : String
  pub master_key_id : Key
  pub predecessor_label : Option String
  pub required_approvals : ℕ
  pub status : CeremonyStatus
  pub scheduled_at : Option Time
  pub completed_at : Option Time

pub record KeyCustodianApproval : Type 0 where
  pub id : Key
  pub ceremony_id : Key
  pub custodian_email : String
  pub approved_at : Option Time

-- `approval_count` and `quorum_met`, over the table of the approvals
unfoldable pub is_approval_of : Key → KeyCustodianApproval → Bool
is_approval_of id a = a.ceremony_id == id && is_some a.approved_at

unfoldable pub approval_count : Key → List KeyCustodianApproval → ℕ
approval_count id t = count (is_approval_of id) t

unfoldable pub quorum_met : KeyCeremony → List KeyCustodianApproval → Bool
quorum_met c t = leb c.required_approvals (approval_count c.id t)

pub data SecurityOperationType : Type 0 where
  key_create key_rotate key_disable attestation_run ceremony_complete : SecurityOperationType

pub data SecurityOperationStatus : Type 0 where
  success failed : SecurityOperationStatus

pub record SecurityOperation : Type 0 where
  pub id : Key
  pub operation_type : SecurityOperationType
  pub master_key_id : Option Key
  pub key_label : Option String
  pub actor : String
  pub status : SecurityOperationStatus
  pub detail : String
  pub occurred_at : Time
