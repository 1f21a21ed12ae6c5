-- ===== src/Hsm/Ceremonies.antt =====
-- Key ceremonies, the custodian-quorum part of app/services/hsm_service.py.
pub mod Aside
pub mod Requests
pub mod Quorum
pub mod Invariant
use vixa_system_config_be.Base.{
  ℕ, ◌+◌, String, ◌⧺◌, Option, none, some, Bool, true, false, List, [], ◌∷◌, ◌++◌, ◌&&◌, ◌||◌, not,
  str_eq, ◌==◌, find, any, update, is_some, str, if◌then◌else◌,
}
use vixa_system_config_be.Json.{Json, Fields, null, text, num, end, field}
use vixa_system_config_be.Runtime.{Runtime, Key, Time}
use vixa_system_config_be.Models.Hsm.{
  MasterKey, MasterKeyStatus, active, expiring, retired, pending, key_status_value, KeyCeremony,
  CeremonyStatus, ceremony_pending, complete, is_pending_ceremony, ceremony_status_value,
  KeyCustodianApproval, approval_count, quorum_met, ceremony_complete,
}
use vixa_system_config_be.Database.{Database}
use vixa_system_config_be.Auth.{days}
use vixa_system_config_be.Audit.{opt_text}
use vixa_system_config_be.Hsm.{can_rotate, get_key_orm, write_key, record_operation, audit_key}
use vixa_system_config_be.Tx.{
  Tx, Error, http, integrity, lookup, ◌>>=◌, ◌>>◌, pure, raise, raise_if, or_raise, gets, modify,
  add_unless, commit, now, uuid4,
}

pub record KeyCeremonyCreate : Type 0 where
  pub master_key_id : Key
  pub predecessor_key_id : Option Key
  pub required_approvals : ℕ
  pub scheduled_at : Option Time

abbrev pub is_pending_key : MasterKeyStatus → Bool
is_pending_key pending = true
is_pending_key _ = false

-- the label of the key that is to be retired, checked
unfoldable pub predecessor_of : Key → Option Key → Tx (Option String)
predecessor_of master_key_id none = pure none
predecessor_of master_key_id (some id) = do
  raise_if (id == master_key_id) (http 409 "Predecessor key must be different from the pending key")
  predecessor ← get_key_orm id
  raise_if (not (can_rotate predecessor.status)) (
      http 409 (
        "Predecessor key must be active or expiring (key is "
        ⧺ key_status_value predecessor.status
        ⧺ ")"))
  pure (some predecessor.key_label)

unfoldable pub add_ceremony : KeyCeremony → Tx (Unit {0})
add_ceremony c =
    add_unless
      (λ d.
        any (λ (r : KeyCeremony). r.id == c.id || str_eq r.ceremony_ref c.ceremony_ref)
          d.ceremonies)
      (integrity "key_ceremonies") (λ d. record d { ceremonies = d.ceremonies ++ c ∷ [] })

unfoldable pub add_approval : KeyCustodianApproval → Tx (Unit {0})
add_approval a =
    add_unless (λ d. any (λ (r : KeyCustodianApproval). r.id == a.id) d.approvals)
      (integrity "key_custodian_approvals") (λ d. record d { approvals = d.approvals ++ a ∷ [] })

unfoldable pub set_approved_at : Key → Time → Tx (Unit {0})
set_approved_at id at = modify (λ d. record d {
  approvals =
      update (λ (r : KeyCustodianApproval). r.id == id) (λ r. record r { approved_at = some at })
        d.approvals;
})

unfoldable pub close_ceremony : Key → Time → Tx (Unit {0})
close_ceremony id at = modify (λ d. record d {
  ceremonies =
      update (λ (r : KeyCeremony). r.id == id)
        (λ r. record r { status = complete; completed_at = some at }) d.ceremonies;
})

-- the select of `approve_ceremony` and `complete_ceremony`, and their first two guards
unfoldable pub get_pending_ceremony : Key → Tx KeyCeremony
get_pending_ceremony ceremony_id = do
  found ← gets (λ d. find (λ (c : KeyCeremony). c.id == ceremony_id) d.ceremonies)
  ceremony ← or_raise found (http 404 "Ceremony not found")
  raise_if (not (is_pending_ceremony ceremony.status))
      (http 409 ("Ceremony is already " ⧺ ceremony_status_value ceremony.status))
  pure ceremony

-- the relationship `master_key`: the foreign key rules out a missing row
unfoldable pub master_key_of : KeyCeremony → Tx MasterKey
master_key_of c = do
  found ← gets (λ d. find (λ (k : MasterKey). k.id == c.master_key_id) d.master_keys)
  or_raise found (lookup "master_keys")

-- reads a ceremony back after the commit
unfoldable pub get_ceremony : Key → Tx KeyCeremony
get_ceremony id = do
  found ← gets (λ d. find (λ (c : KeyCeremony). c.id == id) d.ceremonies)
  or_raise found (lookup "key_ceremonies")

-- an absent or empty label, or one that no key has, names no predecessor
unfoldable pub retire : Option String → Key → Time → Tx (Unit {0})
retire none new_key t = pure tt
retire (some label) new_key t = modify λ d.
    if str_eq label "" || not (any (λ (k : MasterKey). str_eq k.key_label label) d.master_keys)
    then d
    else record d {
      master_keys =
          update (λ (k : MasterKey). str_eq k.key_label label)
            (λ k. record k {
              status = retired;
              retired_at = some t;
              superseded_by_id = some new_key;
            })
            (update (λ (k : MasterKey). k.id == new_key) (λ k. record k { superseded_by_id = none })
              d.master_keys);
    }

module _ ⦃rt : Runtime⦄ where
  unfoldable pub create_ceremony : KeyCeremonyCreate → String → Tx KeyCeremony
  create_ceremony payload actor = do
    target_key ← get_key_orm payload.master_key_id
    raise_if (not (is_pending_key target_key.status)) (
        http 409 (
          "Ceremonies can only be initiated for pending keys (key is "
          ⧺ key_status_value target_key.status
          ⧺ ")"))
    predecessor_label ← predecessor_of payload.master_key_id payload.predecessor_key_id
    duplicate ← gets (λ d.
        find (λ (c : KeyCeremony). c.master_key_id == target_key.id && is_pending_ceremony c.status)
          d.ceremonies)
    raise_if (is_some duplicate) (http 409 "A pending ceremony already exists for this key")
    t ← now
    id ← uuid4
    reference ← uuid4
    let ceremony_ref = "CER-" ⧺ rt.date_text t ⧺ "-" ⧺ rt.short_text reference
    add_ceremony (record {
      id = id;
      ceremony_ref = ceremony_ref;
      master_key_id = target_key.id;
      predecessor_label = predecessor_label;
      required_approvals = payload.required_approvals;
      status = ceremony_pending;
      scheduled_at = payload.scheduled_at;
      completed_at = none;
    })
    audit_key "info" "KEY_CEREMONY_INITIATED" actor
        ("Initiated key ceremony " ⧺ ceremony_ref ⧺ " for " ⧺ target_key.key_label)
        (field "ceremony_ref" (text ceremony_ref) (
          field "master_key_id" (text (rt.uuid_text target_key.id)) (
            field "master_key_label" (text target_key.key_label) (
              field "predecessor_label" (opt_text predecessor_label)
                (field "required_approvals" (num (str payload.required_approvals)) end)))))
    commit
    get_ceremony id

  -- the entry about an approval
  unfoldable pub audit_approval : KeyCeremony → String → Tx (Unit {0})
  audit_approval ceremony custodian_email = do
    key ← master_key_of ceremony
    count ← gets (λ d. approval_count ceremony.id d.approvals)
    audit_key "info" "KEY_CEREMONY_APPROVED" custodian_email
        ("Approved key ceremony " ⧺ ceremony.ceremony_ref)
        (field "ceremony_ref" (text ceremony.ceremony_ref) (
          field "master_key_id" (text (rt.uuid_text ceremony.master_key_id)) (
            field "master_key_label" (text key.key_label) (
              field "approval_count" (num (str count))
                (field "required_approvals" (num (str ceremony.required_approvals)) end)))))

  -- records the approval, unless the custodian has approved
  unfoldable pub approve : KeyCeremony → String → Option KeyCustodianApproval → Tx (Unit {0})
  approve ceremony custodian_email none = do
    t ← now
    id ← uuid4
    add_approval (record {
      id = id;
      ceremony_id = ceremony.id;
      custodian_email = custodian_email;
      approved_at = some t;
    })
    audit_approval ceremony custodian_email
  approve ceremony custodian_email (some approval) =
      if is_some approval.approved_at
      then pure tt
      else (now >>= λ t.
          set_approved_at approval.id t >>= λ _. audit_approval ceremony custodian_email)

  unfoldable pub approve_ceremony : Key → String → Tx KeyCeremony
  approve_ceremony ceremony_id custodian_email = do
    ceremony ← get_pending_ceremony ceremony_id
    approval ← gets (λ d.
        find
          (λ (a : KeyCustodianApproval).
            a.ceremony_id == ceremony.id && str_eq a.custodian_email custodian_email)
          d.approvals)
    approve ceremony custodian_email approval
    commit
    get_ceremony ceremony_id

  -- what is written once the guards have passed
  unfoldable pub finish : KeyCeremony → ℕ → String → Tx (Unit {0})
  finish ceremony approvals actor = do
    t ← now
    new_key ← master_key_of ceremony
    write_key new_key.id (λ k. record k {
      status = active;
      activated_at = some t;
      expires_at = some (t + days k.rotation_policy_days);
    })
    retire ceremony.predecessor_label new_key.id t
    close_ceremony ceremony.id t
    record_operation ceremony_complete (some new_key.id) (some new_key.key_label) actor
        ("Completed ceremony " ⧺ ceremony.ceremony_ref) t
    audit_key "info" "KEY_ROTATION_COMPLETE" actor
        (named ceremony.predecessor_label
          ⧺ " -> "
          ⧺ new_key.key_label
          ⧺ " rotation completed via ceremony "
          ⧺ ceremony.ceremony_ref)
        (field "ceremony_ref" (text ceremony.ceremony_ref)
          (field "new_key" (text new_key.key_label) (field "approvals" (num (str approvals)) end)))
    where
      -- `ceremony.predecessor_label or 'new key'`
      named : Option String → String
      named none = "new key"
      named (some label) = if str_eq label "" then "new key" else label

  unfoldable pub complete_ceremony : Key → String → Tx KeyCeremony
  complete_ceremony ceremony_id actor = do
    ceremony ← get_pending_ceremony ceremony_id
    approvals ← gets (λ d. d.approvals)
    raise_if (not (quorum_met ceremony approvals)) (
        http 409 (
          "Quorum not met: "
          ⧺ str (approval_count ceremony.id approvals)
          ⧺ "/"
          ⧺ str ceremony.required_approvals
          ⧺ " approved"))
    finish ceremony (approval_count ceremony.id approvals) actor
    commit
    get_ceremony ceremony_id
