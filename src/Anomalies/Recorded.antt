-- ===== src/Anomalies/Recorded.antt =====
-- What a change of the status of an anomaly commits: the transition and its audit entry.
use vixa_system_config_be.Base.{
  suc, String, ◌⧺◌, Option, none, some, [], ◌∷◌, ◌++◌, ◌≡◌, refl, ap, sym, ◌∙◌, arith, ◌==◌, update,
}
use vixa_system_config_be.Json.{member}
use vixa_system_config_be.Runtime.{Runtime, Key, Time}
use vixa_system_config_be.Metadata.{is_sensitive_key, sanitize_fields}
use vixa_system_config_be.Models.Audit.{
  AuditLogEntry, AuditLogEntryCreate, event_type_of, event_type_value, event_type_value-of,
  is_event_type_name, event_type_named,
}
use vixa_system_config_be.Models.Anomaly.{
  AnomalyStatus, open_status, investigating, resolved, dismissed, anomaly_status_value,
  AnomalyEvent,
}
use vixa_system_config_be.Database.{Database}
use vixa_system_config_be.Audit.{append_entry_in_transaction, insert_entry}
use vixa_system_config_be.Audit.Append.{Appends, append-Appends}
use vixa_system_config_be.Anomalies.{
  audit_metadata, previous_field, transition, find_event, write_event, append_anomaly_audit,
  record_transition, update_found, update_anomaly_status, audit_actor,
}
use vixa_system_config_be.Anomalies.Reads.{get_text}
use vixa_system_config_be.Tx.{
  Session, Result, ok, err, continue, pure, commit, undo, rolling_back, ◌>>=◌,
}

-- `str.lower` leaves the keys of the metadata, which are in lower case, as they are.
pub record LowersKeys (rt : Runtime) : Type 0 where
  pub anomaly_id : rt.lower "anomaly_id" ≡ "anomaly_id"
  pub category : rt.lower "category" ≡ "category"
  pub severity : rt.lower "severity" ≡ "severity"
  pub status : rt.lower "status" ≡ "status"
  pub score : rt.lower "score" ≡ "score"
  pub metadata_json : rt.lower "metadata_json" ≡ "metadata_json"
  pub previous_status : rt.lower "previous_status" ≡ "previous_status"

module _ ⦃rt : Runtime⦄ where
  -- The redaction of the log leaves the three texts that the history reads.
  pub meta_texts :
      (e : AnomalyEvent) (previous : AnomalyStatus)
      → LowersKeys rt
      → let m = sanitize_fields rt (audit_metadata e (some previous)) in
        (get_text "anomaly_id" m ≡ some (rt.uuid_text e.id))
        × (get_text "status" m ≡ some (anomaly_status_value e.status))
        × (get_text "previous_status" m ≡ some (anomaly_status_value previous))
  unfolding audit_metadata previous_field sanitize_fields is_sensitive_key member get_text
  meta_texts e previous h =
      rw
        (
          h.anomaly_id, h.category, h.severity, h.status, h.score, h.metadata_json,
          h.previous_status,
        )
        (refl, refl, refl)

  -- What the new entry holds of its payload.
  pub appended_row :
      (p : AuditLogEntryCreate) (s : Session) (row : AuditLogEntry)
      → (append_entry_in_transaction p s).0 ≡ ok row
      → (row.metadata_json ≡ sanitize_fields rt p.metadata_json)
        × (event_type_of p.event_type ≡ some row.event_type)
  unfolding append_entry_in_transaction insert_entry ◌>>=◌
  appended_row p s row h = ground arith

module _ ⦃rt : Runtime⦄ where
  -- What a status change that returns has committed: the transition and one entry.
  pub record IsRecorded (id : Key) (old : AnomalyEvent) (status : AnomalyStatus) (s : Session)
      (saved : Database) : Type 0 where
    pub at : Time
    pub row : AuditLogEntry
    pub events :
        saved.anomaly_events
        ≡ update (λ (e : AnomalyEvent). e.id == old.id) (transition status at) s.db.anomaly_events
    pub log : saved.audit_log ≡ s.db.audit_log ++ row ∷ []
    pub numbered : row.sequence ≡ suc s.sequence
    pub texts :
        (get_text "anomaly_id" row.metadata_json ≡ some (rt.uuid_text old.id))
        × (get_text "status" row.metadata_json ≡ some (anomaly_status_value status))
        × (get_text "previous_status" row.metadata_json ≡ some (anomaly_status_value old.status))
    pub kind : event_type_value row.event_type ≡ "anomaly_detected"

  pub transition-status :
      (status : AnomalyStatus) (at : Time) (e : AnomalyEvent)
      → ((transition status at e).status ≡ status) × ((transition status at e).id ≡ e.id)
  unfolding transition
  transition-status status at e =
      elim status as (λ s. ((transition s at e).status ≡ s) × ((transition s at e).id ≡ e.id)) [
        | open_status ↦ (refl, refl)
        | investigating ↦ (refl, refl)
        | resolved ↦ (refl, refl)
        | dismissed ↦ (refl, refl)
      ]

  -- the rest of the call, once the entry is appended
  abbrev completed :
      AnomalyEvent → Result AuditLogEntry → Session → Result (Option AnomalyEvent) × Session
  completed e r s' =
      let (r1, s1) = continue r (λ _. pure tt) s' in
      let (r2, s2) = continue r1 (λ _. commit >>= λ _. pure (some e)) s1 in undo r2 s2

  change_completed :
      (e : AnomalyEvent) (s : Session) (r : Result AuditLogEntry) (s' : Session)
      (o : Option AnomalyEvent)
      → Appends s (r, s')
      → (completed e r s').0 ≡ ok o
      → (row : AuditLogEntry) × (r ≡ ok row)
        × ((completed e r s').1.saved ≡ record s.db { audit_log = s.db.audit_log ++ row ∷ [] })
        × (row.sequence ≡ suc s.sequence)
  unfolding ◌>>=◌ undo
  change_completed e s (ok row) s' o a h = (row, refl, a.0, a.2)
  change_completed e s (err x) s' o a h = absurd (ground arith)

  abbrev entry_of : AnomalyStatus → Option String → AnomalyEvent → Time → AuditLogEntryCreate
  entry_of status actor old at = record {
    severity = "info";
    event_type = "anomaly_detected";
    event_subtype = "ANOMALY_STATUS_UPDATED";
    actor = audit_actor actor old.actor;
    description =
        "Anomaly status updated: "
        ⧺ anomaly_status_value old.status
        ⧺ " -> "
        ⧺ anomaly_status_value status;
    tenant_id = (transition status at old).tenant_id;
    tenant_slug = none;
    source_ip = (transition status at old).source_ip;
    metadata_json = audit_metadata (transition status at old) (some old.status);
  }

  -- the session that the entry is appended in
  abbrev changed : AnomalyStatus → AnomalyEvent → Time → Session → Session
  changed status old at s = record s {
    calls = suc s.calls;
    db = record s.db {
      anomaly_events =
          update (λ (e : AnomalyEvent). e.id == old.id) (transition status at) s.db.anomaly_events;
    };
  }

  change_runs :
      (id : Key) (status : AnomalyStatus) (actor : Option String) (s : Session) (old : AnomalyEvent)
      → find_event id s.db ≡ some old
      → let at = rt.now s.calls in
        let a =
          append_entry_in_transaction (entry_of status actor old at) (changed status old at s) in
        update_anomaly_status id status actor s ≡ completed (transition status at old) a.0 a.1
  unfolding update_anomaly_status update_found record_transition write_event append_anomaly_audit
      rolling_back ◌>>=◌
  change_runs id status actor s old found = rw found refl

  pub recorded :
      (id : Key) (status : AnomalyStatus) (actor : Option String) (s : Session) (old : AnomalyEvent)
      (o : Option AnomalyEvent)
      → LowersKeys rt
      → find_event id s.db ≡ some old
      → (update_anomaly_status id status actor s).0 ≡ ok o
      → IsRecorded id old status s (update_anomaly_status id status actor s).1.saved
  unfolding is_event_type_name event_type_named
  recorded id status actor s old o keys found h =
      let at = rt.now s.calls in
      let p = entry_of status actor old at in
      let s1 = changed status old at s in
      let (r, s') = append_entry_in_transaction p s1 in
      let runs = change_runs id status actor s old found in
      let (row, ran, saved, numbered) =
        change_completed (transition status at old) s1 r s' o (append-Appends p s1)
          (ap (λ x. x.0) (sym runs) ∙ h) in
      let stored = ap (λ x. x.1.saved) runs ∙ saved in
      let (meta, kind) = appended_row p s1 row ran in
      let (is_id, is_status, is_previous) = meta_texts (transition status at old) old.status keys in
      let (same_status, same_id) = transition-status status at old in
      record {
        at = at;
        row = row;
        events = ap (λ (d : Database). d.anomaly_events) stored;
        log = ap (λ (d : Database). d.audit_log) stored;
        numbered = numbered;
        texts = (
          ap (get_text "anomaly_id") meta ∙ is_id ∙ ap (λ k. some (rt.uuid_text k)) same_id,
          ap (get_text "status") meta
              ∙ is_status
              ∙ ap (λ x. some (anomaly_status_value x)) same_status,
          ap (get_text "previous_status") meta ∙ is_previous,
        );
        kind = event_type_value-of p.event_type row.event_type kind refl;
      }
