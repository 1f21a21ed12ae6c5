-- ===== src/Anomalies/Entries.antt =====
-- The audit entries that a status change of several anomalies writes, one after another.
use vixa_system_config_be.Base.{
  String, Option, some, List, [], ◌∷◌, ◌++◌, ◌≡◌, refl, ap, ◌∙◌, update, arith,
}
use vixa_system_config_be.Runtime.{Runtime, Time}
use vixa_system_config_be.Metadata.{sanitize_fields}
use vixa_system_config_be.Models.Audit.{AuditLogEntry, AuditLogEntryCreate, event_type_of}
use vixa_system_config_be.Models.Anomaly.{AnomalyStatus, anomaly_status_value, AnomalyEvent}
use vixa_system_config_be.Database.{Database}
use vixa_system_config_be.Audit.{append_entry_in_transaction}
use vixa_system_config_be.Audit.Append.{Appends, append-Appends}
use vixa_system_config_be.Anomalies.{
  transition, append_anomaly_audit, record_transition, write_event, transition_all, audit_metadata,
}
use vixa_system_config_be.Anomalies.Reads.{get_text}
use vixa_system_config_be.Anomalies.Recorded.{
  LowersKeys, meta_texts, appended_row, transition-status,
}
use vixa_system_config_be.Anomalies.Selection.{is_event, write_all}
use vixa_system_config_be.Tx.{Session, Result, ok, err}
use vixa_system_config_be.Tx.Rules.{Triple, Triple-bind, Triple-pure, Triple-modify, Triple-weaken}

append_assoc : {A : Type 0} (xs ys zs : List A) → (xs ++ ys) ++ zs ≡ xs ++ (ys ++ zs)
append_assoc [] ys zs = refl
append_assoc (x ∷ xs) ys zs = ap (◌∷◌ x) (append_assoc xs ys zs)

pub append_nil : {A : Type 0} (xs : List A) → xs ++ [] ≡ xs
append_nil [] = refl
append_nil (x ∷ xs) = ap (◌∷◌ x) (append_nil xs)

module _ ⦃rt : Runtime⦄ where
  -- The entry is that of a change of the anomaly to the status: it names the anomaly, its status
  -- before and the new one.
  abbrev pub IsEntryOf : AnomalyStatus → AnomalyEvent → AuditLogEntry → Type 0
  IsEntryOf status e row =
      (get_text "anomaly_id" row.metadata_json ≡ some (rt.uuid_text e.id))
      × (get_text "previous_status" row.metadata_json ≡ some (anomaly_status_value e.status))
      × (get_text "status" row.metadata_json ≡ some (anomaly_status_value status))

  -- one entry for each anomaly, in the same order
  abbrev pub AreEntriesOf : AnomalyStatus → List AnomalyEvent → List AuditLogEntry → Type 0
  AreEntriesOf status [] [] = Unit
  AreEntriesOf status [] (row ∷ rows) = ⊥
  AreEntriesOf status (e ∷ es) [] = ⊥
  AreEntriesOf status (e ∷ es) (row ∷ rows) = IsEntryOf status e row × AreEntriesOf status es rows

  AreEntriesOf-snoc :
      (status : AnomalyStatus) (es : List AnomalyEvent) (rows : List AuditLogEntry)
      (e : AnomalyEvent) (row : AuditLogEntry)
      → AreEntriesOf status es rows
      → IsEntryOf status e row
      → AreEntriesOf status (es ++ e ∷ []) (rows ++ row ∷ [])
  AreEntriesOf-snoc status [] [] e row h k = (k, tt)
  AreEntriesOf-snoc status [] (r ∷ rows) e row h k = absurd h
  AreEntriesOf-snoc status (x ∷ es) [] e row h k = absurd h
  AreEntriesOf-snoc status (x ∷ es) (r ∷ rows) e row h k =
      (h.0, AreEntriesOf-snoc status es rows e row h.1 k)

  -- What the tables of a call hold: the anomalies, and after the old audit entries those of the
  -- changes done.
  abbrev pub Holds :
      AnomalyStatus → List AuditLogEntry → List AnomalyEvent → List AnomalyEvent → Database → Type 0
  Holds status old done t d =
      (d.anomaly_events ≡ t)
      × ((rows : List AuditLogEntry) × (d.audit_log ≡ old ++ rows) × AreEntriesOf status done rows)

  abbrev pub Any : Database → Type 0
  Any d = Unit

  module _ (keys : LowersKeys rt) (status : AnomalyStatus) (old : List AuditLogEntry) where
    append-Triple :
        (p : AuditLogEntryCreate) (at : Time) (e : AnomalyEvent) (done t : List AnomalyEvent)
        → p.metadata_json ≡ audit_metadata (transition status at e) (some e.status)
        → Triple Any
            (Holds status old done t)
            (append_entry_in_transaction p)
            (λ _ d. Holds status old (done ++ e ∷ []) t d)
    append-Triple p at e done t meta = record {
      run = λ s _ _ h.
          let (r, s') = append_entry_in_transaction p s in
          (tt, tt, λ row ran. go s r s' (append-Appends p s) h (appended_row p s) row ran);
    }
      where
        go :
            (s : Session) (r : Result AuditLogEntry) (s' : Session)
            → Appends s (r, s')
            → Holds status old done t s.db
            → ((row : AuditLogEntry)
                → r ≡ ok row
                → (row.metadata_json ≡ sanitize_fields rt p.metadata_json)
                  × (event_type_of p.event_type ≡ some row.event_type))
            → (row : AuditLogEntry) → r ≡ ok row
            → Holds status old (done ++ e ∷ []) t s'.db
        go s (err x) s' a h k row q = absurd (ground arith)
        go s (ok x) s' a (events, (rows, log, are)) k row q =
            let (same_status, same_id) = transition-status status at e in
            let content = (k x refl).0 ∙ ap (sanitize_fields rt) meta in
            let (is_id, is_status, was) = meta_texts (transition status at e) e.status keys in
            rw a.0 (
              events,
              (
                rows ++ x ∷ [],
                ap (λ l. l ++ x ∷ []) log ∙ append_assoc old rows (x ∷ []),
                AreEntriesOf-snoc status done rows e x are (
                  ap (get_text "anomaly_id") content
                      ∙ is_id
                      ∙ ap (λ i. some (rt.uuid_text i)) same_id,
                  ap (get_text "previous_status") content ∙ was,
                  ap (get_text "status") content
                      ∙ is_status
                      ∙ ap (λ v. some (anomaly_status_value v)) same_status,
                ),
              ),
            )

    record_transition-Triple :
        (at : Time) (actor : Option String) (e : AnomalyEvent) (done t : List AnomalyEvent)
        → Triple Any (Holds status old done t) (record_transition status at actor e) (λ _ d.
          Holds status old (done ++ e ∷ []) (update (is_event e.id) (transition status at) t) d)
    unfolding record_transition write_event append_anomaly_audit
    record_transition-Triple at actor e done t =
        let t' = update (is_event e.id) (transition status at) t in
        Triple-bind (λ _ d. Holds status old done t' d) _ _
          (Triple-modify _
            (λ d g h. (tt, (ap (update (is_event e.id) (transition status at)) h.0, h.1))))
          λ _.
            Triple-bind (λ _ d. Holds status old (done ++ e ∷ []) t' d) _ _
              (append-Triple _ at e done t' refl) λ _. Triple-pure tt (λ d g h. h)

    pub transition_all-Triple :
        (at : Time) (actor : Option String) (es done t : List AnomalyEvent)
        → Triple Any
            (Holds status old done t)
            (transition_all status at actor es)
            (λ _ d. Holds status old (done ++ es) (write_all (transition status at) es t) d)
    unfolding transition_all write_all
    transition_all-Triple at actor [] done t = Triple-pure tt (λ d g h. rw (append_nil done) h)
    transition_all-Triple at actor (e ∷ es) done t =
        Triple-bind _ _ _ (record_transition-Triple at actor e done t) λ _.
          Triple-weaken
            (transition_all-Triple at actor es (done ++ e ∷ [])
              (update (is_event e.id) (transition status at) t))
            (λ d h. h) (λ _ d h. rw (← append_assoc done (e ∷ []) es) h)
