-- ===== src/Anomalies/Atomic.antt =====
-- Changes of anomalies happen with their audit entries or not at all.
use vixa_system_config_be.Base.{String, Option, none, some, List, [], ◌∷◌, ◌≡◌}
use vixa_system_config_be.Runtime.{Runtime, Key, Time}
use vixa_system_config_be.Models.Anomaly.{AnomalyStatus, AnomalyEvent}
use vixa_system_config_be.Anomalies.{
  AnomalyEventCreate, append_anomaly_audit, add_event, write_event, ingest, create_anomaly_event,
  record_transition, update_found, update_anomaly_status, transition_all, bulk_transition,
  bulk_update_anomaly_status,
}
use vixa_system_config_be.Audit.Append.{append-IsQuiet}
use vixa_system_config_be.Tx.{Tx, World, Error, err, request, open_session, discard, ◌>>=◌}
use vixa_system_config_be.Tx.Rules.{
  IsQuiet, IsQuiet-bind, IsAtomic, IsAtomic-rolling_back, IsAtomic-map, IsAtomic-discard,
  quiet_rules, atomic_rules,
}

-- The requests of app/api/v1/endpoints/anomalies.py that write.
pub data AnomalyRequest : Type 0 where
  reporting : AnomalyEventCreate → Option String → AnomalyRequest
  settling : Key → AnomalyStatus → Option String → AnomalyRequest
  settling_all : List Key → AnomalyStatus → Option String → AnomalyRequest

module _ ⦃rt : Runtime⦄ where
  unfoldable pub alter : AnomalyRequest → Tx (Unit {0})
  alter (reporting payload actor) = discard (create_anomaly_event payload actor)
  alter (settling id status actor) = discard (update_anomaly_status id status actor)
  alter (settling_all ids status actor) = discard (bulk_update_anomaly_status ids status actor)

  audit-IsQuiet :
      (e : AnomalyEvent) (actor subtype description : String) (previous : Option AnomalyStatus)
      → IsQuiet (append_anomaly_audit e actor subtype description previous)
  unfolding append_anomaly_audit
  audit-IsQuiet e actor subtype description previous = search (quiet_rules, append-IsQuiet) depth 8

  record_transition-IsQuiet :
      (status : AnomalyStatus) (t : Time) (actor : Option String) (e : AnomalyEvent)
      → IsQuiet (record_transition status t actor e)
  unfolding record_transition write_event
  record_transition-IsQuiet status t actor e = search (quiet_rules, audit-IsQuiet) depth 8

  transition_all-IsQuiet :
      (status : AnomalyStatus) (t : Time) (actor : Option String) (es : List AnomalyEvent)
      → IsQuiet (transition_all status t actor es)
  unfolding transition_all
  transition_all-IsQuiet status t actor [] = search quiet_rules
  transition_all-IsQuiet status t actor (e ∷ es) =
      IsQuiet-bind _ _ (record_transition-IsQuiet status t actor e)
        λ _. transition_all-IsQuiet status t actor es

  ingest-IsAtomic : (p : AnomalyEventCreate) (actor : Option String) → IsAtomic (ingest p actor)
  unfolding ingest add_event
  ingest-IsAtomic p actor = search (atomic_rules, audit-IsQuiet) depth 16

  update_found-IsAtomic :
      (status : AnomalyStatus) (actor : Option String) (o : Option AnomalyEvent)
      → IsAtomic (update_found status actor o)
  unfolding update_found ◌>>=◌
  update_found-IsAtomic status actor none = record { kept = λ s e q. cc }
  update_found-IsAtomic status actor (some e) =
      search (atomic_rules, record_transition-IsQuiet) depth 12

  bulk_transition-IsAtomic :
      (ids : List Key) (status : AnomalyStatus) (actor : Option String)
      → IsAtomic (bulk_transition ids status actor)
  unfolding bulk_transition
  bulk_transition-IsAtomic ids status actor = search (atomic_rules, transition_all-IsQuiet) depth 12

  alter-IsAtomic : (o : AnomalyRequest) → IsAtomic (alter o)
  unfolding alter create_anomaly_event update_anomaly_status bulk_update_anomaly_status
  alter-IsAtomic (reporting p actor) =
      IsAtomic-discard _ (IsAtomic-rolling_back _ (ingest-IsAtomic p actor))
  alter-IsAtomic (settling id status actor) =
      IsAtomic-discard _
        (IsAtomic-rolling_back _ (search (atomic_rules, update_found-IsAtomic) depth 6))
  alter-IsAtomic (settling_all ids status actor) =
      IsAtomic-discard _
        (IsAtomic-map _ _ (IsAtomic-rolling_back _ (bulk_transition-IsAtomic _ status actor)))

  -- A request that reports an anomaly or sets the status of one or of many, and fails, leaves every
  -- stored table as it was: neither a status nor an audit entry is kept.
  pub failed_alteration_changes_nothing :
      (o : AnomalyRequest) (w : World) (e : Error)
      → (request (alter o) w).0 ≡ err e
      → (request (alter o) w).1.database ≡ w.database
  unfolding request
  failed_alteration_changes_nothing o w e h = (alter-IsAtomic o).kept (open_session w) e h
