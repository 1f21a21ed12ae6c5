-- ===== src/Tests/AnomalyRuns.antt =====
-- Runs of status changes of anomalies.
use vixa_system_config_be.Base.{
  order_asc, last_by, str, find, In, true, ◌&&◌, none, some, List, [], ◌∷◌, ◌≡◌, refl, filter, any,
  count, delete, unique_by,
}
use vixa_system_config_be.Json.{end, field, text, num, member}
use vixa_system_config_be.Metadata.{sanitize_fields, is_sensitive_key}
use vixa_system_config_be.Runtime.{Key}
use vixa_system_config_be.Models.Anomaly.{
  AnomalyEvent, high, open_status, resolved, anomaly_status_value,
}
use vixa_system_config_be.Anomalies.{
  update_anomaly_status, update_found, find_event, get_anomaly_event, AnomalyEventCreate,
  BulkStatusResponse, transition, bulk_update_anomaly_status, bulk_transition, bulk_response,
  transition_all, record_transition, write_event, append_anomaly_audit, create_anomaly_event,
  ingest, add_event, lacks_tenant,
}
use vixa_system_config_be.Anomalies.Reads.{
  history_entries, is_history_of, history_entry, text_field, optional_text, get_text,
  AnomalyHistoryEntry, get_anomaly_history, AnomalyTrends, AnomalyTrendBucket, get_anomaly_trends,
}
use vixa_system_config_be.Anomalies.Trends.{in_range, is_bucket_of, trends_group_events}
use vixa_system_config_be.Anomalies.Recorded.{LowersKeys}
use vixa_system_config_be.Anomalies.History.{history_grows}
use vixa_system_config_be.Anomalies.Bulk.{IsBulkChange, bulk_update_outcome}
use vixa_system_config_be.Anomalies.Atomic.{reporting, alter, failed_alteration_changes_nothing}
use vixa_system_config_be.Audit.{
  append_entry, get_tail, append_entry_in_transaction, insert_entry, lacks_named_tenant,
}
use vixa_system_config_be.Models.Audit.{
  AuditLogEntryCreate, event_type_value, severity_of, event_type_of, is_event_type_name,
  event_type_named, event_type_valued,
}
use vixa_system_config_be.Tx.{
  World, ok, err, integrity, invalid, request, discard, rolling_back, undo, ◌>>=◌,
}
use vixa_system_config_be.Tests.Demo.{demo, blank}

abbrev burst : AnomalyEvent
burst = record {
  id = 1;
  tenant_id = none;
  category = "traffic";
  score = 800_000;
  severity = high;
  status = open_status;
  title = "burst";
  description = "";
  actor = none;
  source_ip = none;
  baseline_sigma = none;
  metadata_json = end;
  occurred_at = 0;
  resolved_at = none;
}

abbrev watched : World
watched = record blank {
  database = record blank.database { anomaly_events = burst ∷ record burst { id = 2 } ∷ [] };
}

abbrev wanted : List Key
wanted = 1 ∷ 9 ∷ 1 ∷ []

abbrev answer : BulkStatusResponse
answer = record {
  new_status = "resolved";
  requested = 2;
  updated = 1;
  updated_ids = 1 ∷ [];
  not_found_ids = 9 ∷ [];
}

bulk_runs : (request (bulk_update_anomaly_status wanted resolved none) watched).0 ≡ ok answer
unfolding request bulk_update_anomaly_status bulk_transition bulk_response transition_all
    record_transition write_event append_anomaly_audit append_entry_in_transaction insert_entry
    lacks_named_tenant severity_of event_type_of is_event_type_name event_type_named
    event_type_valued rolling_back undo unique_by filter delete any anomaly_status_value transition
    ◌>>=◌
bulk_runs = refl

demo-LowersKeys : LowersKeys demo
demo-LowersKeys = record {
  anomaly_id = refl;
  category = refl;
  severity = refl;
  status = refl;
  score = refl;
  metadata_json = refl;
  previous_status = refl;
}

bulk_update_outcome_example :
    IsBulkChange wanted resolved watched.database
      (request (bulk_update_anomaly_status wanted resolved none) watched).1.database
      answer
bulk_update_outcome_example =
    bulk_update_outcome wanted resolved none watched answer demo-LowersKeys bulk_runs

abbrev homeless : AnomalyEventCreate
homeless = record {
  category = "traffic";
  score = 950_000;
  title = "t";
  description = "";
  actor = none;
  source_ip = none;
  tenant_id = some 77;
  baseline_sigma = none;
  metadata_json = end;
}

report_fails :
    (request (alter (reporting homeless none)) watched).0 ≡ err (integrity "anomaly_events")
unfolding request alter create_anomaly_event ingest add_event lacks_tenant rolling_back undo discard
    any ◌>>=◌
report_fails = refl

failed_alteration_changes_nothing_example :
    (request (alter (reporting homeless none)) watched).1.database ≡ watched.database
failed_alteration_changes_nothing_example =
    failed_alteration_changes_nothing (reporting homeless none) watched (integrity "anomaly_events")
      report_fails

no_history : (request (get_anomaly_history 1) watched).0 ≡ ok []
unfolding request get_anomaly_history get_anomaly_event find_event find filter order_asc
    history_entries ◌>>=◌
no_history = refl

settled :
    (request (update_anomaly_status 1 resolved none) watched).0
    ≡ ok (some (record burst { status = resolved; resolved_at = some 0 }))
unfolding request update_anomaly_status update_found find_event transition record_transition
    write_event append_anomaly_audit append_entry_in_transaction insert_entry lacks_named_tenant
    severity_of event_type_of is_event_type_name event_type_named event_type_valued rolling_back
    undo find any ◌>>=◌
settled = refl

history_grows_example :
    let w' = (request (update_anomaly_status 1 resolved none) watched).1 in
    (x : AnomalyHistoryEntry) × ((request (get_anomaly_history 1) w').0 ≡ ok (x ∷ []))
    × (x.previous_status ≡ some (anomaly_status_value open_status))
    × (x.new_status ≡ some (anomaly_status_value resolved))
unfolding find_event find
history_grows_example =
    history_grows 1 resolved none watched
      (some (record burst { status = resolved; resolved_at = some 0 })) burst [] demo-LowersKeys
      (λ q i. absurd i) refl no_history settled

trends_group_events_example :
    let events = watched.database.anomaly_events in
    (out : AnomalyTrends) × ((request (get_anomaly_trends 0 10 "hour") watched).0 ≡ ok out)
    × ((b : AnomalyTrendBucket)
        → In b out.buckets
        → b.count ≡ count (λ e. in_range 0 10 e && is_bucket_of (λ t. t) b e) events)
    × ((e : AnomalyEvent)
        → In e events
        → in_range 0 10 e ≡ true
        → count (λ (b : AnomalyTrendBucket). is_bucket_of (λ t. t) b e) out.buckets ≡ 1)
trends_group_events_example = trends_group_events 0 10 "hour" watched (λ t. t) refl

-- An entry with a number as its status is stored, and the history of the anomaly is refused after it.
abbrev odd_entry : AuditLogEntryCreate
odd_entry = record {
  severity = "info";
  event_type = "anomaly_detected";
  event_subtype = "X";
  actor = "admin";
  description = "";
  tenant_id = none;
  tenant_slug = none;
  source_ip = none;
  metadata_json = field "anomaly_id" (text "1") (field "status" (num "5") end);
}

history_refused :
    (request (get_anomaly_history 1) (request (append_entry odd_entry) watched).1).0
    ≡ err (invalid "AnomalyHistoryEntry")
unfolding request append_entry append_entry_in_transaction insert_entry lacks_named_tenant get_tail
    severity_of event_type_of event_type_value is_event_type_name event_type_named event_type_valued
    get_anomaly_history get_anomaly_event find_event find filter is_history_of history_entries
    history_entry text_field optional_text get_text sanitize_fields is_sensitive_key member any
    order_asc last_by str ◌>>=◌
history_refused = refl
