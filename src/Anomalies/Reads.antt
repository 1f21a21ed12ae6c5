-- ===== src/Anomalies/Reads.antt =====
-- The reads of app/services/anomaly_service.py: pages, the history in the audit log, the types and
-- the summary by severity; and the redaction of app/schemas/anomaly.py.
use vixa_system_config_be.Base.{
  ℕ, ◌-◌, ◌*◌, String, Option, none, some, Bool, true, false, List, [], ◌∷◌, ◌&&◌, ◌||◌, str_eq,
  ◌==◌, leb, ltb, map, length, filter, count, order_asc, order_desc, unique_by, take, drop,
  if◌then◌else◌,
}
use vixa_system_config_be.Json.{
  Json, Items, Fields, null, bool, num, text, arr, obj, nil, cons, end, field,
}
use vixa_system_config_be.Runtime.{Runtime, Key, Time}
use vixa_system_config_be.Metadata.{is_sensitive_key, redacted_metadata_value}
use vixa_system_config_be.Models.Audit.{AuditLogEntry, event_type_value}
use vixa_system_config_be.Models.Anomaly.{
  Score, AnomalySeverity, critical, high, medium, low, anomaly_severity_value, AnomalyStatus,
  open_status, investigating, resolved, dismissed, anomaly_status_value, AnomalyEvent,
}
use vixa_system_config_be.Tx.{Tx, ◌>>=◌, ◌>>◌, gets, now, pure, or_raise, invalid}
use vixa_system_config_be.Anomalies.{get_anomaly_event}

-- `redact_sensitive_metadata`
unfoldable mutual
  pub redact_value : Runtime → Json → Json
  redact_value rt null = null
  redact_value rt (bool b) = bool b
  redact_value rt (num n) = num n
  redact_value rt (text s) = text s
  redact_value rt (arr xs) = arr (redact_items rt xs)
  redact_value rt (obj fs) = obj (redact_fields rt fs)

  pub redact_items : Runtime → Items → Items
  redact_items rt nil = nil
  redact_items rt (cons x xs) = cons (redact_value rt x) (redact_items rt xs)

  pub redact_fields : Runtime → Fields → Fields
  redact_fields rt end = end
  redact_fields rt (field k v fs) =
      field k (if is_sensitive_key rt k then text redacted_metadata_value else redact_value rt v)
        (redact_fields rt fs)

pub record AnomalyEventRead : Type 0 where
  pub id : Key
  pub category : String
  pub score : Score
  pub severity : String
  pub status : String
  pub title : String
  pub description : String
  pub actor : Option String
  pub source_ip : Option String
  pub baseline_sigma : Option String
  pub metadata_json : Fields
  pub occurred_at : Time

pub record AnomalyHistoryEntry : Type 0 where
  pub sequence : ℕ
  pub occurred_at : Time
  pub actor : String
  pub subtype : String
  pub description : String
  pub previous_status : Option String
  pub new_status : Option String

-- `metadata_json ->> key`, where it is a text; what the operator makes of a value of another kind is
-- never the text of an identifier, with which it is compared.
unfoldable pub get_text : String → Fields → Option String
get_text key end = none
get_text key (field k (text s) fs) = if str_eq k key then some s else get_text key fs
get_text key (field k _ fs) = if str_eq k key then none else get_text key fs

abbrev pub is_text : Option String → String → Bool
is_text none s = false
is_text (some t) s = str_eq t s

abbrev pub same_anomaly_status : AnomalyStatus → AnomalyStatus → Bool
same_anomaly_status a b = str_eq (anomaly_status_value a) (anomaly_status_value b)

abbrev pub same_severity : AnomalySeverity → AnomalySeverity → Bool
same_severity a b = str_eq (anomaly_severity_value a) (anomaly_severity_value b)

-- what a field of type `str | None` accepts
unfoldable pub optional_text : Json → Option (Option String)
optional_text null = some none
optional_text (text s) = some (some s)
optional_text _ = none

-- `metadata.get(key)`, validated as such a field
unfoldable pub text_field : String → Fields → Option (Option String)
text_field key end = some none
text_field key (field k v fs) = if str_eq k key then optional_text v else text_field key fs

-- none where the schema refuses the metadata
unfoldable pub history_entry : AuditLogEntry → Option AnomalyHistoryEntry
history_entry row = elim (text_field "previous_status" row.metadata_json) [
  | none ↦ none
  | some previous_status ↦ elim (text_field "status" row.metadata_json) [
    | none ↦ none
    | some new_status ↦ some (record {
      sequence = row.sequence;
      occurred_at = row.occurred_at;
      actor = row.actor;
      subtype = row.event_subtype;
      description = row.description;
      previous_status = previous_status;
      new_status = new_status;
    })
  ]
]

unfoldable pub history_entries : List AuditLogEntry → Option (List AnomalyHistoryEntry)
history_entries [] = some []
history_entries (row ∷ rows) = elim (history_entry row) [
  | none ↦ none
  | some x ↦ elim (history_entries rows) [ none ↦ none | some xs ↦ some (x ∷ xs) ]
]

-- the filters of `list_anomaly_events`
pub record AnomalyFilters : Type 0 where
  pub status_filter : Option AnomalyStatus
  pub severity_filter : Option AnomalySeverity
  pub category : Option String
  pub tenant_id : Option Key

unfoldable pub anomaly_matches : AnomalyFilters → AnomalyEvent → Bool
anomaly_matches f e =
    elim f.status_filter [ none ↦ true | some s ↦ same_anomaly_status e.status s ]
    && (elim f.severity_filter [ none ↦ true | some s ↦ same_severity e.severity s ]
        && (elim f.category [ none ↦ true | some c ↦ str_eq c "" || str_eq e.category c ]
            && elim f.tenant_id [
              | none ↦ true
              | some id ↦ elim e.tenant_id [ none ↦ false | some k ↦ k == id ]
            ]))

pub record AnomalyTypeStat : Type 0 where
  pub category : String
  pub total : ℕ
  pub open_count : ℕ

pub record AnomalyTypesResponse : Type 0 where
  pub categories : List AnomalyTypeStat
  pub severities : List String
  pub statuses : List String

abbrev pub of_category : String → AnomalyEvent → Bool
of_category c e = str_eq e.category c

-- the statuses of `open_rows`
unfoldable pub is_unsettled : AnomalyStatus → Bool
is_unsettled open_status = true
is_unsettled investigating = true
is_unsettled _ = false

unfoldable pub type_stat : List AnomalyEvent → String → AnomalyTypeStat
type_stat events c = record {
  category = c;
  total = count (of_category c) events;
  open_count = count (λ e. of_category c e && is_unsettled e.status) events;
}

-- the categories are those that occur; the groups of a select come in the order of the table
unfoldable pub get_anomaly_types : Tx AnomalyTypesResponse
get_anomaly_types = gets (λ d. record {
  categories =
      order_desc (λ (t : AnomalyTypeStat). t.total)
        (map (type_stat d.anomaly_events) (
          unique_by (λ a b. str_eq b a) (map (λ (e : AnomalyEvent). e.category) d.anomaly_events)));
  severities = map anomaly_severity_value (critical ∷ high ∷ medium ∷ low ∷ []);
  statuses = map anomaly_status_value (open_status ∷ investigating ∷ resolved ∷ dismissed ∷ []);
})

-- an integer, for the difference of two counts
pub data ℤ : Type 0 where
  pos negsuc : ℕ → ℤ

unfoldable pub minus : ℕ → ℕ → ℤ
minus a b = if leb b a then pos (a - b) else negsuc (b - a - 1)

pub record SeveritySummaryBucket : Type 0 where
  pub severity : String
  pub count : ℕ
  pub trend_delta : ℤ

abbrev pub hours : ℕ → Time
hours n = n * 3_600_000_000

unfoldable pub bucket_of : Time → List AnomalyEvent → AnomalySeverity → SeveritySummaryBucket
bucket_of at events severity =
    let current =
      count
        (λ (e : AnomalyEvent).
          same_severity e.severity severity && leb (at - hours 1) e.occurred_at)
        events in
    let previous =
      count
        (λ (e : AnomalyEvent).
          same_severity e.severity severity
          && (leb (at - hours 2) e.occurred_at && ltb e.occurred_at (at - hours 1)))
        events in
    record {
      severity = anomaly_severity_value severity;
      count = current;
      trend_delta = minus current previous;
    }

pub record AnomalyTrendBucket : Type 0 where
  pub bucket : Time
  pub severity : String
  pub count : ℕ

pub record AnomalyTrends : Type 0 where
  pub interval : String
  pub from_timestamp : Time
  pub to_timestamp : Time
  pub buckets : List AnomalyTrendBucket

-- an event in the group of another
unfoldable pub in_same_bucket : (Time → Time) → AnomalyEvent → AnomalyEvent → Bool
in_same_bucket trunc a b =
    trunc a.occurred_at == trunc b.occurred_at && same_severity a.severity b.severity

unfoldable pub trend_bucket : (Time → Time) → List AnomalyEvent → AnomalyEvent → AnomalyTrendBucket
trend_bucket trunc events e = record {
  bucket = trunc e.occurred_at;
  severity = anomaly_severity_value e.severity;
  count = count (in_same_bucket trunc e) events;
}

module _ ⦃rt : Runtime⦄ where
  unfoldable pub anomaly_to_read : AnomalyEvent → AnomalyEventRead
  anomaly_to_read e = record {
    id = e.id;
    category = e.category;
    score = e.score;
    severity = anomaly_severity_value e.severity;
    status = anomaly_status_value e.status;
    title = e.title;
    description = e.description;
    actor = e.actor;
    source_ip = e.source_ip;
    baseline_sigma = e.baseline_sigma;
    metadata_json = redact_fields rt e.metadata_json;
    occurred_at = e.occurred_at;
  }

  -- the page (from 1), newest first, and the total
  unfoldable pub list_anomaly_events : ℕ → ℕ → AnomalyFilters → Tx (List AnomalyEventRead × ℕ)
  list_anomaly_events page page_size f = gets (λ d.
      let rows = filter (anomaly_matches f) d.anomaly_events in
      (
        map anomaly_to_read (
            take page_size (
              drop ((page - 1) * page_size)
                (order_desc (λ (e : AnomalyEvent). e.occurred_at) rows))),
        length rows,
      ))

  -- the entries that carry the id of the anomaly
  unfoldable pub is_history_of : Key → AuditLogEntry → Bool
  is_history_of event_id row =
      str_eq (event_type_value row.event_type) "anomaly_detected"
      && is_text (get_text "anomaly_id" row.metadata_json) (rt.uuid_text event_id)

  unfoldable pub get_anomaly_history : Key → Tx (List AnomalyHistoryEntry)
  get_anomaly_history event_id = do
    get_anomaly_event event_id
    entries ← gets (λ d. history_entries (
        order_asc (λ (e : AuditLogEntry). e.sequence)
          (filter (is_history_of event_id) d.audit_log)))
    or_raise entries (invalid "AnomalyHistoryEntry")

  unfoldable pub severity_summary : Tx (List SeveritySummaryBucket)
  severity_summary = do
    at ← now
    gets (λ d. map (bucket_of at d.anomaly_events) (critical ∷ high ∷ medium ∷ low ∷ []))

  -- the rows of the select; the unit is looked at only where there is a row
  unfoldable pub trend_buckets : String → List AnomalyEvent → Tx (List AnomalyTrendBucket)
  trend_buckets interval [] = pure []
  trend_buckets interval (e ∷ es) = do
    trunc ← or_raise (rt.date_trunc interval) (invalid interval)
    pure (
        order_asc (λ (b : AnomalyTrendBucket). b.bucket)
          (map (trend_bucket trunc (e ∷ es)) (unique_by (in_same_bucket trunc) (e ∷ es))))

  unfoldable pub get_anomaly_trends : Time → Time → String → Tx AnomalyTrends
  get_anomaly_trends from_timestamp to_timestamp interval = do
    events ← gets (λ d.
        filter
          (λ (e : AnomalyEvent). leb from_timestamp e.occurred_at && leb e.occurred_at to_timestamp)
          d.anomaly_events)
    buckets ← trend_buckets interval events
    pure (record {
      interval = interval;
      from_timestamp = from_timestamp;
      to_timestamp = to_timestamp;
      buckets = buckets;
    })
