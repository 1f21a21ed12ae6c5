-- ===== src/Audit.antt =====
-- The hash-chained audit log, app/services/audit_service.py.
pub mod Chain
pub mod Tamper
pub mod Append
use mathlib.Core.Option
use vixa_system_config_be.Base.{
  ℕ, suc, ◌+◌, ◌-◌, ◌*◌, String, ◌⧺◌, Option, none, some, Bool, true, false, List, [], ◌∷◌, ◌++◌,
  ◌&&◌, ◌||◌, not, str_eq, ◌==◌, ltb, leb, map, length, filter, find, count, any, order_asc,
  order_desc, last_by, head?, take, drop, is_none, if◌then◌else◌,
}
use vixa_system_config_be.Json.{Json, Fields, null, text, obj, end, field}
use vixa_system_config_be.Runtime.{Runtime, Key, Time}
use vixa_system_config_be.Metadata.{sanitize_fields}
use vixa_system_config_be.Models.Audit.{
  AuditSeverity, AuditEventType, AuditLogEntry, AuditLogEntryCreate, severity_value,
  event_type_value, severity_of, event_type_of,
}
use vixa_system_config_be.Models.Tenancy.{Tenant}
use vixa_system_config_be.Database.{Database}
use vixa_system_config_be.Tx.{
  Tx, Error, http, integrity, lookup, err, ok, ◌>>=◌, ◌>>◌, pure, or_raise, raise_if, gets, commit,
  now, uuid4,
}

abbrev pub opt_text : Option String → Json
opt_text none = null
opt_text (some s) = text s

-- `==` on two optional texts
abbrev pub opt_eq : Option String → Option String → Bool
opt_eq none none = true
opt_eq (some a) (some b) = str_eq a b
opt_eq _ _ = false

-- `_canonical_payload`
unfoldable pub canonical_payload :
    Runtime
    → Option String
    → Time
    → String
    → String
    → String
    → String
    → String
    → Option String
    → Option String
    → Fields
    → String
canonical_payload rt prev_hash occurred_at severity event_type event_subtype actor description
      tenant_slug source_ip metadata_json =
    rt.dumps (
      obj (
        field "prev_hash" (opt_text prev_hash) (
          field "occurred_at" (text (rt.isoformat occurred_at)) (
            field "severity" (text severity) (
              field "event_type" (text event_type) (
                field "event_subtype" (text event_subtype) (
                  field "actor" (text actor) (
                    field "description" (text description) (
                      field "tenant_slug" (opt_text tenant_slug) (
                        field "source_ip" (opt_text source_ip)
                          (field "metadata_json" (obj metadata_json) end)))))))))))

-- `compute_entry_hash`
unfoldable pub compute_entry_hash :
    Runtime
    → Option String
    → Time
    → String
    → String
    → String
    → String
    → String
    → Option String
    → Option String
    → Fields
    → String
compute_entry_hash rt prev_hash occurred_at severity event_type event_subtype actor description
      tenant_slug source_ip metadata_json =
    rt.sha256 (
      canonical_payload rt prev_hash occurred_at severity event_type event_subtype actor description
        tenant_slug source_ip metadata_json)

-- `_get_tail`
unfoldable pub get_tail : List AuditLogEntry → Option AuditLogEntry
get_tail = last_by (λ e. e.sequence)

-- `db.add(entry); db.flush()`: the identity column numbers the row, and the unique columns are
-- checked against the table, the foreign key against the tenants.
unfoldable pub lacks_named_tenant : AuditLogEntry → List Tenant → Bool
lacks_named_tenant e tenants = elim e.tenant_id [
  | none ↦ false
  | some id ↦ not (any (λ (t : Tenant). t.id == id) tenants)
]

unfoldable pub insert_entry : AuditLogEntry → Tx AuditLogEntry
insert_entry e s =
    let row = record e { sequence = suc s.sequence } in
    if any (λ r. r.id == e.id || str_eq r.entry_hash e.entry_hash) s.db.audit_log
      || lacks_named_tenant e s.db.tenants
    then (err (integrity "audit_log_entries"), record s { sequence = suc s.sequence })
    else (
      ok row,
      record s {
        db = record s.db { audit_log = s.db.audit_log ++ row ∷ [] };
        sequence = suc s.sequence;
      },
    )

module _ ⦃rt : Runtime⦄ where
  unfoldable pub append_entry_in_transaction : AuditLogEntryCreate → Tx AuditLogEntry
  append_entry_in_transaction payload = do
    tail ← gets (λ d. get_tail d.audit_log)
    let prev_hash = Option.map (λ (e : AuditLogEntry). e.entry_hash) tail
    occurred_at ← now
    let metadata_json = sanitize_fields rt payload.metadata_json
    let entry_hash =
        compute_entry_hash rt prev_hash occurred_at payload.severity payload.event_type
          payload.event_subtype payload.actor payload.description payload.tenant_slug
          payload.source_ip metadata_json
    let signature = rt.sign entry_hash
    id ← uuid4
    severity ← or_raise (severity_of payload.severity) (lookup payload.severity)
    event_type ← or_raise (event_type_of payload.event_type) (lookup payload.event_type)
    insert_entry (record {
      id = id;
      sequence = 0;
      occurred_at = occurred_at;
      severity = severity;
      event_type = event_type;
      event_subtype = payload.event_subtype;
      tenant_id = payload.tenant_id;
      tenant_slug = payload.tenant_slug;
      actor = payload.actor;
      source_ip = payload.source_ip;
      description = payload.description;
      metadata_json = metadata_json;
      prev_hash = prev_hash;
      entry_hash = entry_hash;
      signing_key_id = rt.signing_key_id;
      signature = signature;
      created_at = occurred_at;
    })

  -- the standalone write: it commits
  unfoldable pub append_entry : AuditLogEntryCreate → Tx AuditLogEntry
  append_entry payload = do entry ← append_entry_in_transaction payload; commit; pure entry

  -- the hash that `verify_chain` recomputes for a stored entry
  unfoldable pub expected_hash : Option String → AuditLogEntry → String
  expected_hash expected_prev_hash e =
      compute_entry_hash rt expected_prev_hash e.occurred_at (severity_value e.severity)
        (event_type_value e.event_type) e.event_subtype e.actor e.description e.tenant_slug
        e.source_ip e.metadata_json

  -- `hash_ok and signature_ok`
  unfoldable pub entry_ok : Option String → AuditLogEntry → Bool
  entry_ok expected_prev_hash e =
      (str_eq (expected_hash expected_prev_hash e) e.entry_hash
        && opt_eq e.prev_hash expected_prev_hash)
      && rt.verify e.entry_hash e.signature

-- The report of `verify_chain`, without the measured duration.
pub record ChainVerificationResult : Type 0 where
  pub verified_count : ℕ
  pub failed_count : ℕ
  pub is_valid : Bool
  pub first_break_sequence : Option ℕ
  pub root_hash : Option String

-- the variables of the loop of `verify_chain`
pub record Walk : Type 0 where
  pub verified : ℕ
  pub failed : ℕ
  pub first_break : Option ℕ
  pub expected_prev_hash : Option String

abbrev pub start : Walk
start = record { verified = 0; failed = 0; first_break = none; expected_prev_hash = none }

-- `entries[-1].entry_hash if entries else None`
unfoldable pub last_hash : List AuditLogEntry → Option String
last_hash [] = none
last_hash (e ∷ []) = some e.entry_hash
last_hash (e ∷ f ∷ es) = last_hash (f ∷ es)

module _ ⦃rt : Runtime⦄ where
  unfoldable pub visit : Walk → AuditLogEntry → Walk
  visit w e =
      if entry_ok w.expected_prev_hash e
      then record w { verified = w.verified + 1; expected_prev_hash = some e.entry_hash }
      else record w {
        failed = w.failed + 1;
        first_break = if is_none w.first_break then some e.sequence else w.first_break;
        expected_prev_hash = some e.entry_hash;
      }

  unfoldable pub walk : Walk → List AuditLogEntry → Walk
  walk w [] = w
  walk w (e ∷ es) = walk (visit w e) es

  -- `verify_chain`
  unfoldable pub verify_chain : List AuditLogEntry → ChainVerificationResult
  verify_chain log =
      let entries = order_asc (λ (e : AuditLogEntry). e.sequence) log in
      let w = walk start entries in
      record {
        verified_count = w.verified;
        failed_count = w.failed;
        is_valid = w.failed == 0;
        first_break_sequence = w.first_break;
        root_hash = last_hash entries;
      }

-- `get_chain_summary`: the total, the root hash and the key of the last entry.
unfoldable pub get_chain_summary : List AuditLogEntry → ℕ × Option String × Option String
unfolding get_tail
get_chain_summary log = (
  length log,
  Option.map (λ (e : AuditLogEntry). e.entry_hash) (get_tail log),
  Option.map (λ (e : AuditLogEntry). e.signing_key_id) (get_tail log),
)

-- The fields of `AuditLogEntryRead`; `_entry_to_read` copies the entry.
pub record AuditLogEntryRead : Type 0 where
  pub entry : AuditLogEntry
  pub integrity : String

unfoldable pub entry_to_read : AuditLogEntry → AuditLogEntryRead
entry_to_read e = record { entry = e; integrity = "unverified" }

-- `get_entry`
unfoldable pub get_entry : Key → Tx AuditLogEntryRead
get_entry audit_log_id = do
  entry ← gets (λ d. find (λ (e : AuditLogEntry). e.id == audit_log_id) d.audit_log)
  e ← or_raise entry (http 404 "Audit entry not found")
  pure (entry_to_read e)

-- The filters of a listing or an export; an empty text filters nothing, as in the source.
pub record AuditFilter : Type 0 where
  pub severity : Option String
  pub event_type : Option String
  pub tenant_slug : Option String
  pub from_time : Option Time
  pub to_time : Option Time

-- `if value: filters.append(column == value)`, where an `Enum` column takes the text of a value or of a
-- name
abbrev pub severity_filter : Option String → AuditSeverity → Bool
severity_filter none column = true
severity_filter (some v) column = str_eq v "" || elim (severity_of v) [
  | none ↦ false
  | some m ↦ str_eq (severity_value column) (severity_value m)
]

abbrev pub event_type_filter : Option String → AuditEventType → Bool
event_type_filter none column = true
event_type_filter (some v) column = str_eq v "" || elim (event_type_of v) [
  | none ↦ false
  | some m ↦ str_eq (event_type_value column) (event_type_value m)
]

-- a text that the column refuses raises when the select is run
unfoldable pub is_refused : AuditFilter → Bool
is_refused f =
    elim f.severity [ none ↦ false | some v ↦ not (str_eq v "") && is_none (severity_of v) ]
    || elim f.event_type [ none ↦ false | some v ↦ not (str_eq v "") && is_none (event_type_of v) ]

abbrev pub slug_filter : Option String → Option String → Bool
slug_filter none column = true
slug_filter (some v) none = str_eq v ""
slug_filter (some v) (some c) = str_eq v "" || str_eq c v

abbrev pub from_filter : Option Time → Time → Bool
from_filter none t = true
from_filter (some a) t = leb a t

abbrev pub to_filter : Option Time → Time → Bool
to_filter none t = true
to_filter (some b) t = leb t b

unfoldable pub matches : AuditFilter → AuditLogEntry → Bool
matches f e =
    severity_filter f.severity e.severity
    && (event_type_filter f.event_type e.event_type
        && (slug_filter f.tenant_slug e.tenant_slug
            && (from_filter f.from_time e.occurred_at && to_filter f.to_time e.occurred_at)))

abbrev pub export_max_rows : ℕ
export_max_rows = 10_000

-- `AuditExportResponse` without the time of the export
pub record AuditExportResponse : Type 0 where
  pub total : ℕ
  pub returned : ℕ
  pub truncated : Bool
  pub entries : List AuditLogEntryRead

-- `export_entries`, over the cap on the rows
unfoldable pub export_capped : ℕ → AuditFilter → List AuditLogEntry → AuditExportResponse
export_capped cap f log =
    let total = count (matches f) log in
    let rows = take cap (order_asc (λ (e : AuditLogEntry). e.sequence) (filter (matches f) log)) in
    record {
      total = total;
      returned = length rows;
      truncated = ltb (length rows) total;
      entries = map entry_to_read rows;
    }

unfoldable pub export_entries : AuditFilter → Tx AuditExportResponse
export_entries f = do
  raise_if (is_refused f) (lookup "AuditLogEntry")
  gets (λ d. export_capped export_max_rows f d.audit_log)

-- `column.ilike(f"%{search}%")`; a column that is NULL does not match.
abbrev pub search_filter : Runtime → String → String → Bool
search_filter rt search column = rt.ilike column ("%" ⧺ search ⧺ "%")

abbrev pub opt_search_filter : Runtime → String → Option String → Bool
opt_search_filter rt search none = false
opt_search_filter rt search (some c) = search_filter rt search c

unfoldable pub matches_search :
    Runtime → AuditFilter → Option String → Option String → AuditLogEntry → Bool
matches_search rt f actor_search search e =
    matches f e
    && (elim actor_search [ none ↦ true | some a ↦ str_eq a "" || search_filter rt a e.actor ]
        && elim search [
          | none ↦ true
          | some q ↦
              str_eq q ""
              || (search_filter rt q e.actor
                  || (search_filter rt q e.description
                      || (search_filter rt q e.event_subtype
                          || (opt_search_filter rt q e.tenant_slug
                              || opt_search_filter rt q e.source_ip))))
        ])

-- `list_entries`: the page (from 1), newest first, and the total.
unfoldable pub list_entries :
    Runtime → AuditFilter → Option String → Option String → ℕ → ℕ → Tx (List AuditLogEntryRead × ℕ)
list_entries rt f actor_search search page page_size = do
  raise_if (is_refused f) (lookup "AuditLogEntry")
  let keep = matches_search rt f actor_search search
  gets (λ d. (
    map entry_to_read (
        take page_size (
          drop ((page - 1) * page_size)
            (order_desc (λ (e : AuditLogEntry). e.sequence) (filter keep d.audit_log)))),
    count keep d.audit_log,
  ))
