-- ===== src/Tests/AuditRuns.antt =====
-- Runs of the audit log.
use vixa_system_config_be.Base.{
  ℕ, ◌+◌, String, ◌⧺◌, Option, none, some, true, false, [], ◌∷◌, ◌++◌, ◌≡◌, ◌⊎◌, ◌↔◌, refl, arith,
  order_asc, eq_refl, any, last_by, str,
}
use vixa_system_config_be.Json.{member, Json, text, end, field, obj}
use vixa_system_config_be.Models.Audit.{
  AuditLogEntry, AuditLogEntryCreate, info, config_change, severity_of, severity_value,
  event_type_of, event_type_value, is_severity_name, is_event_type_name, event_type_named,
  event_type_valued,
}
use vixa_system_config_be.Metadata.{sanitize_metadata, is_sensitive_key}
use vixa_system_config_be.Metadata.Laws.{IsClean, sanitize_metadata_redacts}
use vixa_system_config_be.Tx.{World, Error, ok, err, request, ◌>>=◌}
use vixa_system_config_be.Audit.{
  append_entry, expected_hash, verify_chain, append_entry_in_transaction, insert_entry,
  lacks_named_tenant, get_tail, last_hash, walk, visit, entry_ok, compute_entry_hash,
  canonical_payload,
}
use vixa_system_config_be.Metadata.{sanitize_fields}
use vixa_system_config_be.Audit.Chain.{IsLinked, verify_chain_valid}
use vixa_system_config_be.Audit.Tamper.{verify_chain_tampered}
use vixa_system_config_be.Audit.Append.{IsSound, append_entry_extends}
use vixa_system_config_be.Tests.Demo.{demo, demo-SignsTruly, blank}

abbrev payload : AuditLogEntryCreate
payload = record {
  severity = "info";
  event_type = "config_change";
  event_subtype = "PARAMETER_UPDATED";
  actor = "admin@nexus";
  description = "first";
  tenant_id = none;
  tenant_slug = none;
  source_ip = none;
  metadata_json = field "password" (text "hunter2") end;
}

blank-IsSound : IsSound [] 0
blank-IsSound = record { ascending = tt; numbered = λ e i. absurd i; linked = tt }

append_entry_extends_example :
    let (r, w') = request (append_entry payload) blank in
    IsSound w'.database.audit_log w'.sequence
    × ((e : Error) → r ≡ err e → w'.database ≡ blank.database)
    × ((row : AuditLogEntry)
        → r ≡ ok row
        → w'.database ≡ record blank.database { audit_log = [] ++ row ∷ [] })
unfolding is_severity_name is_event_type_name event_type_named
append_entry_extends_example = append_entry_extends payload blank demo-SignsTruly refl blank-IsSound

-- The name of a member is stored as well: the hash covers the name, its verification the value.
abbrev by_name : World
by_name = (request (append_entry (record payload { severity = "INFO" })) blank).1

breaks_the_chain : verify_chain by_name.database.audit_log ≡ record {
  verified_count = 0;
  failed_count = 1;
  is_valid = false;
  first_break_sequence = some 1;
  root_hash = last_hash by_name.database.audit_log;
}
unfolding request append_entry append_entry_in_transaction insert_entry lacks_named_tenant get_tail
    severity_of severity_value event_type_of event_type_value is_event_type_name event_type_named
    event_type_valued verify_chain walk visit entry_ok expected_hash compute_entry_hash
    canonical_payload any sanitize_fields is_sensitive_key member order_asc last_by str ◌>>=◌
breaks_the_chain = refl

-- Two entries of which the second follows the first.
abbrev bare : ℕ → String → AuditLogEntry
bare n description = record {
  id = n;
  sequence = n;
  occurred_at = n;
  severity = info;
  event_type = config_change;
  event_subtype = "X";
  tenant_id = none;
  tenant_slug = none;
  actor = "admin";
  source_ip = none;
  description = description;
  metadata_json = end;
  prev_hash = none;
  entry_hash = "";
  signing_key_id = "demo";
  signature = "";
  created_at = n;
}

abbrev sealed : Option String → AuditLogEntry → AuditLogEntry
sealed prev e =
    let hash = expected_hash prev e in
    record e { prev_hash = prev; entry_hash = hash; signature = "sig:" ⧺ hash }

abbrev first : AuditLogEntry
first = sealed none (bare 1 "first")

abbrev second : AuditLogEntry
second = sealed (some first.entry_hash) (bare 2 "second")

abbrev forged : AuditLogEntry
forged = record first { description = "forged" }

both-IsLinked : IsLinked none (first ∷ second ∷ [])
unfolding expected_hash
both-IsLinked = (refl, refl, eq_refl first.signature, (refl, refl, eq_refl second.signature, tt))

verify_chain_tampered_example :
    let report = verify_chain (forged ∷ second ∷ []) in
    ((report.is_valid ≡ false)
      × (report.failed_count ≡ 1)
      × (report.verified_count ≡ 1)
      × (report.first_break_sequence ≡ some 1))
    ⊎ ((expected_hash none forged ≡ expected_hash none first)
        × (forged.prev_hash ≡ first.prev_hash)
        × (demo.verify forged.entry_hash forged.signature ≡ true))
verify_chain_tampered_example =
    verify_chain_tampered [] first forged (second ∷ []) (omega arith, tt) both-IsLinked refl refl

verify_chain_valid_example :
    ((verify_chain (first ∷ second ∷ [])).is_valid ≡ true
      ↔ IsLinked none (order_asc (λ (e : AuditLogEntry). e.sequence) (first ∷ second ∷ [])))
    × ((verify_chain (first ∷ second ∷ [])).verified_count
          + (verify_chain (first ∷ second ∷ [])).failed_count
        ≡ 2)
verify_chain_valid_example = verify_chain_valid (first ∷ second ∷ [])

abbrev secrets : Json
secrets = obj (field "user" (obj (field "token" (text "abc") end)) end)

sanitize_metadata_redacts_example :
    IsClean demo (sanitize_metadata demo secrets)
    × (IsClean demo secrets → sanitize_metadata demo secrets ≡ secrets)
sanitize_metadata_redacts_example = sanitize_metadata_redacts demo secrets

secrets_redacted :
    sanitize_metadata demo secrets
    ≡ obj (field "user" (obj (field "token" (text "[REDACTED]") end)) end)
unfolding sanitize_metadata is_sensitive_key
secrets_redacted = refl
