-- ===== src/Anomalies/History.antt =====
-- The history of an anomaly in the audit log.
use vixa_system_config_be.Base.{
  ℕ, ◌≤◌, ◌<◌, String, Option, some, Bool, true, List, [], ◌∷◌, ◌++◌, ◌≡◌, refl, ap, sym, ◌∙◌, inl,
  inr, arith, ◌==◌, ==_iff, find-In, eq_refl, filter, find, find-update, update, In, In-filter,
  order_asc, order_asc-snoc, Option-cases,
}
use vixa_system_config_be.Json.{Fields, null, bool, num, text, arr, obj, end, field}
use vixa_system_config_be.Runtime.{Runtime, Key}
use vixa_system_config_be.Models.Audit.{AuditLogEntry, event_type_value}
use vixa_system_config_be.Models.Anomaly.{AnomalyStatus, anomaly_status_value, AnomalyEvent}
use vixa_system_config_be.Anomalies.{
  transition, find_event, update_anomaly_status, get_anomaly_event,
}
use vixa_system_config_be.Anomalies.Reads.{
  AnomalyHistoryEntry, get_anomaly_history, get_text, is_history_of, history_entry, history_entries,
  text_field, optional_text,
}
use vixa_system_config_be.Tx.{World, Session, ok, request, open_session, gets, ◌>>=◌}
use vixa_system_config_be.Anomalies.Recorded.{LowersKeys, transition-status, recorded}

ok_value : {A : Type 0} {a b : A} → ok a ≡ ok b → a ≡ b
ok_value h = ground arith

filter-snoc :
    {A : Type 0} (p : A → Bool) (xs : List A) (x : A)
    → p x ≡ true
    → filter p (xs ++ x ∷ []) ≡ filter p xs ++ x ∷ []
unfolding filter
filter-snoc p [] x h = ground arith
filter-snoc p (y ∷ ys) x h = ground (arith, filter-snoc p ys x h)

entries-snoc :
    (rows : List AuditLogEntry) (row : AuditLogEntry) (h : List AnomalyHistoryEntry)
    (x : AnomalyHistoryEntry)
    → history_entries rows ≡ some h
    → history_entry row ≡ some x
    → history_entries (rows ++ row ∷ []) ≡ some (h ++ x ∷ [])
unfolding history_entries
entries-snoc [] row h x before new = ground arith
entries-snoc (r ∷ rows) row h x before new = elim (Option-cases (history_entries rows)) [
  | inl refused ↦ absurd (ground arith)
  | inr (xs, all) ↦ let rest = entries-snoc rows row xs x all new in ground arith
]

-- A text of the metadata is what the schema takes.
text_field_of_get_text :
    (key : String) (m : Fields) (s : String)
    → get_text key m ≡ some s
    → text_field key m ≡ some (some s)
unfolding get_text text_field optional_text
text_field_of_get_text key end s h = absurd (ground arith)
text_field_of_get_text key (field k (text t) fs) s h =
    ground (arith, text_field_of_get_text key fs s)
text_field_of_get_text key (field k null fs) s h = ground (arith, text_field_of_get_text key fs s)
text_field_of_get_text key (field k (bool b) fs) s h =
    ground (arith, text_field_of_get_text key fs s)
text_field_of_get_text key (field k (num n) fs) s h =
    ground (arith, text_field_of_get_text key fs s)
text_field_of_get_text key (field k (arr xs) fs) s h =
    ground (arith, text_field_of_get_text key fs s)
text_field_of_get_text key (field k (obj xs) fs) s h =
    ground (arith, text_field_of_get_text key fs s)

row_entry :
    (row : AuditLogEntry) (previous new : String)
    → get_text "previous_status" row.metadata_json ≡ some previous
    → get_text "status" row.metadata_json ≡ some new
    → (x : AnomalyHistoryEntry) × (history_entry row ≡ some x)
      × (x.previous_status ≡ some previous)
      × (x.new_status ≡ some new)
unfolding history_entry
row_entry row previous new p n =
    let a = text_field_of_get_text "previous_status" row.metadata_json previous p in
    let b = text_field_of_get_text "status" row.metadata_json new n in
    (
      record {
        sequence = row.sequence;
        occurred_at = row.occurred_at;
        actor = row.actor;
        subtype = row.event_subtype;
        description = row.description;
        previous_status = some previous;
        new_status = some new;
      },
      ground arith,
      refl,
      refl,
    )

abbrev number : AuditLogEntry → ℕ
number row = row.sequence

-- The stored entries are numbered up to the last value of the identity column.
abbrev pub IsNumbered : World → Type 0
IsNumbered w = (q : AuditLogEntry) → In q w.database.audit_log → q.sequence ≤ w.sequence

module _ ⦃rt : Runtime⦄ where
  abbrev history_in : Key → List AuditLogEntry → Option (List AnomalyHistoryEntry)
  history_in id log = history_entries (order_asc number (filter (is_history_of id) log))

  history-snoc :
      (id : Key) (log : List AuditLogEntry) (row : AuditLogEntry) (h : List AnomalyHistoryEntry)
      (x : AnomalyHistoryEntry)
      → ((q : AuditLogEntry) → In q log → q.sequence < row.sequence)
      → is_history_of id row ≡ true
      → history_in id log ≡ some h
      → history_entry row ≡ some x
      → history_in id (log ++ row ∷ []) ≡ some (h ++ x ∷ [])
  history-snoc id log row h x below mine before new =
      ap (λ t. history_entries (order_asc number t)) (filter-snoc (is_history_of id) log row mine)
      ∙ ap history_entries (
          order_asc-snoc number (filter (is_history_of id) log) row
            (λ q i. below q (In-filter (is_history_of id) log q i).0))
      ∙ entries-snoc (order_asc number (filter (is_history_of id) log)) row h x before new

  -- the history of a stored anomaly
  history_answer :
      (id : Key) (s : Session) (e : AnomalyEvent) (h : List AnomalyHistoryEntry)
      → find_event id s.db ≡ some e
      → history_in id s.db.audit_log ≡ some h
      → (get_anomaly_history id s).0 ≡ ok h
  unfolding get_anomaly_history get_anomaly_event gets ◌>>=◌
  history_answer id s e h found all = rw (found, all) refl

  history_found :
      (id : Key) (s : Session) (h : List AnomalyHistoryEntry)
      → (get_anomaly_history id s).0 ≡ ok h
      → (e : AnomalyEvent) × (find_event id s.db ≡ some e) × (history_in id s.db.audit_log ≡ some h)
  unfolding get_anomaly_history get_anomaly_event gets ◌>>=◌
  history_found id s h q = elim (Option-cases (find_event id s.db)) [
    | inl missing ↦ absurd (ground arith)
    | inr (e, found) ↦ elim (Option-cases (history_in id s.db.audit_log)) [
      | inl refused ↦ absurd (ground arith)
      | inr (xs, all) ↦
          (e, found, all ∙ ap some (ok_value (sym (history_answer id s e xs found all) ∙ q)))
    ]
  ]

  of_this :
      (id : Key) (row : AuditLogEntry)
      → event_type_value row.event_type ≡ "anomaly_detected"
      → get_text "anomaly_id" row.metadata_json ≡ some (rt.uuid_text id)
      → is_history_of id row ≡ true
  unfolding is_history_of
  of_this id row kind named = rw (kind, named) (eq_refl (rt.uuid_text id))

  -- A change of the status of a stored anomaly that returns adds exactly one entry to its history, at
  -- the end and with the old and the new status, where the stored audit entries are numbered up to
  -- the identity column and `str.lower` keeps texts in lower case.
  pub history_grows :
      (id : Key) (status : AnomalyStatus) (actor : Option String) (w : World)
      (o : Option AnomalyEvent) (old : AnomalyEvent) (h : List AnomalyHistoryEntry)
      → LowersKeys rt
      → IsNumbered w
      → find_event id w.database ≡ some old
      → (request (get_anomaly_history id) w).0 ≡ ok h
      → (request (update_anomaly_status id status actor) w).0 ≡ ok o
      → let w' = (request (update_anomaly_status id status actor) w).1 in
        (x : AnomalyHistoryEntry) × ((request (get_anomaly_history id) w').0 ≡ ok (h ++ x ∷ []))
        × (x.previous_status ≡ some (anomaly_status_value old.status))
        × (x.new_status ≡ some (anomaly_status_value status))
  unfolding request find_event
  history_grows id status actor w o old h keys numbered found before ran =
      let s = open_session w in
      let c = recorded id status actor s old o keys found ran in
      let s' = open_session (request (update_anomaly_status id status actor) w).1 in
      let (_, same) = find-In _ w.database.anomaly_events old found in
      let id_eq = (==_iff old.id id).0 same in
      let (_, _, was) = history_found id s h before in
      let still : find_event id s'.db ≡ some (transition status c.at old) =
        ap (find (λ (e : AnomalyEvent). e.id == id)) (
          c.events
          ∙ ap
              (λ k.
                update (λ (e : AnomalyEvent). e.id == k) (transition status c.at)
                  w.database.anomaly_events)
              id_eq)
        ∙ find-update _ (transition status c.at) w.database.anomaly_events old found
            (λ q e. ap (λ k. k == id) (transition-status status c.at q).1 ∙ e) in
      let (x, valid, previous, new) = row_entry c.row _ _ c.texts.2 c.texts.1 in
      let mine = of_this id c.row c.kind (c.texts.0 ∙ ap (λ k. some (rt.uuid_text k)) id_eq) in
      (
        x,
        history_answer id s' _ (h ++ x ∷ []) still (
            ap (history_in id) c.log
            ∙ history-snoc id w.database.audit_log c.row h x
                (λ q i. omega (arith, numbered q i, c.numbered)) mine was valid),
        previous,
        new,
      )
