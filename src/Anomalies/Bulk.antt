-- ===== src/Anomalies/Bulk.antt =====
-- One status for many anomalies.
use vixa_system_config_be.Base.{
  ◌+◌, String, Option, Bool, true, false, not, List, [], ◌∷◌, ◌++◌, ◌≡◌, refl, ap, sym, ◌∙◌, subst,
  arith, inl, inr, ◌==◌, ==_iff, Bool-cases, map, length, filter, any, update, unique_by, In,
  length-split, filter-cong, delete-filter, update-cong, any-of_In,
}
use vixa_system_config_be.Runtime.{Runtime, Key, Time}
use vixa_system_config_be.Models.Audit.{AuditLogEntry}
use vixa_system_config_be.Models.Anomaly.{AnomalyStatus, anomaly_status_value, AnomalyEvent}
use vixa_system_config_be.Database.{Database}
use vixa_system_config_be.Rbac.Tables.{has, same_key}
use vixa_system_config_be.Anomalies.{
  transition, bulk_transition, bulk_response, bulk_update_anomaly_status, BulkStatusResponse,
}
use vixa_system_config_be.Anomalies.Recorded.{LowersKeys}
use vixa_system_config_be.Anomalies.Entries.{
  AreEntriesOf, Holds, Any, transition_all-Triple, append_nil,
}
use vixa_system_config_be.Tx.{
  World, Session, Result, ok, err, request, open_session, ◌>>=◌, rolling_back, continue, pure, undo,
}
use vixa_system_config_be.Tx.Rules.{
  Triple, Triple-bind, Triple-pure, Triple-gets, Triple-now, Triple-commit, Triple-given,
  IsCommitted, committed_rules, undo_ok,
}
use vixa_system_config_be.Anomalies.Selection.{
  selected, write_all, write_all-update, selected_by_ids, has-unique_by,
}

-- a stored anomaly has the id
abbrev pub is_stored : Key → List AnomalyEvent → Bool
is_stored id t = any (λ (e : AnomalyEvent). e.id == id) t

-- the stored anomalies that have one of the ids
abbrev pub with_ids : List Key → List AnomalyEvent → List AnomalyEvent
with_ids ids t = filter (λ (e : AnomalyEvent). has e.id ids) t

-- One of the ids is that of a selected anomaly exactly if an anomaly with it is stored.
found_if_stored :
    (ids : List Key) (id : Key) (t : List AnomalyEvent)
    → has id ids ≡ true
    → has id (map (λ (e : AnomalyEvent). e.id) (with_ids ids t)) ≡ is_stored id t
unfolding any filter
found_if_stored ids id [] h = refl
found_if_stored ids id (e ∷ es) h =
    let rest = found_if_stored ids id es h in
    elim (Bool-cases (has e.id ids)) [
      | inl wanted ↦ ground arith
      | inr other ↦
          let apart : (e.id == id) ≡ false = elim (Bool-cases (e.id == id)) [
            | inl same ↦
                absurd
                  (distinct (sym h ∙ ap (λ k. has k ids) (sym ((==_iff e.id id).0 same)) ∙ other))
            | inr differs ↦ differs
          ] in
          ground arith
    ]
  where
    distinct : true ≡ false → ⊥
    distinct p = cc

has_self : (ids : List Key) (id : Key) → In id ids → has id ids ≡ true
has_self ids id i = any-of_In (λ x. x == id) ids id i ((==_iff id id).1 refl)

module _ ⦃rt : Runtime⦄ (ids : List Key) (status : AnomalyStatus) (t : List AnomalyEvent) where
  answered_found :
      (bulk_response ids status (with_ids ids t)).updated_ids ≡ filter (λ id. is_stored id t) ids
  unfolding bulk_response
  answered_found = filter-cong _ _ ids (λ id i. found_if_stored ids id t (has_self ids id i))

  answered_missing :
      (bulk_response ids status (with_ids ids t)).not_found_ids
      ≡ filter (λ id. not (is_stored id t)) ids
  unfolding bulk_response
  answered_missing = delete-filter _ _ ids (λ id i.
      let same = found_if_stored ids id t (has_self ids id i) in
      same ∙ sym (twice (is_stored id t)))
    where
      twice : (b : Bool) → not (not b) ≡ b
      twice true = refl
      twice false = refl

module _ ⦃rt : Runtime⦄ where
  -- what a bulk change has done when it returns the events it has selected
  abbrev Changed :
      List Key
      → AnomalyStatus
      → List AuditLogEntry
      → List AnomalyEvent
      → Time
      → List AnomalyEvent
      → Database
      → Type 0
  Changed ids status old t at es d =
      (es ≡ with_ids ids t) × Holds status old es (write_all (transition status at) es t) d

  bulk-Triple :
      (ids : List Key) (status : AnomalyStatus) (actor : Option String) (old : List AuditLogEntry)
      (t : List AnomalyEvent)
      → LowersKeys rt
      → Triple Any
          (Holds status old [] t)
          (bulk_transition ids status actor)
          (λ es d. (at : Time) × Changed ids status old t at es d)
  unfolding bulk_transition
  bulk-Triple ids status actor old t keys =
      Triple-bind (λ es d. (es ≡ with_ids ids t) × Holds status old [] t d) _ _
        (Triple-gets _ (λ d h. (ap (with_ids ids) h.0, h)))
        λ es. Triple-given _ λ found.
          Triple-bind (λ _ d. Holds status old [] t d) _ _ (Triple-now (λ _ d h. h))
            λ at. Triple-bind _ _ _ (transition_all-Triple keys status old at actor es [] t) λ _.
              Triple-bind (λ _ d. Holds status old es (write_all (transition status at) es t) d) _ _
                (Triple-commit (λ d h. h)) λ _. Triple-pure es (λ d g h. (at, (found, h)))

  bulk-IsCommitted :
      (ids : List Key) (status : AnomalyStatus) (actor : Option String)
      → IsCommitted (bulk_transition ids status actor)
  unfolding bulk_transition
  bulk-IsCommitted ids status actor = search committed_rules depth 10

  returned :
      (ids : List Key) (status : AnomalyStatus) (a : Result (List AnomalyEvent)) (s : Session)
      (r : BulkStatusResponse)
      → (continue a (λ es. pure (bulk_response ids status es)) s).0 ≡ ok r
      → (es : List AnomalyEvent) × (a ≡ ok es)
        × (r ≡ bulk_response ids status es)
        × ((continue a (λ es. pure (bulk_response ids status es)) s).1 ≡ s)
  unfolding ◌>>=◌
  returned ids status (ok es) s r h = (es, refl, ground arith, refl)
  returned ids status (err e) s r h = absurd (ground arith)

  -- What a bulk change to the status has stored, from the tables before, and what it answers.
  pub record IsBulkChange (ids : List Key) (status : AnomalyStatus) (before after : Database)
      (r : BulkStatusResponse) : Type 0 where
    pub at : Time
    pub moved :
        after.anomaly_events
        ≡ update (λ (e : AnomalyEvent). has e.id ids) (transition status at) before.anomaly_events
    pub entries : List AuditLogEntry
    pub log : after.audit_log ≡ before.audit_log ++ entries
    pub recorded : AreEntriesOf status (with_ids ids before.anomaly_events) entries
    pub new_status : r.new_status ≡ anomaly_status_value status
    pub updated_ids :
        r.updated_ids ≡ filter (λ id. is_stored id before.anomaly_events) (unique_by same_key ids)
    pub not_found_ids :
        r.not_found_ids
        ≡ filter (λ id. not (is_stored id before.anomaly_events)) (unique_by same_key ids)
    pub updated : r.updated ≡ length r.updated_ids
    pub requested : r.requested ≡ r.updated + length r.not_found_ids

  -- A bulk change that returns has moved exactly the stored anomalies with one of the ids to the
  -- status, all at one time. It has appended one audit entry for each of them, in the order of the
  -- table, that names the anomaly, its old and the new status. Of each different id it answers
  -- whether an anomaly with it was stored, with the numbers of both kinds. `str.lower` is taken to
  -- keep the keys of the metadata in lower case.
  pub bulk_update_outcome :
      (ids : List Key) (status : AnomalyStatus) (actor : Option String) (w : World)
      (r : BulkStatusResponse)
      → LowersKeys rt
      → (request (bulk_update_anomaly_status ids status actor) w).0 ≡ ok r
      → IsBulkChange ids status w.database
          (request (bulk_update_anomaly_status ids status actor) w).1.database
          r
  unfolding request bulk_update_anomaly_status rolling_back bulk_response ◌>>=◌
  bulk_update_outcome ids status actor w r keys h =
      let u = unique_by same_key ids in
      let s = open_session w in
      let t = w.database.anomaly_events in
      let old = w.database.audit_log in
      let (a, s') = bulk_transition u status actor s in
      let (es, undone, answer, same) = returned u status (undo a s').0 (undo a s').1 r h in
      let (ran, kept) = undo_ok a s' es undone in
      let (_, _, changed) =
        (bulk-Triple u status actor old t keys).run s tt tt
          (refl, ([], sym (append_nil old), tt)) in
      let (at, (found, (events, (rows, log, are)))) = changed es ran in
      let stored =
        ap (λ (x : Session). x.saved) (same ∙ kept)
        ∙ (bulk-IsCommitted u status actor).all_saved s es ran in
      let by_ids : (e : AnomalyEvent) → has e.id u ≡ has e.id ids = λ e. has-unique_by e.id ids in
      let said = answer ∙ ap (bulk_response u status) found in
      record {
        at = at;
        moved =
            ap (λ (d : Database). d.anomaly_events) stored
            ∙ events
            ∙ write_all-update status at es t
            ∙ ap (λ xs. update (selected xs) (transition status at) t) found
            ∙ update-cong _ _ _ t (λ x i. selected_by_ids u t x i ∙ by_ids x);
        entries = rows;
        log = ap (λ (d : Database). d.audit_log) stored ∙ log;
        recorded =
            subst (λ xs. AreEntriesOf status xs rows) (found ∙ filter-cong _ _ t (λ x i. by_ids x))
              are;
        new_status = ap (λ (x : BulkStatusResponse). x.new_status) said;
        updated_ids =
            ap (λ (x : BulkStatusResponse). x.updated_ids) said ∙ answered_found u status t;
        not_found_ids =
            ap (λ (x : BulkStatusResponse). x.not_found_ids) said ∙ answered_missing u status t;
        updated = rw answer refl;
        requested = rw answer (sym (length-split _ u));
      }
