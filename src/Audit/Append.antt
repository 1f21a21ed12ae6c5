-- ===== src/Audit/Append.antt =====
-- Appending to the audit log.
use mathlib.Core.Option
use vixa_system_config_be.Base.{
  ℕ, suc, ◌≤◌, String, Option, none, some, Bool, true, ◌&&◌, not, List, [], ◌∷◌, ◌++◌, ◌≡◌, refl,
  sym, inl, inr, arith, In, In-append, IsAscending, IsAscending-snoc, last_by, last_by_of_ascending,
  snoc_cases,
}
use vixa_system_config_be.Runtime.{Runtime, SignsTruly}
use vixa_system_config_be.Models.Audit.{
  AuditLogEntry, AuditLogEntryCreate, severity_value-of, event_type_value-of, is_severity_name,
  is_event_type_name,
}
use vixa_system_config_be.Tx.{
  Session, Result, ok, err, Error, World, request, open_session, ◌>>=◌, continue, commit, pure,
  ◌>>◌,
}
use vixa_system_config_be.Tx.Rules.{IsQuiet}
use vixa_system_config_be.Audit.{
  get_tail, insert_entry, append_entry_in_transaction, append_entry, expected_hash,
}
use vixa_system_config_be.Audit.Chain.{IsLinked, IsLinked-append, carried}

-- neither text is the name of a member
abbrev pub by_value : AuditLogEntryCreate → Bool
by_value p = not (is_severity_name p.severity) && not (is_event_type_name p.event_type)

module _ ⦃rt : Runtime⦄ where
  -- The log is linked in the order of its sequence numbers, none above the identity column's last.
  pub record IsSound (log : List AuditLogEntry) (last : ℕ) : Type 0 where
    pub ascending : IsAscending (λ (e : AuditLogEntry). e.sequence) log
    pub numbered : (e : AuditLogEntry) → In e log → e.sequence ≤ last
    pub linked : IsLinked none log

  carried-snoc :
      (prev : Option String) (es : List AuditLogEntry) (e : AuditLogEntry)
      → carried prev (es ++ e ∷ []) ≡ some e.entry_hash
  carried-snoc prev [] e = refl
  carried-snoc prev (x ∷ xs) e = carried-snoc (some x.entry_hash) xs e

  -- The tail that the database returns carries the hash that the chain ends with.
  tail-carried :
      (log : List AuditLogEntry)
      → IsAscending (λ (e : AuditLogEntry). e.sequence) log
      → Option.map (λ (e : AuditLogEntry). e.entry_hash) (get_tail log) ≡ carried none log
  unfolding get_tail last_by
  tail-carried log asc = elim (snoc_cases log) [
    | inl e ↦ rw e refl
    | inr (ys, y, e) ↦ rw e (
        rw (last_by_of_ascending (λ (x : AuditLogEntry). x.sequence) ys y (rw e at asc))
          (sym (carried-snoc none ys y)))
  ]

  -- The entry with the links of the tail keeps the log sound.
  IsSound-snoc :
      (log : List AuditLogEntry) (last : ℕ) (e : AuditLogEntry)
      → IsSound log last
      → e.sequence ≡ suc last
      → e.prev_hash ≡ carried none log
      → expected_hash (carried none log) e ≡ e.entry_hash
      → rt.verify e.entry_hash e.signature ≡ true
      → IsSound (log ++ e ∷ []) (suc last)
  IsSound-snoc log last e sound s p h v = record {
    ascending =
        IsAscending-snoc (λ (x : AuditLogEntry). x.sequence) log e sound.ascending
          (λ q i. omega (arith, sound.numbered q i));
    numbered = λ q i. elim (In-append q log (e ∷ []) i) [
      | inl old ↦ omega (arith, sound.numbered q old)
      | inr (inl new) ↦ rw new (omega arith)
      | inr (inr nowhere) ↦ absurd nowhere
    ];
    linked = (IsLinked-append none log (e ∷ [])).1 (sound.linked, (h, p, v, tt));
  }

  -- How an append ends: it raises and leaves the tables alone, or it adds one row.
  abbrev pub Appends : Session → Result AuditLogEntry × Session → Type 0
  Appends s (err e, s') =
      (s'.db ≡ s.db) × (s'.saved ≡ s.saved) × (s.sequence ≤ s'.sequence) × (s.calls ≤ s'.calls)
  Appends s (ok row, s') =
      (s'.db ≡ record s.db { audit_log = s.db.audit_log ++ row ∷ [] })
      × (s'.saved ≡ s.saved)
      × (row.sequence ≡ suc s.sequence)
      × (s'.sequence ≡ suc s.sequence)
      × (s.calls ≤ s'.calls)

  pub append-Appends :
      (p : AuditLogEntryCreate) (s : Session) → Appends s (append_entry_in_transaction p s)
  unfolding append_entry_in_transaction insert_entry ◌>>=◌
  append-Appends p s = ground arith

  pub append-IsQuiet : (p : AuditLogEntryCreate) → IsQuiet (append_entry_in_transaction p)
  append-IsQuiet p = record {
    saved =
        λ s. let (r, s') = append_entry_in_transaction p s in saved_of s r s' (append-Appends p s);
  }
    where
      saved_of :
          (s : Session) (r : Result AuditLogEntry) (s' : Session)
          → Appends s (r, s')
          → s'.saved ≡ s.saved
      saved_of s (err e) s' a = a.1
      saved_of s (ok row) s' a = a.1

  -- What the new row holds: the links of the tail, and the payload that its hash covers.
  append-row :
      (p : AuditLogEntryCreate) (s : Session) (row : AuditLogEntry)
      → SignsTruly rt
      → by_value p ≡ true
      → IsAscending (λ (e : AuditLogEntry). e.sequence) s.db.audit_log
      → (append_entry_in_transaction p s).0 ≡ ok row
      → (row.prev_hash ≡ carried none s.db.audit_log)
        × (expected_hash (carried none s.db.audit_log) row ≡ row.entry_hash)
        × (rt.verify row.entry_hash row.signature ≡ true)
  unfolding append_entry_in_transaction insert_entry ◌>>=◌ expected_hash
  append-row p s row signs val asc h = ground (
    arith,
    tail-carried s.db.audit_log asc,
    severity_value-of p.severity row.severity,
    event_type_value-of p.event_type row.event_type,
    signs.verify-sign row.entry_hash,
  )

  -- Where an append goes through or raises, a sound log stays sound.
  pub append-IsSound :
      (p : AuditLogEntryCreate) (s : Session)
      → SignsTruly rt
      → by_value p ≡ true
      → IsSound s.db.audit_log s.sequence
      → let s' = (append_entry_in_transaction p s).1 in IsSound s'.db.audit_log s'.sequence
  append-IsSound p s signs val sound =
      let (r, s') = append_entry_in_transaction p s in
      go r s' (append-Appends p s) (λ row e. append-row p s row signs val sound.ascending e)
    where
      go :
          (r : Result AuditLogEntry) (s' : Session)
          → Appends s (r, s')
          → ((row : AuditLogEntry)
              → r ≡ ok row
              → (row.prev_hash ≡ carried none s.db.audit_log)
                × (expected_hash (carried none s.db.audit_log) row ≡ row.entry_hash)
                × (rt.verify row.entry_hash row.signature ≡ true))
          → IsSound s'.db.audit_log s'.sequence
      go (err e) s' a f = record {
        ascending = rw a.0 sound.ascending;
        numbered = rw a.0 (λ q i. omega (arith, sound.numbered q i, a.2));
        linked = rw a.0 sound.linked;
      }
      go (ok row) s' a f =
          let (p, h, v) = f row refl in
          rw (a.0, a.3) (IsSound-snoc s.db.audit_log s.sequence row sound a.2 p h v)

  -- From a sound log, a request that appends leaves a sound log, whether it succeeds or fails, if its
  -- payload does not give the severity or the event type by the name of a member (which the columns
  -- take as well); a failed one leaves the stored tables as they were, and a successful one adds
  -- exactly the returned entry at the end.
  pub append_entry_extends :
      (p : AuditLogEntryCreate) (w : World)
      → SignsTruly rt
      → by_value p ≡ true
      → IsSound w.database.audit_log w.sequence
      → let (r, w') = request (append_entry p) w in
        IsSound w'.database.audit_log w'.sequence
        × ((e : Error) → r ≡ err e → w'.database ≡ w.database)
        × ((row : AuditLogEntry)
            → r ≡ ok row
            → w'.database ≡ record w.database { audit_log = w.database.audit_log ++ row ∷ [] })
  unfolding request append_entry ◌>>=◌
  append_entry_extends p w signs val sound =
      let s = open_session w in
      let (r, s') = append_entry_in_transaction p s in
      go r s' (append-Appends p s) (append-IsSound p s signs val sound)
    where
      go :
          (r : Result AuditLogEntry) (s' : Session)
          → Appends (open_session w) (r, s')
          → IsSound s'.db.audit_log s'.sequence
          → let (q, t) = continue r (λ entry. commit >> pure entry) s' in
            IsSound t.saved.audit_log t.sequence
            × ((e : Error) → q ≡ err e → t.saved ≡ w.database)
            × ((row : AuditLogEntry)
                → q ≡ ok row
                → t.saved ≡ record w.database { audit_log = w.database.audit_log ++ row ∷ [] })
      go (err e) s' a still = (rw (a.1, ← a.0) still, λ e' h. a.1, λ row h. cc)
      go (ok row) s' a still = (still, λ e h. cc, λ row' h. ground arith)
