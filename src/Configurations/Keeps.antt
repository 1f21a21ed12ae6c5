-- ===== src/Configurations/Keeps.antt =====
-- The simpler writes, and what an activation and a rollback share, keep the table consistent.
use vixa_system_config_be.Base.{
  ℕ, String, Option, none, false, List, [], ◌∷◌, ◌≡◌, ◌≢◌, refl, arith, In, update, update-In, ◌==◌,
}
use vixa_system_config_be.Json.{Fields}
use vixa_system_config_be.Runtime.{Runtime, Key, Time}
use vixa_system_config_be.Models.Audit.{AuditLogEntry, AuditLogEntryCreate}
use vixa_system_config_be.Models.Config.{Configuration, active, is_active}
use vixa_system_config_be.Database.{Database}
use vixa_system_config_be.Audit.{append_entry_in_transaction}
use vixa_system_config_be.Audit.Append.{Appends, append-Appends}
use vixa_system_config_be.Configurations.{
  ConfigurationCreate, ConfigurationUpdate, save, add, draft_of, active_configuration,
  archive_current, raise_errors, audit_config, create_configuration, create_successor_version,
  delete_configuration, archive_configuration,
}
use vixa_system_config_be.Configurations.Consistency.{NoOtherActive}
use vixa_system_config_be.Configurations.Invariant.{
  Good, Live, get_orm-Triple, save-Triple, add-Triple, archive_current-Triple,
}
use vixa_system_config_be.Tx.{Tx, Session, Result, ok, err, ◌>>◌}
use vixa_system_config_be.Tx.Rules.{
  Triple, Triple-bind, Triple-pure, Triple-raise, Triple-raise_if, Triple-gets, Triple-commit,
  Triple-now, Triple-uuid4, Triple-weaken,
}

abbrev pub Top : {A : Type 0} → A → Database → Type 0
Top _ _ = Unit

raise_errors-Triple :
    (es : List String) (P : Database → Type 0) → Triple Good P (raise_errors es) (λ _. P)
unfolding raise_errors
raise_errors-Triple [] P = Triple-pure tt (λ d g p. p)
raise_errors-Triple (e ∷ es) P = Triple-raise _

pub not_active : (c : Configuration) → is_active c.status ≡ false → c.status ≢ active
not_active c h a = ground arith

saved_row :
    (t : List Configuration) (old new : Configuration)
    → new.id ≡ old.id
    → In old t
    → In new (update (λ (r : Configuration). r.id == new.id) (λ _. new) t)
saved_row t old new e i =
    let kept = update-In (λ (r : Configuration). r.id == new.id) (λ _. new) t old i in ground arith

module _ ⦃rt : Runtime⦄ where
  -- An audit entry changes no configuration document.
  append-Triple :
      (p : AuditLogEntryCreate) (P : List Configuration → Type 0)
      → Triple Good
          (λ d. P d.configurations)
          (append_entry_in_transaction p)
          (λ _ d. P d.configurations)
  append-Triple p P = record {
    run = λ s g g' h.
        let (r, s') = append_entry_in_transaction p s in kept s r s' (append-Appends p s) g g' h;
  }
    where
      kept :
          (s : Session) (r : Result AuditLogEntry) (s' : Session)
          → Appends s (r, s')
          → Good s.db
          → Good s.saved
          → P s.db.configurations
          → Good s'.db × Good s'.saved × ((a : AuditLogEntry) → r ≡ ok a → P s'.db.configurations)
      kept s (err e) s' a g g' h = (rw a.0 g, rw a.1 g', λ b q. cc)
      kept s (ok row) s' a g g' h = (rw a.0 g, rw a.1 g', λ b q. rw a.0 h)

  audit_config-Triple :
      (actor subtype description : String) (metadata : Fields) (P : List Configuration → Type 0)
      → Triple Good
          (λ d. P d.configurations)
          (audit_config actor subtype description metadata)
          (λ _ d. P d.configurations)
  unfolding audit_config
  audit_config-Triple actor subtype description metadata P =
      Triple-bind (λ _ d. P d.configurations) _ _ (append-Triple _ P)
        λ _. Triple-pure tt (λ d g p. p)

  pub add-Top :
      (id : Key) (name : String) (version : ℕ) (payload : Fields) (keys : List String)
      (sum : String) (description : Option String) (by : String) (P : Database → Type 0)
      → Triple Good P (add (draft_of id name version payload keys sum description by)) Top
  add-Top id name version payload keys sum description by P =
      Triple-weaken (add-Triple _ (λ e. cc)) (λ d h. tt) (λ a d h. tt)

  pub create-Triple :
      (p : ConfigurationCreate) (by : String)
      → Triple Good (λ _. Unit) (create_configuration p by) Top
  unfolding create_configuration
  create-Triple p by = Triple-bind Top _ _ (Triple-gets _ (λ d h. tt)) λ existing.
      Triple-bind Top _ _ (Triple-raise_if _ _ (λ d h e. tt)) λ _.
        Triple-bind Top _ _ (raise_errors-Triple _ _) λ _.
          Triple-bind Top _ _ (Triple-uuid4 (λ t d h. tt)) λ id.
            Triple-bind Top _ _ (add-Top _ _ _ _ _ _ _ _ _)
              λ _. Triple-bind Top _ _ (Triple-commit (λ d h. tt)) λ _. Triple-pure _ (λ d g h. tt)

  pub successor-Triple :
      (id : Key) (p : ConfigurationUpdate) (by : String)
      → Triple Good (λ _. Unit) (create_successor_version id p by) Top
  unfolding create_successor_version
  successor-Triple id p by =
      Triple-bind Top _ _ (Triple-weaken (get_orm-Triple id) (λ d h. tt) (λ a d h. tt)) λ base.
        Triple-bind Top _ _ (raise_errors-Triple _ _) λ _.
          Triple-bind Top _ _ (Triple-uuid4 (λ t d h. tt)) λ new_id.
            Triple-bind Top _ _ (Triple-gets _ (λ d h. tt)) λ version.
              Triple-bind Top _ _ (add-Top _ _ _ _ _ _ _ _ _) λ _.
                Triple-bind Top _ _ (Triple-commit (λ d h. tt)) λ _. Triple-pure _ (λ d g h. tt)

  pub delete-Triple : (id : Key) → Triple Good (λ _. Unit) (delete_configuration id) Top
  unfolding delete_configuration
  delete-Triple id =
      Triple-bind (λ c d. Live c d) _ _
        (Triple-weaken (get_orm-Triple id) (λ d h. tt) (λ a d h. h.0))
        λ c.
          Triple-bind (λ _ d. Live c d × (is_active c.status ≡ false)) _ _
            (Triple-raise_if _ _ (λ d h e. (h, e)))
            λ _.
              Triple-bind (λ _ d. Live c d × (is_active c.status ≡ false)) _ _
                (Triple-now (λ t d h. h))
                λ t.
                  Triple-bind Top _ _
                    (save-Triple c _ _ _
                      (λ d g h. record {
                        present = h.0.0;
                        id = refl;
                        name = refl;
                        version = refl;
                        active_alone = λ a. absurd (not_active c h.1 a);
                        active_live = λ a. absurd (not_active c h.1 a);
                      })
                      (λ d g h. tt))
                    λ _. Triple-commit (λ d h. tt)

  pub archive-Triple :
      (id : Key) (actor : String) → Triple Good (λ _. Unit) (archive_configuration id actor) Top
  unfolding archive_configuration
  archive-Triple id actor =
      Triple-bind (λ c d. Live c d) _ _
        (Triple-weaken (get_orm-Triple id) (λ d h. tt) (λ a d h. h.0))
        λ c.
          Triple-bind (λ _ d. Live c d) _ _ (Triple-raise_if _ _ (λ d h e. h))
            λ _.
              Triple-bind (λ _ d. Live c d) _ _ (Triple-now (λ t d h. h))
                λ t.
                  Triple-bind Top _ _
                    (save-Triple c _ _ _
                      (λ d g h. record {
                        present = h.0;
                        id = refl;
                        name = refl;
                        version = refl;
                        active_alone = λ a. cc;
                        active_live = λ a. cc;
                      })
                      (λ d g h. tt))
                    λ _.
                      Triple-bind Top _ _ (Triple-commit (λ d h. tt))
                        λ _. Triple-pure _ (λ d g h. tt)

  -- From the archiving of the active version on, an activation and a rollback do the same.
  pub activated-Triple :
      (config new : Configuration) (at : Time) (actor subtype description : String)
      (metadata : Fields)
      → config.status ≢ active
      → new.id ≡ config.id
      → new.name ≡ config.name
      → new.version ≡ config.version
      → new.deleted_at ≡ none
      → (current : Option Configuration) → {B : Type 0} (Q : B → Database → Type 0) (k : Tx B)
      → Triple Good (λ d. In new d.configurations) k Q
      → Triple Good
          (λ d.
            In config d.configurations
            × (current ≡ active_configuration config.name d.configurations))
          (do
            archive_current current config.id at
            save new
            audit_config actor subtype description metadata
            k)
          Q
  activated-Triple config new at actor subtype description metadata idle e n v l current Q k tk =
      Triple-bind (λ _ d. In config d.configurations × NoOtherActive d.configurations config) _ _
        (archive_current-Triple current config at idle)
        λ _.
          Triple-bind (λ _ d. In new d.configurations) _ _
            (save-Triple config new _ _
              (λ d g h. record {
                present = h.0;
                id = e;
                name = n;
                version = v;
                active_alone = λ a. h.1;
                active_live = λ a. l;
              })
              (λ d g h. saved_row d.configurations config new e h.0))
            λ _.
              Triple-bind (λ _ d. In new d.configurations) _ _
                (audit_config-Triple actor subtype description metadata (λ t. In new t)) λ _. tk
