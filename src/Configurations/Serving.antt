-- ===== src/Configurations/Serving.antt =====
-- Every request keeps the table of configuration documents consistent.
use vixa_system_config_be.Base.{String, none, some, List, [], ◌∷◌, ◌≡◌, ◌≢◌, refl, In, ◌⧺◌, str}
use vixa_system_config_be.Runtime.{Runtime, Key}
use vixa_system_config_be.Models.Config.{Configuration, active}
use vixa_system_config_be.Database.{Database}
use vixa_system_config_be.Configurations.{
  ConfigurationCreate, ConfigurationRead, to_read, draft_of, active_configuration,
  activate_configuration, rollback_configuration,
}
use vixa_system_config_be.Configurations.Import.{import_item, import_items, import_configurations}
use vixa_system_config_be.Configurations.Requests.{
  Operation, create, successor, delete, activate, archive, rollback, import_all, perform, serve,
}
use vixa_system_config_be.Configurations.Consistency.{IsConsistent}
use vixa_system_config_be.Configurations.Invariant.{Good, Live, get_orm-Triple, add-Triple}
use vixa_system_config_be.Tx.{World, request, open_session}
use vixa_system_config_be.Tx.Rules.{
  Triple, Triple-bind, Triple-pure, Triple-raise_if, Triple-gets, Triple-commit, Triple-now,
  Triple-uuid4, Triple-discard, Triple-weaken, Triple-given,
}
use vixa_system_config_be.Configurations.Keeps.{
  Top, not_active, add-Top, create-Triple, successor-Triple, delete-Triple, archive-Triple,
  activated-Triple,
}

module _ ⦃rt : Runtime⦄ where
  -- The facts of a live row that is not active, apart from the tables.
  abbrev Idle : Configuration → Type 0
  Idle c = (c.status ≢ active) × (c.deleted_at ≡ none)

  -- What holds after an activation: the document is there as it is returned, active.
  abbrev pub Activated : Key → ConfigurationRead → Database → Type 0
  Activated id read d =
      (row : Configuration) × In row d.configurations
      × (row.id ≡ id)
      × (row.status ≡ active)
      × (read ≡ to_read row)

  activate-Triple :
      (id : Key) (actor : String)
      → Triple Good (λ _. Unit) (activate_configuration id actor) (Activated id)
  unfolding activate_configuration
  activate-Triple id actor =
      Triple-bind (λ c d. (c.id ≡ id) × Live c d) _ _
        (Triple-weaken (get_orm-Triple id) (λ d h. tt) (λ a d h. (h.1, h.0)))
        λ c. Triple-given _ λ named.
          Triple-bind (λ _ d. Idle c × In c d.configurations) _ _
            (Triple-raise_if _ _ (λ d h e. ((not_active c e, h.1), h.0)))
            λ _.
              Triple-bind (λ _ d. Idle c × In c d.configurations) _ _ (Triple-now (λ t d h. h))
                λ t.
                  Triple-bind
                    (λ current d.
                      Idle c
                      × (In c d.configurations
                          × (current ≡ active_configuration c.name d.configurations)))
                    _ _ (Triple-gets _ (λ d h. (h.0, (h.1, refl))))
                    λ current. Triple-given _ λ idle.
                      let new = record c {
                        status = active;
                        activated_at = some t;
                        archived_at = none;
                      } in
                      activated-Triple c new t _ _ _ _ idle.0 refl refl refl idle.1 current
                        (Activated id) _
                        (Triple-bind (λ _ d. In new d.configurations) _ _ (Triple-commit (λ d h. h))
                          λ _. Triple-pure _ (λ d g h. (new, h, named, refl, refl)))

  rollback-Triple :
      (id : Key) (actor : String) → Triple Good (λ _. Unit) (rollback_configuration id actor) Top
  unfolding rollback_configuration
  rollback-Triple id actor =
      Triple-bind Top _ _ (Triple-weaken (get_orm-Triple id) (λ d h. tt) (λ a d h. tt)) λ base.
        Triple-bind Top _ _ (Triple-now (λ t d h. tt)) λ t.
          Triple-bind Top _ _ (Triple-gets _ (λ d h. tt)) λ version.
            Triple-bind Top _ _ (Triple-uuid4 (λ t d h. tt)) λ new_id.
              Triple-bind
                (λ _ d.
                  In
                    (draft_of new_id base.name version base.payload base.sensitive_keys
                      base.checksum
                      (some ("Rollback of '" ⧺ base.name ⧺ "' to v" ⧺ str base.version)) actor)
                    d.configurations)
                _ _ (add-Triple _ (λ e. cc))
                λ _.
                  Triple-bind
                    (λ current d.
                      In
                        (draft_of new_id base.name version base.payload base.sensitive_keys
                          base.checksum
                          (some ("Rollback of '" ⧺ base.name ⧺ "' to v" ⧺ str base.version)) actor)
                        d.configurations
                      × (current ≡ active_configuration base.name d.configurations))
                    _ _ (Triple-gets _ (λ d h. (h, refl)))
                    λ current.
                      activated-Triple _ _ t _ _ _ _ (λ e. cc) refl refl refl refl current Top _
                        (Triple-bind Top _ _ (Triple-commit (λ d h. tt))
                          λ _. Triple-pure _ (λ d g h. tt))

  import_item-Triple :
      (errors : List String) (item : ConfigurationCreate) (by : String)
      → Triple Good (λ _. Unit) (import_item errors item by) Top
  unfolding import_item
  import_item-Triple [] item by = Triple-bind Top _ _ (Triple-gets _ (λ d h. tt)) λ version.
      Triple-bind Top _ _ (Triple-uuid4 (λ t d h. tt))
        λ id. Triple-bind Top _ _ (add-Top _ _ _ _ _ _ _ _ _) λ _. Triple-pure _ (λ d g h. tt)
  import_item-Triple (e ∷ es) item by = Triple-pure _ (λ d g h. tt)

  import_items-Triple :
      (items : List ConfigurationCreate) (by : String)
      → Triple Good (λ _. Unit) (import_items items by) Top
  unfolding import_items
  import_items-Triple [] by = Triple-pure _ (λ d g h. tt)
  import_items-Triple (item ∷ items) by =
      Triple-bind Top _ _ (import_item-Triple _ item by) λ row.
        Triple-bind Top _ _ (import_items-Triple items by) λ rows. Triple-pure _ (λ d g h. tt)

  import-Triple :
      (items : List ConfigurationCreate) (by : String)
      → Triple Good (λ _. Unit) (import_configurations items by) Top
  unfolding import_configurations
  import-Triple items by =
      Triple-bind Top _ _ (import_items-Triple items by)
        λ rows. Triple-bind Top _ _ (Triple-commit (λ d h. tt)) λ _. Triple-pure _ (λ d g h. tt)

  perform-Triple : (o : Operation) → Triple Good (λ _. Unit) (perform o) Top
  unfolding perform
  perform-Triple (create p by) = Triple-discard _ (create-Triple p by)
  perform-Triple (successor id p by) = Triple-discard _ (successor-Triple id p by)
  perform-Triple (delete id) = Triple-discard _ (delete-Triple id)
  perform-Triple (activate id actor) = Triple-discard _ (activate-Triple id actor)
  perform-Triple (archive id actor) = Triple-discard _ (archive-Triple id actor)
  perform-Triple (rollback id actor) = Triple-discard _ (rollback-Triple id actor)
  perform-Triple (import_all items by) = Triple-discard _ (import-Triple items by)

  -- From a consistent table, any sequence of requests (creating, succeeding, deleting, activating,
  -- archiving, rolling back and importing documents, each succeeding or failing) leaves a
  -- consistent table: keys and (name, version) are unique, at most one version of a name is
  -- active, and no active version is deleted.
  pub serve-IsConsistent :
      (os : List Operation) (w : World)
      → IsConsistent w.database.configurations
      → IsConsistent (serve w os).database.configurations
  unfolding serve request
  serve-IsConsistent [] w h = h
  serve-IsConsistent (o ∷ os) w h =
      serve-IsConsistent os (request (perform o) w).1
        ((perform-Triple o).run (open_session w) h h tt).1
