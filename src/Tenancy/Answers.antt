-- ===== src/Tenancy/Answers.antt =====
-- What the reads over several tables answer.
use vixa_system_config_be.Base.{
  ℕ, zero, suc, ◌-◌, Option, none, some, Bool, true, false, List, [], ◌∷◌, ◌≡◌, refl, ap, sym, ◌∙◌,
  inl, inr, ◌⊎◌, arith, ◌==◌, ◌&&◌, not, ltb, leb, str_eq, count, any, find-any, any-find,
  find-none-any, Option-cases, take, order_desc, In, In-sort_by, if◌then◌else◌, Bool-cases, subst,
}
use vixa_system_config_be.Runtime.{Runtime, Key, Time}
use vixa_system_config_be.Models.Audit.{AuditLogEntry}
use vixa_system_config_be.Models.Tenancy.{Tenant, TenantBackupSnapshot, is_pending_snapshot}
use vixa_system_config_be.Database.{Database}
use vixa_system_config_be.Tx.{Tx, World, Session, ok, is_ok, request, open_session, ◌>>=◌}
use vixa_system_config_be.Tx.Answers.{
  Answers, Answers-pure, Answers-now, Answers-bind, Answers-gets, Answers-or_raise,
}
use vixa_system_config_be.Tenancy.Tables.{get_tenant, find_tenant, is_key}
use vixa_system_config_be.Tenancy.Cascade.{IsWithout, without_tenant-IsWithout}
use vixa_system_config_be.Tenancy.Reads.{stale_snapshot_after, effective_snapshot_status}
use vixa_system_config_be.Tenancy.Overview.{
  read_each, tenant_of, validation_to_read, snapshot_to_read, get_tenancy_overview,
  get_tenant_usage, TenantUsageSummary, is_current_snapshot,
}
use vixa_system_config_be.Tenancy.{delete_tenant, TenancyRequest, manage_all}
use vixa_system_config_be.Tenancy.Sound.{HasTenant, IsSound}
use vixa_system_config_be.Tenancy.Invariant.{manage_all-IsSound}

In-take : {A : Type 0} (n : ℕ) (xs : List A) (r : A) → In r (take n xs) → In r xs
In-take zero xs r h = absurd h
In-take (suc n) [] r h = absurd h
In-take (suc n) (x ∷ xs) r (inl e) = inl e
In-take (suc n) (x ∷ xs) r (inr h) = inr (In-take n xs r h)

read_each-Answers :
    {A B : Type 0} (d : Database) (read : A → Tx B) (xs : List A)
    → ((x : A) → In x xs → Answers d (read x))
    → Answers d (read_each read xs)
unfolding read_each
read_each-Answers d read [] h = Answers-pure []
read_each-Answers d read (x ∷ xs) h =
    Answers-bind _ _ (h x (inl refl))
      λ y. Answers-bind _ _ (read_each-Answers d read xs (λ z i. h z (inr i))) λ ys. Answers-pure _

tenant_of-Answers : (d : Database) (id : Key) → HasTenant id d → Answers d (tenant_of id)
unfolding tenant_of
tenant_of-Answers d id h =
    let (t, e) = find-any _ d.tenants h in Answers-gets _ _ (rw e (Answers-or_raise t _))

said : (b : Bool) → str_eq (if b then "stale" else "current") "current" ≡ not b
said true = refl
said false = refl

-- The two spellings of the staleness rule.
same_rule :
    (pending : Bool) (taken_at : Option Time) (at : Time)
    → (not pending
        && elim taken_at [ none ↦ true | some taken ↦ leb (at - stale_snapshot_after) taken ])
      ≡ str_eq
          (if pending then "pending" else elim taken_at [
            | none ↦ "current"
            | some taken ↦ if ltb stale_snapshot_after (at - taken) then "stale" else "current"
          ])
          "current"
same_rule true taken_at at = refl
same_rule false none at = refl
same_rule false (some taken) at =
    let window : leb (at - stale_snapshot_after) taken
        ≡ not (ltb stale_snapshot_after (at - taken)) =
      ground arith in
    window ∙ sym (said (ltb stale_snapshot_after (at - taken)))

module _ ⦃rt : Runtime⦄ where
  overview-Answers : (d : Database) → IsSound d → Answers d get_tenancy_overview
  unfolding get_tenancy_overview validation_to_read snapshot_to_read order_desc
  overview-Answers d s = Answers-bind _ _ Answers-now λ at. Answers-gets _ _ (
      Answers-gets _ _ (
        Answers-gets _ _ (
          Answers-gets _ _ (
            Answers-gets _ _ (
              Answers-bind _ _
                (read_each-Answers d _ _ (λ v i.
                  Answers-bind _ _
                    (tenant_of-Answers d v.tenant_id (
                      s.validation_tenant v
                        (In-sort_by _ d.schema_validations v (In-take 20 _ v i))))
                    λ t. Answers-pure _))
                λ vs.
                  Answers-bind _ _
                    (read_each-Answers d _ _ (λ x i.
                      Answers-bind _ _ (tenant_of-Answers d x.tenant_id (s.snapshot_tenant x i))
                        λ t. Answers-pure _))
                    λ bs. Answers-pure _)))))

  -- From sound tables, whatever requests on tenants have run, the tenancy overview answers: no row
  -- that it joins with its tenant lacks it.
  pub overview_answers :
      (os : List TenancyRequest) (w : World)
      → IsSound w.database
      → is_ok (request get_tenancy_overview (manage_all w os)).0 ≡ true
  unfolding request
  overview_answers os w s =
      let w' = manage_all w os in
      ((overview-Answers w'.database (manage_all-IsSound os w s)).run (open_session w') refl).0

  -- what the overview says of a snapshot
  abbrev pub is_said_current : Key → Time → TenantBackupSnapshot → Bool
  is_said_current id at s = s.tenant_id == id && str_eq (effective_snapshot_status s at) "current"

  same_currency :
      (id : Key) (at : Time) (s : TenantBackupSnapshot)
      → is_current_snapshot id (at - stale_snapshot_after) s ≡ is_said_current id at s
  unfolding is_current_snapshot effective_snapshot_status
  same_currency id at s =
      ap (λ b. s.tenant_id == id && b) (same_rule (is_pending_snapshot s.status) s.taken_at at)

  same_count :
      (id : Key) (at : Time) (t : List TenantBackupSnapshot)
      → count (is_current_snapshot id (at - stale_snapshot_after)) t
        ≡ count (is_said_current id at) t
  unfolding count
  same_count id at [] = refl
  same_count id at (s ∷ ss) = rw (same_currency id at s, same_count id at ss) refl

  counted :
      (id : Key) (s : Session) (u : TenantUsageSummary)
      → (get_tenant_usage id s).0 ≡ ok u
      → u.current_backup_snapshots
        ≡ count
            (is_current_snapshot id (rt.now s.calls - stale_snapshot_after))
            s.db.backup_snapshots
  unfolding get_tenant_usage get_tenant ◌>>=◌
  counted id s u h = elim (Option-cases (find_tenant id s.db)) [
    | inl missing ↦ absurd (ground arith)
    | inr (t, found) ↦ ground arith
  ]

  -- The usage of a tenant counts as current exactly the snapshots of it that the overview would call
  -- current at the same time.
  pub usage_counts_current :
      (id : Key) (w : World) (u : TenantUsageSummary)
      → (request (get_tenant_usage id) w).0 ≡ ok u
      → u.current_backup_snapshots
        ≡ count (is_said_current id (rt.now w.calls)) w.database.backup_snapshots
  unfolding request
  usage_counts_current id w u h =
      counted id (open_session w) u h ∙ same_count id (rt.now w.calls) w.database.backup_snapshots

  -- A deletion succeeds exactly for a stored tenant that no entry of the audit log names, and then
  -- takes the tenant away with its members, jobs, validations and snapshots, leaves the breach alerts
  -- and the anomalies with no tenant where they named it, and changes no other row; otherwise it
  -- changes nothing.
  pub delete_tenant_outcome :
      (id : Key) (w : World)
      → let named = any (λ (e : AuditLogEntry). is_key id e.tenant_id) w.database.audit_log in
        let deletable = any (λ (t : Tenant). t.id == id) w.database.tenants && not named in
        let after = (request (delete_tenant id) w).1.database in
        let answered = is_ok (request (delete_tenant id) w).0 in
        ((deletable ≡ true) × (answered ≡ true) × IsWithout id w.database after)
        ⊎ ((deletable ≡ false) × (answered ≡ false) × (after ≡ w.database))
  unfolding request delete_tenant get_tenant ◌>>=◌
  delete_tenant_outcome id w = elim (Option-cases (find_tenant id w.database)) [
    | inl missing ↦
        let a = find-none-any _ w.database.tenants missing in
        inr (ground arith, ground arith, ground arith)
    | inr (t, found) ↦
        let a = any-find _ w.database.tenants t found in
        let gone = without_tenant-IsWithout id w.database in
        elim (Bool-cases
          (any (λ (e : AuditLogEntry). is_key id e.tenant_id) w.database.audit_log)) [
            | inl named ↦ inr (ground arith, ground arith, ground arith)
            | inr free ↦
                inl
                  (ground arith, ground arith, subst (IsWithout id w.database) (ground arith) gone)
          ]
  ]
