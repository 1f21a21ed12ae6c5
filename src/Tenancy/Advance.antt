-- ===== src/Tenancy/Advance.antt =====
-- Advancing a provisioning job keeps the tables sound.
use vixa_system_config_be.Base.{
  ℕ, suc, String, Option, some, Bool, true, false, List, [], ◌∷◌, ◌++◌, ◌≡◌, refl, sym, ◌∙◌, inl,
  inr, ◌==◌, ==_iff, find, update, In, In-update, any, find-In, any-find, IsPairwise-update,
  pairwise_cases, if◌then◌else◌, Bool-cases,
}
use vixa_system_config_be.Runtime.{Key}
use vixa_system_config_be.Models.Tenancy.{TenantProvisioningJob}
use vixa_system_config_be.Database.{Database}
use vixa_system_config_be.Tx.Keeps.{Keeps, keeps_rules, Triple-kept, Keeps-run}
use vixa_system_config_be.Tx.Rules.{
  Triple, Triple-bind, Triple-pure, Triple-gets, Triple-or_raise, Triple-modify,
}
use vixa_system_config_be.Tenancy.Tables.{write_job, find_job}
use vixa_system_config_be.Tenancy.{
  remaining_steps, advanced, activate_if_done, advance_step, advance_provisioning_job,
}
use vixa_system_config_be.Tenancy.Orderly.{IsAt, IsAt-advanced}
use vixa_system_config_be.Tenancy.Sound.{IsSound, OtherJob, write_tenant-Keeps}

abbrev advanced_job : TenantProvisioningJob → String → TenantProvisioningJob → TenantProvisioningJob
advanced_job job step = advanced step (remaining_steps (job.completed_steps ++ step ∷ []))

-- the job that was read is the only row with its id
same_job :
    (d : Database) (a b : TenantProvisioningJob)
    → IsSound d
    → In a d.provisioning_jobs
    → In b d.provisioning_jobs
    → (a.id == b.id) ≡ true
    → a ≡ b
same_job d a b s i j e = elim (pairwise_cases OtherJob d.provisioning_jobs a b s.job_ids i j) [
  | inl same ↦ same
  | inr (inl apart) ↦ absurd (apart ((==_iff a.id b.id).0 e))
  | inr (inr apart) ↦ absurd (apart (sym ((==_iff a.id b.id).0 e)))
]

advanced_same :
    (job r : TenantProvisioningJob) (step : String) (b : Bool)
    → ((if b then advanced_job job step r else r).id ≡ r.id)
      × ((if b then advanced_job job step r else r).tenant_id ≡ r.tenant_id)
unfolding advanced
advanced_same job r step true = (refl, refl)
advanced_same job r step false = (refl, refl)

advanced_progress :
    (d : Database) (job q : TenantProvisioningJob) (step : String) (steps : List String)
    → In job d.provisioning_jobs
    → In q d.provisioning_jobs
    → remaining_steps job.completed_steps ≡ step ∷ steps
    → IsSound d
    → (n : ℕ) × IsAt n (if q.id == job.id then advanced_job job step q else q)
advanced_progress d job q step steps here i left s = elim (Bool-cases (q.id == job.id)) [
  | inl matches ↦
      let (n, at) = s.progress job here in
      rw (matches, same_job d q job s i here matches)
        (suc n, IsAt-advanced n job step steps at left)
  | inr differs ↦ rw differs (s.progress q i)
]

IsSound-advanced :
    (d : Database) (job : TenantProvisioningJob) (step : String) (steps : List String)
    → In job d.provisioning_jobs
    → remaining_steps job.completed_steps ≡ step ∷ steps
    → IsSound d
    → IsSound (record d {
      provisioning_jobs =
          update
            (λ (j : TenantProvisioningJob). j.id == job.id)
            (advanced_job job step)
            d.provisioning_jobs;
    })
IsSound-advanced d job step steps here left s =
    let p : TenantProvisioningJob → Bool = λ j. j.id == job.id in
    record {
      job_ids =
          IsPairwise-update OtherJob p (advanced_job job step) d.provisioning_jobs s.job_ids
            (λ a b i j other e.
              other
                (sym (advanced_same job a step (p a)).0 ∙ e ∙ (advanced_same job b step (p b)).0));
      progress = λ j i.
          let (q, k, e) = In-update p (advanced_job job step) d.provisioning_jobs j i in
          rw e (advanced_progress d job q step steps here k left s);
      members_apart = s.members_apart;
      job_tenant = λ j i.
          let (q, k, e) = In-update p (advanced_job job step) d.provisioning_jobs j i in
          rw (e, (advanced_same job q step (p q)).1) (s.job_tenant q k);
      member_tenant = s.member_tenant;
      member_user = s.member_user;
      validation_tenant = s.validation_tenant;
      snapshot_tenant = s.snapshot_tenant;
    }

-- What a select has found.
pub found_in :
    {A : Type 0} (p : A → Bool) (t : Database → List A) (o : Option A) (a : A) (d : Database)
    → o ≡ find p (t d)
    → o ≡ some a
    → In a (t d) × (any p (t d) ≡ true)
found_in p t o a d e h = ((find-In p (t d) a (sym e ∙ h)).0, any-find p (t d) a (sym e ∙ h))

activate_if_done-Keeps :
    (still : List String) (id : Key) → Keeps IsSound (activate_if_done still id)
unfolding activate_if_done
activate_if_done-Keeps [] id = write_tenant-Keeps id _ (λ t. refl)
activate_if_done-Keeps (s ∷ ss) id = search keeps_rules

advance_step-Triple :
    (job : TenantProvisioningJob) (left : List String)
    → remaining_steps job.completed_steps ≡ left
    → Triple IsSound (λ d. In job d.provisioning_jobs) (advance_step job left) (λ _ _. Unit)
unfolding advance_step write_job
advance_step-Triple job [] e = Triple-pure job (λ d g p. tt)
advance_step-Triple job (step ∷ steps) e =
    Triple-bind (λ _ _. Unit) _ _
      (Triple-modify _ (λ d g p. (IsSound-advanced d job step steps p e g, tt)))
      λ _. Triple-kept _ (search (keeps_rules, activate_if_done-Keeps) depth 12)

pub advance-Keeps : (id : Key) → Keeps IsSound (advance_provisioning_job id)
unfolding advance_provisioning_job
advance-Keeps id = Keeps-run _ (
    Triple-bind (λ o d. o ≡ find_job id d) _ _ (Triple-gets _ (λ d p. refl))
      λ o.
        Triple-bind (λ job d. In job d.provisioning_jobs) _ _
          (Triple-or_raise o _ (λ job e d p.
            (found_in (λ (j : TenantProvisioningJob). j.id == id) (λ x. x.provisioning_jobs) o job d
              p e).0))
          λ job. advance_step-Triple job _ refl)
