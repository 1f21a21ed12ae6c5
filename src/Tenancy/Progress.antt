-- ===== src/Tenancy/Progress.antt =====
-- Provisioning comes to its end.
use vixa_system_config_be.Base.{
  ℕ, zero, suc, ◌+◌, ◌≤◌, String, none, some, Bool, true, List, [], ◌∷◌, ◌++◌, ◌≡◌, refl, ap, sym,
  ◌∙◌, subst, ◌↔◌, arith, ◌==◌, ◌&&◌, find, update, In, find-update,
}
use vixa_system_config_be.Runtime.{Runtime, Key}
use vixa_system_config_be.Models.Tenancy.{
  Tenant, TenantProvisioningJob, active, complete, provisioning_steps, percent_complete,
}
use vixa_system_config_be.Database.{Database}
use vixa_system_config_be.Tx.{World, Session, is_ok, request, open_session, ◌>>=◌}
use vixa_system_config_be.Tenancy.Tables.{find_job, write_job, write_tenant}
use vixa_system_config_be.Tenancy.{
  remaining_steps, advanced, activate_if_done, advance_step, advance_provisioning_job,
  TenancyRequest, manage_all,
}
use vixa_system_config_be.Tenancy.Orderly.{IsAt, IsAt-advanced, IsAt-percent, IsAt-left, IsAt-end}
use vixa_system_config_be.Tenancy.Sound.{IsSound}
use vixa_system_config_be.Tenancy.Invariant.{manage_all-IsSound}

-- several requests to advance a job: whether each has returned, and the state after them
unfoldable pub advance_times : ℕ → Key → World → Bool × World
advance_times zero id w = (true, w)
advance_times (suc k) id w =
    let (r, w') = request (advance_provisioning_job id) w in
    let (rest, w'') = advance_times k id w' in (is_ok r && rest, w'')

abbrev jobs_after :
    TenantProvisioningJob
    → String
    → List String
    → List TenantProvisioningJob
    → List TenantProvisioningJob
jobs_after job step still t =
    update (λ (j : TenantProvisioningJob). j.id == job.id) (advanced step still) t

abbrev activated : Key → List Tenant → List Tenant
activated id t = update (λ (x : Tenant). x.id == id) (λ x. record x { status = active }) t

advanced_found :
    (job : TenantProvisioningJob) (step : String) (still : List String)
    (t : List TenantProvisioningJob)
    → find (λ (j : TenantProvisioningJob). j.id == job.id) t ≡ some job
    → find (λ (j : TenantProvisioningJob). j.id == job.id) (jobs_after job step still t)
      ≡ some (advanced step still job)
unfolding advanced
advanced_found job step still t h = find-update _ _ t job h (λ q e. e)

-- a request on a job with a step left, which is not the last or is
advance_runs :
    (s : Session) (job : TenantProvisioningJob) (step : String) (steps : List String) (x : String)
    (xs : List String)
    → find_job job.id s.db ≡ some job
    → remaining_steps job.completed_steps ≡ step ∷ steps
    → remaining_steps (job.completed_steps ++ step ∷ []) ≡ x ∷ xs
    → (is_ok (advance_provisioning_job job.id s).0 ≡ true)
      × ((advance_provisioning_job job.id s).1.saved
          ≡ record s.db { provisioning_jobs = jobs_after job step (x ∷ xs) s.db.provisioning_jobs })
unfolding advance_provisioning_job advance_step activate_if_done write_job ◌>>=◌
advance_runs s job step steps x xs found left still =
    let again = advanced_found job step (x ∷ xs) s.db.provisioning_jobs found in ground arith

advance_finishes :
    (s : Session) (job : TenantProvisioningJob) (step : String) (steps : List String)
    → find_job job.id s.db ≡ some job
    → remaining_steps job.completed_steps ≡ step ∷ steps
    → remaining_steps (job.completed_steps ++ step ∷ []) ≡ []
    → (is_ok (advance_provisioning_job job.id s).0 ≡ true)
      × ((advance_provisioning_job job.id s).1.saved ≡ record s.db {
        provisioning_jobs = jobs_after job step [] s.db.provisioning_jobs;
        tenants = activated job.tenant_id s.db.tenants;
      })
unfolding advance_provisioning_job advance_step activate_if_done write_job write_tenant ◌>>=◌
advance_finishes s job step steps found left still =
    let again = advanced_found job step [] s.db.provisioning_jobs found in ground arith

-- The job is found with every step done, the tenants with its key are active and no other has
-- changed.
pub record IsProvisioned (job : TenantProvisioningJob) (old new : Database) : Type 0 where
  pub after : TenantProvisioningJob
  pub found : find_job job.id new ≡ some after
  pub all_done : after.completed_steps ≡ provisioning_steps
  pub finished : after.status ≡ complete
  pub percent : percent_complete after ≡ 100
  pub tenants : new.tenants ≡ activated job.tenant_id old.tenants

IsProvisioned-at :
    (job after : TenantProvisioningJob) (old new : Database)
    → find_job job.id new ≡ some after
    → new.tenants ≡ activated job.tenant_id old.tenants
    → IsAt 6 after
    → IsProvisioned job old new
unfolding provisioning_steps
IsProvisioned-at job after old new found tenants at = record {
  after = after;
  found = found;
  all_done = at.done;
  finished = at.finished refl;
  percent = (IsAt-percent 6 after at).1.1 at.next;
  tenants = tenants;
}

-- the state after one request
abbrev stepped : TenantProvisioningJob → World → World
stepped job w = (request (advance_provisioning_job job.id) w).1

last_step :
    (n : ℕ) (job : TenantProvisioningJob) (w : World)
    → n + 1 ≡ 6
    → IsAt n job
    → find_job job.id w.database ≡ some job
    → (is_ok (request (advance_provisioning_job job.id) w).0 ≡ true)
      × IsProvisioned job w.database (stepped job w).database
unfolding request advanced
last_step n job w h at found =
    let (step, steps, left) = IsAt-left n 0 job h at in
    let next = IsAt-advanced n job step steps at left in
    let six : suc n ≡ 6 = omega (arith, h) in
    let still = IsAt-end (suc n) _ six next in
    let (fine, saved) = advance_finishes (open_session w) job step steps found left still in
    (
      fine,
      IsProvisioned-at job (advanced step [] job) w.database _
          (ap (find_job job.id) saved
            ∙ advanced_found job step [] w.database.provisioning_jobs found)
          (ap (λ (d : Database). d.tenants) saved)
          (subst (λ l. IsAt 6 (advanced step l job)) still
            (subst
              (λ m. IsAt m (advanced step (remaining_steps (job.completed_steps ++ step ∷ [])) job))
              six next)),
    )

-- A step before the last.
record IsStepped (n : ℕ) (job : TenantProvisioningJob) (w : World) : Type 0 where
  after : TenantProvisioningJob
  same_id : after.id ≡ job.id
  same_tenant : after.tenant_id ≡ job.tenant_id
  further : IsAt (suc n) after
  fine : is_ok (request (advance_provisioning_job job.id) w).0 ≡ true
  found : find_job job.id (stepped job w).database ≡ some after
  tenants : (stepped job w).database.tenants ≡ w.database.tenants

a_step :
    (n k : ℕ) (job : TenantProvisioningJob) (w : World)
    → n + suc (suc k) ≡ 6
    → IsAt n job
    → find_job job.id w.database ≡ some job
    → IsStepped n job w
unfolding request advanced
a_step n k job w h at found =
    let (step, steps, left) = IsAt-left n (suc k) job h at in
    let next = IsAt-advanced n job step steps at left in
    let (x, xs, still) = IsAt-left (suc n) k _ (omega (arith, h)) next in
    let (fine, saved) = advance_runs (open_session w) job step steps x xs found left still in
    record {
      after = advanced step (x ∷ xs) job;
      same_id = refl;
      same_tenant = refl;
      further = subst (λ l. IsAt (suc n) (advanced step l job)) still next;
      fine = fine;
      found =
          ap (find_job job.id) saved
          ∙ advanced_found job step (x ∷ xs) w.database.provisioning_jobs found;
      tenants = ap (λ (d : Database). d.tenants) saved;
    }

-- What holds of the rest of the way holds of the whole.
IsProvisioned-before :
    (job after : TenantProvisioningJob) (old mid new : Database)
    → after.id ≡ job.id
    → after.tenant_id ≡ job.tenant_id
    → mid.tenants ≡ old.tenants
    → IsProvisioned after mid new
    → IsProvisioned job old new
IsProvisioned-before job after old mid new id tenant same p = record {
  after = p.after;
  found = ap (λ k. find_job k new) (sym id) ∙ p.found;
  all_done = p.all_done;
  finished = p.finished;
  percent = p.percent;
  tenants =
      p.tenants ∙ ap (λ k. activated k mid.tenants) tenant ∙ ap (activated job.tenant_id) same;
}

-- From a job that is `n` steps along, as many requests to advance it as there are steps left all
-- return; then the job is complete, at 100 percent, and its tenant is active.
pub provisioning_completes :
    (k n : ℕ) (job : TenantProvisioningJob) (w : World)
    → n + suc k ≡ 6
    → IsAt n job
    → find_job job.id w.database ≡ some job
    → ((advance_times (suc k) job.id w).0 ≡ true)
      × IsProvisioned job w.database (advance_times (suc k) job.id w).1.database
unfolding advance_times
provisioning_completes zero n job w h at found =
    let (fine, done) = last_step n job w h at found in (rw fine refl, done)
provisioning_completes (suc k) n job w h at found =
    let s = a_step n k job w h at found in
    let (fine, done) =
      provisioning_completes k (suc n) s.after (stepped job w) (omega (arith, h)) s.further
        (ap (λ i. find_job i (stepped job w).database) s.same_id ∙ s.found) in
    let whole =
      IsProvisioned-before job s.after w.database (stepped job w).database
        (advance_times (suc k) s.after.id (stepped job w)).1.database s.same_id s.same_tenant
        s.tenants done in
    (
      rw s.fine (ap (λ i. (advance_times (suc k) i (stepped job w)).0) (sym s.same_id) ∙ fine),
      subst (λ i. IsProvisioned job w.database (advance_times (suc k) i (stepped job w)).1.database)
          s.same_id whole,
    )

-- In sound tables, whatever requests on tenants have run, a stored job is at most at 100 percent,
-- and there exactly when no step is current.
pub percent_in_bounds :
    ⦃rt : Runtime⦄ (os : List TenancyRequest) (w : World) (j : TenantProvisioningJob)
    → IsSound w.database
    → In j (manage_all w os).database.provisioning_jobs
    → (percent_complete j ≤ 100) × ((percent_complete j ≡ 100) ↔ (j.current_step ≡ none))
percent_in_bounds os w j s i =
    let (n, at) = (manage_all-IsSound os w s).progress j i in IsAt-percent n j at
