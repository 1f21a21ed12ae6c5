-- ===== src/Tenancy/Orderly.antt =====
-- The progress of provisioning jobs.
use vixa_system_config_be.Base.{
  ℕ, zero, suc, ◌≤◌, ◌*◌, ◌+◌, ◌/◌, String, none, List, [], ◌∷◌, ◌++◌, ◌≡◌, refl, ap, sym, ◌∙◌,
  arith, delete, any, head?, take, drop, length, length-take, ◌↔◌,
}
use vixa_system_config_be.Models.Tenancy.{
  TenantProvisioningJob, complete, provisioning_steps, percent_complete,
}
use vixa_system_config_be.Tenancy.{remaining_steps, advanced}

-- The first `n` of the six steps are done, the next one is current, and all are done only in a
-- job that is complete.
pub record IsAt (n : ℕ) (j : TenantProvisioningJob) : Type 0 where
  pub bound : n ≤ 6
  pub done : j.completed_steps ≡ take n provisioning_steps
  pub next : j.current_step ≡ head? (drop n provisioning_steps)
  pub finished : n ≡ 6 → j.status ≡ complete

module _ {A : Type 0} where
  drop-cons :
      (n : ℕ) (xs : List A) (y : A) (ys : List A)
      → drop n xs ≡ y ∷ ys
      → (suc n ≤ length xs) × (take (suc n) xs ≡ take n xs ++ y ∷ []) × (drop (suc n) xs ≡ ys)
  drop-cons zero [] y ys h = absurd (ground arith)
  drop-cons zero (x ∷ xs) y ys h = ground arith
  drop-cons (suc n) [] y ys h = absurd (ground arith)
  drop-cons (suc n) (x ∷ xs) y ys h =
      let (b, t, d) = drop-cons n xs y ys h in (omega (arith, b), ap (◌∷◌ x) t, d)

abbrev steps_left : ℕ → List String
steps_left n = drop n provisioning_steps

steps_count : length provisioning_steps ≡ 6
unfolding provisioning_steps
steps_count = refl

remaining_at :
    (n : ℕ) → n ≤ 6 → remaining_steps (take n provisioning_steps) ≡ drop n provisioning_steps
unfolding remaining_steps provisioning_steps delete any
remaining_at zero h = refl
remaining_at (suc zero) h = refl
remaining_at (suc (suc zero)) h = refl
remaining_at (suc (suc (suc zero))) h = refl
remaining_at (suc (suc (suc (suc zero)))) h = refl
remaining_at (suc (suc (suc (suc (suc zero))))) h = refl
remaining_at (suc (suc (suc (suc (suc (suc zero)))))) h = refl
remaining_at (suc (suc (suc (suc (suc (suc (suc n))))))) h = absurd (omega (arith, h))

nothing_left : (n : ℕ) (ys : List String) → n ≡ 6 → drop n provisioning_steps ≡ ys → ys ≡ []
unfolding provisioning_steps
nothing_left n ys e h = sym h ∙ ap (λ k. drop k provisioning_steps) e

-- One more step.
pub IsAt-advanced :
    (n : ℕ) (j : TenantProvisioningJob) (s : String) (ss : List String)
    → IsAt n j
    → remaining_steps j.completed_steps ≡ s ∷ ss
    → IsAt (suc n) (advanced s (remaining_steps (j.completed_steps ++ s ∷ [])) j)
unfolding advanced
IsAt-advanced n j s ss at left =
    let here = sym (remaining_at n at.bound) ∙ ap remaining_steps (sym at.done) ∙ left in
    let (b, t, d) = drop-cons n provisioning_steps s ss here in
    let bound : suc n ≤ 6 = omega (arith, b, steps_count) in
    let done : j.completed_steps ++ s ∷ [] ≡ take (suc n) provisioning_steps =
      ap (λ x. x ++ s ∷ []) at.done ∙ sym t in
    let still = ap remaining_steps done ∙ remaining_at (suc n) bound in
    record {
      bound = bound;
      done = done;
      next = ap head? still;
      finished = λ e. rw (still, nothing_left (suc n) _ e refl) refl;
    }

-- A job with nothing done, whose first step is current.
pub IsAt-fresh :
    (j : TenantProvisioningJob)
    → j.completed_steps ≡ []
    → j.current_step ≡ head? provisioning_steps
    → IsAt 0 j
IsAt-fresh j done next = record {
  bound = omega arith;
  done = done;
  next = next;
  finished = λ e. absurd (omega (arith, e));
}

done_count : (n : ℕ) → n ≤ 6 → length (take n provisioning_steps) ≡ n
done_count n h = omega (arith, h, length-take n provisioning_steps, steps_count)

percent_at : (n : ℕ) (j : TenantProvisioningJob) → IsAt n j → percent_complete j ≡ (n * 100 + 3) / 6
unfolding percent_complete
percent_at n j at =
    ap (λ xs. (length xs * 100 + 3) / 6) at.done
    ∙ ap (λ k. (k * 100 + 3) / 6) (done_count n at.bound)

nothing_next : (n : ℕ) → n ≤ 6 → head? (drop n provisioning_steps) ≡ none → n ≡ 6
unfolding provisioning_steps
nothing_next zero h e = absurd (ground arith)
nothing_next (suc zero) h e = absurd (ground arith)
nothing_next (suc (suc zero)) h e = absurd (ground arith)
nothing_next (suc (suc (suc zero))) h e = absurd (ground arith)
nothing_next (suc (suc (suc (suc zero)))) h e = absurd (ground arith)
nothing_next (suc (suc (suc (suc (suc zero))))) h e = absurd (ground arith)
nothing_next (suc (suc (suc (suc (suc (suc n)))))) h e = omega (arith, h)

-- A job that is some steps along is at most at 100 percent, and there exactly after the last step.
pub IsAt-percent :
    (n : ℕ) (j : TenantProvisioningJob)
    → IsAt n j
    → (percent_complete j ≤ 100) × ((percent_complete j ≡ 100) ↔ (j.current_step ≡ none))
IsAt-percent n j at =
    let bound = at.bound in
    let percent = percent_at n j at in
    (
      omega (arith, bound, percent),
      (
        (λ e.
            let last : n ≡ 6 = omega (arith, bound, percent, e) in
            at.next ∙ ap head? (nothing_left n _ last refl)),
        (λ e. let last = nothing_next n bound (sym at.next ∙ e) in omega (arith, percent, last)),
      ),
    )

drop-left :
    {A : Type 0} (n : ℕ) (xs : List A)
    → suc n ≤ length xs
    → (y : A) × (ys : List A) × (drop n xs ≡ y ∷ ys)
drop-left zero [] h = absurd (omega (arith, h))
drop-left zero (x ∷ xs) h = (x, xs, refl)
drop-left (suc n) [] h = absurd (omega (arith, h))
drop-left (suc n) (x ∷ xs) h = drop-left n xs (omega (arith, h))

-- What is left of a job that is some steps along.
pub IsAt-left :
    (n k : ℕ) (j : TenantProvisioningJob)
    → n + suc k ≡ 6
    → IsAt n j
    → (step : String) × (steps : List String) × (remaining_steps j.completed_steps ≡ step ∷ steps)
IsAt-left n k j h at =
    let (y, ys, e) = drop-left n provisioning_steps (omega (arith, h, steps_count)) in
    (y, ys, ap remaining_steps at.done ∙ remaining_at n at.bound ∙ e)

pub IsAt-end :
    (n : ℕ) (j : TenantProvisioningJob) → n ≡ 6 → IsAt n j → remaining_steps j.completed_steps ≡ []
IsAt-end n j e at = ap remaining_steps at.done ∙ remaining_at n at.bound ∙ nothing_left n _ e refl
