-- ===== src/Auth/Spent.antt =====
-- A refresh token is used once: what is revoked stays revoked.
use vixa_system_config_be.Base.{
  String, none, Bool, false, [], ◌∷◌, ◌++◌, ◌≡◌, ◌≢◌, refl, inl, inr, arith, str_eq, eq_iff, ◌==◌,
  ◌||◌, any, update, any_none, In, In-update, update-In, In-append, In-append_left, if◌then◌else◌,
}
use vixa_system_config_be.Runtime.{Runtime, Key, Time}
use vixa_system_config_be.Models.User.{RefreshToken, PasswordResetToken}
use vixa_system_config_be.Database.{Database}
use vixa_system_config_be.Auth.{
  add_refresh_token, add_password_reset_token, set_revoked_at, set_used_at, set_hashed_password,
  revoke_all_user_refresh_tokens,
}
use vixa_system_config_be.Auth.Keeps.{KeepsWrites}
use vixa_system_config_be.Tx.Keeps.{Keeps, Keeps-modify, Keeps-add_unless, Keeps-bind, keeps_rules}

-- The table holds the token with this hash, revoked.
pub record IsSpent (h : String) (d : Database) : Type 0 where
  pub present : (t : RefreshToken) × In t d.refresh_tokens × (t.token_hash ≡ h)
  pub revoked : (t : RefreshToken) → In t d.refresh_tokens → t.token_hash ≡ h → t.revoked_at ≢ none

module _ (h : String) where
  -- Writes that keep the hashes and revoke what they touch.
  IsSpent-update :
      (p : RefreshToken → Bool) (f : RefreshToken → RefreshToken)
      → ((r : RefreshToken) → (f r).token_hash ≡ r.token_hash)
      → ((r : RefreshToken) → (f r).revoked_at ≢ none)
      → (d : Database) → IsSpent h d
      → IsSpent h (record d { refresh_tokens = update p f d.refresh_tokens })
  IsSpent-update p f keeps revokes d s = record {
    present =
        let (t, i, e) = s.present in
        (if p t then f t else t, update-In p f d.refresh_tokens t i, ground (arith, keeps t));
    revoked = λ t i e.
        let (q, j, e') = In-update p f d.refresh_tokens t i in
        rw e' (ground (arith, keeps q, revokes q, s.revoked q j));
  }

  set_revoked_at-Keeps : (id : Key) (at : Time) → Keeps (IsSpent h) (set_revoked_at id at)
  unfolding set_revoked_at
  set_revoked_at-Keeps id at = Keeps-modify _ (IsSpent-update _ _ (λ r. refl) (λ r e. cc))

  set_used_at-Keeps : (id : Key) (at : Time) → Keeps (IsSpent h) (set_used_at id at)
  unfolding set_used_at
  set_used_at-Keeps id at =
      Keeps-modify _ (λ d s. record { present = s.present; revoked = s.revoked })

  set_hashed_password-Keeps :
      (id : Key) (hashed : String) → Keeps (IsSpent h) (set_hashed_password id hashed)
  unfolding set_hashed_password
  set_hashed_password-Keeps id hashed =
      Keeps-modify _ (λ d s. record { present = s.present; revoked = s.revoked })

  IsSpent-snoc :
      (t : RefreshToken) (d : Database)
      → any
          (λ (r : RefreshToken). r.id == t.id || str_eq r.token_hash t.token_hash)
          d.refresh_tokens
        ≡ false
      → IsSpent h d
      → IsSpent h (record d { refresh_tokens = d.refresh_tokens ++ t ∷ [] })
  IsSpent-snoc t d free s = record {
    present = let (q, i, e) = s.present in (q, In-append_left q d.refresh_tokens (t ∷ []) i, e);
    revoked = λ q i e. elim (In-append q d.refresh_tokens (t ∷ []) i) [
      | inl old ↦ s.revoked q old e
      | inr (inl new) ↦
          let (r, j, e') = s.present in
          let other = any_none _ d.refresh_tokens r free j in
          absurd (ground (arith, eq_iff r.token_hash t.token_hash))
      | inr (inr nowhere) ↦ absurd nowhere
    ];
  }

  add_refresh_token-Keeps : (t : RefreshToken) → Keeps (IsSpent h) (add_refresh_token t)
  unfolding add_refresh_token
  add_refresh_token-Keeps t = Keeps-add_unless _ _ _ (IsSpent-snoc t)

  add_password_reset_token-Keeps :
      (t : PasswordResetToken) → Keeps (IsSpent h) (add_password_reset_token t)
  unfolding add_password_reset_token
  add_password_reset_token-Keeps t =
      Keeps-add_unless _ _ _ (λ d _ s. record { present = s.present; revoked = s.revoked })

module _ ⦃rt : Runtime⦄ (h : String) where
  revoke_all-Keeps : (id : Key) → Keeps (IsSpent h) (revoke_all_user_refresh_tokens id)
  unfolding revoke_all_user_refresh_tokens
  revoke_all-Keeps id =
      Keeps-bind _ _ (search keeps_rules)
        λ t. Keeps-modify _ (IsSpent-update h _ _ (λ r. refl) (λ r e. cc))

  instance pub IsSpent-KeepsWrites : KeepsWrites rt (IsSpent h)
  IsSpent-KeepsWrites = record {
    revoking = set_revoked_at-Keeps h;
    using = set_used_at-Keeps h;
    rekeying = set_hashed_password-Keeps h;
    issuing = add_refresh_token-Keeps h;
    offering = add_password_reset_token-Keeps h;
    revoking_all = revoke_all-Keeps;
  }
