-- ===== src/Auth/Revocation.antt =====
-- What a change and a reset of a password do to the account.
use vixa_system_config_be.Base.{
  inl, inr, Option-cases, Bool-cases, ltb, suc, ℕ, str_eq, String, Option, none, some, true, false,
  List, ◌≡◌, ◌≢◌, refl, subst, arith, ◌==◌, ◌&&◌, ◌||◌, find, update, find-In, In, In-update,
  is_none, is_some,
}
use vixa_system_config_be.Runtime.{Runtime, Key, Time}
use vixa_system_config_be.Models.User.{User, RefreshToken, PasswordResetToken}
use vixa_system_config_be.Database.{Database}
use vixa_system_config_be.Auth.{
  hash_refresh_token, hash_password, set_hashed_password, set_used_at, change_password,
  revoke_all_user_refresh_tokens, reset_password, reset_found, reset_user, active_only, get_user,
}
use vixa_system_config_be.Tx.{Session, ok, ◌>>=◌, World, request, open_session}

-- The account has this password hash and no refresh token of it can be exchanged.
pub record IsRekeyed (user_id : Key) (hashed : String) (d : Database) : Type 0 where
  pub password : (u : User) → In u d.users → u.id ≡ user_id → u.hashed_password ≡ hashed
  pub revoked :
      (t : RefreshToken) → In t d.refresh_tokens → t.user_id ≡ user_id → t.revoked_at ≢ none

abbrev rekey : Key → String → Time → Database → Database
rekey id hashed at d = record d {
  users = update (λ (u : User). u.id == id) (λ u. record u { hashed_password = hashed }) d.users;
  refresh_tokens =
      update (λ (r : RefreshToken). r.user_id == id && is_none r.revoked_at)
        (λ r. record r { revoked_at = some at }) d.refresh_tokens;
}

rekey-IsRekeyed :
    (id : Key) (hashed : String) (at : Time) (d : Database)
    → IsRekeyed id hashed (rekey id hashed at d)
rekey-IsRekeyed id hashed at d = record {
  password = λ u i e.
      let (q, j, e') =
        In-update (λ (u : User). u.id == id) (λ u. record u { hashed_password = hashed }) d.users u
          i in
      rw e' (ground arith);
  revoked = λ t i e.
      let (q, j, e') =
        In-update (λ (r : RefreshToken). r.user_id == id && is_none r.revoked_at)
          (λ r. record r { revoked_at = some at }) d.refresh_tokens t i in
      rw e' (ground arith);
}

module _ ⦃rt : Runtime⦄ where
  -- A password change that returns has checked the old password; and in the stored tables the
  -- account has a hash of the new password, and every refresh token of the account is revoked.
  pub change_password_rekeys :
      (user : User) (old new : String) (w : World)
      → (request (change_password user old new) w).0 ≡ ok tt
      → (rt.verify_password old user.hashed_password ≡ true)
        × ((n : _) × IsRekeyed user.id
              (rt.hash_password n new)
              (request (change_password user old new) w).1.database)
  unfolding request change_password hash_password set_hashed_password revoke_all_user_refresh_tokens
      ◌>>=◌
  change_password_rekeys user old new w h = (
    ground arith,
    (
      w.calls,
      ground (
        arith,
        rekey-IsRekeyed user.id (rt.hash_password w.calls new) (rt.now (suc w.calls)) w.database,
      ),
    ),
  )

  -- What a reset that returns `True` has found and done: an unused reset token that has not
  -- expired at the time of the call, now used; and its account has the new password and no refresh token left.
  pub record IsReset (raw new : String) (at : Time) (before after : Database) : Type 0 where
    pub token : PasswordResetToken
    pub stored : In token before.password_reset_tokens
    pub hash : str_eq token.token_hash (hash_refresh_token raw) ≡ true
    pub unused : token.used_at ≡ none
    pub live : ltb token.expires_at at ≡ false
    pub used :
        (r : PasswordResetToken)
        → In r after.password_reset_tokens
        → r.id ≡ token.id
        → r.used_at ≢ none
    pub salt : ℕ
    pub rekeyed : IsRekeyed token.user_id (rt.hash_password salt new) after

  used_up :
      (id : Key) (at : Time) (t : List PasswordResetToken) (r : PasswordResetToken)
      → In r
          (update (λ (r : PasswordResetToken). r.id == id) (λ r. record r { used_at = some at }) t)
      → r.id ≡ id
      → r.used_at ≢ none
  used_up id at t r i e =
      let (q, j, e') =
        In-update (λ (r : PasswordResetToken). r.id == id) (λ r. record r { used_at = some at }) t r
          i in
      ground arith

  reset_user-IsReset :
      (raw new : String) (at : Time) (token : PasswordResetToken) (user : Option User) (s : Session)
      → In token s.db.password_reset_tokens
      → str_eq token.token_hash (hash_refresh_token raw) ≡ true
      → token.used_at ≡ none
      → ltb token.expires_at at ≡ false
      → ((u : User) → user ≡ some u → u.id ≡ token.user_id)
      → (reset_user token at new user s).0 ≡ ok true
      → IsReset raw new at s.db (reset_user token at new user s).1.saved
  unfolding reset_user
  reset_user-IsReset raw new at token none s i h k l o q = unfold ◌>>=◌ in absurd cc
  reset_user-IsReset raw new at token (some u) s i h k l o q = record {
    token = token;
    stored = i;
    hash = h;
    unused = k;
    live = l;
    used =
        unfold set_hashed_password set_used_at hash_password revoke_all_user_refresh_tokens ◌>>=◌ in
        used_up token.id at s.db.password_reset_tokens;
    salt = s.calls;
    rekeyed =
        subst
          (λ x.
            IsRekeyed x (rt.hash_password s.calls new) (reset_user token at new (some u) s).1.saved)
          (o u refl)
          (unfold set_hashed_password set_used_at hash_password revoke_all_user_refresh_tokens
              ◌>>=◌ in
            let r =
              rekey-IsRekeyed u.id (rt.hash_password s.calls new) (rt.now (suc s.calls)) s.db in
            record { password = r.password; revoked = r.revoked });
  }

  active_user :
      (id : Key) (d : Database) (u : User) → active_only (get_user id d) ≡ some u → u.id ≡ id
  unfolding active_only get_user
  active_user id d u h = elim (Option-cases (find (λ (q : User). q.id == id) d.users)) [
    | inl missing ↦ ground arith
    | inr (q, found) ↦
        let (i, e) = find-In (λ (q : User). q.id == id) d.users q found in ground arith
  ]

  reset_found-IsReset :
      (raw new : String) (at : Time) (token : Option PasswordResetToken) (s : Session)
      → find
          (λ (r : PasswordResetToken). str_eq r.token_hash (hash_refresh_token raw))
          s.db.password_reset_tokens
        ≡ token
      → (reset_found token at new s).0 ≡ ok true
      → IsReset raw new at s.db (reset_found token at new s).1.saved
  unfolding reset_found
  reset_found-IsReset raw new at none s f q = unfold ◌>>=◌ in absurd cc
  reset_found-IsReset raw new at (some t) s f q =
      let (i, e) = find-In _ s.db.password_reset_tokens t f in
      elim (Bool-cases (is_some t.used_at || ltb t.expires_at at)) [
        | inl stale ↦ absurd (unfold ◌>>=◌ in ground arith)
        | inr fresh ↦
            let unused : t.used_at ≡ none = ground arith in
            let done : (reset_user t at new (active_only (get_user t.user_id s.db)) s).0 ≡ ok true =
              unfold ◌>>=◌ in ground arith in
            rw fresh (
              unfold ◌>>=◌ in
              reset_user-IsReset raw new at t (active_only (get_user t.user_id s.db)) s i e unused
                (ground arith) (active_user t.user_id s.db) done)
      ]

  -- A reset that answers `True` has used up an unused reset token that had not expired, and set the
  -- new password of its account, all of whose refresh tokens are revoked in the stored tables.
  pub reset_password_rekeys :
      (raw new : String) (w : World)
      → (request (reset_password raw new) w).0 ≡ ok true
      → IsReset raw new (rt.now w.calls) w.database (request (reset_password raw new) w).1.database
  unfolding request reset_password ◌>>=◌
  reset_password_rekeys raw new w h =
      reset_found-IsReset raw new (rt.now w.calls) _
        (record (open_session w) { calls = suc w.calls }) refl h
