-- ===== src/Auth.antt =====
-- Sign-in, refresh tokens and password resets, app/services/auth_service.py with the token
-- functions of app/core/security.py. Times are in UTC, so `_as_aware_utc` is the identity.
pub mod Endpoints
pub mod Keeps
pub mod Spent
pub mod Replay
pub mod Revocation
pub mod Access
use vixa_system_config_be.Base.{
  ℕ, ◌+◌, ◌*◌, String, Option, none, some, Bool, true, false, List, [], ◌∷◌, ◌++◌, ◌&&◌, ◌||◌, not,
  str_eq, ◌==◌, ltb, filter, find, any, update, order_desc, is_some, is_none, if◌then◌else◌,
}
use vixa_system_config_be.Runtime.{Runtime, Key, Time}
use vixa_system_config_be.Models.User.{User, RefreshToken, PasswordResetToken}
use vixa_system_config_be.Database.{Database}
use vixa_system_config_be.Tx.{
  Tx, Error, http, integrity, err, ok, ◌>>=◌, ◌>>◌, pure, raise, raise_if, gets, modify, add_unless,
  commit, draw, now, uuid4,
}

-- `PASSWORD_RESET_EXPIRE_MINUTES`
abbrev pub password_reset_expire_minutes : ℕ
password_reset_expire_minutes = 60

-- `timedelta(minutes=m)` and `timedelta(days=d)`
abbrev pub minutes : ℕ → Time
minutes m = m * 60_000_000

abbrev pub days : ℕ → Time
days d = d * 86_400_000_000

-- `db.add(token)`, checked against the primary key and the unique column at the flush
unfoldable pub add_refresh_token : RefreshToken → Tx (Unit {0})
add_refresh_token t =
    add_unless
      (λ d.
        any (λ (r : RefreshToken). r.id == t.id || str_eq r.token_hash t.token_hash)
          d.refresh_tokens)
      (integrity "refresh_tokens") (λ d. record d { refresh_tokens = d.refresh_tokens ++ t ∷ [] })

unfoldable pub add_password_reset_token : PasswordResetToken → Tx (Unit {0})
add_password_reset_token t =
    add_unless
      (λ d.
        any (λ (r : PasswordResetToken). r.id == t.id || str_eq r.token_hash t.token_hash)
          d.password_reset_tokens)
      (integrity "password_reset_tokens")
      (λ d. record d { password_reset_tokens = d.password_reset_tokens ++ t ∷ [] })

-- the attribute writes, each an update of one column of the row with the key
unfoldable pub set_revoked_at : Key → Time → Tx (Unit {0})
set_revoked_at id at = modify λ d. record d {
  refresh_tokens =
      update (λ (r : RefreshToken). r.id == id) (λ r. record r { revoked_at = some at })
        d.refresh_tokens;
}

unfoldable pub set_used_at : Key → Time → Tx (Unit {0})
set_used_at id at = modify λ d. record d {
  password_reset_tokens =
      update (λ (r : PasswordResetToken). r.id == id) (λ r. record r { used_at = some at })
        d.password_reset_tokens;
}

unfoldable pub set_hashed_password : Key → String → Tx (Unit {0})
set_hashed_password id hashed = modify λ d. record d {
  users = update (λ (u : User). u.id == id) (λ u. record u { hashed_password = hashed }) d.users;
}

-- `user if user is not None and user.is_active else None`
unfoldable pub active_only : Option User → Option User
active_only none = none
active_only (some u) = if u.is_active then some u else none

unfoldable pub get_user : Key → Database → Option User
get_user id d = find (λ (u : User). u.id == id) d.users

module _ ⦃rt : Runtime⦄ where
  -- `generate_refresh_token` and `hash_refresh_token`
  unfoldable pub generate_refresh_token : Tx String
  generate_refresh_token = draw rt.token_urlsafe

  unfoldable pub hash_refresh_token : String → String
  hash_refresh_token raw_token = rt.sha256 raw_token

  -- `hash_password`
  unfoldable pub hash_password : String → Tx String
  hash_password plain = draw (λ n. rt.hash_password n plain)

  unfoldable pub find_by_email : String → Database → Option User
  find_by_email email d = find (λ (u : User). str_eq u.email (rt.lower email)) d.users

  unfoldable pub find_refresh_token : String → Database → Option RefreshToken
  unfolding hash_refresh_token
  find_refresh_token raw_token d =
      find (λ (r : RefreshToken). str_eq r.token_hash (hash_refresh_token raw_token))
        d.refresh_tokens

  unfoldable pub with_password : String → Option User → Option User
  with_password password none = none
  with_password password (some u) =
      if rt.verify_password password u.hashed_password then some u else none

  unfoldable pub authenticate_user : String → String → Tx (Option User)
  authenticate_user email password = do
    user ← gets (find_by_email email)
    pure (with_password password (active_only user))

  unfoldable pub issue_refresh_token : User → Tx String
  issue_refresh_token user = do
    raw_token ← generate_refresh_token
    id ← uuid4
    t ← now
    created_at ← now
    add_refresh_token (record {
      id = id;
      user_id = user.id;
      token_hash = hash_refresh_token raw_token;
      expires_at = t + days rt.refresh_token_expire_days;
      revoked_at = none;
      created_at = created_at;
    })
    commit
    pure raw_token

  -- the token is fresh: it is revoked, whoever its user is
  unfoldable pub spend : RefreshToken → Tx (Option User)
  spend token = do
    t ← now
    set_revoked_at token.id t
    user ← gets (get_user token.user_id)
    commit
    pure (active_only user)

  unfoldable pub redeem_unrevoked : RefreshToken → Tx (Option User)
  redeem_unrevoked token = do t ← now; if ltb token.expires_at t then pure none else spend token

  unfoldable pub redeem_found : Option RefreshToken → Tx (Option User)
  redeem_found none = pure none
  redeem_found (some token) = if is_some token.revoked_at then pure none else redeem_unrevoked token

  unfoldable pub redeem_refresh_token : String → Tx (Option User)
  redeem_refresh_token raw_token = do
    token ← gets (find_refresh_token raw_token)
    redeem_found token

  unfoldable pub revoke_found : Option RefreshToken → Tx (Unit {0})
  revoke_found none = pure tt
  revoke_found (some token) =
      if is_some token.revoked_at
      then pure tt
      else (now >>= λ t. set_revoked_at token.id t >>= λ _. commit)

  unfoldable pub revoke_refresh_token : String → Tx (Unit {0})
  revoke_refresh_token raw_token = do
    token ← gets (find_refresh_token raw_token)
    revoke_found token

  unfoldable pub revoke_all_user_refresh_tokens : Key → Tx (Unit {0})
  revoke_all_user_refresh_tokens user_id = do
    t ← now
    modify λ d. record d {
      refresh_tokens =
          update (λ (r : RefreshToken). r.user_id == user_id && is_none r.revoked_at)
            (λ r. record r { revoked_at = some t }) d.refresh_tokens;
    }

  unfoldable pub change_password : User → String → String → Tx (Unit {0})
  change_password user current_password new_password = do
    raise_if (not (rt.verify_password current_password user.hashed_password))
        (http 400 "Current password is incorrect")
    hashed ← hash_password new_password
    set_hashed_password user.id hashed
    revoke_all_user_refresh_tokens user.id
    commit

  unfoldable pub reset_token_for : Option User → Tx (Option String)
  reset_token_for none = pure none
  reset_token_for (some user) = do
    raw_token ← generate_refresh_token
    id ← uuid4
    t ← now
    add_password_reset_token (record {
      id = id;
      user_id = user.id;
      token_hash = hash_refresh_token raw_token;
      expires_at = t + minutes password_reset_expire_minutes;
      used_at = none;
    })
    commit
    pure (some raw_token)

  unfoldable pub create_password_reset_token : String → Tx (Option String)
  create_password_reset_token email = do
    user ← gets (find_by_email email)
    reset_token_for (active_only user)

  unfoldable pub reset_user : PasswordResetToken → Time → String → Option User → Tx Bool
  reset_user token t new_password none = pure false
  reset_user token t new_password (some user) = do
    hashed ← hash_password new_password
    set_hashed_password user.id hashed
    set_used_at token.id t
    revoke_all_user_refresh_tokens user.id
    commit
    pure true

  unfoldable pub reset_found : Option PasswordResetToken → Time → String → Tx Bool
  reset_found none t new_password = pure false
  reset_found (some token) t new_password =
      if is_some token.used_at || ltb token.expires_at t
      then pure false
      else (gets (get_user token.user_id) >>= λ user.
          reset_user token t new_password (active_only user))

  unfoldable pub reset_password : String → String → Tx Bool
  reset_password raw_token new_password = do
    token ← gets (λ d.
        find (λ (r : PasswordResetToken). str_eq r.token_hash (hash_refresh_token raw_token))
          d.password_reset_tokens)
    t ← now
    reset_found token t new_password

  unfoldable pub is_live_session : Key → Time → RefreshToken → Bool
  is_live_session user_id t r = r.user_id == user_id && (is_none r.revoked_at && ltb t r.expires_at)

  unfoldable pub list_active_sessions : User → Tx (List RefreshToken)
  list_active_sessions user = do
    t ← now
    gets (λ d.
        order_desc (λ (r : RefreshToken). r.created_at)
          (filter (is_live_session user.id t) d.refresh_tokens))
