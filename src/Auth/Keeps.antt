-- ===== src/Auth/Keeps.antt =====
-- What every request of app/api/v1/endpoints/auth.py keeps, from what its writes keep.
use vixa_system_config_be.Base.{String, Option, none, some, List, [], ◌∷◌}
use vixa_system_config_be.Runtime.{Runtime, Key, Time}
use vixa_system_config_be.Models.User.{User, RefreshToken, PasswordResetToken}
use vixa_system_config_be.Database.{Database}
use vixa_system_config_be.Auth.{
  add_refresh_token, add_password_reset_token, set_revoked_at, set_used_at, set_hashed_password,
  generate_refresh_token, hash_password, authenticate_user, issue_refresh_token, spend,
  redeem_unrevoked, redeem_found, redeem_refresh_token, revoke_found, revoke_refresh_token,
  revoke_all_user_refresh_tokens, change_password, reset_token_for, create_password_reset_token,
  reset_user, reset_found, reset_password,
}
use vixa_system_config_be.Auth.Endpoints.{
  create_access_token, decode_access_token, get_current_user, tokens_for, login, refresh, logout,
  change_own_password, forgot_password, reset_own_password, AuthRequest, signing_in, refreshing,
  signing_out, changing, forgetting, resetting, answer, answer_all,
}
use vixa_system_config_be.Tx.{World, request, open_session}
use vixa_system_config_be.Tx.Keeps.{Keeps, Keeps-discard, keeps_rules}

-- The writes of these requests.
pub record KeepsWrites (rt : Runtime) (I : Database → Type 0) : Type 0 where
  pub revoking : (id : Key) (at : Time) → Keeps I (set_revoked_at id at)
  pub using : (id : Key) (at : Time) → Keeps I (set_used_at id at)
  pub rekeying : (id : Key) (hashed : String) → Keeps I (set_hashed_password id hashed)
  pub issuing : (t : RefreshToken) → Keeps I (add_refresh_token t)
  pub offering : (t : PasswordResetToken) → Keeps I (add_password_reset_token t)
  pub revoking_all : (id : Key) → Keeps I (revoke_all_user_refresh_tokens ⦃rt = rt⦄ id)

module _ ⦃rt : Runtime⦄ {I : Database → Type 0} ⦃writes : KeepsWrites rt I⦄ where
  set_revoked_at-Keeps : (id : Key) (at : Time) → Keeps I (set_revoked_at id at)
  set_revoked_at-Keeps = writes.revoking

  set_used_at-Keeps : (id : Key) (at : Time) → Keeps I (set_used_at id at)
  set_used_at-Keeps = writes.using

  set_hashed_password-Keeps : (id : Key) (hashed : String) → Keeps I (set_hashed_password id hashed)
  set_hashed_password-Keeps = writes.rekeying

  add_refresh_token-Keeps : (t : RefreshToken) → Keeps I (add_refresh_token t)
  add_refresh_token-Keeps = writes.issuing

  add_password_reset_token-Keeps : (t : PasswordResetToken) → Keeps I (add_password_reset_token t)
  add_password_reset_token-Keeps = writes.offering

  revoke_all-Keeps : (id : Key) → Keeps I (revoke_all_user_refresh_tokens id)
  revoke_all-Keeps = writes.revoking_all

  ruleset write_rules = (
    keeps_rules, Keeps-discard, set_revoked_at-Keeps, set_used_at-Keeps, set_hashed_password-Keeps,
    add_refresh_token-Keeps, add_password_reset_token-Keeps, revoke_all-Keeps,
  )

  issue-Keeps : (u : User) → Keeps I (issue_refresh_token u)
  unfolding issue_refresh_token generate_refresh_token
  issue-Keeps u = search write_rules depth 12

  redeem_found-Keeps : (t : Option RefreshToken) → Keeps I (redeem_found t)
  unfolding redeem_found redeem_unrevoked spend
  redeem_found-Keeps none = search write_rules
  redeem_found-Keeps (some t) = search write_rules depth 20

  redeem-Keeps : (raw : String) → Keeps I (redeem_refresh_token raw)
  unfolding redeem_refresh_token
  redeem-Keeps raw = search (keeps_rules, redeem_found-Keeps)

  revoke_found-Keeps : (t : Option RefreshToken) → Keeps I (revoke_found t)
  unfolding revoke_found
  revoke_found-Keeps none = search write_rules
  revoke_found-Keeps (some t) = search write_rules depth 12

  reset_token_for-Keeps : (u : Option User) → Keeps I (reset_token_for u)
  unfolding reset_token_for generate_refresh_token
  reset_token_for-Keeps none = search write_rules
  reset_token_for-Keeps (some u) = search write_rules depth 16

  reset_user-Keeps :
      (t : PasswordResetToken) (at : Time) (new : String) (u : Option User)
      → Keeps I (reset_user t at new u)
  unfolding reset_user hash_password
  reset_user-Keeps t at new none = search write_rules
  reset_user-Keeps t at new (some u) = search write_rules depth 16

  reset_found-Keeps :
      (t : Option PasswordResetToken) (at : Time) (new : String) → Keeps I (reset_found t at new)
  unfolding reset_found
  reset_found-Keeps none at new = search write_rules
  reset_found-Keeps (some t) at new = search (write_rules, reset_user-Keeps) depth 12

  ruleset request_rules = (
    write_rules, issue-Keeps, redeem-Keeps, revoke_found-Keeps, reset_token_for-Keeps,
    reset_found-Keeps,
  )

  get_current_user-Keeps : (c : Option String) → Keeps I (get_current_user c)
  unfolding get_current_user decode_access_token
  get_current_user-Keeps c = search keeps_rules depth 20

  pub tokens_for-Keeps : (u : User) → Keeps I (tokens_for u)
  unfolding tokens_for create_access_token
  tokens_for-Keeps u = search request_rules depth 16

  pub answer-Keeps : (o : AuthRequest) → Keeps I (answer o)
  unfolding answer login authenticate_user refresh logout revoke_refresh_token change_own_password
      change_password forgot_password create_password_reset_token reset_own_password reset_password
      hash_password
  answer-Keeps (signing_in email password) = search (request_rules, tokens_for-Keeps) depth 16
  answer-Keeps (refreshing token) = search (request_rules, tokens_for-Keeps) depth 16
  answer-Keeps (signing_out token) = search request_rules depth 16
  answer-Keeps (changing c old new) = search (request_rules, get_current_user-Keeps) depth 20
  answer-Keeps (forgetting email) = search request_rules depth 16
  answer-Keeps (resetting token new) = search request_rules depth 16

module _ ⦃rt : Runtime⦄ (I : Database → Type 0) ⦃writes : KeepsWrites rt I⦄ where
  -- A sequence of requests, each with a session of its own.
  pub answer_all-kept :
      (os : List AuthRequest) (w : World) → I w.database → I (answer_all w os).database
  unfolding answer_all request
  answer_all-kept [] w s = s
  answer_all-kept (o ∷ os) w s =
      answer_all-kept os (request (answer o) w).1
        ((answer-Keeps {I = I} o).kept (open_session w) s s).1
