-- ===== src/Auth/Endpoints.antt =====
-- The requests of app/api/v1/endpoints/auth.py, and the guards of app/api/deps.py that the other
-- endpoints share. `answer` runs one, `answer_all` a sequence.
use vixa_system_config_be.Base.{
  ℕ, ◌+◌, ◌*◌, String, Option, none, some, List, [], ◌∷◌, not, str_eq, ◌||◌, map, str,
  if◌then◌else◌,
}
use vixa_system_config_be.Json.{Fields, num, text, end, field}
use vixa_system_config_be.Runtime.{Runtime, Key, Time}
use vixa_system_config_be.Models.User.{User, RefreshToken}
use vixa_system_config_be.Auth.{
  minutes, active_only, get_user, authenticate_user, issue_refresh_token, redeem_refresh_token,
  revoke_refresh_token, change_password, create_password_reset_token, reset_password,
  list_active_sessions,
}
use vixa_system_config_be.Tx.{
  Tx, Error, http, World, ◌>>=◌, ◌>>◌, pure, raise_if, or_raise, gets, now, request, discard,
}

pub record TokenResponse : Type 0 where
  pub access_token : String
  pub refresh_token : String
  pub expires_in : ℕ

pub record ForgotPasswordResponse : Type 0 where
  pub detail : String
  pub reset_token : Option String

pub record SessionRead : Type 0 where
  pub id : Key
  pub created_at : Time
  pub expires_at : Time

abbrev pub read_session : RefreshToken → SessionRead
read_session r = record { id = r.id; created_at = r.created_at; expires_at = r.expires_at }

-- `payload["sub"]`; jose refuses a subject that is no text
unfoldable pub subject_of : Fields → Option String
subject_of end = none
subject_of (field k (text s) fs) = if str_eq k "sub" then some s else subject_of fs
subject_of (field k _ fs) = if str_eq k "sub" then none else subject_of fs

abbrev pub credentials_error : Error
credentials_error = http 401 "Could not validate credentials"

module _ ⦃rt : Runtime⦄ where
  -- `create_access_token(subject, {"email": email})`; the datetimes are given as numbers
  unfoldable pub create_access_token : String → String → Tx String
  create_access_token subject email = do
    t ← now
    iat ← now
    pure (
        rt.jwt_encode (
          field "sub" (text subject) (
            field "exp" (num (str (t + minutes rt.access_token_expire_minutes)))
              (field "iat" (num (str iat)) (field "email" (text email) end)))))

  -- `decode_access_token`
  unfoldable pub decode_access_token : String → Tx (Option Fields)
  decode_access_token token = do t ← now; pure (rt.jwt_decode t token)

  unfoldable pub get_current_user : Option String → Tx User
  get_current_user credentials = do
    token ← or_raise credentials credentials_error
    decoded ← decode_access_token token
    payload ← or_raise decoded credentials_error
    subject ← or_raise (subject_of payload) credentials_error
    user_id ← or_raise (rt.uuid_of_text subject) credentials_error
    user ← gets (get_user user_id)
    or_raise (active_only user) credentials_error

  unfoldable pub require_admin : Option String → Tx User
  require_admin credentials = do
    user ← get_current_user credentials
    raise_if (not user.is_admin) (http 403 "This action requires administrator privileges")
    pure user

  -- what `login` and `refresh` answer
  unfoldable pub tokens_for : User → Tx TokenResponse
  tokens_for user = do
    access_token ← create_access_token (rt.uuid_text user.id) user.email
    refresh_token ← issue_refresh_token user
    pure (record {
      access_token = access_token;
      refresh_token = refresh_token;
      expires_in = rt.access_token_expire_minutes * 60;
    })

  unfoldable pub login : String → String → Tx TokenResponse
  login email password = do
    found ← authenticate_user email password
    user ← or_raise found (http 401 "Incorrect email or password")
    tokens_for user

  abbrev pub refresh_error : Error
  refresh_error = http 401 "Refresh token is invalid, expired, or already used"

  unfoldable pub refresh : String → Tx TokenResponse
  refresh token = do
    found ← redeem_refresh_token token
    user ← or_raise found refresh_error
    tokens_for user

  unfoldable pub logout : String → Tx (Unit {0})
  logout token = revoke_refresh_token token

  unfoldable pub change_own_password : Option String → String → String → Tx (Unit {0})
  change_own_password credentials current_password new_password = do
    user ← get_current_user credentials
    change_password user current_password new_password

  -- the raw token is echoed in three named environments only
  unfoldable pub echoed : Option String → Option String
  echoed none = none
  echoed (some raw) =
      let e = rt.lower rt.environment in
      if str_eq e "development" || (str_eq e "local" || str_eq e "test") then some raw else none

  unfoldable pub forgot_password : String → Tx ForgotPasswordResponse
  forgot_password email = do
    raw_token ← create_password_reset_token email
    pure (record {
      detail = "If an account exists for that email, a password reset token has been issued.";
      reset_token = echoed raw_token;
    })

  unfoldable pub reset_own_password : String → String → Tx (Unit {0})
  reset_own_password token new_password = do
    done ← reset_password token new_password
    raise_if (not done) (http 400 "Reset token is invalid, expired, or already used")

  unfoldable pub list_sessions : Option String → Tx (List SessionRead)
  list_sessions credentials = do
    user ← get_current_user credentials
    sessions ← list_active_sessions user
    pure (map read_session sessions)

pub data AuthRequest : Type 0 where
  signing_in : String → String → AuthRequest
  refreshing signing_out : String → AuthRequest
  changing : Option String → String → String → AuthRequest
  forgetting : String → AuthRequest
  resetting : String → String → AuthRequest

module _ ⦃rt : Runtime⦄ where
  unfoldable pub answer : AuthRequest → Tx (Unit {0})
  answer (signing_in email password) = discard (login email password)
  answer (refreshing token) = discard (refresh token)
  answer (signing_out token) = logout token
  answer (changing credentials old new) = change_own_password credentials old new
  answer (forgetting email) = discard (forgot_password email)
  answer (resetting token new) = reset_own_password token new

  -- one request after another, each with its own session
  unfoldable pub answer_all : World → List AuthRequest → World
  answer_all w [] = w
  answer_all w (o ∷ os) = answer_all (request (answer o) w).1 os
