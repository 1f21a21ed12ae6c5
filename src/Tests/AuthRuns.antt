-- ===== src/Tests/AuthRuns.antt =====
-- Runs of sign-in, refresh and password changes.
use vixa_system_config_be.Base.{
  none, some, true, false, List, [], ◌∷◌, ◌≡◌, refl, find, any, update, str,
}
use vixa_system_config_be.Models.User.{User, RefreshToken, PasswordResetToken}
use vixa_system_config_be.Auth.{
  issue_refresh_token, redeem_refresh_token, redeem_found, redeem_unrevoked, spend,
  find_refresh_token, hash_refresh_token, generate_refresh_token, add_refresh_token, set_revoked_at,
  set_used_at, set_hashed_password, hash_password, active_only, get_user, change_password,
  revoke_all_user_refresh_tokens, reset_password, reset_found, reset_user,
}
use vixa_system_config_be.Auth.Endpoints.{
  TokenResponse, refresh, refresh_error, tokens_for, create_access_token, AuthRequest, refreshing,
  signing_in, answer_all, require_admin, get_current_user, decode_access_token, subject_of,
}
use vixa_system_config_be.Auth.Access.{IsGranted, require_admin_grants}
use vixa_system_config_be.Auth.Replay.{replay_refused}
use vixa_system_config_be.Auth.Revocation.{
  IsRekeyed, IsReset, change_password_rekeys, reset_password_rekeys,
}
use vixa_system_config_be.Tx.{World, ok, err, request, ◌>>=◌}
use vixa_system_config_be.Tests.Demo.{demo, blank}

abbrev pub ada : User
ada = record {
  id = 1;
  email = "ada";
  display_name = "Ada";
  hashed_password = "secret";
  is_active = true;
  is_admin = false;
  created_at = 0;
}

abbrev token : RefreshToken
token = record {
  id = 5;
  user_id = 1;
  token_hash = "raw";
  expires_at = 5000;
  revoked_at = none;
  created_at = 0;
}

abbrev reset : PasswordResetToken
reset = record { id = 6; user_id = 1; token_hash = "reset"; expires_at = 5000; used_at = none }

abbrev pub signed_in : World
signed_in = record blank {
  database = record blank.database {
    users = ada ∷ [];
    refresh_tokens = token ∷ [];
    password_reset_tokens = reset ∷ [];
  };
}

abbrev exchanged : TokenResponse
exchanged = record {
  access_token = "sub:'1',exp:1800002000,iat:3000,email:'ada',";
  refresh_token = "4";
  expires_in = 1800;
}

refresh_runs : (request (refresh "raw") signed_in).0 ≡ ok exchanged
unfolding request refresh redeem_refresh_token redeem_found redeem_unrevoked spend tokens_for
    find_refresh_token hash_refresh_token find set_revoked_at update get_user active_only
    create_access_token issue_refresh_token generate_refresh_token add_refresh_token any str ◌>>=◌
refresh_runs = refl

abbrev meanwhile : List AuthRequest
meanwhile = refreshing "4" ∷ signing_in "ada" "secret" ∷ []

replay_refused_example :
    (request (refresh "raw") (answer_all (request (refresh "raw") signed_in).1 meanwhile)).0
    ≡ err refresh_error
replay_refused_example =
    replay_refused "raw" signed_in exchanged meanwhile ((λ q i. absurd i), tt) refresh_runs

change_runs : (request (change_password ada "secret" "better") signed_in).0 ≡ ok tt
unfolding request change_password hash_password set_hashed_password revoke_all_user_refresh_tokens
    ◌>>=◌
change_runs = refl

change_password_rekeys_example :
    (demo.verify_password "secret" "secret" ≡ true)
    × ((n : _) × IsRekeyed 1
          (demo.hash_password n "better")
          (request (change_password ada "secret" "better") signed_in).1.database)
change_password_rekeys_example = change_password_rekeys ada "secret" "better" signed_in change_runs

reset_runs : (request (reset_password "reset" "better") signed_in).0 ≡ ok true
unfolding request reset_password reset_found reset_user find hash_refresh_token hash_password
    active_only get_user set_hashed_password set_used_at revoke_all_user_refresh_tokens ◌>>=◌
reset_runs = refl

reset_password_rekeys_example :
    IsReset "reset" "better"
      (demo.now 0)
      signed_in.database
      (request (reset_password "reset" "better") signed_in).1.database
reset_password_rekeys_example = reset_password_rekeys "reset" "better" signed_in reset_runs

abbrev grace : User
grace = record ada { is_admin = true }

abbrev administered : World
administered = record blank { database = record blank.database { users = grace ∷ [] } }

guard_runs : (request (require_admin (some "1")) administered).0 ≡ ok grace
unfolding request require_admin get_current_user decode_access_token subject_of get_user find
    active_only ◌>>=◌
guard_runs = refl

require_admin_grants_example : IsGranted 0 (some "1") (grace ∷ []) grace × (true ≡ true)
require_admin_grants_example = require_admin_grants (some "1") administered grace guard_runs
