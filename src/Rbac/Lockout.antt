-- ===== src/Rbac/Lockout.antt =====
-- A deactivated account, app/services/rbac_service.py with app/services/auth_service.py.
use vixa_system_config_be.Base.{
  String, Option, none, some, Bool, false, List, ◌≡◌, refl, ap, ◌∙◌, subst, inl, inr, arith, ◌==◌,
  ==_iff, str_eq, find, update, find-In, In, In-update, Option-cases,
}
use vixa_system_config_be.Runtime.{Runtime, Key}
use vixa_system_config_be.Models.User.{User}
use vixa_system_config_be.Database.{Database}
use vixa_system_config_be.Auth.{
  add_refresh_token, add_password_reset_token, set_revoked_at, set_used_at, set_hashed_password,
  revoke_all_user_refresh_tokens, active_only, with_password, find_by_email, get_user,
  authenticate_user, redeem_refresh_token, redeem_found, redeem_unrevoked, spend,
  find_refresh_token,
}
use vixa_system_config_be.Auth.Keeps.{KeepsWrites, answer_all-kept}
use vixa_system_config_be.Auth.Access.{get_current_user-IsGranted}
use vixa_system_config_be.Auth.Endpoints.{AuthRequest, answer_all, get_current_user}
use vixa_system_config_be.Rbac.Tables.{get_user_orm, write_user}
use vixa_system_config_be.Rbac.Reads.{RbacUserRead}
use vixa_system_config_be.Rbac.{set_user_active}
use vixa_system_config_be.Rbac.Reads as Reads
use vixa_system_config_be.Tx.{World, Session, Result, ok, err, request, open_session, ◌>>=◌}
use vixa_system_config_be.Tx.Keeps.{Keeps, Keeps-modify, Keeps-add_unless, Keeps-bind, keeps_rules}

-- Every row with the key is inactive.
pub record IsLocked (id : Key) (d : Database) : Type 0 where
  pub inactive : (u : User) → In u d.users → u.id ≡ id → u.is_active ≡ false

-- whether an answer is the account with the key
abbrev pub is_account : Key → Option User → Bool
is_account id none = false
is_account id (some u) = u.id == id

abbrev pub answers : {A : Type 0} → (A → Bool) → Result A → Bool
answers p (ok a) = p a
answers p (err e) = false

abbrev deactivated : Key → List User → List User
deactivated id t = update (λ (u : User). u.id == id) (λ u. record u { is_active = false }) t

module _ (id : Key) where
  set_hashed_password-Keeps :
      (key : Key) (hashed : String) → Keeps (IsLocked id) (set_hashed_password key hashed)
  unfolding set_hashed_password
  set_hashed_password-Keeps key hashed = Keeps-modify _ (λ d s. record {
    inactive = λ u i e.
        let (q, j, e') =
          In-update (λ (r : User). r.id == key) (λ r. record r { hashed_password = hashed }) d.users
            u i in
        rw e' (ground (arith, s.inactive q j));
  })

  active_only_locked :
      (d : Database) (p : User → Bool)
      → IsLocked id d
      → is_account id (active_only (find p d.users)) ≡ false
  unfolding active_only
  active_only_locked d p s = elim (Option-cases (find p d.users)) [
    | inl missing ↦ ground arith
    | inr (u, found) ↦ let (i, e) = find-In p d.users u found in ground (arith, s.inactive u i)
  ]

module _ ⦃rt : Runtime⦄ (id : Key) where
  revoke_all-Keeps : (key : Key) → Keeps (IsLocked id) (revoke_all_user_refresh_tokens key)
  unfolding revoke_all_user_refresh_tokens
  revoke_all-Keeps key =
      Keeps-bind _ _ (search keeps_rules)
        λ t. Keeps-modify _ (λ d s. record { inactive = s.inactive })

  IsLocked-KeepsWrites : KeepsWrites rt (IsLocked id)
  unfolding set_revoked_at set_used_at add_refresh_token add_password_reset_token
  IsLocked-KeepsWrites = record {
    revoking = λ key at. Keeps-modify _ (λ d s. record { inactive = s.inactive });
    using = λ key at. Keeps-modify _ (λ d s. record { inactive = s.inactive });
    rekeying = set_hashed_password-Keeps id;
    issuing = λ t. Keeps-add_unless _ _ _ (λ d _ s. record { inactive = s.inactive });
    offering = λ t. Keeps-add_unless _ _ _ (λ d _ s. record { inactive = s.inactive });
    revoking_all = revoke_all-Keeps;
  }

  authenticate_refuses :
      (email password : String) (s : Session)
      → IsLocked id s.db
      → answers (is_account id) (authenticate_user email password s).0 ≡ false
  unfolding authenticate_user find_by_email with_password active_only ◌>>=◌
  authenticate_refuses email password s locked =
      let out = active_only_locked id s.db (λ (u : User). str_eq u.email (rt.lower email)) locked in
      ground arith

  redeem_refuses :
      (raw : String) (s : Session)
      → IsLocked id s.db
      → answers (is_account id) (redeem_refresh_token raw s).0 ≡ false
  unfolding redeem_refresh_token redeem_found redeem_unrevoked spend set_revoked_at get_user ◌>>=◌
  redeem_refuses raw s locked = elim (Option-cases (find_refresh_token raw s.db)) [
    | inl missing ↦ ground arith
    | inr (t, found) ↦
        let out = active_only_locked id s.db (λ (u : User). u.id == t.user_id) locked in
        ground arith
  ]

  answers_no :
      {A : Type 0} (p : A → Bool) (r : Result A)
      → ((a : A) → r ≡ ok a → p a ≡ false)
      → answers p r ≡ false
  answers_no p (ok a) h = h a refl
  answers_no p (err e) h = refl

  guard_refuses :
      (c : Option String) (s : Session)
      → IsLocked id s.db
      → answers (λ (u : User). u.id == id) (get_current_user c s).0 ≡ false
  guard_refuses c s locked = answers_no _ (get_current_user c s).0 λ u e.
      let g = get_current_user-IsGranted c s u e in
      let live = g.live in ground (arith, locked.inactive u g.stored)

  deactivated_inactive :
      (t : List User) (u : User) → In u (deactivated id t) → u.id ≡ id → u.is_active ≡ false
  deactivated_inactive t u i e =
      let (q, j, e') =
        In-update (λ (r : User). r.id == id) (λ r. record r { is_active = false }) t u i in
      rw e' (ground arith)

  found_runs :
      (s : Session) (a : RbacUserRead) (q : User)
      → find (λ (u : User). u.id == id) s.db.users ≡ some q
      → (set_user_active id false s).0 ≡ ok a
      → (set_user_active id false s).1.saved.users ≡ deactivated q.id s.db.users
  unfolding set_user_active get_user_orm write_user Reads.get_user ◌>>=◌
  found_runs s a q found h = ground arith

  set_user_active_runs :
      (s : Session) (a : RbacUserRead)
      → (set_user_active id false s).0 ≡ ok a
      → (set_user_active id false s).1.saved.users ≡ deactivated id s.db.users
  unfolding set_user_active get_user_orm write_user Reads.get_user ◌>>=◌
  set_user_active_runs s a h = elim (Option-cases (find (λ (u : User). u.id == id) s.db.users)) [
    | inl missing ↦ absurd (ground arith)
    | inr (q, found) ↦
        let (_, e) = find-In _ s.db.users q found in
        found_runs s a q found h ∙ ap (λ k. deactivated k s.db.users) ((==_iff q.id id).0 e)
  ]

  -- Once an administrator has deactivated an account, whatever requests of the authentication
  -- endpoints come between, its password signs no one in, no refresh token is exchanged for it and
  -- no bearer token passes the guard as it.
  pub deactivation_locks_out :
      (w : World) (a : RbacUserRead) (os : List AuthRequest) (email password raw : String)
      (credentials : Option String)
      → (request (set_user_active id false) w).0 ≡ ok a
      → let w' = answer_all (request (set_user_active id false) w).1 os in
        (answers (is_account id) (request (authenticate_user email password) w').0 ≡ false)
        × (answers (is_account id) (request (redeem_refresh_token raw) w').0 ≡ false)
        × (answers (λ (u : User). u.id == id) (request (get_current_user credentials) w').0 ≡ false)
  unfolding request
  deactivation_locks_out w a os email password raw credentials h =
      let w1 = (request (set_user_active id false) w).1 in
      let saved = set_user_active_runs (open_session w) a h in
      let locked : IsLocked id w1.database = record {
        inactive = λ u i e. deactivated_inactive w.database.users u (subst (λ t. In u t) saved i) e;
      } in
      let still = answer_all-kept (IsLocked id) ⦃writes = IsLocked-KeepsWrites⦄ os w1 locked in
      let s = open_session (answer_all w1 os) in
      (
        authenticate_refuses email password s still,
        redeem_refuses raw s still,
        guard_refuses credentials s still,
      )
