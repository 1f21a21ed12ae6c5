-- ===== src/Auth/Access.antt =====
-- Who passes the guards.
use vixa_system_config_be.Base.{
  String, Option, some, true, List, ◌≡◌, ◌∙◌, sym, ap, inl, inr, arith, ◌==◌, find, find-In, In,
  Option-cases, not,
}
use vixa_system_config_be.Json.{Fields}
use vixa_system_config_be.Runtime.{Runtime, Key, Time}
use vixa_system_config_be.Models.User.{User}
use vixa_system_config_be.Database.{Database}
use vixa_system_config_be.Auth.{active_only, get_user}
use vixa_system_config_be.Auth.Endpoints.{
  get_current_user, require_admin, decode_access_token, subject_of,
}
use vixa_system_config_be.Tx.{
  ok, err, http, Result, World, Session, request, open_session, continue, raise_if, pure, ◌>>=◌,
}

active_user_In :
    (id : Key) (d : Database) (u : User)
    → active_only (get_user id d) ≡ some u
    → In u d.users × ((u.id ≡ id) × (u.is_active ≡ true))
unfolding active_only get_user
active_user_In id d u h = elim (Option-cases (find (λ (q : User). q.id == id) d.users)) [
  | inl missing ↦ ground arith
  | inr (q, found) ↦ let (i, e) = find-In (λ (q : User). q.id == id) d.users q found in ground arith
]

-- The token decodes at the time `t` to claims whose subject is the user.
abbrev Names : Runtime → Time → Option String → User → Type 0
Names rt t credentials u =
    (token : String) × (credentials ≡ some token)
    × ((claims : Fields) × (rt.jwt_decode t token ≡ some claims)
        × ((subject : String) × (subject_of claims ≡ some subject)
            × (rt.uuid_of_text subject ≡ some u.id)))

module _ ⦃rt : Runtime⦄ where
  -- What a guard grants at a time: a stored, active account that the token names.
  pub record IsGranted (at : Time) (credentials : Option String) (t : List User) (u : User)
      : Type 0 where
    pub stored : In u t
    pub live : u.is_active ≡ true
    pub named : Names rt at credentials u

  -- The guard reads the clock once.
  pub get_current_user-IsGranted :
      (c : Option String) (s : Session) (u : User)
      → (get_current_user c s).0 ≡ ok u
      → IsGranted (rt.now s.calls) c s.db.users u
  unfolding get_current_user decode_access_token ◌>>=◌
  get_current_user-IsGranted c s u h = elim (Option-cases c) [
    | inl e ↦ absurd (ground arith)
    | inr (token, given) ↦ elim (Option-cases (rt.jwt_decode (rt.now s.calls) token)) [
      | inl e ↦ absurd (ground arith)
      | inr (claims, valid) ↦ elim (Option-cases (subject_of claims)) [
        | inl e ↦ absurd (ground arith)
        | inr (subject, sub) ↦ elim (Option-cases (rt.uuid_of_text subject)) [
          | inl e ↦ absurd (ground arith)
          | inr (id, key) ↦ elim (Option-cases (active_only (get_user id s.db))) [
            | inl e ↦ absurd (ground arith)
            | inr (v, found) ↦
                let same : u ≡ v = ground arith in
                let (i, (id_eq, live)) = active_user_In id s.db u (found ∙ ap some (sym same)) in
                record {
                  stored = i;
                  live = live;
                  named =
                      (token, given, (claims, valid, (subject, sub, key ∙ ap some (sym id_eq))));
                }
          ]
        ]
      ]
    ]
  ]

  admin_checked :
      (r : Result User) (s : Session) (u : User)
      → (continue r
          (λ user.
            raise_if (not user.is_admin) (http 403 "This action requires administrator privileges")
            >>= λ _. pure user)
          s).0
        ≡ ok u
      → (r ≡ ok u) × (u.is_admin ≡ true)
  unfolding ◌>>=◌
  admin_checked (err e) s u h = absurd (ground arith)
  admin_checked (ok v) s u h = ground arith

  -- A request that passes the guard of administrators does so as a stored, active account with
  -- administrator rights, named by the subject that its bearer token decodes to at the time that the
  -- call reads from the clock.
  pub require_admin_grants :
      (c : Option String) (w : World) (u : User)
      → (request (require_admin c) w).0 ≡ ok u
      → IsGranted (rt.now w.calls) c w.database.users u × (u.is_admin ≡ true)
  unfolding request require_admin ◌>>=◌
  require_admin_grants c w u h =
      let (r, s') = get_current_user c (open_session w) in
      let (ran, admin) = admin_checked r s' u h in
      (get_current_user-IsGranted c (open_session w) u ran, admin)
