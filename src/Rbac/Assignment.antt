-- ===== src/Rbac/Assignment.antt =====
-- Assigning a role and taking it away again.
use vixa_system_config_be.Base.{
  String, Option, none, some, true, false, List, [], ◌∷◌, ◌++◌, ◌≡◌, refl, ap, ◌∙◌, arith, ◌==◌,
  ==_iff, ◌||◌, find, any, delete, find-snoc, delete-snoc, is_some,
}
use vixa_system_config_be.Runtime.{Runtime, Key}
use vixa_system_config_be.Models.User.{User}
use vixa_system_config_be.Models.Rbac.{Role, UserRole}
use vixa_system_config_be.Database.{Database}
use vixa_system_config_be.Rbac.Tables.{links, get_user_orm, get_role_orm, add_user_role}
use vixa_system_config_be.Rbac.Reads.{RoleAssignmentResult}
use vixa_system_config_be.Rbac.{assign_role, assign_unless, remove_role, assignment_result}
use vixa_system_config_be.Tx.{
  World, Session, ok, is_ok, request, open_session, close_session, ◌>>=◌,
}

abbrev user_of : Key → Database → Option User
user_of id d = find (λ (u : User). u.id == id) d.users

abbrev role_of : Key → Database → Option Role
role_of id d = find (λ (r : Role). r.id == id) d.roles

abbrev link_of : Key → Key → String → Key → UserRole
link_of user_id role_id by id = record {
  id = id;
  user_id = user_id;
  role_id = role_id;
  assigned_by = some by;
}

abbrev with_links : Database → List UserRole → Database
with_links d t = record d { user_roles = t }

abbrev linked : UserRole → Database → Database
linked l d = record d { user_roles = d.user_roles ++ l ∷ [] }

module _ ⦃rt : Runtime⦄ (user_id role_id : Key) (by : String) where
  -- What an assignment of a role that was not assigned has found and done.
  assign_runs :
      (s : Session) (a : RoleAssignmentResult)
      → find (links user_id role_id) s.db.user_roles ≡ none
      → (assign_role user_id role_id by s).0 ≡ ok a
      → let l = link_of user_id role_id by (rt.uuid4 s.calls) in
        (any (λ (r : UserRole). r.id == l.id || links user_id role_id r) s.db.user_roles ≡ false)
        × ((assign_role user_id role_id by s).1.saved ≡ linked l s.db)
        × (is_some (user_of user_id s.db) ≡ true)
        × (is_some (role_of role_id s.db) ≡ true)
  unfolding assign_role assign_unless get_user_orm get_role_orm add_user_role assignment_result
      ◌>>=◌
  assign_runs s a free h = ground arith

  remove_runs :
      (s : Session) (l : UserRole)
      → find (links user_id role_id) s.db.user_roles ≡ some l
      → is_some (user_of user_id s.db) ≡ true
      → is_some (role_of role_id s.db) ≡ true
      → (is_ok (remove_role user_id role_id s).0 ≡ true)
        × ((remove_role user_id role_id s).1.saved
            ≡ record s.db { user_roles = delete (λ (r : UserRole). r.id == l.id) s.db.user_roles })
  unfolding remove_role get_user_orm get_role_orm assignment_result ◌>>=◌
  remove_runs s l found u r = ground arith

  links_self : (i : Key) → links user_id role_id (link_of user_id role_id by i) ≡ true
  links_self i = ground arith

  -- Taking away the link that was added last gives back the tables before it.
  removed_again :
      (d : Database) (i : Key) (w : World)
      → w.database ≡ linked (link_of user_id role_id by i) d
      → find (links user_id role_id) d.user_roles ≡ none
      → any (λ (r : UserRole). r.id == i || links user_id role_id r) d.user_roles ≡ false
      → is_some (user_of user_id d) ≡ true
      → is_some (role_of role_id d) ≡ true
      → (is_ok (request (remove_role user_id role_id) w).0 ≡ true)
        × ((request (remove_role user_id role_id) w).1.database ≡ d)
  unfolding request
  removed_again d i w e free fresh known role_known =
      let l = link_of user_id role_id by i in
      let found = find-snoc (links user_id role_id) d.user_roles l free (links_self i) in
      let gone =
        delete-snoc (λ (r : UserRole). r.id == i)
          (λ (r : UserRole). r.id == i || links user_id role_id r) d.user_roles l
          (λ r h. ground arith) fresh ((==_iff i i).1 refl) in
      let (done, saved) =
        remove_runs (open_session w) l
          (ap (λ x. find (links user_id role_id) x.user_roles) e ∙ found)
          (ap (λ x. is_some (user_of user_id x)) e ∙ known)
          (ap (λ x. is_some (role_of role_id x)) e ∙ role_known) in
      (
        done,
        saved
            ∙ ap (λ x. with_links x (delete (λ (r : UserRole). r.id == i) x.user_roles)) e
            ∙ ap (with_links d) gone,
      )

  -- Where a role is not assigned to a user, a request that assigns it and a request that takes it
  -- away again leave the stored tables as they were, the second never failing.
  pub assign_then_remove :
      (w : World) (a : RoleAssignmentResult)
      → find (links user_id role_id) w.database.user_roles ≡ none
      → (request (assign_role user_id role_id by) w).0 ≡ ok a
      → let w' = (request (assign_role user_id role_id by) w).1 in
        (is_ok (request (remove_role user_id role_id) w').0 ≡ true)
        × ((request (remove_role user_id role_id) w').1.database ≡ w.database)
  unfolding request
  assign_then_remove w a free h =
      let (fresh, saved, known, role_known) = assign_runs (open_session w) a free h in
      removed_again w.database (rt.uuid4 w.calls)
        (close_session (assign_role user_id role_id by (open_session w)).1) saved free fresh known
        role_known
