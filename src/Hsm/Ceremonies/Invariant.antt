-- ===== src/Hsm/Ceremonies/Invariant.antt =====
-- Every request on keys and ceremonies keeps the quorum of the complete ceremonies.
use vixa_system_config_be.Base.{
  String, Option, none, some, Bool, false, List, [], ◌∷◌, ◌≡◌, refl, arith, str_eq, ◌==◌, ◌&&◌,
  find, find-In, find-none, In, sym, ◌∙◌, ℕ,
}
use vixa_system_config_be.Runtime.{Runtime, Key}
use vixa_system_config_be.Models.Hsm.{KeyCeremony, KeyCustodianApproval}
use vixa_system_config_be.Hsm.{MasterKeyCreate, create_key, rotate_key, disable_key}
use vixa_system_config_be.Hsm.Ceremonies.{
  KeyCeremonyCreate, get_pending_ceremony, create_ceremony, audit_approval, approve,
  approve_ceremony, finish, complete_ceremony,
}
use vixa_system_config_be.Hsm.Ceremonies.Aside.{
  IsAside, IsAside-master_key_of, IsAside-now, IsAside-uuid4, IsAside-write_key, IsAside-retire,
  IsAside-get_ceremony, IsAside-get_key_orm, IsAside-predecessor_of, IsAside-gets, IsAside-raise_if,
  IsAside-audit_key, key_rules,
}
use vixa_system_config_be.Hsm.Ceremonies.Quorum.{
  HasQuorum, Good, Top, Triple-aside, Reached, add_ceremony-Triple, add_approval-Triple,
  set_approved_at-Triple, close-Triple,
}
use vixa_system_config_be.Hsm.Ceremonies.Requests.{
  KeyRequest, registering, rotating, disabling, initiating, approving, completing, run_key_request,
  run_key_requests,
}
use vixa_system_config_be.Tx.{Tx, World, request, open_session, ◌>>=◌, commit}
use vixa_system_config_be.Tx.Keeps.{Keeps, keeps_rules}
use vixa_system_config_be.Tx.Rules.{
  Triple-if, Triple, Triple-bind, Triple-commit, Triple-discard, Triple-pure, Triple-gets,
  Triple-or_raise, Triple-raise_if, Triple-weaken,
}

-- the approval of a ceremony by a custodian, and its absence
abbrev is_by : KeyCeremony → String → KeyCustodianApproval → Bool
is_by c e a = a.ceremony_id == c.id && str_eq a.custodian_email e

abbrev IsFree : KeyCeremony → String → List KeyCustodianApproval → Type 0
IsFree c e ts = (q : KeyCustodianApproval) → In q ts → is_by c e q ≡ false

aside-Keeps : {A : Type 0} (m : Tx A) → IsAside m → Keeps Good m
aside-Keeps m h = record {
  kept = λ s g g'. let r = (Triple-aside (λ _ _. Unit) m h).run s g g' tt in (r.0, r.1);
}

kept-Triple : {A : Type 0} (m : Tx A) → Keeps Good m → Triple Good (λ _. Unit) m Top
kept-Triple m h = record { run = λ s g g' p. let (k, k') = h.kept s g g' in (k, k', λ a e. tt) }

aside-Top : {A : Type 0} (m : Tx A) → IsAside m → Triple Good (λ _. Unit) m Top
aside-Top m h = Triple-aside (λ _ _. Unit) m h

-- a commit, and a call that only reads
commit_then : {A : Type 0} (m : Tx A) → IsAside m → Triple Good (λ _. Unit) (commit >>= λ _. m) Top
commit_then m h = Triple-bind Top _ _ (Triple-commit (λ d p. tt)) λ _. aside-Top m h

get_pending-Triple :
    (id : Key) → Triple Good (λ _. Unit) (get_pending_ceremony id) (λ c d. In c d.ceremonies)
unfolding get_pending_ceremony
get_pending-Triple id =
    Triple-bind (λ o d. o ≡ find (λ (c : KeyCeremony). c.id == id) d.ceremonies) _ _
      (Triple-gets _ (λ d p. refl))
      λ o.
        Triple-bind (λ c d. In c d.ceremonies) _ _
          (Triple-or_raise o _ (λ c e d p. let (i, _) = find-In _ d.ceremonies c (sym p ∙ e) in i))
          λ c.
            Triple-bind (λ _ d. In c d.ceremonies) _ _ (Triple-raise_if _ _ (λ d p e. p))
              λ _. Triple-pure c (λ d g p. p)

module _ ⦃rt : Runtime⦄ where
  finish-Triple :
      (c : KeyCeremony) (n : ℕ) (actor : String)
      → Triple Good (λ d. Reached c d.ceremonies d.approvals) (finish c n actor) Top
  unfolding finish
  finish-Triple c n actor = Triple-bind _ _ _ (Triple-aside (Reached c) _ IsAside-now) λ t.
      Triple-bind _ _ _ (Triple-aside (Reached c) _ (IsAside-master_key_of c)) λ k.
        Triple-bind _ _ _ (Triple-aside (Reached c) _ (IsAside-write_key _ _)) λ _.
          Triple-bind _ _ _ (Triple-aside (Reached c) _ (IsAside-retire _ _ _))
            λ _. Triple-bind Top _ _ (close-Triple c t) λ _. aside-Top _ (search key_rules)

  complete-Triple :
      (id : Key) (actor : String) → Triple Good (λ _. Unit) (complete_ceremony id actor) Top
  unfolding complete_ceremony
  complete-Triple id actor = Triple-bind _ _ _ (get_pending-Triple id) λ c.
      Triple-bind (λ ts d. In c d.ceremonies × (ts ≡ d.approvals)) _ _
        (Triple-gets _ (λ d p. (p, refl)))
        λ ts.
          Triple-bind (λ _ d. Reached c d.ceremonies d.approvals) _ _
            (Triple-raise_if _ _ (λ d p e. (p.0, rw (sym p.1) (ground arith))))
            λ _.
              Triple-bind Top _ _ (finish-Triple c _ actor)
                λ _. commit_then _ (IsAside-get_ceremony id)

  audit_approval-IsAside : (c : KeyCeremony) (e : String) → IsAside (audit_approval c e)
  unfolding audit_approval
  audit_approval-IsAside c e = search key_rules depth 10

  approve-Triple :
      (c : KeyCeremony) (e : String) (found : Option KeyCustodianApproval)
      → Triple Good (λ d. found ≡ find (is_by c e) d.approvals) (approve c e found) Top
  unfolding approve
  approve-Triple c e none =
      Triple-bind (λ _ d. IsFree c e d.approvals) _ _
        (Triple-weaken (Triple-aside (λ _ ts. none ≡ find (is_by c e) ts) _ IsAside-now) (λ d p. p)
          (λ t d p q i. find-none (is_by c e) d.approvals q (sym p) i))
        λ t.
          Triple-bind (λ _ d. IsFree c e d.approvals) _ _
            (Triple-aside (λ _ ts. IsFree c e ts) _ IsAside-uuid4)
            λ id.
              Triple-bind Top _ _ (add_approval-Triple _)
                λ _. aside-Top _ (audit_approval-IsAside c e)
  approve-Triple c e (some a) = Triple-if _ _ _ (Triple-pure tt (λ d g p. tt)) (
      Triple-bind Top _ _ (Triple-weaken (aside-Top _ IsAside-now) (λ d p. tt) (λ t d p. tt)) λ t.
        Triple-bind Top _ _ (set_approved_at-Triple a.id t)
          λ _. aside-Top _ (audit_approval-IsAside c e))

  approve_ceremony-Triple :
      (id : Key) (e : String) → Triple Good (λ _. Unit) (approve_ceremony id e) Top
  unfolding approve_ceremony
  approve_ceremony-Triple id e =
      Triple-bind Top _ _ (Triple-weaken (get_pending-Triple id) (λ d p. p) (λ c d p. tt)) λ c.
        Triple-bind (λ o d. o ≡ find (is_by c e) d.approvals) _ _ (Triple-gets _ (λ d p. refl))
          λ o.
            Triple-bind Top _ _ (approve-Triple c e o) λ _. commit_then _ (IsAside-get_ceremony id)

  create_ceremony-Triple :
      (p : KeyCeremonyCreate) (actor : String)
      → Triple Good (λ _. Unit) (create_ceremony p actor) Top
  unfolding create_ceremony
  create_ceremony-Triple p actor = Triple-bind Top _ _ (aside-Top _ (IsAside-get_key_orm _)) λ k.
      Triple-bind Top _ _ (aside-Top _ (IsAside-raise_if _ _)) λ _.
        Triple-bind Top _ _ (aside-Top _ (IsAside-predecessor_of _ _)) λ l.
          Triple-bind Top _ _ (aside-Top _ (IsAside-gets _)) λ o.
            Triple-bind Top _ _ (aside-Top _ (IsAside-raise_if _ _)) λ _.
              Triple-bind Top _ _ (aside-Top _ IsAside-now) λ t.
                Triple-bind Top _ _ (aside-Top _ IsAside-uuid4) λ id.
                  Triple-bind Top _ _ (aside-Top _ IsAside-uuid4) λ reference.
                    Triple-bind Top _ _ (add_ceremony-Triple _ (λ e. cc)) λ _.
                      Triple-bind Top _ _ (aside-Top _ (IsAside-audit_key _ _ _ _ _))
                        λ _. commit_then _ (IsAside-get_ceremony id)

  create_key-Keeps : (p : MasterKeyCreate) (actor : String) → Keeps Good (create_key p actor)
  unfolding create_key
  create_key-Keeps p actor = search (keeps_rules, aside-Keeps, key_rules) depth 20

  rotate_key-Keeps :
      (id : Key) (actor : String) (label : Option String) → Keeps Good (rotate_key id actor label)
  unfolding rotate_key
  rotate_key-Keeps id actor label = search (keeps_rules, aside-Keeps, key_rules) depth 20

  disable_key-Keeps : (id : Key) (actor : String) → Keeps Good (disable_key id actor)
  unfolding disable_key
  disable_key-Keeps id actor = search (keeps_rules, aside-Keeps, key_rules) depth 20

  run-Triple : (o : KeyRequest) → Triple Good (λ _. Unit) (run_key_request o) Top
  unfolding run_key_request
  run-Triple (registering p actor) = Triple-discard _ (kept-Triple _ (create_key-Keeps p actor))
  run-Triple (rotating id actor label) =
      Triple-discard _ (kept-Triple _ (rotate_key-Keeps id actor label))
  run-Triple (disabling id actor) = Triple-discard _ (kept-Triple _ (disable_key-Keeps id actor))
  run-Triple (initiating p actor) = Triple-discard _ (create_ceremony-Triple p actor)
  run-Triple (approving id e) = Triple-discard _ (approve_ceremony-Triple id e)
  run-Triple (completing id actor) = Triple-discard _ (complete-Triple id actor)

  -- Where ceremony ids are distinct, no custodian has two approvals of a ceremony and each
  -- complete ceremony has its quorum, every sequence of requests on keys and ceremonies (registering,
  -- rotating, disabling, initiating, approving, completing), each succeeding or failing, keeps it
  -- so: in particular no ceremony completes with fewer approving custodians than it requires.
  pub quorum_always_reached :
      (os : List KeyRequest) (w : World)
      → HasQuorum w.database.ceremonies w.database.approvals
      → let d = (run_key_requests w os).database in HasQuorum d.ceremonies d.approvals
  unfolding run_key_requests request
  quorum_always_reached [] w h = h
  quorum_always_reached (o ∷ os) w h =
      quorum_always_reached os (request (run_key_request o) w).1
        ((run-Triple o).run (open_session w) h h tt).1
