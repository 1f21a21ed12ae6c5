-- ===== src/Hsm/Ceremonies/Aside.antt =====
-- The calls that touch neither the ceremonies nor the approvals, and commit nothing.
use vixa_system_config_be.Base.{
  ◌≡◌, refl, ◌∙◌, Bool, true, false, Option, none, some, String, arith,
}
use vixa_system_config_be.Runtime.{Runtime, Key, Time}
use vixa_system_config_be.Json.{Fields}
use vixa_system_config_be.Database.{Database}
use vixa_system_config_be.Models.Audit.{AuditLogEntry, AuditLogEntryCreate}
use vixa_system_config_be.Models.Hsm.{MasterKey, KeyCeremony, SecurityOperationType}
use vixa_system_config_be.Audit.{append_entry_in_transaction}
use vixa_system_config_be.Audit.Append.{Appends, append-Appends}
use vixa_system_config_be.Hsm.{
  add_key, write_key, get_key_orm, assert_label_available, require_slot, record_operation,
  audit_key, get_key,
}
use vixa_system_config_be.Hsm.Ceremonies.{master_key_of, retire, predecessor_of, get_ceremony}
use vixa_system_config_be.Tx.{
  Tx, Session, Error, Result, ok, err, continue, ◌>>=◌, pure, raise_if, or_raise, gets, modify,
  add_unless, now, uuid4,
}

abbrev pub Same : Database → Database → Type 0
Same d d' = (d'.ceremonies ≡ d.ceremonies) × (d'.approvals ≡ d.approvals)

pub record IsAside {A : Type 0} (m : Tx A) : Type 0 where
  pub same : (s : Session) → Same s.db (m s).1.db × ((m s).1.saved ≡ s.saved)

module _ {A : Type 0} where
  pub IsAside-pure : (a : A) → IsAside (pure a)
  unfolding ◌>>=◌
  IsAside-pure a = record { same = λ s. ((refl, refl), refl) }

  pub IsAside-or_raise : (o : Option A) (e : Error) → IsAside (or_raise o e)
  unfolding ◌>>=◌
  IsAside-or_raise none e = record { same = λ s. ((refl, refl), refl) }
  IsAside-or_raise (some a) e = record { same = λ s. ((refl, refl), refl) }

  pub IsAside-gets : (f : Database → A) → IsAside (gets f)
  unfolding ◌>>=◌
  IsAside-gets f = record { same = λ s. ((refl, refl), refl) }

pub IsAside-raise_if : (b : Bool) (e : Error) → IsAside (raise_if b e)
unfolding ◌>>=◌
IsAside-raise_if true e = record { same = λ s. ((refl, refl), refl) }
IsAside-raise_if false e = record { same = λ s. ((refl, refl), refl) }

pub IsAside-modify :
    (f : Database → Database) → ((d : Database) → Same d (f d)) → IsAside (modify f)
unfolding ◌>>=◌
IsAside-modify f h = record { same = λ s. (h s.db, refl) }

pub IsAside-add_unless :
    (clash : Database → Bool) (e : Error) (f : Database → Database)
    → ((d : Database) → Same d (f d))
    → IsAside (add_unless clash e f)
unfolding ◌>>=◌
IsAside-add_unless clash e f h = record { same = λ s. ground (arith, h s.db) }

module _ ⦃rt : Runtime⦄ where
  pub IsAside-now : IsAside now
  unfolding ◌>>=◌
  IsAside-now = record { same = λ s. ((refl, refl), refl) }

  pub IsAside-uuid4 : IsAside uuid4
  unfolding ◌>>=◌
  IsAside-uuid4 = record { same = λ s. ((refl, refl), refl) }

  pub IsAside-append : (p : AuditLogEntryCreate) → IsAside (append_entry_in_transaction p)
  IsAside-append p = record {
    same = λ s. let (r, s') = append_entry_in_transaction p s in go s r s' (append-Appends p s);
  }
    where
      go :
          (s : Session) (r : Result AuditLogEntry) (s' : Session)
          → Appends s (r, s')
          → Same s.db s'.db × (s'.saved ≡ s.saved)
      go s (err e) s' a = (rw a.0 (refl, refl), a.1)
      go s (ok row) s' a = (rw a.0 (refl, refl), a.1)

module _ {A B : Type 0} where
  aside_continue :
      (r : Result A) (f : A → Tx B) (s : Session)
      → ((a : A) → IsAside (f a))
      → Same s.db (continue r f s).1.db × ((continue r f s).1.saved ≡ s.saved)
  aside_continue (ok a) f s h = (h a).same s
  aside_continue (err e) f s h = ((refl, refl), refl)

  pub IsAside-bind :
      (m : Tx A) (f : A → Tx B) → IsAside m → ((a : A) → IsAside (f a)) → IsAside (m >>= f)
  unfolding ◌>>=◌
  IsAside-bind m f hm hf = record {
    same = λ s.
        let (r, s') = m s in
        let ((a, b), c) = hm.same s in
        let ((a', b'), c') = aside_continue r f s' hf in ((a' ∙ a, b' ∙ b), c' ∙ c);
  }

pub IsAside-write_key : (id : Key) (f : MasterKey → MasterKey) → IsAside (write_key id f)
unfolding write_key
IsAside-write_key id f = IsAside-modify _ (λ d. (refl, refl))

pub IsAside-add_key : (k : MasterKey) → IsAside (add_key k)
unfolding add_key
IsAside-add_key k = IsAside-add_unless _ _ _ (λ d. (refl, refl))

pub IsAside-retire : (o : Option String) (id : Key) (t : Time) → IsAside (retire o id t)
unfolding retire
IsAside-retire none id t = IsAside-pure tt
IsAside-retire (some label) id t = IsAside-modify _ (λ d. ground arith)

pub ruleset aside_rules = (
  IsAside-pure, IsAside-or_raise, IsAside-gets, IsAside-raise_if, IsAside-now, IsAside-uuid4,
  IsAside-append, IsAside-write_key, IsAside-add_key, IsAside-retire, IsAside-bind,
)

pub IsAside-get_key_orm : (id : Key) → IsAside (get_key_orm id)
unfolding get_key_orm
IsAside-get_key_orm id = search aside_rules

pub IsAside-master_key_of : (c : KeyCeremony) → IsAside (master_key_of c)
unfolding master_key_of
IsAside-master_key_of c = search aside_rules

pub IsAside-get_ceremony : (id : Key) → IsAside (get_ceremony id)
unfolding get_ceremony
IsAside-get_ceremony id = search aside_rules

pub IsAside-label : (label : String) → IsAside (assert_label_available label)
unfolding assert_label_available
IsAside-label label = search aside_rules

pub IsAside-require_slot : (o : Option Key) → IsAside (require_slot o)
unfolding require_slot
IsAside-require_slot none = search aside_rules
IsAside-require_slot (some id) = search aside_rules depth 8

pub IsAside-predecessor_of : (id : Key) (o : Option Key) → IsAside (predecessor_of id o)
unfolding predecessor_of
IsAside-predecessor_of id none = search aside_rules
IsAside-predecessor_of id (some p) = search (aside_rules, IsAside-get_key_orm) depth 10

module _ ⦃rt : Runtime⦄ where
  pub IsAside-record_operation :
      (o : SecurityOperationType) (k : Option Key) (l : Option String) (a d : String) (t : Time)
      → IsAside (record_operation o k l a d t)
  unfolding record_operation
  IsAside-record_operation o k l a d t =
      IsAside-bind _ _ IsAside-uuid4 (λ id. IsAside-add_unless _ _ _ (λ d. (refl, refl)))

  pub IsAside-audit_key : (v t a d : String) (m : Fields) → IsAside (audit_key v t a d m)
  unfolding audit_key
  IsAside-audit_key v t a d m = search aside_rules

  pub IsAside-get_key : (id : Key) → IsAside (get_key id)
  unfolding get_key
  IsAside-get_key id = search (aside_rules, IsAside-get_key_orm)

pub ruleset key_rules = (
  aside_rules, IsAside-get_key_orm, IsAside-master_key_of, IsAside-get_ceremony, IsAside-label,
  IsAside-require_slot, IsAside-predecessor_of, IsAside-record_operation, IsAside-audit_key,
  IsAside-get_key,
)
