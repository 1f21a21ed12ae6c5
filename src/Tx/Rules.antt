-- ===== src/Tx/Rules.antt =====
-- Rules for service calls, one for each way to build one: what a call keeps, what holds after it,
-- and which calls leave the committed tables alone when they raise.
use vixa_system_config_be.Base.{
  ℕ, ◌≡◌, refl, ap, ◌∙◌, subst, Bool, true, false, Option, none, some, arith, inl, inr, Bool-cases,
  if◌then◌else◌,
}
use vixa_system_config_be.Runtime.{Runtime}
use vixa_system_config_be.Database.{Database}
use vixa_system_config_be.Tx.{
  Tx, Session, Error, Result, ok, err, continue, ◌>>=◌, pure, raise, raise_if, or_raise, gets,
  modify, add_unless, rollback, commit, draw, now, uuid4, forget, discard, undo, rolling_back,
}

ok-injective : {A : Type 0} {a b : A} → ok a ≡ ok b → a ≡ b
ok-injective h = ground arith

-- From a session whose tables are good, and where `P` holds of what it sees, the call ends with good
-- tables, returning or raising; and where it returns, `Q` holds of the value and of the tables.
pub record Triple {A : Type 0} (Good P : Database → Type 0) (m : Tx A) (Q : A → Database → Type 0)
    : Type 0 where
  pub run :
      (s : Session)
      → Good s.db
      → Good s.saved
      → P s.db
      → Good (m s).1.db × Good (m s).1.saved × ((a : A) → (m s).0 ≡ ok a → Q a (m s).1.db)

module _ {A B : Type 0} {Good : Database → Type 0} where
  Triple-continue :
      {Q : B → Database → Type 0} (R : A → Database → Type 0) (r : Result A) (s : Session)
      (f : A → Tx B)
      → Good s.db
      → Good s.saved
      → ((a : A) → r ≡ ok a → R a s.db)
      → ((a : A) → Triple Good (R a) (f a) Q)
      → Good (continue r f s).1.db
        × Good (continue r f s).1.saved
        × ((b : B) → (continue r f s).0 ≡ ok b → Q b (continue r f s).1.db)
  Triple-continue R (ok a) s f g g' h t = (t a).run s g g' (h a refl)
  Triple-continue R (err e) s f g g' h t = (g, g', λ b q. cc)

module _ {A B : Type 0} {Good P : Database → Type 0} where
  pub Triple-bind :
      {Q : B → Database → Type 0} (R : A → Database → Type 0) (m : Tx A) (f : A → Tx B)
      → Triple Good P m R
      → ((a : A) → Triple Good (R a) (f a) Q)
      → Triple Good P (m >>= f) Q
  unfolding ◌>>=◌
  Triple-bind R m f tm tf = record {
    run = λ s g g' p.
        let (r, s') = m s in let (h, h', k) = tm.run s g g' p in Triple-continue R r s' f h h' k tf;
  }

module _ {A : Type 0} {Good P : Database → Type 0} {Q : A → Database → Type 0} where
  pub Triple-pure : (a : A) → ((d : Database) → Good d → P d → Q a d) → Triple Good P (pure a) Q
  unfolding pure
  Triple-pure a h = record {
    run = λ s g g' p. (g, g', λ b e. subst (λ x. Q x s.db) (ok-injective e) (h s.db g p));
  }

  pub Triple-if :
      (b : Bool) (m k : Tx A)
      → Triple Good P m Q
      → Triple Good P k Q
      → Triple Good P (if b then m else k) Q
  Triple-if true m k hm hk = hm
  Triple-if false m k hm hk = hk

  pub Triple-raise : (e : Error) → Triple Good P (raise e) Q
  unfolding raise
  Triple-raise e = record { run = λ s g g' p. (g, g', λ b q. cc) }

  pub Triple-or_raise :
      (o : Option A) (e : Error)
      → ((a : A) → o ≡ some a → (d : Database) → P d → Q a d)
      → Triple Good P (or_raise o e) Q
  unfolding or_raise
  Triple-or_raise none e h = record { run = λ s g g' p. (g, g', λ b q. cc) }
  Triple-or_raise (some a) e h = record {
    run = λ s g g' p. (g, g', λ b q. subst (λ x. Q x s.db) (ok-injective q) (h a refl s.db p));
  }

  pub Triple-gets :
      (f : Database → A) → ((d : Database) → P d → Q (f d) d) → Triple Good P (gets f) Q
  unfolding gets
  Triple-gets f h = record {
    run = λ s g g' p. (g, g', λ b e. subst (λ x. Q x s.db) (ok-injective e) (h s.db p));
  }

module _ {Good P : Database → Type 0} {Q : Unit {0} → Database → Type 0} where
  pub Triple-raise_if :
      (b : Bool) (e : Error)
      → ((d : Database) → P d → b ≡ false → Q tt d)
      → Triple Good P (raise_if b e) Q
  unfolding raise_if
  Triple-raise_if true e h = record { run = λ s g g' p. (g, g', λ b q. cc) }
  Triple-raise_if false e h = record { run = λ s g g' p. (g, g', λ _ _. h s.db p refl) }

  pub Triple-modify :
      (f : Database → Database)
      → ((d : Database) → Good d → P d → Good (f d) × Q tt (f d))
      → Triple Good P (modify f) Q
  unfolding modify
  Triple-modify f h = record { run = λ s g g' p. let (k, q) = h s.db g p in (k, g', λ _ _. q) }

  pub Triple-add_unless :
      (clash : Database → Bool) (e : Error) (f : Database → Database)
      → ((d : Database) → clash d ≡ false → Good d → P d → Good (f d) × Q tt (f d))
      → Triple Good P (add_unless clash e f) Q
  unfolding add_unless
  Triple-add_unless clash e f h = record {
    run = λ s g g' p. elim (Bool-cases (clash s.db)) [
      | inl violated ↦ rw violated (g, g', λ _ q. cc)
      | inr free ↦ let (k, q) = h s.db free g p in rw free (k, g', λ _ _. q)
    ];
  }

  pub Triple-commit : ((d : Database) → P d → Q tt d) → Triple Good P commit Q
  unfolding commit
  Triple-commit h = record { run = λ s g g' p. (g, g, λ _ _. h s.db p) }

module _ ⦃rt : Runtime⦄ {Good P : Database → Type 0} {Q : ℕ → Database → Type 0} where
  pub Triple-now : ((t : ℕ) (d : Database) → P d → Q t d) → Triple Good P now Q
  unfolding now
  Triple-now h = record { run = λ s g g' p. (g, g', λ b e. h b s.db p) }

  pub Triple-uuid4 : ((t : ℕ) (d : Database) → P d → Q t d) → Triple Good P uuid4 Q
  unfolding uuid4
  Triple-uuid4 h = record { run = λ s g g' p. (g, g', λ b e. h b s.db p) }

module _ {A : Type 0} {Good P : Database → Type 0} where
  pub Triple-weaken :
      {P' : Database → Type 0} {Q Q' : A → Database → Type 0} {m : Tx A}
      → Triple Good P' m Q'
      → ((d : Database) → P d → P' d)
      → ((a : A) (d : Database) → Q' a d → Q a d)
      → Triple Good P m Q
  Triple-weaken t f k = record {
    run = λ s g g' p. let (h, h', q) = t.run s g g' (f s.db p) in (h, h', λ a e. k a _ (q a e));
  }

  -- A fact that no table takes part in.
  pub Triple-given :
      {F : Type 0} {Q : A → Database → Type 0} (m : Tx A)
      → (F → Triple Good P m Q)
      → Triple Good (λ d. F × P d) m Q
  Triple-given m t = record { run = λ s g g' p. (t p.0).run s g g' p.1 }

  pub Triple-discard :
      {Q : A → Database → Type 0} (m : Tx A)
      → Triple Good P m Q
      → Triple Good P (discard m) (λ _ _. Unit)
  unfolding discard
  Triple-discard m t = record {
    run = λ s g g' p. let (h, h', k) = t.run s g g' p in (h, h', λ _ _. tt);
  }

-- A call that returns without a commit, and raises without one.
pub record IsQuiet {A : Type 0} (m : Tx A) : Type 0 where
  pub saved : (s : Session) → (m s).1.saved ≡ s.saved

-- A call that leaves the committed tables alone if it raises.
pub record IsAtomic {A : Type 0} (m : Tx A) : Type 0 where
  pub kept : (s : Session) (e : Error) → (m s).0 ≡ err e → (m s).1.saved ≡ s.saved

module _ {A : Type 0} where
  pub IsQuiet-pure : (a : A) → IsQuiet (pure a)
  unfolding pure
  IsQuiet-pure a = record { saved = λ s. refl }

  pub IsQuiet-raise : (e : Error) → IsQuiet (raise {A = A} e)
  unfolding raise
  IsQuiet-raise e = record { saved = λ s. refl }

  pub IsQuiet-or_raise : (o : Option A) (e : Error) → IsQuiet (or_raise o e)
  unfolding or_raise
  IsQuiet-or_raise none e = record { saved = λ s. refl }
  IsQuiet-or_raise (some a) e = record { saved = λ s. refl }

  pub IsQuiet-gets : (f : Database → A) → IsQuiet (gets f)
  unfolding gets
  IsQuiet-gets f = record { saved = λ s. refl }

pub IsQuiet-raise_if : (b : Bool) (e : Error) → IsQuiet (raise_if b e)
unfolding raise_if
IsQuiet-raise_if true e = record { saved = λ s. refl }
IsQuiet-raise_if false e = record { saved = λ s. refl }

pub IsQuiet-modify : (f : Database → Database) → IsQuiet (modify f)
unfolding modify
IsQuiet-modify f = record { saved = λ s. refl }

pub IsQuiet-rollback : IsQuiet rollback
unfolding rollback
IsQuiet-rollback = record { saved = λ s. refl }

pub IsQuiet-add_unless :
    (clash : Database → Bool) (e : Error) (f : Database → Database) → IsQuiet (add_unless clash e f)
unfolding add_unless
IsQuiet-add_unless clash e f = record { saved = λ s. ground arith }

module _ {A : Type 0} where
  pub IsQuiet-draw : (f : ℕ → A) → IsQuiet (draw f)
  unfolding draw
  IsQuiet-draw f = record { saved = λ s. refl }

  pub IsQuiet-if : (b : Bool) (m k : Tx A) → IsQuiet m → IsQuiet k → IsQuiet (if b then m else k)
  IsQuiet-if true m k hm hk = hm
  IsQuiet-if false m k hm hk = hk

module _ ⦃rt : Runtime⦄ where
  pub IsQuiet-now : IsQuiet now
  unfolding now
  IsQuiet-now = record { saved = λ s. refl }

  pub IsQuiet-uuid4 : IsQuiet uuid4
  unfolding uuid4
  IsQuiet-uuid4 = record { saved = λ s. refl }

module _ {A B : Type 0} where
  quiet_continue :
      (r : Result A) (f : A → Tx B) (s : Session)
      → ((a : A) → IsQuiet (f a))
      → (continue r f s).1.saved ≡ s.saved
  quiet_continue (ok a) f s h = (h a).saved s
  quiet_continue (err e) f s h = refl

  pub IsQuiet-bind :
      (m : Tx A) (f : A → Tx B) → IsQuiet m → ((a : A) → IsQuiet (f a)) → IsQuiet (m >>= f)
  unfolding ◌>>=◌
  IsQuiet-bind m f hm hf = record {
    saved = λ s. let (r, s') = m s in quiet_continue r f s' hf ∙ hm.saved s;
  }

  atomic_continue :
      (r : Result A) (f : A → Tx B) (s : Session) (e : Error)
      → ((a : A) → IsAtomic (f a))
      → (continue r f s).0 ≡ err e
      → (continue r f s).1.saved ≡ s.saved
  atomic_continue (ok a) f s e h q = (h a).kept s e q
  atomic_continue (err d) f s e h q = refl

  -- What runs before the commit must be quiet; the rest must be atomic.
  pub IsAtomic-bind :
      (m : Tx A) (f : A → Tx B) → IsQuiet m → ((a : A) → IsAtomic (f a)) → IsAtomic (m >>= f)
  unfolding ◌>>=◌
  IsAtomic-bind m f hm hf = record {
    kept = λ s e q. let (r, s') = m s in atomic_continue r f s' e hf q ∙ hm.saved s;
  }

module _ {A : Type 0} where
  -- After the commit nothing raises.
  pub IsAtomic-commit : (a : A) → IsAtomic (commit >>= λ _. pure a)
  unfolding ◌>>=◌
  IsAtomic-commit a = record { kept = λ s e q. cc }

  forget_err : (r : Result A) (e : Error) → forget r ≡ err e → r ≡ err e
  forget_err (ok a) e h = cc
  forget_err (err d) e h = ground arith

  pub IsAtomic-discard : (m : Tx A) → IsAtomic m → IsAtomic (discard m)
  unfolding discard
  IsAtomic-discard m h = record { kept = λ s e q. h.kept s e (forget_err (m s).0 e q) }

module _ {A : Type 0} where
  undo-saved : (r : Result A) (s : Session) → (undo r s).1.saved ≡ s.saved
  unfolding undo
  undo-saved (ok a) s = refl
  undo-saved (err e) s = refl

  undo_err : (r : Result A) (s : Session) (e : Error) → (undo r s).0 ≡ err e → r ≡ err e
  unfolding undo
  undo_err (ok a) s e h = cc
  undo_err (err d) s e h = h

  pub undo_ok :
      (r : Result A) (s : Session) (a : A) → (undo r s).0 ≡ ok a → (r ≡ ok a) × ((undo r s).1 ≡ s)
  unfolding undo
  undo_ok (ok b) s a h = (h, refl)
  undo_ok (err e) s a h = absurd cc

  pub IsAtomic-rolling_back : (m : Tx A) → IsAtomic m → IsAtomic (rolling_back m)
  unfolding rolling_back
  IsAtomic-rolling_back m h = record {
    kept = λ s e q. let (r, s') = m s in undo-saved r s' ∙ h.kept s e (undo_err r s' e q);
  }

module _ {A B : Type 0} where
  mapped_err :
      (f : A → B) (r : Result A) (s : Session) (e : Error)
      → (continue r (λ a. pure (f a)) s).0 ≡ err e
      → (r ≡ err e) × ((continue r (λ a. pure (f a)) s).1 ≡ s)
  unfolding pure
  mapped_err f (ok a) s e h = cc
  mapped_err f (err d) s e h = (ground arith, refl)

  -- What follows the last effect is a value.
  pub IsAtomic-map : (f : A → B) (m : Tx A) → IsAtomic m → IsAtomic (m >>= λ a. pure (f a))
  unfolding ◌>>=◌
  IsAtomic-map f m h = record {
    kept = λ s e q.
        let (r, s') = m s in
        let (raised, same) = mapped_err f r s' e q in
        ap (λ (t : Session). t.saved) same ∙ h.kept s e raised;
  }

pub IsAtomic-commit_last : IsAtomic commit
unfolding commit
IsAtomic-commit_last = record { kept = λ s e q. cc }

pub ruleset quiet_rules = (
  IsQuiet-pure, IsQuiet-raise, IsQuiet-or_raise, IsQuiet-gets, IsQuiet-raise_if, IsQuiet-modify,
  IsQuiet-now, IsQuiet-uuid4, IsQuiet-draw, IsQuiet-if, IsQuiet-add_unless, IsQuiet-rollback,
  IsQuiet-bind,
)

pub ruleset atomic_rules = (quiet_rules, IsAtomic-bind, IsAtomic-commit, IsAtomic-commit_last)

-- A call that commits all its writes when it returns.
pub record IsCommitted {A : Type 0} (m : Tx A) : Type 0 where
  pub all_saved : (s : Session) (a : A) → (m s).0 ≡ ok a → (m s).1.saved ≡ (m s).1.db

module _ {A B : Type 0} where
  committed_continue :
      (r : Result A) (f : A → Tx B) (s : Session) (b : B)
      → ((a : A) → IsCommitted (f a))
      → (continue r f s).0 ≡ ok b
      → (continue r f s).1.saved ≡ (continue r f s).1.db
  committed_continue (ok a) f s b h q = (h a).all_saved s b q
  committed_continue (err e) f s b h q = cc

  pub IsCommitted-bind :
      (m : Tx A) (f : A → Tx B) → ((a : A) → IsCommitted (f a)) → IsCommitted (m >>= f)
  unfolding ◌>>=◌
  IsCommitted-bind m f h = record {
    all_saved = λ s b q. let (r, s') = m s in committed_continue r f s' b h q;
  }

module _ {A : Type 0} where
  pub IsCommitted-commit : (a : A) → IsCommitted (commit >>= λ _. pure a)
  unfolding ◌>>=◌
  IsCommitted-commit a = record { all_saved = λ s b q. refl }

pub ruleset committed_rules = (IsCommitted-commit, IsCommitted-bind)
