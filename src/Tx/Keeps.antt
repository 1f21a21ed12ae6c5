-- ===== src/Tx/Keeps.antt =====
-- Rules for the invariants of the tables: a service call that keeps one keeps it in what it sees and
-- in what it has committed, returning or raising.
use vixa_system_config_be.Base.{ℕ, ◌≡◌, Bool, true, false, Option, none, some, arith, if◌then◌else◌}
use vixa_system_config_be.Runtime.{Runtime}
use vixa_system_config_be.Database.{Database}
use vixa_system_config_be.Tx.{
  Tx, Session, Error, Result, ok, err, continue, ◌>>=◌, pure, raise, raise_if, or_raise, gets,
  modify, add_unless, rollback, commit, draw, now, uuid4, discard,
}
use vixa_system_config_be.Tx.Rules.{Triple}

pub record Keeps {A : Type 0} (I : Database → Type 0) (m : Tx A) : Type 0 where
  pub kept : (s : Session) → I s.db → I s.saved → I (m s).1.db × I (m s).1.saved

module _ {A : Type 0} {I : Database → Type 0} where
  pub Keeps-pure : (a : A) → Keeps I (pure a)
  unfolding pure
  Keeps-pure a = record { kept = λ s h k. (h, k) }

  pub Keeps-raise : (e : Error) → Keeps I (raise {A = A} e)
  unfolding raise
  Keeps-raise e = record { kept = λ s h k. (h, k) }

  pub Keeps-or_raise : (o : Option A) (e : Error) → Keeps I (or_raise o e)
  unfolding or_raise
  Keeps-or_raise none e = record { kept = λ s h k. (h, k) }
  Keeps-or_raise (some a) e = record { kept = λ s h k. (h, k) }

  pub Keeps-gets : (f : Database → A) → Keeps I (gets f)
  unfolding gets
  Keeps-gets f = record { kept = λ s h k. (h, k) }

  pub Keeps-draw : (f : ℕ → A) → Keeps I (draw f)
  unfolding draw
  Keeps-draw f = record { kept = λ s h k. (h, k) }

  pub Keeps-if : (b : Bool) (m k : Tx A) → Keeps I m → Keeps I k → Keeps I (if b then m else k)
  Keeps-if true m k hm hk = hm
  Keeps-if false m k hm hk = hk

  pub Keeps-discard : (m : Tx A) → Keeps I m → Keeps I (discard m)
  unfolding discard
  Keeps-discard m h = record { kept = h.kept }

module _ {I : Database → Type 0} where
  pub Keeps-raise_if : (b : Bool) (e : Error) → Keeps I (raise_if b e)
  unfolding raise_if
  Keeps-raise_if true e = record { kept = λ s h k. (h, k) }
  Keeps-raise_if false e = record { kept = λ s h k. (h, k) }

  pub Keeps-rollback : Keeps I rollback
  unfolding rollback
  Keeps-rollback = record { kept = λ s h k. (k, k) }

  pub Keeps-commit : Keeps I commit
  unfolding commit
  Keeps-commit = record { kept = λ s h k. (h, h) }

  pub Keeps-modify :
      (f : Database → Database) → ((d : Database) → I d → I (f d)) → Keeps I (modify f)
  unfolding modify
  Keeps-modify f g = record { kept = λ s h k. (g s.db h, k) }

  pub Keeps-add_unless :
      (clash : Database → Bool) (e : Error) (f : Database → Database)
      → ((d : Database) → clash d ≡ false → I d → I (f d))
      → Keeps I (add_unless clash e f)
  unfolding add_unless
  Keeps-add_unless clash e f g = record { kept = λ s h k. ground (arith, g s.db) }

module _ ⦃rt : Runtime⦄ {I : Database → Type 0} where
  pub Keeps-now : Keeps I now
  unfolding now
  Keeps-now = record { kept = λ s h k. (h, k) }

  pub Keeps-uuid4 : Keeps I uuid4
  unfolding uuid4
  Keeps-uuid4 = record { kept = λ s h k. (h, k) }

module _ {A B : Type 0} {I : Database → Type 0} where
  keeps_continue :
      (r : Result A) (f : A → Tx B) (s : Session)
      → ((a : A) → Keeps I (f a))
      → I s.db
      → I s.saved
      → I (continue r f s).1.db × I (continue r f s).1.saved
  keeps_continue (ok a) f s t h k = (t a).kept s h k
  keeps_continue (err e) f s t h k = (h, k)

  pub Keeps-bind :
      (m : Tx A) (f : A → Tx B) → Keeps I m → ((a : A) → Keeps I (f a)) → Keeps I (m >>= f)
  unfolding ◌>>=◌
  Keeps-bind m f hm hf = record {
    kept = λ s h k.
        let (r, s') = m s in let (h', k') = hm.kept s h k in keeps_continue r f s' hf h' k';
  }

pub ruleset keeps_rules = (
  Keeps-pure, Keeps-raise, Keeps-or_raise, Keeps-gets, Keeps-draw, Keeps-if, Keeps-raise_if,
  Keeps-commit, Keeps-rollback, Keeps-now, Keeps-uuid4, Keeps-bind,
)

module _ {A : Type 0} {I P : Database → Type 0} where
  -- Between what a call keeps and what holds after it.
  pub Triple-kept : (m : Tx A) → Keeps I m → Triple I P m (λ _ _. Unit)
  Triple-kept m h = record { run = λ s g g' p. let (k, k') = h.kept s g g' in (k, k', λ a e. tt) }

module _ {A : Type 0} {I : Database → Type 0} where
  pub Keeps-run : {Q : A → Database → Type 0} (m : Tx A) → Triple I (λ _. Unit) m Q → Keeps I m
  Keeps-run m t = record { kept = λ s h k. let (g, g', _) = t.run s h k tt in (g, g') }
