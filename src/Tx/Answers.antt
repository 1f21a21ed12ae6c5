-- ===== src/Tx/Answers.antt =====
-- Reads that always answer: rules for calls that neither raise nor change what the session sees.
use vixa_system_config_be.Base.{arith, ◌≡◌, refl, sym, subst, true, some}
use vixa_system_config_be.Runtime.{Runtime}
use vixa_system_config_be.Database.{Database}
use vixa_system_config_be.Tx.{
  Tx, Session, Result, ok, err, is_ok, continue, ◌>>=◌, pure, gets, now, or_raise, Error,
}

pub record Answers {A : Type 0} (d : Database) (m : Tx A) : Type 0 where
  pub run : (s : Session) → s.db ≡ d → (is_ok (m s).0 ≡ true) × ((m s).1.db ≡ d)

module _ {A : Type 0} {d : Database} where
  pub Answers-pure : (a : A) → Answers d (pure a)
  unfolding pure
  Answers-pure a = record { run = λ s e. (refl, e) }

  pub Answers-or_raise : (a : A) (e : Error) → Answers d (or_raise (some a) e)
  unfolding or_raise
  Answers-or_raise a e = record { run = λ s h. (refl, h) }

module _ ⦃rt : Runtime⦄ {d : Database} where
  pub Answers-now : Answers d now
  unfolding now
  Answers-now = record { run = λ s e. (refl, e) }

module _ {A B : Type 0} {d : Database} where
  Answers-continue :
      (r : Result A) (f : A → Tx B) (s : Session)
      → is_ok r ≡ true
      → s.db ≡ d
      → ((a : A) → Answers d (f a))
      → (is_ok (continue r f s).0 ≡ true) × ((continue r f s).1.db ≡ d)
  Answers-continue (ok a) f s h e k = (k a).run s e
  Answers-continue (err x) f s h e k = absurd (ground arith)

  pub Answers-bind :
      (m : Tx A) (f : A → Tx B) → Answers d m → ((a : A) → Answers d (f a)) → Answers d (m >>= f)
  unfolding ◌>>=◌
  Answers-bind m f hm hf = record {
    run = λ s e.
        let (r, s') = m s in let (fine, same) = hm.run s e in Answers-continue r f s' fine same hf;
  }

  -- What is read is known.
  pub Answers-gets :
      (g : Database → A) (f : A → Tx B) → Answers d (f (g d)) → Answers d (gets g >>= f)
  unfolding ◌>>=◌
  Answers-gets g f h = record {
    run = λ s e.
        subst (λ x. (is_ok (f (g x) s).0 ≡ true) × ((f (g x) s).1.db ≡ d)) (sym e) (h.run s e);
  }
