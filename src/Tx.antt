-- ===== src/Tx.antt =====
-- A service call: one SQLAlchemy session (app/db/session.py), with exceptions.
-- The session is opened with `autoflush=False`; each select of the services that must see an
-- earlier write of the same call is preceded by a flush, so writes are made at once here.
pub mod Rules
pub mod Keeps
pub mod Answers
use vixa_system_config_be.Base.{
  ℕ, suc, String, Option, none, some, Bool, true, false, if◌then◌else◌,
}
use vixa_system_config_be.Runtime.{Runtime, Key, Time}
use vixa_system_config_be.Database.{Database}

-- `HTTPException(status_code, detail)`, a violated constraint, a text that is no member of an enum
pub data Error : Type 0 where
  http : ℕ → String → Error
  integrity : String → Error
  lookup : String → Error
  invalid : String → Error

-- the status that the client sees; an exception that is no `HTTPException` is a 500
abbrev pub status_code : Error → ℕ
status_code (http n _) = n
status_code _ = 500

pub data Result (A : Type 0) : Type 0 where
  ok : A → Result A
  err : Error → Result A

-- whether a call has returned
abbrev pub is_ok : {A : Type 0} → Result A → Bool
is_ok (ok a) = true
is_ok (err e) = false

-- `saved` is what is committed, `db` what the session sees. `calls` counts the calls of the clock
-- and of the generators; `sequence` is the last value of the identity column of the audit log.
-- Neither is taken back by a rollback.
pub record Session : Type 0 where
  pub db : Database
  pub saved : Database
  pub calls : ℕ
  pub sequence : ℕ

abbrev pub Tx : Type 0 → Type 0
Tx A = Session → Result A × Session

abbrev pub continue : {A B : Type 0} → Result A → (A → Tx B) → Tx B
continue (ok a) f s = f a s
continue (err e) f s = (err e, s)

pub pure : {A : Type 0} → A → Tx A
pure a s = (ok a, s)

pub raise : {A : Type 0} → Error → Tx A
raise e s = (err e, s)

-- `if test: raise e`
pub raise_if : Bool → Error → Tx (Unit {0})
raise_if true e s = (err e, s)
raise_if false e s = (ok tt, s)

-- the value of an option, or the exception for `None`
pub or_raise : {A : Type 0} → Option A → Error → Tx A
or_raise none e s = (err e, s)
or_raise (some a) e s = (ok a, s)

unfoldable pub gets : {A : Type 0} → (Database → A) → Tx A
gets f s = (ok (f s.db), s)

pub modify : (Database → Database) → Tx (Unit {0})
modify f s = (ok tt, record s { db = f s.db })

-- `db.add(row); db.flush()`: the insertion, unless it violates a constraint
pub add_unless : (Database → Bool) → Error → (Database → Database) → Tx (Unit {0})
add_unless clash e f s = if clash s.db then (err e, s) else (ok tt, record s { db = f s.db })

-- `db.rollback()`
pub rollback : Tx (Unit {0})
rollback s = (ok tt, record s { db = s.saved })

pub commit : Tx (Unit {0})
commit s = (ok tt, record s { saved = s.db })

-- a random value of the environment: a token or a salt
pub draw : {A : Type 0} → (ℕ → A) → Tx A
draw f s = (ok (f s.calls), record s { calls = suc s.calls })

module _ ⦃rt : Runtime⦄ where
  -- `datetime.now(timezone.utc)`
  pub now : Tx Time
  now s = (ok (rt.now s.calls), record s { calls = suc s.calls })

  -- `uuid.uuid4()`
  pub uuid4 : Tx Key
  uuid4 s = (ok (rt.uuid4 s.calls), record s { calls = suc s.calls })

infixl 5 ◌>>=◌ ◌>>◌
-- opening this opens the actions above
unfoldable pub ◌>>=◌ : {A B : Type 0} → Tx A → (A → Tx B) → Tx B
unfolding pure raise raise_if or_raise gets modify add_unless rollback commit draw now uuid4
◌>>=◌ m f s = let (r, s') = m s in continue r f s'

abbrev pub ◌>>◌ : {A B : Type 0} → Tx A → Tx B → Tx B
m >> k = m >>= λ _. k

-- a call whose value is dropped
abbrev pub forget : {A : Type 0} → Result A → Result (Unit {0})
forget (ok a) = ok tt
forget (err e) = err e

unfoldable pub discard : {A : Type 0} → Tx A → Tx (Unit {0})
discard m s = let (r, s') = m s in (forget r, s')

-- `except Exception: await db.rollback(); raise`
unfoldable pub undo : {A : Type 0} → Result A → Session → Result A × Session
undo (ok a) s = (ok a, s)
undo (err e) s = (err e, record s { db = s.saved })

unfoldable pub rolling_back : {A : Type 0} → Tx A → Tx A
rolling_back m s = let (r, s') = m s in undo r s'

-- The state between requests.
pub record World : Type 0 where
  pub database : Database
  pub calls : ℕ
  pub sequence : ℕ

abbrev pub open_session : World → Session
open_session w = record {
  db = w.database;
  saved = w.database;
  calls = w.calls;
  sequence = w.sequence;
}

abbrev pub close_session : Session → World
close_session s = record { database = s.saved; calls = s.calls; sequence = s.sequence }

-- `get_db`: a request runs in a session of its own, and what it has not committed is dropped.
unfoldable pub request : {A : Type 0} → Tx A → World → Result A × World
request m w = let (r, s) = m (open_session w) in (r, close_session s)
