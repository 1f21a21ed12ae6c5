-- ===== src/Runtime.antt =====
-- What the services call and this repository does not hold: the text functions of Python, JSON
-- dumping, the hash, the signing key, the password hash, the clock and the random identifiers.
-- `now n` and `uuid4 n` answer the n-th call of the session to its environment.
use vixa_system_config_be.Base.{ℕ, String, Bool, true, List, Option, ◌≡◌}
use vixa_system_config_be.Json.{Json, Fields}

-- Identifiers, and microseconds of UTC since a fixed epoch.
abbrev pub Key : Type 0
Key = ℕ

abbrev pub Time : Type 0
Time = ℕ

pub record Runtime : Type 0 where
  -- `str.lower`, `str.strip`, `repr`, `str.split(",")`, `value.lstrip("-").isdigit()`
  pub lower : String → String
  pub strip : String → String
  pub repr : String → String
  pub split_commas : String → List String
  -- the text of `sorted(set(xs))`
  pub repr_sorted : List String → String
  pub is_integer_text : String → Bool
  -- PostgreSQL's `column ILIKE pattern`
  pub ilike : String → String → Bool
  -- the database's order of texts, and Python's `==` on two values of a JSON column
  pub collate : String → String → Bool
  pub equal : Json → Json → Bool
  -- `str(uuid)`, `datetime.isoformat()` in UTC, `json.dumps(..., sort_keys=True)`
  pub uuid_text : Key → String
  pub isoformat : Time → String
  pub dumps : Json → String
  -- `hashlib.sha256(...).hexdigest()`
  pub sha256 : String → String
  -- ECDSA with the key of `get_signing_key`
  pub sign : String → String
  pub verify : String → String → Bool
  pub signing_key_id : String
  -- passlib's bcrypt context, with the salt drawn at a call
  pub hash_password : ℕ → String → String
  pub verify_password : String → String → Bool
  -- `secrets.token_urlsafe`
  -- `jwt.encode` and `jwt.decode` with the secret key, the latter at a time; `uuid.UUID(text)`
  pub jwt_encode : Fields → String
  pub jwt_decode : Time → String → Option Fields
  pub uuid_of_text : String → Option Key
  -- `re.search(r"-v(\d+)$", label)`: the text before the match and the number in it
  pub search_version : String → Option (String × ℕ)
  -- `t.strftime("%Y%m%d")` and `uuid.hex[:8].upper()`
  pub date_text : Time → String
  pub short_text : Key → String
  -- PostgreSQL's `date_trunc(interval, t)`; none for a unit that it refuses
  pub date_trunc : String → Option (Time → Time)
  -- texts of floats: `round(sum(xs), 1)`, `round((now - taken).total_seconds() / 3600, 1)` and
  -- the score of an anomaly, which is given in millionths
  pub sum_text : List String → String
  pub hours_text : Time → Time → String
  pub score_text : ℕ → String
  -- `settings` of app/core/config.py
  pub access_token_expire_minutes : ℕ
  pub refresh_token_expire_days : ℕ
  pub environment : String
  pub token_urlsafe : ℕ → String
  pub now : ℕ → Time
  pub uuid4 : ℕ → Key

-- A signature made with the key verifies under it.
pub record SignsTruly (rt : Runtime) : Type 0 where
  pub verify-sign : (digest : String) → rt.verify digest (rt.sign digest) ≡ true
