-- ===== src/Tests/Demo.antt =====
-- A runtime that the tests can evaluate: the hash is its own input and the signature a prefix.
use vixa_system_config_be.Base.{
  ◌+◌, ◌*◌, String, ◌⧺◌, true, false, [], ◌∷◌, str_eq, eq_refl, str, none, some, if◌then◌else◌,
}
use vixa_system_config_be.Json.{
  Json, Items, Fields, null, bool, num, text, arr, obj, nil, cons, end, field,
}
use vixa_system_config_be.Runtime.{Runtime, SignsTruly}
use vixa_system_config_be.Database
use vixa_system_config_be.Database.{Database}
use vixa_system_config_be.Tx.{World}

abbrev mutual
  pub dump : Json → String
  dump null = "null"
  dump (bool true) = "true"
  dump (bool false) = "false"
  dump (num n) = n
  dump (text s) = "'" ⧺ s ⧺ "'"
  dump (arr xs) = "[" ⧺ dump_items xs ⧺ "]"
  dump (obj fs) = "{" ⧺ dump_fields fs ⧺ "}"

  pub dump_items : Items → String
  dump_items nil = ""
  dump_items (cons x xs) = dump x ⧺ "," ⧺ dump_items xs

  pub dump_fields : Fields → String
  dump_fields end = ""
  dump_fields (field k v fs) = k ⧺ ":" ⧺ dump v ⧺ "," ⧺ dump_fields fs

instance abbrev pub demo : Runtime
demo = record {
  lower = λ s. s;
  strip = λ s. s;
  repr = λ s. "'" ⧺ s ⧺ "'";
  repr_sorted = λ xs. "[]";
  split_commas = λ s. s ∷ [];
  is_integer_text = λ s. str_eq s "42";
  ilike = λ c p. str_eq c p;
  collate = λ a b. true;
  equal = λ a b. str_eq (dump a) (dump b);
  uuid_text = str;
  isoformat = str;
  dumps = dump;
  sha256 = λ s. s;
  sign = λ d. "sig:" ⧺ d;
  verify = λ d s. str_eq s ("sig:" ⧺ d);
  signing_key_id = "demo";
  hash_password = λ n p. p;
  verify_password = λ p h. str_eq p h;
  jwt_encode = λ f. dump_fields f;
  jwt_decode = λ t s. some (field "sub" (text s) end);
  uuid_of_text = λ s. if str_eq s "1" then some 1 else none;
  search_version = λ s. none;
  date_text = str;
  short_text = str;
  date_trunc = λ interval. if str_eq interval "hour" then some (λ t. t) else none;
  sum_text = λ xs. "0.0";
  hours_text = λ now taken. "0.0";
  score_text = str;
  access_token_expire_minutes = 30;
  refresh_token_expire_days = 7;
  environment = "test";
  token_urlsafe = str;
  now = λ n. n * 1000;
  uuid4 = λ n. n + 100;
}

pub demo-SignsTruly : SignsTruly demo
demo-SignsTruly = record { verify-sign = λ d. eq_refl ("sig:" ⧺ d) }

abbrev pub blank : World
blank = record { database = Database.empty; calls = 0; sequence = 0 }
