-- ===== src/Metadata.antt =====
-- The redaction of audit metadata, `sanitize_metadata` of app/services/audit_service.py.
pub mod Laws
use vixa_system_config_be.Base.{String, Bool, List, [], ◌∷◌, if◌then◌else◌}
use vixa_system_config_be.Json.{
  Json, Items, Fields, null, bool, num, text, arr, obj, nil, cons, end, field, member,
}
use vixa_system_config_be.Runtime.{Runtime}

abbrev pub redacted_metadata_value : String
redacted_metadata_value = "[REDACTED]"

pub sensitive_metadata_keys : List String
sensitive_metadata_keys =
    "access_token" ∷ "api_key" ∷ "apikey" ∷ "authorization" ∷ "credential" ∷ "credentials"
    ∷ "password" ∷ "private_key" ∷ "refresh_token" ∷ "secret" ∷ "secret_key" ∷ "token" ∷ []

-- `str(key).lower() in SENSITIVE_METADATA_KEYS`
unfoldable pub is_sensitive_key : Runtime → String → Bool
unfolding member sensitive_metadata_keys
is_sensitive_key rt key = member (rt.lower key) sensitive_metadata_keys

unfoldable mutual
  pub sanitize_metadata : Runtime → Json → Json
  sanitize_metadata rt null = null
  sanitize_metadata rt (bool b) = bool b
  sanitize_metadata rt (num n) = num n
  sanitize_metadata rt (text s) = text s
  sanitize_metadata rt (arr xs) = arr (sanitize_items rt xs)
  sanitize_metadata rt (obj fs) = obj (sanitize_fields rt fs)

  pub sanitize_items : Runtime → Items → Items
  sanitize_items rt nil = nil
  sanitize_items rt (cons x xs) = cons (sanitize_metadata rt x) (sanitize_items rt xs)

  pub sanitize_fields : Runtime → Fields → Fields
  sanitize_fields rt end = end
  sanitize_fields rt (field k v fs) =
      field k
        (if is_sensitive_key rt k then text redacted_metadata_value else sanitize_metadata rt v)
        (sanitize_fields rt fs)
