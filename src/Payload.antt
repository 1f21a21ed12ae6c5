-- ===== src/Payload.antt =====
-- Payloads of configuration documents: checksum, masking and structural validation, the helpers
-- `_checksum`, `_mask_payload` and `_validate_payload` of app/services/config_service.py.
pub mod Masking
use vixa_system_config_be.Base.{
  ℕ, String, ◌⧺◌, List, [], ◌∷◌, ◌++◌, Bool, str_eq, ltb, length, str, if◌then◌else◌,
}
use vixa_system_config_be.Json.{Json, Fields, text, obj, end, field, keys, member}
use vixa_system_config_be.Runtime.{Runtime}

abbrev pub mask : String
mask = "••••••••"

abbrev pub max_payload_keys : ℕ
max_payload_keys = 200

-- `_checksum`
unfoldable pub checksum_of : Runtime → Fields → String
checksum_of rt payload = rt.sha256 (rt.dumps (obj payload))

-- `_mask_payload`
unfoldable pub mask_payload : Fields → List String → Fields
mask_payload end sensitive = end
mask_payload (field k v fs) sensitive =
    field k (if member k sensitive then text mask else v) (mask_payload fs sensitive)

key_errors : Runtime → List String → List String
key_errors rt [] = []
key_errors rt (k ∷ ks) =
    let rest = key_errors rt ks in
    if str_eq (rt.strip k) ""
    then ("invalid payload key: " ⧺ rt.repr k) ∷ rest
    else if str_eq k (rt.strip k)
    then rest
    else ("key '" ⧺ k ⧺ "' has leading/trailing whitespace") ∷ rest

sensitive_errors : List String → List String → List String
sensitive_errors present [] = []
sensitive_errors present (s ∷ ss) =
    let rest = sensitive_errors present ss in
    if member s present
    then rest
    else ("sensitive key '" ⧺ s ⧺ "' is not present in payload") ∷ rest

size_errors : ℕ → List String
size_errors n =
    if ltb max_payload_keys n
    then ("payload has too many keys (>" ⧺ str max_payload_keys ⧺ ")") ∷ []
    else []

-- `_validate_payload`; the request schemas admit no payload but a dict
unfoldable pub validate_payload : Runtime → Fields → List String → List String
unfolding key_errors sensitive_errors size_errors keys
validate_payload rt end sensitive = "payload must be a non-empty object" ∷ []
validate_payload rt (field k v fs) sensitive =
    let names = keys (field k v fs) in
    size_errors (length names) ++ (key_errors rt names ++ sensitive_errors names sensitive)
