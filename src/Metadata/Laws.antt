-- ===== src/Metadata/Laws.antt =====
-- What the redaction of audit metadata guarantees.
use vixa_system_config_be.Base.{Bool, true, false, ◌≡◌, refl, sym, ap, ◌∷◌, if◌then◌else◌}
use vixa_system_config_be.Json.{
  Json, Items, Fields, null, bool, num, text, arr, obj, nil, cons, end, field, keys,
}
use vixa_system_config_be.Runtime.{Runtime}
use vixa_system_config_be.Metadata.{
  redacted_metadata_value, is_sensitive_key, sanitize_metadata, sanitize_items, sanitize_fields,
}

-- No dict at any depth holds a value other than the marker under a sensitive key.
abbrev mutual
  pub IsClean : Runtime → Json → Type 0
  IsClean rt null = Unit
  IsClean rt (bool b) = Unit
  IsClean rt (num n) = Unit
  IsClean rt (text s) = Unit
  IsClean rt (arr xs) = IsCleanItems rt xs
  IsClean rt (obj fs) = IsCleanFields rt fs

  pub IsCleanItems : Runtime → Items → Type 0
  IsCleanItems rt nil = Unit
  IsCleanItems rt (cons x xs) = IsClean rt x × IsCleanItems rt xs

  pub IsCleanFields : Runtime → Fields → Type 0
  IsCleanFields rt end = Unit
  IsCleanFields rt (field k v fs) =
      (is_sensitive_key rt k ≡ true → v ≡ text redacted_metadata_value)
      × IsClean rt v
      × IsCleanFields rt fs

-- The value that is written under a key, by whether the key is sensitive.
redacted_value :
    (rt : Runtime) (b : Bool) (w : Json)
    → IsClean rt w
    → let x : Json = (if b then text redacted_metadata_value else w) in
      (b ≡ true → x ≡ text redacted_metadata_value) × IsClean rt x
redacted_value rt true w c = (λ _. refl, tt)
redacted_value rt false w c = (λ h. cc, c)

kept_value :
    (b : Bool) (v w : Json)
    → (b ≡ true → v ≡ text redacted_metadata_value)
    → w ≡ v
    → (if b then text redacted_metadata_value else w) ≡ v
kept_value true v w c e = sym (c refl)
kept_value false v w c e = e

mutual
  unfolding sanitize_metadata

  IsClean-value : (rt : Runtime) (j : Json) → IsClean rt (sanitize_metadata rt j)
  IsClean-value rt null = tt
  IsClean-value rt (bool b) = tt
  IsClean-value rt (num n) = tt
  IsClean-value rt (text s) = tt
  IsClean-value rt (arr xs) = IsClean-items rt xs
  IsClean-value rt (obj fs) = IsClean-fields rt fs

  IsClean-items : (rt : Runtime) (xs : Items) → IsCleanItems rt (sanitize_items rt xs)
  IsClean-items rt nil = tt
  IsClean-items rt (cons x xs) = (IsClean-value rt x, IsClean-items rt xs)

  IsClean-fields : (rt : Runtime) (fs : Fields) → IsCleanFields rt (sanitize_fields rt fs)
  IsClean-fields rt end = tt
  IsClean-fields rt (field k v fs) =
      let w =
        redacted_value rt (is_sensitive_key rt k) (sanitize_metadata rt v) (IsClean-value rt v) in
      (w.0, w.1, IsClean-fields rt fs)

mutual
  unfolding sanitize_metadata

  keep_value : (rt : Runtime) (j : Json) → IsClean rt j → sanitize_metadata rt j ≡ j
  keep_value rt null h = refl
  keep_value rt (bool b) h = refl
  keep_value rt (num n) h = refl
  keep_value rt (text s) h = refl
  keep_value rt (arr xs) h = ap arr (keep_items rt xs h)
  keep_value rt (obj fs) h = ap obj (keep_fields rt fs h)

  keep_items : (rt : Runtime) (xs : Items) → IsCleanItems rt xs → sanitize_items rt xs ≡ xs
  keep_items rt nil h = refl
  keep_items rt (cons x xs) h = cc (keep_value rt x h.0, keep_items rt xs h.1)

  keep_fields : (rt : Runtime) (fs : Fields) → IsCleanFields rt fs → sanitize_fields rt fs ≡ fs
  keep_fields rt end h = refl
  keep_fields rt (field k v fs) h = cc (
    kept_value (is_sensitive_key rt k) v (sanitize_metadata rt v) h.0 (keep_value rt v h.1),
    keep_fields rt fs h.2,
  )

-- After the redaction, every value at any depth that stands under a sensitive key is the marker;
-- and a value that already is so is left exactly as it is.
pub sanitize_metadata_redacts :
    (rt : Runtime) (j : Json)
    → IsClean rt (sanitize_metadata rt j) × (IsClean rt j → sanitize_metadata rt j ≡ j)
sanitize_metadata_redacts rt j = (IsClean-value rt j, keep_value rt j)

pub sanitize_fields-IsClean :
    (rt : Runtime) (fs : Fields) → IsCleanFields rt (sanitize_fields rt fs)
sanitize_fields-IsClean rt fs = IsClean-fields rt fs

pub sanitize_fields_of_clean :
    (rt : Runtime) (fs : Fields) → IsCleanFields rt fs → sanitize_fields rt fs ≡ fs
sanitize_fields_of_clean rt fs h = keep_fields rt fs h

pub keys-sanitize_fields : (rt : Runtime) (fs : Fields) → keys (sanitize_fields rt fs) ≡ keys fs
unfolding sanitize_metadata keys
keys-sanitize_fields rt end = refl
keys-sanitize_fields rt (field k v fs) = ap (◌∷◌ k) (keys-sanitize_fields rt fs)
