-- ===== src/Payload/Masking.antt =====
-- What a masked payload shows.
use vixa_system_config_be.Base.{
  String, List, Option, none, some, false, ◌≡◌, refl, ap, ◌∷◌, arith, str_eq, eq_iff, if◌then◌else◌,
}
use vixa_system_config_be.Json.{Json, Fields, text, end, field, keys, member}
use vixa_system_config_be.Payload.{mask, mask_payload}

-- `payload.get(key)`
unfoldable pub entry_of : String → Fields → Option Json
entry_of key end = none
entry_of key (field k v fs) = if str_eq k key then some v else entry_of key fs

pub entry-mask_payload :
    (key : String) (payload : Fields) (sensitive : List String)
    → entry_of key (mask_payload payload sensitive) ≡ (elim (entry_of key payload) [
      | none ↦ none
      | some v ↦ some (if member key sensitive then text mask else v)
    ])
unfolding entry_of mask_payload
entry-mask_payload key end sensitive = refl
entry-mask_payload key (field k v fs) sensitive =
    ground (arith, eq_iff k key, entry-mask_payload key fs sensitive)

pub keys-mask_payload :
    (payload : Fields) (sensitive : List String)
    → keys (mask_payload payload sensitive) ≡ keys payload
unfolding mask_payload keys
keys-mask_payload end sensitive = refl
keys-mask_payload (field k v fs) sensitive = ap (◌∷◌ k) (keys-mask_payload fs sensitive)

-- A masked payload depends on a sensitive value in no way: two payloads with the same keys that
-- agree outside the sensitive keys are masked to the same dict.
abbrev pub Agree : List String → Fields → Fields → Type 0
Agree sensitive end end = Unit
Agree sensitive end (field _ _ _) = ⊥
Agree sensitive (field _ _ _) end = ⊥
Agree sensitive (field k v fs) (field j w gs) =
    (k ≡ j) × (member k sensitive ≡ false → v ≡ w) × Agree sensitive fs gs

pub mask_payload_hides :
    (sensitive : List String) (p q : Fields)
    → Agree sensitive p q
    → mask_payload p sensitive ≡ mask_payload q sensitive
unfolding mask_payload
mask_payload_hides sensitive end end h = refl
mask_payload_hides sensitive end (field _ _ _) h = absurd h
mask_payload_hides sensitive (field _ _ _) end h = absurd h
mask_payload_hides sensitive (field k v fs) (field j w gs) h =
    ground (arith, h.1, mask_payload_hides sensitive fs gs h.2)
