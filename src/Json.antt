-- ===== src/Json.antt =====
-- The values of a JSON column (`dict`, `list` and scalars of Python), app/models/*.py.
-- A number is kept as its literal. A dict holds its entries in insertion order.
use vixa_system_config_be.Base.{String, Bool, false, List, [], ◌∷◌, ◌||◌, str_eq}

mutual
  pub data Json : Type 0 where
    null : Json
    bool : Bool → Json
    num : String → Json
    text : String → Json
    arr : Items → Json
    obj : Fields → Json

  pub data Items : Type 0 where
    nil : Items
    cons : Json → Items → Items

  pub data Fields : Type 0 where
    end : Fields
    field : String → Json → Fields → Fields

-- `list(d)`, the keys of a dict
unfoldable pub keys : Fields → List String
keys end = []
keys (field k v fs) = k ∷ keys fs

-- `s in xs`
unfoldable pub member : String → List String → Bool
member s [] = false
member s (x ∷ xs) = str_eq s x || member s xs
