-- ===== src/Patch.antt =====
-- The fields of a partial update: `payload.model_dump(exclude_unset=True)` with the `setattr` loop of
-- app/services/tenancy_service.py and app/services/notification_service.py.
use vixa_system_config_be.Base.{Option, none, some, Bool, true, false}

-- a field of a patch: left out, `None`, or a value
pub data Patch (A : Type 0) : Type 0 where
  unset null : Patch A
  given : A → Patch A

abbrev pub is_null : {A : Type 0} → Patch A → Bool
is_null null = true
is_null _ = false

-- the value after a patch of a column that cannot be null, and of one that can
abbrev pub patch : {A : Type 0} → Patch A → A → A
patch (given a) old = a
patch _ old = old

abbrev pub patch_nullable : {A : Type 0} → Patch A → Option A → Option A
patch_nullable unset old = old
patch_nullable null old = none
patch_nullable (given a) old = some a
