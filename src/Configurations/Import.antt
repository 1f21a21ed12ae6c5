-- ===== src/Configurations/Import.antt =====
-- `import_configurations` of app/services/config_service.py.
use vixa_system_config_be.Base.{ℕ, suc, String, ◌⧺◌, Option, none, some, List, [], ◌∷◌, str}
use vixa_system_config_be.Runtime.{Runtime}
use vixa_system_config_be.Payload.{checksum_of, validate_payload}
use vixa_system_config_be.Configurations.{ConfigurationCreate, add, draft_of, join, next_version}
use vixa_system_config_be.Tx.{Tx, ◌>>=◌, ◌>>◌, pure, gets, commit, uuid4}

pub data Outcome : Type 0 where
  created skipped : Outcome

pub record ImportResultRow : Type 0 where
  pub name : String
  pub version : Option ℕ
  pub outcome : Outcome
  pub detail : String

pub record ImportResponse : Type 0 where
  pub imported : ℕ
  pub skipped : ℕ
  pub rows : List ImportResultRow

module _ ⦃rt : Runtime⦄ where
  -- an item with the errors of its validation
  unfoldable pub import_item : List String → ConfigurationCreate → String → Tx ImportResultRow
  import_item (e ∷ es) item created_by =
      pure (record { name = item.name; version = none; outcome = skipped; detail = join (e ∷ es) })
  import_item [] item created_by = do
    version ← gets (λ d. next_version item.name d.configurations)
    id ← uuid4
    add (
        draft_of id item.name version item.payload item.sensitive_keys (checksum_of rt item.payload)
          item.description created_by)
    pure (record {
      name = item.name;
      version = some version;
      outcome = created;
      detail = "created v" ⧺ str version;
    })

  -- the loop over the items, each flushed before the next
  unfoldable pub import_items : List ConfigurationCreate → String → Tx (List ImportResultRow)
  import_items [] created_by = pure []
  import_items (item ∷ items) created_by = do
    row ← import_item (validate_payload rt item.payload item.sensitive_keys) item created_by
    rows ← import_items items created_by
    pure (row ∷ rows)

-- the counters `imported` and `skipped`, which the loop raises beside each row
unfoldable pub imported_of : List ImportResultRow → ℕ
imported_of [] = 0
imported_of (r ∷ rs) = elim r.outcome [ created ↦ suc (imported_of rs) | skipped ↦ imported_of rs ]

unfoldable pub skipped_of : List ImportResultRow → ℕ
skipped_of [] = 0
skipped_of (r ∷ rs) = elim r.outcome [ created ↦ skipped_of rs | skipped ↦ suc (skipped_of rs) ]

module _ ⦃rt : Runtime⦄ where
  unfoldable pub import_configurations : List ConfigurationCreate → String → Tx ImportResponse
  unfolding imported_of skipped_of
  import_configurations items created_by = do
    rows ← import_items items created_by
    commit
    pure (record { imported = imported_of rows; skipped = skipped_of rows; rows = rows })
