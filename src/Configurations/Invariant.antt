-- ===== src/Configurations/Invariant.antt =====
-- The parts of a request on configuration documents keep the table consistent.
use vixa_system_config_be.Base.{
  String, Option, none, some, List, ◌≡◌, ◌≢◌, refl, sym, ◌∙◌, inl, inr, eq_iff, ◌==◌, arith, In,
  In-snoc_self, In-update, update-In, In-filter, filter-In, update, any, Bool-cases, find, find-In,
  filter, last_by-In, last_by-none, Option-cases,
}
use vixa_system_config_be.Runtime.{Key, Time}
use vixa_system_config_be.Models.Config.{Configuration, active, archived}
use vixa_system_config_be.Database.{Database}
use vixa_system_config_be.Configurations.{
  save, add, clashes, get_configuration_orm, is_active_of, active_configuration, archive_current,
}
use vixa_system_config_be.Configurations.Consistency.{
  IsConsistent, IsConsistent-snoc, IsConsistent-save, Replaces, NoOtherActive, same_row,
  same_active,
}
use vixa_system_config_be.Tx.Rules.{
  Triple, Triple-bind, Triple-pure, Triple-raise_if, Triple-or_raise, Triple-gets, Triple-modify,
}

abbrev pub Good : Database → Type 0
Good d = IsConsistent d.configurations

-- a row that is there and not deleted
abbrev pub Live : Configuration → Database → Type 0
Live c d = In c d.configurations × (c.deleted_at ≡ none)

pub get_orm-Triple :
    (id : Key) → Triple Good (λ _. Unit) (get_configuration_orm id) (λ c d. Live c d × (c.id ≡ id))
unfolding get_configuration_orm
get_orm-Triple id =
    Triple-bind (λ o d. o ≡ find (λ (c : Configuration). c.id == id) d.configurations) _ _
      (Triple-gets _ (λ d p. refl))
      λ o.
        Triple-bind (λ c d. In c d.configurations × (c.id ≡ id)) _ _
          (Triple-or_raise o _ (λ c e d p.
            let (i, q) =
              find-In (λ (c : Configuration). c.id == id) d.configurations c (sym p ∙ e) in
            (i, ground arith)))
          λ c.
            Triple-bind (λ _ d. Live c d × (c.id ≡ id)) _ _
              (Triple-raise_if _ _ (λ d p e. ((p.0, ground arith), p.1)))
              λ _. Triple-pure c (λ d g p. p)

active_some :
    (name : String) (t : List Configuration) (c : Configuration)
    → active_configuration name t ≡ some c
    → In c t × (c.name ≡ name) × (c.status ≡ active)
unfolding active_configuration
active_some name t c h =
    let found = last_by-In (λ (c : Configuration). c.version) (filter (is_active_of name) t) c h in
    let (i, p) = In-filter (is_active_of name) t c found in
    (i, ground (arith, eq_iff c.name name), ground arith)

active_none :
    (name : String) (t : List Configuration) (q : Configuration)
    → IsConsistent t
    → active_configuration name t ≡ none
    → In q t
    → q.name ≡ name
    → q.status ≢ active
unfolding active_configuration
active_none name t q h none_found i n a =
    last_by-none (λ (c : Configuration). c.version) (filter (is_active_of name) t) q none_found
      (filter-In (is_active_of name) t q i (ground (arith, eq_iff q.name name, h.live q i a)))

-- `_active_configuration` finds an active row of a consistent table.
pub active_configuration_of :
    (t : List Configuration) (row : Configuration)
    → IsConsistent t
    → In row t
    → row.status ≡ active
    → active_configuration row.name t ≡ some row
active_configuration_of t row h i a = elim (Option-cases (active_configuration row.name t)) [
  | inl e ↦ absurd (active_none row.name t row h e i refl a)
  | inr (c, e) ↦
      let (j, n, b) = active_some row.name t c e in cc (e, same_active t c row h j i n b a)
]

pub save-Triple :
    (old new : Configuration) (P Q : Database → Type 0)
    → ((d : Database) → Good d → P d → Replaces d.configurations old new)
    → ((d : Database)
        → Good d
        → P d
        → Q (record d {
          configurations =
              update (λ (r : Configuration). r.id == new.id) (λ _. new) d.configurations;
        }))
    → Triple Good P (save new) (λ _. Q)
unfolding save
save-Triple old new P Q may then_ =
    Triple-modify _
      (λ d g p. (IsConsistent-save d.configurations old new g (may d g p), then_ d g p))

pub add-Triple :
    (c : Configuration)
    → c.status ≢ active
    → Triple Good (λ _. Unit) (add c) (λ _ d. In c d.configurations)
unfolding add
add-Triple c idle = record {
  run = λ s g g' p. elim (Bool-cases (any (clashes c) s.db.configurations)) [
    | inl clash ↦ rw clash (g, g', λ a e. cc)
    | inr free ↦ rw free (
      IsConsistent-snoc s.db.configurations c g free idle,
      g',
      λ a e. In-snoc_self c s.db.configurations,
    )
  ];
}

-- The rows after the active version of a name was archived.
archived_rows :
    (t : List Configuration) (config c : Configuration) (at : Time)
    → IsConsistent t
    → In config t
    → config.status ≢ active
    → In c t
    → c.name ≡ config.name
    → c.status ≡ active
    → let new = record c { status = archived; archived_at = some at } in
      let t' = update (λ (r : Configuration). r.id == c.id) (λ _. new) t in
      In config t' × NoOtherActive t' config
archived_rows t config c at h i idle j n a =
    let new = record c { status = archived; archived_at = some at } in
    let kept = update-In (λ (r : Configuration). r.id == c.id) (λ _. new) t config i in
    (
      (ground (arith, same_row t config c h i j)),
      λ q k other name act.
          let (p, m, e) = In-update (λ (r : Configuration). r.id == c.id) (λ _. new) t q k in
          ground (arith, same_active t p c h m j),
    )

pub archive_current-Triple :
    (current : Option Configuration) (config : Configuration) (at : Time)
    → config.status ≢ active
    → Triple Good
        (λ d.
          In config d.configurations
          × (current ≡ active_configuration config.name d.configurations))
        (archive_current current config.id at)
        (λ _ d. In config d.configurations × NoOtherActive d.configurations config)
unfolding archive_current
archive_current-Triple none config at idle =
    Triple-pure tt (λ d g p.
      (p.0, λ q i other n a. active_none config.name d.configurations q g (sym p.1) i n a))
archive_current-Triple (some c) config at idle = elim (Bool-cases (c.id == config.id)) [
  | inl same ↦ rw same (
      Triple-pure tt (λ d g p.
        let (i, n, a) = active_some config.name d.configurations c (sym p.1) in
        absurd (idle (ground (arith, same_row d.configurations c config g i p.0)))))
  | inr other ↦ rw other (
      save-Triple c (record c { status = archived; archived_at = some at }) _ _
        (λ d g p.
          let (i, n, a) = active_some config.name d.configurations c (sym p.1) in
          record {
            present = i;
            id = refl;
            name = refl;
            version = refl;
            active_alone = λ e. cc;
            active_live = λ e. cc;
          })
        (λ d g p.
          let (i, n, a) = active_some config.name d.configurations c (sym p.1) in
          archived_rows d.configurations config c at g p.0 idle i n a))
]
