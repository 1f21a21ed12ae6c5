-- ===== src/Configurations/Versions.antt =====
-- Version numbers, and what an activation leaves active.
use vixa_system_config_be.Base.{
  ◌≤◌, ◌<◌, String, Bool, false, List, [], ◌∷◌, ◌≡◌, ◌≢◌, refl, ◌⊎◌, inl, inr, eq_iff, ◌==◌, arith,
  In, any, find, Option-cases, or_else,
}
use vixa_system_config_be.Runtime.{Runtime, Key}
use vixa_system_config_be.Models.Config.{Configuration}
use vixa_system_config_be.Payload.{checksum_of}
use vixa_system_config_be.Configurations.{
  ConfigurationUpdate, clashes, add, max_version, next_version, get_configuration_orm, raise_errors,
  create_successor_version, draft_of, given_or,
}
use vixa_system_config_be.Tx.{Error, status_code, err, ◌>>=◌, World, request}

le-max_version :
    (name : String) (t : List Configuration) (c : Configuration)
    → In c t
    → c.name ≡ name
    → c.version ≤ max_version name t
unfolding max_version
le-max_version name [] c i e = absurd i
le-max_version name (x ∷ t) c (inl h) e = ground (arith, eq_iff x.name name)
le-max_version name (x ∷ t) c (inr i) e = ground (arith, le-max_version name t c i e)

-- The next version number of a name exceeds every version of it, deleted ones included.
pub next_version_fresh :
    (name : String) (t : List Configuration) (c : Configuration)
    → In c t
    → c.name ≡ name
    → c.version < next_version name t
unfolding next_version
next_version_fresh name t c i e = omega (arith, le-max_version name t c i e)

any_of_all :
    (p : Configuration → Bool) (t : List Configuration)
    → ((c : Configuration) → In c t → p c ≡ false)
    → any p t ≡ false
unfolding any
any_of_all p [] h = refl
any_of_all p (x ∷ t) h = ground (arith, h x (inl refl), any_of_all p t (λ c i. h c (inr i)))

-- A row with a new key and the next version of its name clashes with none.
pub no_clash_of_next :
    (c : Configuration) (t : List Configuration)
    → ((q : Configuration) → In q t → q.id ≢ c.id)
    → c.version ≡ next_version c.name t
    → any (clashes c) t ≡ false
unfolding clashes
no_clash_of_next c t fresh v =
    any_of_all _ t
      (λ q i. ground (arith, fresh q i, eq_iff q.name c.name, next_version_fresh c.name t q i))

module _ ⦃rt : Runtime⦄ where
  -- If the generator's next identifier is not in use, then the creation of a successor version
  -- never fails on a constraint: where it fails, the client sees a 404 (the base version is missing
  -- or deleted) or a 422 (the payload has validation errors).
  pub successor_never_clashes :
      (id : Key) (p : ConfigurationUpdate) (by : String) (w : World) (e : Error)
      → ((q : Configuration) → In q w.database.configurations → q.id ≢ rt.uuid4 w.calls)
      → (request (create_successor_version id p by) w).0 ≡ err e
      → (status_code e ≡ 404) ⊎ (status_code e ≡ 422)
  unfolding request create_successor_version get_configuration_orm raise_errors add ◌>>=◌
  successor_never_clashes id p by w e fresh h =
      let t = w.database.configurations in
      elim (Option-cases (find (λ (c : Configuration). c.id == id) t)) [
        | inl missing ↦ ground arith
        | inr (base, found) ↦
            let sensitive = or_else p.sensitive_keys base.sensitive_keys in
            let c =
              draft_of (rt.uuid4 w.calls) base.name (next_version base.name t) p.payload sensitive
                (checksum_of rt p.payload) (given_or p.description base.description) by in
            ground (arith, no_clash_of_next c t fresh refl)
      ]
