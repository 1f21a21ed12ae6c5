-- ===== src/Configurations/Consistency.antt =====
-- The invariant of the table of configuration documents, and how its writes keep it.
use vixa_system_config_be.Base.{
  none, false, List, [], ◌∷◌, ◌++◌, ◌≡◌, ◌≢◌, sym, inl, inr, eq_iff, ◌==◌, arith, In, In-append,
  In-update, update, any, any_none, IsPairwise, pairwise_cases, IsPairwise-snoc, IsPairwise-update,
  if◌then◌else◌,
}
use vixa_system_config_be.Models.Config.{Configuration, active}
use vixa_system_config_be.Configurations.{clashes}

-- Two rows are different documents: other keys, other versions of a name, and not both active
-- under one name.
pub record Apart (a b : Configuration) : Type 0 where
  pub ids : a.id ≢ b.id
  pub versions : a.name ≡ b.name → a.version ≢ b.version
  pub one_active : a.name ≡ b.name → a.status ≡ active → b.status ≢ active

-- At most one version of a name is active, no deleted one is, and keys and versions are unique.
pub record IsConsistent (t : List Configuration) : Type 0 where
  pub apart : IsPairwise Apart t
  pub live : (c : Configuration) → In c t → c.status ≡ active → c.deleted_at ≡ none

Apart-sym : {a b : Configuration} → Apart a b → Apart b a
Apart-sym h = record {
  ids = λ e. h.ids (sym e);
  versions = λ n v. h.versions (sym n) (sym v);
  one_active = λ n x y. h.one_active (sym n) y x;
}

-- Rows of a consistent table with one key are one row.
pub same_row :
    (t : List Configuration) (a b : Configuration)
    → IsConsistent t
    → In a t
    → In b t
    → a.id ≡ b.id
    → a ≡ b
same_row t a b h i j e = elim (pairwise_cases Apart t a b h.apart i j) [
  | inl same ↦ same
  | inr (inl apart) ↦ absurd (apart.ids e)
  | inr (inr apart) ↦ absurd (apart.ids (sym e))
]

-- Two active rows of one name are one row.
pub same_active :
    (t : List Configuration) (a b : Configuration)
    → IsConsistent t
    → In a t
    → In b t
    → a.name ≡ b.name
    → a.status ≡ active
    → b.status ≡ active
    → a ≡ b
same_active t a b h i j e x y = elim (pairwise_cases Apart t a b h.apart i j) [
  | inl same ↦ same
  | inr (inl apart) ↦ absurd (apart.one_active e x y)
  | inr (inr apart) ↦ absurd (apart.one_active (sym e) y x)
]

Apart-of_no_clash : (c q : Configuration) → clashes c q ≡ false → c.status ≢ active → Apart q c
unfolding clashes
Apart-of_no_clash c q e idle = record {
  ids = λ h. ground arith;
  versions = λ n v. ground (arith, eq_iff q.name c.name);
  one_active = λ n x y. idle y;
}

-- A new row that clashes with none and is not active keeps the table consistent.
pub IsConsistent-snoc :
    (t : List Configuration) (c : Configuration)
    → IsConsistent t
    → any (clashes c) t ≡ false
    → c.status ≢ active
    → IsConsistent (t ++ c ∷ [])
IsConsistent-snoc t c h free idle = record {
  apart =
      IsPairwise-snoc Apart t c h.apart
        (λ q i. Apart-of_no_clash c q (any_none (clashes c) t q free i) idle);
  live = λ q i. elim (In-append q t (c ∷ []) i) [
    | inl old ↦ h.live q old
    | inr (inl new) ↦ rw new (λ a. absurd (idle a))
    | inr (inr nowhere) ↦ absurd nowhere
  ];
}

-- No other row of the name is active.
abbrev pub NoOtherActive : List Configuration → Configuration → Type 0
NoOtherActive t c = (q : Configuration) → In q t → q.id ≢ c.id → q.name ≡ c.name → q.status ≢ active

-- What `save` may write in place of a row.
pub record Replaces (t : List Configuration) (old new : Configuration) : Type 0 where
  pub present : In old t
  pub id : new.id ≡ old.id
  pub name : new.name ≡ old.name
  pub version : new.version ≡ old.version
  pub active_alone : new.status ≡ active → NoOtherActive t old
  pub active_live : new.status ≡ active → new.deleted_at ≡ none

replaced-Apart :
    (t : List Configuration) (old new a b : Configuration)
    → IsConsistent t
    → Replaces t old new
    → In a t
    → In b t
    → Apart a b
    → Apart (if a.id == new.id then new else a) (if b.id == new.id then new else b)
replaced-Apart t old new a b h r i j ab = record {
  ids = ground arith;
  versions = ground (arith, same_row t a old h i r.present, same_row t b old h j r.present);
  one_active = λ n x y. ground (
    arith,
    same_row t a old h i r.present,
    same_row t b old h j r.present,
    λ (e : new.status ≡ active). r.active_alone e a i,
    λ (e : new.status ≡ active). r.active_alone e b j,
  );
}

pub IsConsistent-save :
    (t : List Configuration) (old new : Configuration)
    → IsConsistent t
    → Replaces t old new
    → IsConsistent (update (λ (q : Configuration). q.id == new.id) (λ _. new) t)
IsConsistent-save t old new h r = record {
  apart =
      IsPairwise-update Apart (λ q. q.id == new.id) (λ _. new) t h.apart
        (λ a b i j ab. replaced-Apart t old new a b h r i j ab);
  live = λ q i.
      let (p, j, e) = In-update (λ q. q.id == new.id) (λ _. new) t q i in
      rw e (ground (arith, h.live p j, r.active_live));
}
