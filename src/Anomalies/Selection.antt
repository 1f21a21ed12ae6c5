-- ===== src/Anomalies/Selection.antt =====
-- Writes to the anomalies that a list of ids selects, one after another and at once.
use vixa_system_config_be.Base.{
  Bool, true, false, List, [], ◌∷◌, ◌≡◌, refl, ap, sym, ◌∙◌, inl, inr, arith, ◌==◌, ==_iff, ◌||◌,
  filter, any, update, unique_by, In, In-filter, filter-In, any-of_In, any-delete_other,
  update-cong, find-any, find-In, Bool-cases, if◌then◌else◌,
}
use vixa_system_config_be.Runtime.{Key, Time}
use vixa_system_config_be.Models.Anomaly.{
  AnomalyStatus, open_status, investigating, resolved, dismissed, AnomalyEvent,
}
use vixa_system_config_be.Rbac.Tables.{has, same_key}
use vixa_system_config_be.Anomalies.{transition}

true_not_false : true ≡ false → ⊥
true_not_false e = cc

abbrev pub is_event : Key → AnomalyEvent → Bool
is_event id r = r.id == id

-- the writes of the loop, one after another
unfoldable pub write_all :
    (AnomalyEvent → AnomalyEvent) → List AnomalyEvent → List AnomalyEvent → List AnomalyEvent
write_all f [] t = t
write_all f (e ∷ es) t = write_all f es (update (is_event e.id) f t)

-- one of the events has the id
abbrev pub selected : List AnomalyEvent → AnomalyEvent → Bool
selected es r = any (λ (e : AnomalyEvent). e.id == r.id) es

module _ (status : AnomalyStatus) (at : Time) where
  transition-id : (r : AnomalyEvent) → (transition status at r).id ≡ r.id
  unfolding transition
  transition-id r = elim status as (λ s. (transition s at r).id ≡ r.id) [
    | open_status ↦ refl
    | investigating ↦ refl
    | resolved ↦ refl
    | dismissed ↦ refl
  ]

  transition_again :
      (r : AnomalyEvent) → transition status at (transition status at r) ≡ transition status at r
  unfolding transition
  transition_again r =
      elim status as (λ s. transition s at (transition s at r) ≡ transition s at r) [
        | open_status ↦ refl
        | investigating ↦ refl
        | resolved ↦ refl
        | dismissed ↦ refl
      ]

  twice_row :
      (id : Key) (es : List AnomalyEvent) (r : AnomalyEvent)
      → let r' = if r.id == id then transition status at r else r in
        (if selected es r' then transition status at r' else r')
        ≡ (if id == r.id || selected es r then transition status at r else r)
  twice_row id es r =
      let same : selected es (transition status at r) ≡ selected es r =
        ap (λ k. any (λ (e : AnomalyEvent). e.id == k) es) (transition-id r) in
      let again = transition_again r in ground arith

  -- Two writes of the same transition are one.
  update_twice :
      (id : Key) (es t : List AnomalyEvent)
      → update (selected es) (transition status at) (update (is_event id) (transition status at) t)
        ≡ update (λ (r : AnomalyEvent). id == r.id || selected es r) (transition status at) t
  unfolding update
  update_twice id es [] = refl
  update_twice id es (r ∷ rs) = rw (twice_row id es r, update_twice id es rs) refl

  update_nothing : (t : List AnomalyEvent) → update (selected []) (transition status at) t ≡ t
  unfolding update any
  update_nothing [] = refl
  update_nothing (r ∷ rs) = ap (◌∷◌ r) (update_nothing rs)

  pub write_all-update :
      (es t : List AnomalyEvent)
      → write_all (transition status at) es t ≡ update (selected es) (transition status at) t
  unfolding write_all any
  write_all-update [] t = sym (update_nothing t)
  write_all-update (e ∷ es) t =
      write_all-update es (update (is_event e.id) (transition status at) t)
      ∙ update_twice e.id es t
      ∙ update-cong _ _ _ t (λ r i. ground arith)

-- The events of a selection by ids are the rows with these ids.
pub selected_by_ids :
    (ids : List Key) (t : List AnomalyEvent) (r : AnomalyEvent)
    → In r t
    → selected (filter (λ (e : AnomalyEvent). has e.id ids) t) r ≡ has r.id ids
selected_by_ids ids t r i = elim (Bool-cases (has r.id ids)) [
  | inl wanted ↦
      any-of_In _ (filter (λ (e : AnomalyEvent). has e.id ids) t) r
        (filter-In (λ (e : AnomalyEvent). has e.id ids) t r i wanted) ((==_iff r.id r.id).1 refl)
      ∙ sym wanted
  | inr other ↦ elim (Bool-cases (selected (filter (λ (e : AnomalyEvent). has e.id ids) t) r)) [
    | inl found ↦
        let (e, f) = find-any _ _ found in
        let (j, same) = find-In _ _ e f in
        let (k, wanted) = In-filter (λ (x : AnomalyEvent). has x.id ids) t e j in
        absurd
          (true_not_false (sym wanted ∙ ap (λ x. has x ids) ((==_iff e.id r.id).0 same) ∙ other))
    | inr missing ↦ missing ∙ sym other
  ]
]

-- Taking the repetitions out of a list of ids keeps the ids.
pub has-unique_by : (k : Key) (ids : List Key) → has k (unique_by same_key ids) ≡ has k ids
unfolding unique_by any
has-unique_by k [] = refl
has-unique_by k (i ∷ is) = elim (Bool-cases (i == k)) [
  | inl same ↦ ground arith
  | inr other ↦
      let kept =
        any-delete_other (λ x. x == k) (same_key i) (unique_by same_key is) (λ r e. ground arith) in
      let rest = has-unique_by k is in ground arith
]
