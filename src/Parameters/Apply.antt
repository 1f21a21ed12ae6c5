-- ===== src/Parameters/Apply.antt =====
-- What the promotion of the staged values does to the parameters.
use vixa_system_config_be.Base.{
  ℕ, suc, String, Option, none, some, Bool, true, false, List, [], ◌∷◌, ◌≡◌, ◌≢◌, refl, sym, ◌∙◌,
  ap, inl, inr, arith, ◌==◌, map, length, filter, update, is_some, In, In-filter, IsPairwise,
  if◌then◌else◌,
}
use vixa_system_config_be.Runtime.{Runtime, Key}
use vixa_system_config_be.Database.{Database}
use vixa_system_config_be.Models.Audit.{AuditLogEntry, AuditLogEntryCreate}
use vixa_system_config_be.Models.Config.{ConfigParameter, ConfigChange}
use vixa_system_config_be.Audit.{append_entry_in_transaction}
use vixa_system_config_be.Audit.Append.{Appends, append-Appends}
use vixa_system_config_be.Parameters.{
  write_parameter, close_change, apply_one, apply_staged, apply_all, apply_pending_changes,
  promote_and_commit,
}
use vixa_system_config_be.Tx.{rolling_back, Session, Result, ok, err, World, request, open_session}
use vixa_system_config_be.Tx.Rules.{
  Triple, Triple-bind, Triple-pure, Triple-gets, Triple-modify, Triple-now, Triple-commit,
  Triple-given, Triple-weaken, IsCommitted, committed_rules, undo_ok,
}

-- A parameter whose staged value, if any, has become active.
unfoldable pub promote : ConfigParameter → ConfigParameter
promote p = elim p.pending_value [
  | none ↦ p
  | some v ↦ record p { active_value = v; pending_value = none }
]

abbrev write_staged : ConfigParameter → Option String → List ConfigParameter → List ConfigParameter
write_staged p none t = t
write_staged p (some v) t =
    update (λ (r : ConfigParameter). r.id == p.id)
      (λ r. record r { active_value = v; pending_value = none }) t

abbrev write_all : List ConfigParameter → List ConfigParameter → List ConfigParameter
write_all [] t = t
write_all (p ∷ ps) t = write_all ps (write_staged p p.pending_value t)

abbrev Top : Database → Type 0
Top _ = Unit

module _ ⦃rt : Runtime⦄ where
  append-Triple :
      (p : AuditLogEntryCreate) (t : List ConfigParameter)
      → Triple Top (λ d. d.parameters ≡ t) (append_entry_in_transaction p) (λ _ d. d.parameters ≡ t)
  append-Triple p t = record {
    run = λ s g g' h.
        let (r, s') = append_entry_in_transaction p s in
        (tt, tt, λ a q. kept s r s' (append-Appends p s) h);
  }
    where
      kept :
          (s : Session) (r : Result AuditLogEntry) (s' : Session)
          → Appends s (r, s')
          → s.db.parameters ≡ t
          → s'.db.parameters ≡ t
      kept s (err e) s' a h = rw a.0 h
      kept s (ok row) s' a h = rw a.0 h

  close-Triple :
      (c : Option ConfigChange) (t : List ConfigParameter)
      → Triple Top (λ d. d.parameters ≡ t) (close_change c) (λ _ d. d.parameters ≡ t)
  unfolding close_change
  close-Triple none t = Triple-pure tt (λ d g p. p)
  close-Triple (some c) t =
      Triple-bind (λ _ d. d.parameters ≡ t) _ _ (Triple-now (λ at d p. p))
        λ at. Triple-modify _ (λ d g p. (tt, p))

  staged-Triple :
      (p : ConfigParameter) (o : Option String) (by : String) (t : List ConfigParameter)
      → Triple Top
          (λ d. d.parameters ≡ t)
          (apply_staged p o by)
          (λ _ d. d.parameters ≡ write_staged p o t)
  unfolding apply_staged apply_one write_parameter
  staged-Triple p none by t = Triple-pure tt (λ d g q. q)
  staged-Triple p (some v) by t =
      Triple-bind (λ _ d. d.parameters ≡ t) _ _ (Triple-gets _ (λ d q. q))
        λ change.
          Triple-bind (λ _ d. d.parameters ≡ write_staged p (some v) t) _ _
            (Triple-modify _ (λ d g q. (tt, ap (write_staged p (some v)) q)))
            λ _.
              Triple-bind (λ _ d. d.parameters ≡ write_staged p (some v) t) _ _
                (close-Triple change _)
                λ _.
                  Triple-bind (λ _ d. d.parameters ≡ write_staged p (some v) t) _ _
                    (append-Triple _ _) λ _. Triple-pure tt (λ d g q. q)

  all-Triple :
      (ps : List ConfigParameter) (by : String) (t : List ConfigParameter)
      → Triple Top
          (λ d. d.parameters ≡ t)
          (apply_all ps by)
          (λ n d. (d.parameters ≡ write_all ps t) × (n ≡ length ps))
  unfolding apply_all
  all-Triple [] by t = Triple-pure 0 (λ d g q. (q, refl))
  all-Triple (p ∷ ps) by t =
      Triple-bind (λ _ d. d.parameters ≡ write_staged p p.pending_value t) _ _
        (staged-Triple p p.pending_value by t)
        λ _.
          Triple-bind (λ n d. (d.parameters ≡ write_all (p ∷ ps) t) × (n ≡ length ps)) _ _
            (all-Triple ps by _) λ n. Triple-pure (suc n) (λ d g q. (q.0, ap suc q.1))

-- The primary key of the parameters.
abbrev pub Distinct : List ConfigParameter → Type 0
Distinct t = IsPairwise (λ (a b : ConfigParameter). a.id ≢ b.id) t

update-absent :
    (id : Key) (f : ConfigParameter → ConfigParameter) (t : List ConfigParameter)
    → ((q : ConfigParameter) → In q t → id ≢ q.id)
    → update (λ (r : ConfigParameter). r.id == id) f t ≡ t
unfolding update
update-absent id f [] h = refl
update-absent id f (x ∷ xs) h =
    ground (arith, h x (inl refl), update-absent id f xs (λ q i. h q (inr i)))

write_staged-cons :
    (p : ConfigParameter) (o : Option String) (x : ConfigParameter) (t : List ConfigParameter)
    → x.id ≢ p.id
    → write_staged p o (x ∷ t) ≡ x ∷ write_staged p o t
unfolding update
write_staged-cons p none x t h = refl
write_staged-cons p (some v) x t h = ground arith

write_all-cons :
    (ps : List ConfigParameter) (x : ConfigParameter) (t : List ConfigParameter)
    → ((q : ConfigParameter) → In q ps → x.id ≢ q.id)
    → write_all ps (x ∷ t) ≡ x ∷ write_all ps t
write_all-cons [] x t h = refl
write_all-cons (p ∷ ps) x t h =
    ap (write_all ps) (write_staged-cons p p.pending_value x t (h p (inl refl)))
    ∙ write_all-cons ps x (write_staged p p.pending_value t) (λ q i. h q (inr i))

abbrev pub is_staged : ConfigParameter → Bool
is_staged p = is_some p.pending_value

abbrev promoted : ConfigParameter → Option String → ConfigParameter
promoted p none = p
promoted p (some v) = record p { active_value = v; pending_value = none }

promoted_head :
    (p : ConfigParameter) (ps : List ConfigParameter) (o : Option String)
    → ((q : ConfigParameter) → In q ps → p.id ≢ q.id)
    → write_staged p o (p ∷ ps) ≡ promoted p o ∷ ps
unfolding update
promoted_head p ps none h = refl
promoted_head p ps (some v) h = ground (
  arith,
  update-absent p.id (λ r. record r { active_value = v; pending_value = none }) ps
      (λ q i e. h q i e),
)

promoted_id : (p : ConfigParameter) (o : Option String) → (promoted p o).id ≡ p.id
promoted_id p none = refl
promoted_id p (some v) = refl

promote-promoted : (p : ConfigParameter) → promote p ≡ promoted p p.pending_value
unfolding promote
promote-promoted p = go p p.pending_value
  where
    go :
        (p : ConfigParameter) (o : Option String)
        → (elim o [ none ↦ p | some v ↦ record p { active_value = v; pending_value = none } ])
          ≡ promoted p o
    go p none = refl
    go p (some v) = refl

write_all-step :
    (p : ConfigParameter) (ps : List ConfigParameter) (b : Bool)
    → is_staged p ≡ b
    → ((q : ConfigParameter) → In q ps → p.id ≢ q.id)
    → write_all (filter is_staged ps) ps ≡ map promote ps
    → write_all (if b then p ∷ filter is_staged ps else filter is_staged ps) (p ∷ ps)
      ≡ promote p ∷ map promote ps
write_all-step p ps true e h k =
    let apart : (q : ConfigParameter)
        → In q (filter is_staged ps)
        → (promoted p p.pending_value).id ≢ q.id =
      λ q i. rw (promoted_id p p.pending_value) (h q (In-filter is_staged ps q i).0) in
    ap (write_all (filter is_staged ps)) (promoted_head p ps p.pending_value h)
    ∙ write_all-cons (filter is_staged ps) (promoted p p.pending_value) ps apart
    ∙ ap (◌∷◌ (promoted p p.pending_value)) k
    ∙ ap (λ x. x ∷ map promote ps) (sym (promote-promoted p))
write_all-step p ps false e h k =
    write_all-cons (filter is_staged ps) p ps (λ q i. h q (In-filter is_staged ps q i).0)
    ∙ ap (◌∷◌ p) k
    ∙ ap (λ x. x ∷ map promote ps) (unfold promote in ground arith)

write_all-promotes :
    (t : List ConfigParameter) → Distinct t → write_all (filter is_staged t) t ≡ map promote t
unfolding filter
write_all-promotes [] h = refl
write_all-promotes (p ∷ ps) h =
    write_all-step p ps (is_staged p) refl h.0 (write_all-promotes ps h.1)

module _ ⦃rt : Runtime⦄ where
  promote_and_commit-Triple :
      (by : String) (t : List ConfigParameter)
      → Distinct t
      → Triple Top
          (λ d. d.parameters ≡ t)
          (promote_and_commit by)
          (λ n d. (d.parameters ≡ map promote t) × (n ≡ length (filter is_staged t)))
  unfolding promote_and_commit
  promote_and_commit-Triple by t distinct =
      Triple-bind (λ ps d. (ps ≡ filter is_staged t) × (d.parameters ≡ t)) _ _
        (Triple-gets _ (λ d q. (ap (filter is_staged) q, q)))
        λ ps. Triple-given _ λ e.
          Triple-bind (λ n d. (d.parameters ≡ map promote t) × (n ≡ length (filter is_staged t))) _
            _
            (Triple-weaken (all-Triple ps by t) (λ d q. q)
              (λ n d q. (
                q.0 ∙ ap (λ x. write_all x t) e ∙ write_all-promotes t distinct,
                q.1 ∙ ap length e,
              )))
            λ n.
              Triple-bind
                (λ _ d. (d.parameters ≡ map promote t) × (n ≡ length (filter is_staged t))) _ _
                (Triple-commit (λ d q. q)) λ _. Triple-pure n (λ d g q. q)

  promote_and_commit-IsCommitted : (by : String) → IsCommitted (promote_and_commit by)
  unfolding promote_and_commit
  promote_and_commit-IsCommitted by = search committed_rules depth 8

  -- Identifiers being distinct, an application of the pending changes that returns has replaced in
  -- the stored tables every parameter by its promoted form, where a staged value has become the
  -- active one and none is staged any more, and answers how many parameters had a staged value.
  pub apply_promotes :
      (by : String) (w : World) (n : ℕ)
      → Distinct w.database.parameters
      → (request (apply_pending_changes by) w).0 ≡ ok n
      → ((request (apply_pending_changes by) w).1.database.parameters
          ≡ map promote w.database.parameters)
        × (n ≡ length (filter is_staged w.database.parameters))
  unfolding request apply_pending_changes rolling_back
  apply_promotes by w n distinct h =
      let s = open_session w in
      let (r, s') = promote_and_commit by s in
      let (returned, same) = undo_ok r s' n h in
      let (_, _, done) = (promote_and_commit-Triple by _ distinct).run s tt tt refl in
      let (promoted_all, counted) = done n returned in
      let saved = (promote_and_commit-IsCommitted by).all_saved s n returned in
      (
        ap (λ (x : Session). x.saved.parameters) same
            ∙ ap (λ (d : Database). d.parameters) saved
            ∙ promoted_all,
        counted,
      )
