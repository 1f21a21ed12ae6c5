-- ===== src/Hsm/Ceremonies/Quorum.antt =====
-- No ceremony is complete without its quorum of distinct custodians.
use vixa_system_config_be.Base.{
  ◌≤◌, some, true, false, List, [], ◌∷◌, ◌++◌, ◌≡◌, ◌≢◌, sym, ap, ◌∙◌, subst, inl, inr, arith,
  str_eq, eq_iff, ◌==◌, ◌&&◌, count, update, any_none, In, In-update, In-append, IsPairwise,
  IsPairwise-snoc, IsPairwise-update, pairwise_cases, if◌then◌else◌,
}
use vixa_system_config_be.Runtime.{Key, Time}
use vixa_system_config_be.Database.{Database}
use vixa_system_config_be.Models.Hsm.{
  KeyCeremony, KeyCustodianApproval, complete, is_approval_of, approval_count, quorum_met,
}
use vixa_system_config_be.Hsm.Ceremonies.{
  add_ceremony, add_approval, set_approved_at, close_ceremony,
}
use vixa_system_config_be.Hsm.Ceremonies.Aside.{IsAside}
use vixa_system_config_be.Tx.{Tx}
use vixa_system_config_be.Tx.Rules.{Triple, Triple-modify, Triple-add_unless}

-- Two approvals of one ceremony are by two custodians.
abbrev pub ByOthers : KeyCustodianApproval → KeyCustodianApproval → Type 0
ByOthers a b = a.ceremony_id ≡ b.ceremony_id → a.custodian_email ≢ b.custodian_email

pub record HasQuorum (cs : List KeyCeremony) (ts : List KeyCustodianApproval) : Type 0 where
  pub refs : IsPairwise (λ (a b : KeyCeremony). a.id ≢ b.id) cs
  pub custodians : IsPairwise ByOthers ts
  pub reached : (c : KeyCeremony) → In c cs → c.status ≡ complete → quorum_met c ts ≡ true

abbrev pub Good : Database → Type 0
Good d = HasQuorum d.ceremonies d.approvals

abbrev pub Top : {A : Type 0} → A → Database → Type 0
Top _ _ = Unit

module _ {A : Type 0} (p : List KeyCeremony → List KeyCustodianApproval → Type 0) where
  pub Triple-aside :
      (m : Tx A)
      → IsAside m
      → Triple Good (λ d. p d.ceremonies d.approvals) m (λ _ d. p d.ceremonies d.approvals)
  Triple-aside m h = record {
    run = λ s g g' q.
        let ((c, a), v) = h.same s in
        (
          subst (λ x. HasQuorum x (m s).1.db.approvals) (sym c)
              (subst (λ x. HasQuorum s.db.ceremonies x) (sym a) g),
          subst (λ (x : Database). HasQuorum x.ceremonies x.approvals) (sym v) g',
          λ b e.
              subst (λ x. p x (m s).1.db.approvals) (sym c)
                (subst (λ x. p s.db.ceremonies x) (sym a) q),
        );
  }

count-append_le :
    (id : Key) (t : List KeyCustodianApproval) (a : KeyCustodianApproval)
    → approval_count id t ≤ approval_count id (t ++ a ∷ [])
unfolding approval_count count is_approval_of
count-append_le id [] a = omega arith
count-append_le id (x ∷ xs) a = omega (arith, count-append_le id xs a)

count-approve_le :
    (id : Key) (key : Key) (at : Time) (t : List KeyCustodianApproval)
    → approval_count id t
      ≤ approval_count id (
          update
            (λ (r : KeyCustodianApproval). r.id == key)
            (λ r. record r { approved_at = some at })
            t)
unfolding approval_count count is_approval_of update
count-approve_le id key at [] = omega arith
count-approve_le id key at (x ∷ xs) = ground (arith, count-approve_le id key at xs)

quorum-more :
    (c : KeyCeremony) (ts bs : List KeyCustodianApproval)
    → approval_count c.id ts ≤ approval_count c.id bs
    → quorum_met c ts ≡ true
    → quorum_met c bs ≡ true
unfolding quorum_met
quorum-more c ts bs h q = ground arith

pub add_ceremony-Triple :
    (c : KeyCeremony) → c.status ≢ complete → Triple Good (λ _. Unit) (add_ceremony c) Top
unfolding add_ceremony
add_ceremony-Triple c fresh = Triple-add_unless _ _ _ (λ d free g p. (
  record {
    refs =
        IsPairwise-snoc _ d.ceremonies c g.refs
          (λ q i. let other = any_none _ d.ceremonies q free i in ground arith);
    custodians = g.custodians;
    reached = λ q i e. elim (In-append q d.ceremonies (c ∷ []) i) [
      | inl old ↦ g.reached q old e
      | inr (inl new) ↦ absurd (fresh (ap (λ (x : KeyCeremony). x.status) (sym new) ∙ e))
      | inr (inr nowhere) ↦ absurd nowhere
    ];
  },
  tt,
))

pub add_approval-Triple :
    (a : KeyCustodianApproval)
    → Triple Good
        (λ d.
          (q : KeyCustodianApproval)
          → In q d.approvals
          → (q.ceremony_id == a.ceremony_id && str_eq q.custodian_email a.custodian_email) ≡ false)
        (add_approval a)
        Top
unfolding add_approval
add_approval-Triple a = Triple-add_unless _ _ _ (λ d free g p. (
  record {
    refs = g.refs;
    custodians =
        IsPairwise-snoc ByOthers d.approvals a g.custodians
          (λ q i c e. ground (arith, p q i, eq_iff q.custodian_email a.custodian_email));
    reached =
        λ c i e. quorum-more c d.approvals _ (count-append_le c.id d.approvals a) (g.reached c i e);
  },
  tt,
))

pub set_approved_at-Triple :
    (id : Key) (at : Time) → Triple Good (λ _. Unit) (set_approved_at id at) Top
unfolding set_approved_at
set_approved_at-Triple id at = Triple-modify _ (λ d g p. (
  record {
    refs = g.refs;
    custodians =
        IsPairwise-update ByOthers _ _ d.approvals g.custodians (λ a b i j h. ground arith);
    reached = λ c i e.
        quorum-more c d.approvals _ (count-approve_le c.id id at d.approvals) (g.reached c i e);
  },
  tt,
))

-- The ceremony is there, with its quorum.
abbrev pub Reached : KeyCeremony → List KeyCeremony → List KeyCustodianApproval → Type 0
Reached c cs ts = In c cs × (quorum_met c ts ≡ true)

same_ceremony :
    (t : List KeyCeremony) (a b : KeyCeremony)
    → IsPairwise (λ (a b : KeyCeremony). a.id ≢ b.id) t
    → In a t
    → In b t
    → a.id ≡ b.id
    → a ≡ b
same_ceremony t a b d i j e = elim (pairwise_cases _ t a b d i j) [
  | inl same ↦ same
  | inr (inl apart) ↦ absurd (apart e)
  | inr (inr apart) ↦ absurd (apart (sym e))
]

closed_quorum :
    (c r : KeyCeremony) (at : Time) (ts : List KeyCustodianApproval)
    → (r.id ≡ c.id → r ≡ c)
    → quorum_met c ts ≡ true
    → (r.status ≡ complete → quorum_met r ts ≡ true)
    → let r' = if r.id == c.id then record r { status = complete; completed_at = some at } else r in
      r'.status ≡ complete → quorum_met r' ts ≡ true
unfolding quorum_met
closed_quorum c r at ts same met before e = ground arith

pub close-Triple :
    (c : KeyCeremony) (at : Time)
    → Triple Good (λ d. Reached c d.ceremonies d.approvals) (close_ceremony c.id at) Top
unfolding close_ceremony
close-Triple c at = Triple-modify _ (λ d g p. (
  record {
    refs =
        IsPairwise-update (λ (a b : KeyCeremony). a.id ≢ b.id) _ _ d.ceremonies g.refs
          (λ a b i j h. ground arith);
    custodians = g.custodians;
    reached = λ q i e.
        let (r, j, e') =
          In-update (λ (r : KeyCeremony). r.id == c.id)
            (λ r. record r { status = complete; completed_at = some at }) d.ceremonies q i in
        subst (λ (x : KeyCeremony). quorum_met x d.approvals ≡ true) (sym e')
          (closed_quorum c r at d.approvals (same_ceremony d.ceremonies r c g.refs j p.0) p.1
            (g.reached r j) (ap (λ (x : KeyCeremony). x.status) (sym e') ∙ e));
  },
  tt,
))
