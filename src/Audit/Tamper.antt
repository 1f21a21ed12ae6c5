-- ===== src/Audit/Tamper.antt =====
-- What `verify_chain` reports of a log in which one stored entry was altered.
use vixa_system_config_be.Base.{
  ◌+◌, none, some, true, false, List, [], ◌∷◌, ◌++◌, ◌≡◌, ◌⊎◌, inl, inr, arith, length,
  order_asc_of_ascending, IsAscending, Bool-cases,
}
use vixa_system_config_be.Runtime.{Runtime}
use vixa_system_config_be.Models.Audit.{AuditLogEntry}
use vixa_system_config_be.Audit.{start, expected_hash, entry_ok, visit, walk, verify_chain}
use vixa_system_config_be.Audit.Chain.{
  IsLinked, IsLinked-append, carried, walk-append, walk-carried, walk_linked, walk_break,
  linked_of_entry_ok,
}

IsAscending-of_same_sequence :
    (pre : List AuditLogEntry) (e e' : AuditLogEntry) (post : List AuditLogEntry)
    → e'.sequence ≡ e.sequence
    → IsAscending (λ (x : AuditLogEntry). x.sequence) (pre ++ e ∷ post)
    → IsAscending (λ (x : AuditLogEntry). x.sequence) (pre ++ e' ∷ post)
IsAscending-of_same_sequence [] e e' [] s h = tt
IsAscending-of_same_sequence [] e e' (p ∷ ps) s h = (omega arith, h.1)
IsAscending-of_same_sequence (x ∷ []) e e' post s h =
    (omega arith, IsAscending-of_same_sequence [] e e' post s h.1)
IsAscending-of_same_sequence (x ∷ y ∷ ys) e e' post s h =
    (h.0, IsAscending-of_same_sequence (y ∷ ys) e e' post s h.1)

module _ ⦃rt : Runtime⦄ where
  -- One bad entry between linked ones is one failure, and the first break.
  walk_one_bad :
      (pre : List AuditLogEntry) (e : AuditLogEntry) (post : List AuditLogEntry)
      → IsLinked none pre
      → entry_ok (carried none pre) e ≡ false
      → IsLinked (some e.entry_hash) post
      → ((walk start (pre ++ e ∷ post)).verified ≡ length pre + length post)
        × ((walk start (pre ++ e ∷ post)).failed ≡ 1)
        × ((walk start (pre ++ e ∷ post)).first_break ≡ some e.sequence)
  unfolding visit
  walk_one_bad pre e post hp bad hq = rw walk-append (
      unfold walk in
      ground (
        arith,
        walk_linked pre start hp,
        walk-carried start pre,
        walk_linked post (visit (walk start pre) e),
        walk_break post (visit (walk start pre) e) e.sequence,
      ))

  -- Take a log whose chain holds, and alter anything of one stored entry but its sequence number
  -- and its stored hash. Then `verify_chain` reports exactly that entry: it alone fails, it is the
  -- first break, and all others are verified; unless the altered entry has the back link, a valid
  -- signature and the very content hash of the original, which is a collision of the hash for any
  -- alteration of what the hash covers.
  pub verify_chain_tampered :
      (pre : List AuditLogEntry) (e e' : AuditLogEntry) (post : List AuditLogEntry)
      → IsAscending (λ (x : AuditLogEntry). x.sequence) (pre ++ e ∷ post)
      → IsLinked none (pre ++ e ∷ post)
      → e'.sequence ≡ e.sequence
      → e'.entry_hash ≡ e.entry_hash
      → let report = verify_chain (pre ++ e' ∷ post) in
        ((report.is_valid ≡ false)
          × (report.failed_count ≡ 1)
          × (report.verified_count ≡ length pre + length post)
          × (report.first_break_sequence ≡ some e.sequence))
        ⊎ ((expected_hash (carried none pre) e' ≡ expected_hash (carried none pre) e)
            × (e'.prev_hash ≡ e.prev_hash)
            × (rt.verify e'.entry_hash e'.signature ≡ true))
  unfolding verify_chain
  verify_chain_tampered pre e e' post asc linked s h =
      let (hp, he) = (IsLinked-append none pre (e ∷ post)).0 linked in
      let sorted =
        order_asc_of_ascending (λ (x : AuditLogEntry). x.sequence) (pre ++ e' ∷ post)
          (IsAscending-of_same_sequence pre e e' post s asc) in
      elim (Bool-cases (entry_ok (carried none pre) e')) [
        | inl fine ↦
            let good = linked_of_entry_ok (carried none pre) e' fine in
            inr (cc (good.0, h, he.0), cc (good.1, he.1), good.2)
        | inr bad ↦
            let bad_walk = walk_one_bad pre e' post hp bad (rw h he.3) in
            inl (rw sorted (ground arith))
      ]
