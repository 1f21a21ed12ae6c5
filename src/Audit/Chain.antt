-- ===== src/Audit/Chain.antt =====
-- The hash chain: what `verify_chain` reports, against the links between the entries.
use vixa_system_config_be.Base.{
  ℕ, ◌+◌, ◌≤◌, String, Option, none, some, true, List, [], ◌∷◌, ◌++◌, ◌≡◌, refl, ◌↔◌, eq_iff, arith,
  length, order_asc, length-order_asc,
}
use vixa_system_config_be.Runtime.{Runtime}
use vixa_system_config_be.Models.Audit.{AuditLogEntry}
use vixa_system_config_be.Audit.{
  Walk, start, opt_eq, expected_hash, entry_ok, visit, walk, verify_chain,
}

opt_eq_iff : (a b : Option String) → (opt_eq a b ≡ true) ↔ (a ≡ b)
opt_eq_iff none none = ground arith
opt_eq_iff none (some b) = ground arith
opt_eq_iff (some a) none = ground arith
opt_eq_iff (some a) (some b) = ground (arith, eq_iff a b)

-- the hash that the chain carries after some entries
abbrev pub carried : Option String → List AuditLogEntry → Option String
carried prev [] = prev
carried prev (e ∷ es) = carried (some e.entry_hash) es

module _ ⦃rt : Runtime⦄ where
  -- A chain that begins after the hash `prev`: each entry carries the hash of its own content and
  -- of the entry before it, under a signature of the key.
  abbrev pub IsLinked : Option String → List AuditLogEntry → Type 0
  IsLinked prev [] = Unit
  IsLinked prev (e ∷ es) =
      (expected_hash prev e ≡ e.entry_hash)
      × (e.prev_hash ≡ prev)
      × (rt.verify e.entry_hash e.signature ≡ true)
      × IsLinked (some e.entry_hash) es

  pub entry_ok_of_linked :
      (prev : Option String) (e : AuditLogEntry)
      → expected_hash prev e ≡ e.entry_hash
      → e.prev_hash ≡ prev
      → rt.verify e.entry_hash e.signature ≡ true
      → entry_ok prev e ≡ true
  unfolding entry_ok
  entry_ok_of_linked prev e h p v =
      ground (arith, eq_iff (expected_hash prev e) e.entry_hash, opt_eq_iff e.prev_hash prev)

  pub linked_of_entry_ok :
      (prev : Option String) (e : AuditLogEntry)
      → entry_ok prev e ≡ true
      → (expected_hash prev e ≡ e.entry_hash)
        × (e.prev_hash ≡ prev)
        × (rt.verify e.entry_hash e.signature ≡ true)
  unfolding entry_ok
  linked_of_entry_ok prev e h =
      ground (arith, eq_iff (expected_hash prev e) e.entry_hash, opt_eq_iff e.prev_hash prev)

  -- Every entry is counted once.
  walk_counts :
      (es : List AuditLogEntry) (w : Walk)
      → (walk w es).verified + (walk w es).failed ≡ w.verified + w.failed + length es
  unfolding walk visit
  walk_counts [] w = omega arith
  walk_counts (e ∷ es) w = ground (arith, walk_counts es (visit w e))

  failed-le-walk : (es : List AuditLogEntry) (w : Walk) → w.failed ≤ (walk w es).failed
  unfolding walk visit
  failed-le-walk [] w = omega arith
  failed-le-walk (e ∷ es) w = ground (arith, failed-le-walk es (visit w e))

  -- A break that is found stays.
  pub walk_break :
      (es : List AuditLogEntry) (w : Walk) (n : ℕ)
      → w.first_break ≡ some n
      → (walk w es).first_break ≡ some n
  unfolding walk visit
  walk_break [] w n h = h
  walk_break (e ∷ es) w n h = ground (arith, walk_break es (visit w e) n)

  -- Over linked entries the walk counts each as verified.
  pub walk_linked :
      (es : List AuditLogEntry) (w : Walk)
      → IsLinked w.expected_prev_hash es
      → ((walk w es).verified ≡ w.verified + length es)
        × ((walk w es).failed ≡ w.failed)
        × ((walk w es).first_break ≡ w.first_break)
  unfolding walk visit
  walk_linked [] w h = (omega arith, refl, refl)
  walk_linked (e ∷ es) w h =
      ground
        (arith, entry_ok_of_linked w.expected_prev_hash e h.0 h.1 h.2, walk_linked es (visit w e))

  -- Only linked entries are all verified.
  IsLinked-of_walk :
      (es : List AuditLogEntry) (w : Walk)
      → (walk w es).failed ≡ w.failed
      → IsLinked w.expected_prev_hash es
  unfolding walk visit
  IsLinked-of_walk [] w h = tt
  IsLinked-of_walk (e ∷ es) w h = ground (
    arith,
    linked_of_entry_ok w.expected_prev_hash e,
    failed-le-walk es (visit w e),
    IsLinked-of_walk es (visit w e),
  )

  pub IsLinked-append :
      (prev : Option String) (es fs : List AuditLogEntry)
      → IsLinked prev (es ++ fs) ↔ (IsLinked prev es × IsLinked (carried prev es) fs)
  IsLinked-append prev [] fs = (λ h. (tt, h), λ h. h.1)
  IsLinked-append prev (e ∷ es) fs =
      let (there, back) = IsLinked-append (some e.entry_hash) es fs in
      (
        (λ h. let (a, b) = there h.3 in ((h.0, h.1, h.2, a), b)),
        λ h. (h.0.0, h.0.1, h.0.2, back (h.0.3, h.1)),
      )

  pub walk-append :
      (w : Walk) (es fs : List AuditLogEntry) → walk w (es ++ fs) ≡ walk (walk w es) fs
  unfolding walk
  walk-append w [] fs = refl
  walk-append w (e ∷ es) fs = walk-append (visit w e) es fs

  pub walk-carried :
      (w : Walk) (es : List AuditLogEntry)
      → (walk w es).expected_prev_hash ≡ carried w.expected_prev_hash es
  unfolding walk visit
  walk-carried w [] = refl
  walk-carried w (e ∷ es) = ground (arith, walk-carried (visit w e) es)

  -- `verify_chain` reports a valid log exactly when its entries, in the order of their sequence
  -- numbers, are linked: each recomputed hash, each back link and each signature agrees. Every
  -- entry is counted as verified or as failed.
  pub verify_chain_valid :
      (log : List AuditLogEntry)
      → ((verify_chain log).is_valid ≡ true
          ↔ IsLinked none (order_asc (λ (e : AuditLogEntry). e.sequence) log))
        × ((verify_chain log).verified_count + (verify_chain log).failed_count ≡ length log)
  unfolding verify_chain
  verify_chain_valid log =
      let es = order_asc (λ (e : AuditLogEntry). e.sequence) log in
      (
        (
          λ h. IsLinked-of_walk es start (ground arith),
          λ h. ground (arith, walk_linked es start h),
        ),
        omega
            (arith, walk_counts es start, length-order_asc (λ (e : AuditLogEntry). e.sequence) log),
      )
