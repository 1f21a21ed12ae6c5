-- ===== src/Base/Rows.antt =====
-- Tables as lists of rows: membership, `select ... where`, updates and deletes.
use Prim.Native.Nat.{ℕ, suc, ◌+◌, ◌≤◌}
use mathlib.Core.Path.{◌≡◌, refl, ap}
use mathlib.Core.Logic.{◌⊎◌, inl, inr}
use mathlib.Core.Bool.{Bool, true, false}
use mathlib.Core.Option.{Option, none, some}
use mathlib.Core.List.{List, [], ◌∷◌, ◌++◌}
use native.Mathlib.Omega.{arith}
use vixa_system_config_be.Base.Tests.{if◌then◌else◌}

module _ {ℓ} {A : Type ℓ} where
  abbrev pub length : List A → ℕ
  length [] = 0
  length (x ∷ xs) = suc (length xs)

  pub length-append : (xs ys : List A) → length (xs ++ ys) ≡ length xs + length ys
  length-append [] ys = omega arith
  length-append (x ∷ xs) ys = omega (arith, length-append xs ys)

  -- `.scalars().first()` of a select with a condition, in the order of the table
  unfoldable pub find : (A → Bool) → List A → Option A
  find p [] = none
  find p (x ∷ xs) = if p x then some x else find p xs

  -- `.scalars().all()` of a select with a condition
  unfoldable pub filter : (A → Bool) → List A → List A
  filter p [] = []
  filter p (x ∷ xs) = if p x then x ∷ filter p xs else filter p xs

  -- writes to the attributes of the rows that a condition selects
  unfoldable pub update : (A → Bool) → (A → A) → List A → List A
  update p f [] = []
  update p f (x ∷ xs) = (if p x then f x else x) ∷ update p f xs

  -- `delete` of the rows that a condition selects
  unfoldable pub delete : (A → Bool) → List A → List A
  delete p [] = []
  delete p (x ∷ xs) = if p x then delete p xs else x ∷ delete p xs

  -- `select(func.count())` with a condition
  unfoldable pub count : (A → Bool) → List A → ℕ
  count p [] = 0
  count p (x ∷ xs) = (if p x then 1 else 0) + count p xs

  unfoldable pub any : (A → Bool) → List A → Bool
  any p [] = false
  any p (x ∷ xs) = if p x then true else any p xs

  -- `list(dict.fromkeys(xs))`, by an equality test: each row at its first place
  unfoldable pub unique_by : (A → A → Bool) → List A → List A
  unfolding delete
  unique_by same [] = []
  unique_by same (x ∷ xs) = x ∷ delete (same x) (unique_by same xs)

  unfoldable pub all : (A → Bool) → List A → Bool
  all p [] = true
  all p (x ∷ xs) = if p x then all p xs else false

  pub snoc_cases : (xs : List A) → (xs ≡ []) ⊎ ((ys : List A) × (y : A) × (xs ≡ ys ++ y ∷ []))
  snoc_cases [] = inl refl
  snoc_cases (x ∷ xs) = elim (snoc_cases xs) [
    | inl e ↦ inr ([], x, ap (◌∷◌ x) e)
    | inr (ys, y, e) ↦ inr (x ∷ ys, y, ap (◌∷◌ x) e)
  ]

module _ {A : Type 0} where
  -- A row of the table, as a value that can be taken apart.
  abbrev pub In : A → List A → Type 0
  In r [] = ⊥
  In r (x ∷ xs) = (r ≡ x) ⊎ In r xs

  pub In-append : (r : A) (xs ys : List A) → In r (xs ++ ys) → In r xs ⊎ In r ys
  In-append r [] ys h = inr h
  In-append r (x ∷ xs) ys (inl e) = inl (inl e)
  In-append r (x ∷ xs) ys (inr h) = elim (In-append r xs ys h) [
    | inl a ↦ inl (inr a)
    | inr b ↦ inr b
  ]

  pub In-append_left : (r : A) (xs ys : List A) → In r xs → In r (xs ++ ys)
  In-append_left r [] ys h = absurd h
  In-append_left r (x ∷ xs) ys (inl e) = inl e
  In-append_left r (x ∷ xs) ys (inr h) = inr (In-append_left r xs ys h)

  pub In-append_right : (r : A) (xs ys : List A) → In r ys → In r (xs ++ ys)
  In-append_right r [] ys h = h
  In-append_right r (x ∷ xs) ys h = inr (In-append_right r xs ys h)

  pub In-snoc_self : (r : A) (xs : List A) → In r (xs ++ r ∷ [])
  In-snoc_self r xs = In-append_right r xs (r ∷ []) (inl refl)

  pub find-In : (p : A → Bool) (xs : List A) (r : A) → find p xs ≡ some r → In r xs × (p r ≡ true)
  unfolding find
  find-In p [] r h = ground arith
  find-In p (x ∷ xs) r h = ground (arith, find-In p xs r)

  pub any_none : (p : A → Bool) (xs : List A) (r : A) → any p xs ≡ false → In r xs → p r ≡ false
  unfolding any
  any_none p [] r h i = absurd i
  any_none p (x ∷ xs) r h i = ground (arith, any_none p xs r)

  pub find-none : (p : A → Bool) (xs : List A) (r : A) → find p xs ≡ none → In r xs → p r ≡ false
  unfolding find
  find-none p [] r h i = absurd i
  find-none p (x ∷ xs) r h i = ground (arith, find-none p xs r)

  -- A row of the updated table stands at the place of one of the old table.
  pub In-update :
      (p : A → Bool) (f : A → A) (xs : List A) (r : A)
      → In r (update p f xs)
      → (q : A) × In q xs × (r ≡ (if p q then f q else q))
  unfolding update
  In-update p f [] r h = absurd h
  In-update p f (x ∷ xs) r (inl e) = (x, inl refl, e)
  In-update p f (x ∷ xs) r (inr h) = let (q, i, e) = In-update p f xs r h in (q, inr i, e)

  pub update-In :
      (p : A → Bool) (f : A → A) (xs : List A) (q : A)
      → In q xs
      → In (if p q then f q else q) (update p f xs)
  unfolding update
  update-In p f [] q h = absurd h
  update-In p f (x ∷ xs) q (inl e) = ground arith
  update-In p f (x ∷ xs) q (inr h) = inr (update-In p f xs q h)

  pub In-filter : (p : A → Bool) (xs : List A) (r : A) → In r (filter p xs) → In r xs × (p r ≡ true)
  unfolding filter
  In-filter p [] r h = absurd h
  In-filter p (x ∷ xs) r h = ground (arith, In-filter p xs r)

  pub filter-In : (p : A → Bool) (xs : List A) (r : A) → In r xs → p r ≡ true → In r (filter p xs)
  unfolding filter
  filter-In p [] r h e = absurd h
  filter-In p (x ∷ xs) r h e = ground (arith, filter-In p xs r)

  pub In-delete :
      (p : A → Bool) (xs : List A) (r : A) → In r (delete p xs) → In r xs × (p r ≡ false)
  unfolding delete
  In-delete p [] r h = absurd h
  In-delete p (x ∷ xs) r h = ground (arith, In-delete p xs r)

  pub find-snoc :
      (p : A → Bool) (xs : List A) (x : A)
      → find p xs ≡ none
      → p x ≡ true
      → find p (xs ++ x ∷ []) ≡ some x
  unfolding find
  find-snoc p [] x h e = ground arith
  find-snoc p (y ∷ ys) x h e = ground (arith, find-snoc p ys x)

  -- The row that was added last is the only one that such a delete takes away.
  pub delete-snoc :
      (p q : A → Bool) (xs : List A) (x : A)
      → ((r : A) → q r ≡ false → p r ≡ false)
      → any q xs ≡ false
      → p x ≡ true
      → delete p (xs ++ x ∷ []) ≡ xs
  unfolding delete any
  delete-snoc p q [] x h free e = ground arith
  delete-snoc p q (y ∷ ys) x h free e = ground (arith, h y, delete-snoc p q ys x h)

  pub length-filter-le : (p : A → Bool) (xs : List A) → length (filter p xs) ≤ length xs
  unfolding filter
  length-filter-le p [] = omega arith
  length-filter-le p (x ∷ xs) = ground (arith, length-filter-le p xs)

  pub length-update : (p : A → Bool) (f : A → A) (xs : List A) → length (update p f xs) ≡ length xs
  unfolding update
  length-update p f [] = refl
  length-update p f (x ∷ xs) = omega (arith, length-update p f xs)
