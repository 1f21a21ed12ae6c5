-- ===== src/Base/Order.antt =====
-- `order_by`, `limit` and `offset` of a select.
use Prim.Native.Nat.{ℕ, zero, suc, ◌<◌, min}
use mathlib.Core.Path.{◌≡◌, refl}
use mathlib.Core.Logic.{◌⊎◌, inl, inr}
use mathlib.Core.Bool.{Bool}
use mathlib.Core.Option.{Option, none, some}
use mathlib.Core.List.{List, [], ◌∷◌, ◌++◌}
use native.Mathlib.Omega.{arith}
use vixa_system_config_be.Base.Tests.{if◌then◌else◌, leb}
use vixa_system_config_be.Base.Rows.{In, length}

module _ {ℓ} {A : Type ℓ} where
  unfoldable pub insert_by : (A → A → Bool) → A → List A → List A
  insert_by le x [] = x ∷ []
  insert_by le x (y ∷ ys) = if le x y then x ∷ y ∷ ys else y ∷ insert_by le x ys

  unfoldable pub sort_by : (A → A → Bool) → List A → List A
  unfolding insert_by
  sort_by le [] = []
  sort_by le (x ∷ xs) = insert_by le x (sort_by le xs)

  -- `order_by(key.asc())` and `order_by(key.desc())` on a numeric column
  unfoldable pub order_asc : (A → ℕ) → List A → List A
  unfolding sort_by
  order_asc key = sort_by (λ a b. leb (key a) (key b))

  unfoldable pub order_desc : (A → ℕ) → List A → List A
  unfolding sort_by
  order_desc key = sort_by (λ a b. leb (key b) (key a))

  abbrev pub head? : List A → Option A
  head? [] = none
  head? (x ∷ xs) = some x

  abbrev pub take : ℕ → List A → List A
  take zero xs = []
  take (suc n) [] = []
  take (suc n) (x ∷ xs) = x ∷ take n xs

  abbrev pub drop : ℕ → List A → List A
  drop zero xs = xs
  drop (suc n) [] = []
  drop (suc n) (x ∷ xs) = drop n xs

  pub length-take : (n : ℕ) (xs : List A) → length (take n xs) ≡ min n (length xs)
  length-take zero xs = omega arith
  length-take (suc n) [] = omega arith
  length-take (suc n) (x ∷ xs) = omega (arith, length-take n xs)

  pub length-insert_by :
      (le : A → A → Bool) (x : A) (xs : List A) → length (insert_by le x xs) ≡ suc (length xs)
  unfolding insert_by
  length-insert_by le x [] = refl
  length-insert_by le x (y ∷ ys) = ground (arith, length-insert_by le x ys)

  pub length-sort_by : (le : A → A → Bool) (xs : List A) → length (sort_by le xs) ≡ length xs
  unfolding sort_by
  length-sort_by le [] = refl
  length-sort_by le (x ∷ xs) =
      omega (arith, length-insert_by le x (sort_by le xs), length-sort_by le xs)

  pub length-order_asc : (key : A → ℕ) (xs : List A) → length (order_asc key xs) ≡ length xs
  unfolding order_asc
  length-order_asc key xs = length-sort_by (λ a b. leb (key a) (key b)) xs

module _ {A : Type 0} where
  pub In-insert_by :
      (le : A → A → Bool) (x : A) (xs : List A) (r : A)
      → In r (insert_by le x xs)
      → (r ≡ x) ⊎ In r xs
  unfolding insert_by
  In-insert_by le x [] r h = h
  In-insert_by le x (y ∷ ys) r h = ground (arith, In-insert_by le x ys r)

  pub In-sort_by : (le : A → A → Bool) (xs : List A) (r : A) → In r (sort_by le xs) → In r xs
  unfolding sort_by
  In-sort_by le [] r h = h
  In-sort_by le (x ∷ xs) r h = elim (In-insert_by le x (sort_by le xs) r h) [
    | inl e ↦ inl e
    | inr i ↦ inr (In-sort_by le xs r i)
  ]

  pub insert_by-In :
      (le : A → A → Bool) (x : A) (xs : List A) (r : A)
      → (r ≡ x) ⊎ In r xs
      → In r (insert_by le x xs)
  unfolding insert_by
  insert_by-In le x [] r h = h
  insert_by-In le x (y ∷ ys) r h = ground (arith, insert_by-In le x ys r)

  pub sort_by-In : (le : A → A → Bool) (xs : List A) (r : A) → In r xs → In r (sort_by le xs)
  unfolding sort_by
  sort_by-In le [] r h = h
  sort_by-In le (x ∷ xs) r (inl e) = insert_by-In le x (sort_by le xs) r (inl e)
  sort_by-In le (x ∷ xs) r (inr i) =
      insert_by-In le x (sort_by le xs) r (inr (sort_by-In le xs r i))

module _ {A : Type 0} (key : A → ℕ) where
  insert-snoc :
      (x r : A) (ys : List A)
      → key x < key r
      → insert_by (λ a b. leb (key a) (key b)) x (ys ++ r ∷ [])
        ≡ insert_by (λ a b. leb (key a) (key b)) x ys ++ r ∷ []
  unfolding insert_by
  insert-snoc x r [] h = ground arith
  insert-snoc x r (y ∷ ys) h = ground (arith, insert-snoc x r ys)

  -- A row that is greater than all comes last.
  pub order_asc-snoc :
      (xs : List A) (r : A)
      → ((q : A) → In q xs → key q < key r)
      → order_asc key (xs ++ r ∷ []) ≡ order_asc key xs ++ r ∷ []
  unfolding order_asc sort_by
  order_asc-snoc [] r h = refl
  order_asc-snoc (x ∷ xs) r h =
      rw (order_asc-snoc xs r (λ q i. h q (inr i)))
        (insert-snoc x r (order_asc key xs) (h x (inl refl)))

module _ {A : Type 0} (key : A → ℕ) where
  -- every row stands below the rows after it
  abbrev pub IsAscending : List A → Type 0
  IsAscending [] = Unit
  IsAscending (x ∷ []) = Unit
  IsAscending (x ∷ y ∷ ys) = (key x < key y) × IsAscending (y ∷ ys)

  insert_ascending :
      (x : A) (xs : List A)
      → IsAscending (x ∷ xs)
      → insert_by (λ a b. leb (key a) (key b)) x xs ≡ x ∷ xs
  unfolding insert_by
  insert_ascending x [] h = refl
  insert_ascending x (y ∷ ys) h = ground arith

  IsAscending-tail : (x : A) (xs : List A) → IsAscending (x ∷ xs) → IsAscending xs
  IsAscending-tail x [] h = tt
  IsAscending-tail x (y ∷ ys) h = h.1

  -- An ascending table is its own ascending order.
  pub order_asc_of_ascending : (xs : List A) → IsAscending xs → order_asc key xs ≡ xs
  unfolding order_asc
  order_asc_of_ascending [] h = refl
  order_asc_of_ascending (x ∷ xs) h =
      rw (order_asc_of_ascending xs (IsAscending-tail x xs h)) (insert_ascending x xs h)

  -- `order_by(key.desc()).limit(1)`
  unfoldable pub last_by : List A → Option A
  unfolding order_desc
  last_by xs = head? (order_desc key xs)

  pub last_by-In : (xs : List A) (r : A) → last_by xs ≡ some r → In r xs
  unfolding last_by order_desc
  last_by-In xs r h = In-sort_by (λ a b. leb (key b) (key a)) xs r (head-In _ h)
    where
      head-In : (ys : List A) → head? ys ≡ some r → In r ys
      head-In [] e = cc
      head-In (y ∷ ys) e = inl (ground arith)

  pub last_by-none : (xs : List A) (r : A) → last_by xs ≡ none → In r xs → ⊥
  unfolding last_by order_desc
  last_by-none xs r h i = empty _ h (sort_by-In (λ a b. leb (key b) (key a)) xs r i)
    where
      empty : (ys : List A) → head? ys ≡ none → In r ys → ⊥
      empty [] e j = j
      empty (y ∷ ys) e j = cc

  head-insert_desc :
      (x y : A) (ys : List A)
      → key x < key y
      → head? ys ≡ some y
      → head? (insert_by (λ a b. leb (key b) (key a)) x ys) ≡ some y
  unfolding insert_by
  head-insert_desc x y [] h e = cc
  head-insert_desc x y (z ∷ zs) h e = ground arith

  ascending_head_last :
      (x : A) (xs : List A) (r : A) → IsAscending (x ∷ xs ++ r ∷ []) → key x < key r
  ascending_head_last x [] r h = h.0
  ascending_head_last x (y ∷ ys) r h = omega (arith, ascending_head_last y ys r h.1)

  -- The greatest row of an ascending table is its last one.
  pub last_by_of_ascending :
      (xs : List A) (r : A) → IsAscending (xs ++ r ∷ []) → last_by (xs ++ r ∷ []) ≡ some r
  unfolding last_by
  last_by_of_ascending [] r h = refl
  last_by_of_ascending (x ∷ xs) r h =
      head-insert_desc x r (order_desc key (xs ++ r ∷ [])) (ascending_head_last x xs r h)
        (last_by_of_ascending xs r (IsAscending-tail x (xs ++ r ∷ []) h))

  pub IsAscending-snoc :
      (xs : List A) (r : A)
      → IsAscending xs
      → ((q : A) → In q xs → key q < key r)
      → IsAscending (xs ++ r ∷ [])
  IsAscending-snoc [] r h b = tt
  IsAscending-snoc (x ∷ []) r h b = (b x (inl refl), tt)
  IsAscending-snoc (x ∷ y ∷ ys) r h b = (h.0, IsAscending-snoc (y ∷ ys) r h.1 (λ q i. b q (inr i)))
