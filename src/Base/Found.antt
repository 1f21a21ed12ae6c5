-- ===== src/Base/Found.antt =====
-- Whether a table has a row that passes a test, and which row is found, after the table has changed.
use Prim.Native.Nat.{◌+◌}
use mathlib.Core.Path.{◌≡◌, refl}
use mathlib.Core.Logic.{inl, inr}
use mathlib.Core.Bool.{Bool, true, false, not}
use mathlib.Core.Option.{none, some}
use mathlib.Core.List.{List, [], ◌∷◌, ◌++◌}
use native.Mathlib.Omega.{arith}
use vixa_system_config_be.Base.Tests.{Bool-cases}
use vixa_system_config_be.Base.Rows.{any, find, update, delete, filter, count, length, In}

module _ {A : Type 0} where
  pub any-append_left : (p : A → Bool) (xs ys : List A) → any p xs ≡ true → any p (xs ++ ys) ≡ true
  unfolding any
  any-append_left p [] ys h = absurd (ground arith)
  any-append_left p (x ∷ xs) ys h = ground (arith, any-append_left p xs ys)

  pub any-update :
      (p q : A → Bool) (f : A → A) (xs : List A)
      → ((r : A) → p (f r) ≡ p r)
      → any p (update q f xs) ≡ any p xs
  unfolding any update
  any-update p q f [] h = refl
  any-update p q f (x ∷ xs) h = ground (arith, h x, any-update p q f xs h)

  pub any-delete :
      (p q : A → Bool) (xs : List A)
      → ((r : A) → p r ≡ true → q r ≡ false)
      → any p xs ≡ true
      → any p (delete q xs) ≡ true
  unfolding any delete
  any-delete p q [] h e = e
  any-delete p q (x ∷ xs) h e = ground (arith, h x, any-delete p q xs h)

  pub any-find : (p : A → Bool) (xs : List A) (r : A) → find p xs ≡ some r → any p xs ≡ true
  unfolding any find
  any-find p [] r h = absurd (ground arith)
  any-find p (x ∷ xs) r h = ground (arith, any-find p xs r)

  pub find-any : (p : A → Bool) (xs : List A) → any p xs ≡ true → (r : A) × (find p xs ≡ some r)
  unfolding any find
  find-any p [] h = absurd (ground arith)
  find-any p (x ∷ xs) h = elim (Bool-cases (p x)) [
    | inl passes ↦ (x, ground arith)
    | inr fails ↦ let (r, e) = find-any p xs (ground arith) in (r, ground arith)
  ]

  pub any-snoc_self :
      (p : A → Bool) (xs : List A) (r : A) → p r ≡ true → any p (xs ++ r ∷ []) ≡ true
  unfolding any
  any-snoc_self p [] r h = ground arith
  any-snoc_self p (x ∷ xs) r h = ground (arith, any-snoc_self p xs r)

  -- A row that an update writes is found where the old one was.
  pub find-update :
      (p : A → Bool) (f : A → A) (xs : List A) (r : A)
      → find p xs ≡ some r
      → ((q : A) → p q ≡ true → p (f q) ≡ true)
      → find p (update p f xs) ≡ some (f r)
  unfolding find update
  find-update p f [] r h k = absurd (ground arith)
  find-update p f (x ∷ xs) r h k = ground (arith, k x, find-update p f xs r)

  pub find-none-any : (p : A → Bool) (xs : List A) → find p xs ≡ none → any p xs ≡ false
  unfolding any find
  find-none-any p [] h = refl
  find-none-any p (x ∷ xs) h = ground (arith, find-none-any p xs)

  -- Selections and their counts.
  pub any-delete_other :
      (p q : A → Bool) (xs : List A)
      → ((r : A) → p r ≡ true → q r ≡ false)
      → any p (delete q xs) ≡ any p xs
  unfolding any delete
  any-delete_other p q [] h = refl
  any-delete_other p q (x ∷ xs) h = ground (arith, h x, any-delete_other p q xs h)

  pub length-filter : (p : A → Bool) (xs : List A) → length (filter p xs) ≡ count p xs
  unfolding filter count
  length-filter p [] = refl
  length-filter p (x ∷ xs) = ground (arith, length-filter p xs)

  pub length-split :
      (p : A → Bool) (xs : List A) → length (filter p xs) + length (delete p xs) ≡ length xs
  unfolding filter delete
  length-split p [] = refl
  length-split p (x ∷ xs) = ground (arith, length-split p xs)

  pub count-cong :
      (p q : A → Bool) (xs : List A) → ((r : A) → In r xs → p r ≡ q r) → count p xs ≡ count q xs
  unfolding count
  count-cong p q [] h = refl
  count-cong p q (x ∷ xs) h = rw (h x (inl refl), count-cong p q xs (λ r i. h r (inr i))) refl

  pub filter-cong :
      (p q : A → Bool) (xs : List A) → ((r : A) → In r xs → p r ≡ q r) → filter p xs ≡ filter q xs
  unfolding filter
  filter-cong p q [] h = refl
  filter-cong p q (x ∷ xs) h = rw (h x (inl refl), filter-cong p q xs (λ r i. h r (inr i))) refl

  -- What is left of a table are the other rows.
  pub delete-filter :
      (p q : A → Bool) (xs : List A)
      → ((r : A) → In r xs → p r ≡ not (q r))
      → delete p xs ≡ filter q xs
  unfolding delete filter
  delete-filter p q [] h = refl
  delete-filter p q (x ∷ xs) h =
      let here = h x (inl refl) in
      let rest = delete-filter p q xs (λ r i. h r (inr i)) in ground arith

  pub update-cong :
      (p q : A → Bool) (f : A → A) (xs : List A)
      → ((r : A) → In r xs → p r ≡ q r)
      → update p f xs ≡ update q f xs
  unfolding update
  update-cong p q f [] h = refl
  update-cong p q f (x ∷ xs) h = rw (h x (inl refl), update-cong p q f xs (λ r i. h r (inr i))) refl

  pub any-of_In : (p : A → Bool) (xs : List A) (r : A) → In r xs → p r ≡ true → any p xs ≡ true
  unfolding any
  any-of_In p [] r i h = absurd i
  any-of_In p (x ∷ xs) r i h = ground (arith, any-of_In p xs r)
