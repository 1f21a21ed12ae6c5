-- ===== src/Base/Groups.antt =====
-- A select with `group by` and `count(*)`: the groups of a list by an equality test, with their sizes.
use Prim.Native.Nat.{ℕ, ◌+◌}
use mathlib.Core.Path.{◌≡◌, refl, ◌∙◌}
use mathlib.Core.Logic.{inl, inr}
use mathlib.Core.Bool.{Bool, true, false, ◌&&◌}
use mathlib.Core.List.{List, [], ◌∷◌, map}
use native.Mathlib.Omega.{arith}
use vixa_system_config_be.Base.Tests.{if◌then◌else◌, leb, Bool-cases}
use vixa_system_config_be.Base.Rows.{In, In-delete, count, delete, filter, unique_by}
use vixa_system_config_be.Base.Order.{insert_by, sort_by, order_asc}

module _ {A : Type 0} where
  count-insert_by :
      (p : A → Bool) (le : A → A → Bool) (x : A) (xs : List A)
      → count p (insert_by le x xs) ≡ (if p x then 1 else 0) + count p xs
  unfolding count insert_by
  count-insert_by p le x [] = refl
  count-insert_by p le x (y ∷ ys) = ground (arith, count-insert_by p le x ys)

  -- an order changes no count
  pub count-order_asc :
      (p : A → Bool) (key : A → ℕ) (xs : List A) → count p (order_asc key xs) ≡ count p xs
  unfolding count order_asc sort_by
  count-order_asc p key [] = refl
  count-order_asc p key (x ∷ xs) =
      count-insert_by p (λ a b. leb (key a) (key b)) x (order_asc key xs)
      ∙ omega (arith, count-order_asc p key xs)

  pub count-filter :
      (p q : A → Bool) (xs : List A) → count p (filter q xs) ≡ count (λ x. q x && p x) xs
  unfolding count filter
  count-filter p q [] = refl
  count-filter p q (x ∷ xs) = ground (arith, count-filter p q xs)

  pub In-unique_by :
      (same : A → A → Bool) (xs : List A) (r : A) → In r (unique_by same xs) → In r xs
  unfolding unique_by
  In-unique_by same [] r i = i
  In-unique_by same (x ∷ xs) r (inl e) = inl e
  In-unique_by same (x ∷ xs) r (inr i) =
      inr (In-unique_by same xs r (In-delete (same x) (unique_by same xs) r i).0)

  module _ (same : A → A → Bool) where
    module _ (reflexive : (a : A) → same a a ≡ true)
        (joins : (a b y : A) → same a y ≡ true → same b y ≡ true → same a b ≡ true)
        (carries : (a b y : A) → same a b ≡ true → same b y ≡ true → same a y ≡ true) where
      in_deleted :
          (x y : A) (gs : List A) → same x y ≡ true → count (λ e. same e y) (delete (same x) gs) ≡ 0
      unfolding count delete
      in_deleted x y [] h = refl
      in_deleted x y (g ∷ gs) h =
          let rest = in_deleted x y gs h in let j = joins x g y h in ground arith

      in_kept :
          (x y : A) (gs : List A)
          → same x y ≡ false
          → count (λ e. same e y) (delete (same x) gs) ≡ count (λ e. same e y) gs
      unfolding count delete
      in_kept x y [] h = refl
      in_kept x y (g ∷ gs) h = let rest = in_kept x y gs h in let c = carries x g y in ground arith

      -- each row is in one group
      pub one_group :
          (xs : List A) (y : A) → In y xs → count (λ e. same e y) (unique_by same xs) ≡ 1
      unfolding count unique_by
      one_group [] y i = absurd i
      one_group (x ∷ xs) y i = elim (Bool-cases (same x y)) [
        | inl h ↦ let none_else = in_deleted x y (unique_by same xs) h in ground arith
        | inr h ↦ elim i [
          | inl e ↦ let r = reflexive y in ground arith
          | inr i' ↦
              let rest = one_group xs y i' in
              let kept = in_kept x y (unique_by same xs) h in ground arith
        ]
      ]

module _ {A B : Type 0} where
  pub count-map :
      (p : B → Bool) (f : A → B) (xs : List A) → count p (map f xs) ≡ count (λ x. p (f x)) xs
  unfolding count
  count-map p f [] = refl
  count-map p f (x ∷ xs) = rw (count-map p f xs) refl

  pub In-map : (f : A → B) (xs : List A) (r : B) → In r (map f xs) → (x : A) × In x xs × (r ≡ f x)
  In-map f [] r i = absurd i
  In-map f (x ∷ xs) r (inl e) = (x, inl refl, e)
  In-map f (x ∷ xs) r (inr i) = let (y, j, e) = In-map f xs r i in (y, inr j, e)
