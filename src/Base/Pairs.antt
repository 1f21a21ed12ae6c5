-- ===== src/Base/Pairs.antt =====
-- Relations between any two rows of a table, such as the distinctness of a key.
use mathlib.Core.Path.{◌≡◌, refl, sym, ◌∙◌}
use mathlib.Core.Logic.{◌⊎◌, inl, inr}
use mathlib.Core.Bool.{Bool}
use mathlib.Core.List.{List, [], ◌∷◌, ◌++◌}
use vixa_system_config_be.Base.Tests.{if◌then◌else◌, Bool-cases}
use vixa_system_config_be.Base.Rows.{In, In-append, In-update, update, In-delete, delete}

module _ {A : Type 0} (R : A → A → Type 0) where
  -- Each row is related to every row after it.
  abbrev pub IsPairwise : List A → Type 0
  IsPairwise [] = Unit
  IsPairwise (x ∷ xs) = ((q : A) → In q xs → R x q) × IsPairwise xs

  pub pairwise_cases :
      (xs : List A) (a b : A) → IsPairwise xs → In a xs → In b xs → (a ≡ b) ⊎ (R a b ⊎ R b a)
  pairwise_cases [] a b h i j = absurd i
  pairwise_cases (x ∷ xs) a b h (inl e) (inl f) = inl (e ∙ sym f)
  pairwise_cases (x ∷ xs) a b h (inl e) (inr j) = inr (inl (rw e (h.0 b j)))
  pairwise_cases (x ∷ xs) a b h (inr i) (inl f) = inr (inr (rw f (h.0 a i)))
  pairwise_cases (x ∷ xs) a b h (inr i) (inr j) = pairwise_cases xs a b h.1 i j

  pub IsPairwise-snoc :
      (xs : List A) (r : A)
      → IsPairwise xs
      → ((q : A) → In q xs → R q r)
      → IsPairwise (xs ++ r ∷ [])
  IsPairwise-snoc [] r h f = ((λ q i. absurd i), tt)
  IsPairwise-snoc (x ∷ xs) r h f = (
    (λ q i. elim (In-append q xs (r ∷ []) i) [
      | inl old ↦ h.0 q old
      | inr (inl new) ↦ rw new (f x (inl refl))
      | inr (inr nowhere) ↦ absurd nowhere
    ]),
    IsPairwise-snoc xs r h.1 (λ q i. f q (inr i)),
  )

  -- An update keeps a relation that it keeps between related rows of the table.
  pub IsPairwise-update :
      (p : A → Bool) (f : A → A) (xs : List A)
      → IsPairwise xs
      → ((a b : A)
          → In a xs
          → In b xs
          → R a b
          → R (if p a then f a else a) (if p b then f b else b))
      → IsPairwise (update p f xs)
  unfolding update
  IsPairwise-update p f [] h k = tt
  IsPairwise-update p f (x ∷ xs) h k = (
    (λ q i. let (b, j, e) = In-update p f xs q i in rw e (k x b (inl refl) (inr j) (h.0 b j))),
    IsPairwise-update p f xs h.1 (λ a b i j. k a b (inr i) (inr j)),
  )

  pub IsPairwise-delete : (p : A → Bool) (xs : List A) → IsPairwise xs → IsPairwise (delete p xs)
  unfolding delete
  IsPairwise-delete p [] h = tt
  IsPairwise-delete p (x ∷ xs) h = elim (Bool-cases (p x)) [
    | inl gone ↦ rw gone (IsPairwise-delete p xs h.1)
    | inr kept ↦ rw kept ((λ q i. h.0 q (In-delete p xs q i).0), IsPairwise-delete p xs h.1)
  ]
