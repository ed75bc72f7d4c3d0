-- ===== src/Edge/Sums.antt =====
-- Counts and sums over lists that are selected and sorted.
use custom_domain.Common.{
  ℕ, ◌+◌, ◌≤◌, ◌≡◌, refl, ◌∙◌, Bool, true, false, ◌&&◌, List, [], ◌∷◌, ◌++◌, map, select, count,
  arith,
}
use custom_domain.Edge.Routes.{insert_by, sort_by}

module _ {ℓ} {A : Type ℓ} where
  pub count-insert_by :
      (before : A → A → Bool) (p : A → Bool) (x : A) (ys : List A)
      → count p (insert_by before x ys) ≡ count p (x ∷ ys)
  unfolding insert_by
  count-insert_by before p x [] = refl
  count-insert_by before p x (y ∷ ys) = ground (arith, count-insert_by before p x ys)

  pub count-sort_by :
      (before : A → A → Bool) (p : A → Bool) (xs : List A)
      → count p (sort_by before xs) ≡ count p xs
  unfolding sort_by
  count-sort_by before p [] = refl
  count-sort_by before p (x ∷ xs) =
      count-insert_by before p x (sort_by before xs) ∙ ground (arith, count-sort_by before p xs)

  pub count-select :
      (p q : A → Bool) (xs : List A) → count p (select q xs) ≡ count (λ x. q x && p x) xs
  count-select p q [] = refl
  count-select p q (x ∷ xs) = ground (arith, count-select p q xs)

  pub count-map :
      {B : Type 0} (f : A → B) (p : B → Bool) (xs : List A)
      → count p (map f xs) ≡ count (λ x. p (f x)) xs
  count-map f p [] = refl
  count-map f p (x ∷ xs) = ground (arith, count-map f p xs)

  pub count-same : (p q : A → Bool) (xs : List A) → ((x : A) → p x ≡ q x) → count p xs ≡ count q xs
  count-same p q [] h = refl
  count-same p q (x ∷ xs) h = ground (arith, h x, count-same p q xs h)

  pub count-le :
      (p q : A → Bool) (xs : List A) → ((x : A) → p x ≡ true → q x ≡ true) → count p xs ≤ count q xs
  count-le p q [] h = omega arith
  count-le p q (x ∷ xs) h = ground (arith, h x, count-le p q xs h)

  pub count-false : (p : A → Bool) (xs : List A) → ((x : A) → p x ≡ false) → count p xs ≡ 0
  count-false p [] h = refl
  count-false p (x ∷ xs) h = rw (h x) (count-false p xs h)

  -- A sum over a list.
  abbrev pub total : (A → ℕ) → List A → ℕ
  total f [] = 0
  total f (x ∷ xs) = f x + total f xs

  pub total-insert_by :
      (before : A → A → Bool) (f : A → ℕ) (x : A) (ys : List A)
      → total f (insert_by before x ys) ≡ f x + total f ys
  unfolding insert_by
  total-insert_by before f x [] = refl
  total-insert_by before f x (y ∷ ys) = ground (arith, total-insert_by before f x ys)

  pub total-sort_by :
      (before : A → A → Bool) (f : A → ℕ) (xs : List A) → total f (sort_by before xs) ≡ total f xs
  unfolding sort_by
  total-sort_by before f [] = refl
  total-sort_by before f (x ∷ xs) =
      omega (arith, total-insert_by before f x (sort_by before xs), total-sort_by before f xs)

  pub total-select :
      (f : A → ℕ) (q : A → Bool) (xs : List A)
      → ((x : A) → q x ≡ false → f x ≡ 0)
      → total f (select q xs) ≡ total f xs
  total-select f q [] h = refl
  total-select f q (x ∷ xs) h = ground (arith, h x, total-select f q xs h)

  pub total-append : (f : A → ℕ) (xs ys : List A) → total f (xs ++ ys) ≡ total f xs + total f ys
  total-append f [] ys = omega arith
  total-append f (x ∷ xs) ys = omega (arith, total-append f xs ys)
