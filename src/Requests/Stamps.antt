-- ===== src/Requests/Stamps.antt =====
-- Laws of the stamps of a bucket of `FailedAuthLimiter`, app/v1/throttle.py.
use custom_domain.Common.{
  ℕ, zero, suc, ◌+◌, ◌-◌, ◌≤◌, ◌≡◌, refl, inl, inr, Bool, true, List, [], ◌∷◌, ◌++◌, select, length,
  drop, count, count-append, ltb, min, All, All-append, All-select, All-drop, Time, arith,
  Bool-cases,
}
use custom_domain.Requests.Throttle.{recent}
use custom_domain.Requests.FailedAuth.{push}

abbrev pub Sorted : List Time → Type 0
Sorted [] = Unit
Sorted (x ∷ xs) = All (λ y. x ≤ y) xs × Sorted xs

abbrev pub counts_at : Time → Time → Time → Bool
counts_at window at t = ltb at (t + window)

module _ (window : Time) where
  -- The failures that count at an instant.
  abbrev pub counted : Time → List Time → ℕ
  counted at xs = count (counts_at window at) xs

  pub counted-one :
      (at x : Time) (xs : List Time) → counted at (x ∷ xs) ≡ counted at (x ∷ []) + counted at xs
  counted-one at x xs = ground arith

  counted-le : (at : Time) (xs : List Time) → counted at xs ≤ length xs
  counted-le at [] = omega arith
  counted-le at (x ∷ xs) = ground (arith, counted-le at xs)

  every_counted :
      (at x : Time) (xs : List Time)
      → counts_at window at x ≡ true
      → All (λ y. x ≤ y) xs
      → counted at xs ≡ length xs
  every_counted at x [] h a = refl
  every_counted at x (y ∷ ys) h (le, a) = ground (arith, every_counted at x ys h a)

  counted-drop :
      (at : Time) (k : ℕ) (xs : List Time)
      → Sorted xs
      → counted at (drop k xs) ≡ min (counted at xs) (length xs - k)
  counted-drop at zero xs s = omega (arith, counted-le at xs)
  counted-drop at (suc k) [] s = omega arith
  counted-drop at (suc k) (x ∷ xs) (a, s) = elim (Bool-cases (counts_at window at x)) [
    | inl t ↦ rw t (omega (arith, counted-drop at k xs s, every_counted at x xs t a))
    | inr f ↦ rw f (omega (arith, counted-drop at k xs s))
  ]

  counted-recent :
      (now at : Time) (xs : List Time)
      → now ≤ at
      → counted at (recent window now xs) ≡ counted at xs
  unfolding recent
  counted-recent now at [] h = refl
  counted-recent now at (x ∷ xs) h = ground (arith, counted-recent now at xs h)

  -- A push counts one failure more, up to the limit.
  pub counted-push :
      (limit : ℕ) (now at : Time) (xs : List Time)
      → now ≤ at
      → Sorted (recent window now xs ++ now ∷ [])
      → counted at (push limit window now xs) ≡ min limit (counted at xs + counted at (now ∷ []))
  unfolding push
  counted-push limit now at xs h s =
      let ys = recent window now xs ++ now ∷ [] in
      omega (
        arith,
        counted-drop at (length ys - limit) ys s,
        counted-le at ys,
        count-append (counts_at window at) (recent window now xs) (now ∷ []),
        counted-recent now at xs h,
      )

Sorted-append :
    (xs : List Time) (now : Time) → Sorted xs → All (λ x. x ≤ now) xs → Sorted (xs ++ now ∷ [])
Sorted-append [] now s a = (tt, tt)
Sorted-append (x ∷ xs) now (b, s) (le, a) =
    (All-append (λ y. x ≤ y) xs (now ∷ []) b (le, tt), Sorted-append xs now s a)

Sorted-select : (p : Time → Bool) (xs : List Time) → Sorted xs → Sorted (select p xs)
Sorted-select p [] s = tt
Sorted-select p (x ∷ xs) (a, s) = elim (Bool-cases (p x)) [
  | inl t ↦ rw t (All-select (λ y. x ≤ y) p xs a, Sorted-select p xs s)
  | inr f ↦ rw f (Sorted-select p xs s)
]

Sorted-drop : (k : ℕ) (xs : List Time) → Sorted xs → Sorted (drop k xs)
Sorted-drop zero xs s = s
Sorted-drop (suc k) [] s = tt
Sorted-drop (suc k) (x ∷ xs) (a, s) = Sorted-drop k xs s

-- The stamps of a bucket are in order, and none is later than the clock.
abbrev pub Kept : Time → List Time → Type 0
Kept now xs = Sorted xs × All (λ x. x ≤ now) xs

pub Kept-later :
    (now later : Time) (xs : List Time)
    → now ≤ later
    → All (λ x. x ≤ now) xs
    → All (λ x. x ≤ later) xs
Kept-later now later [] h a = tt
Kept-later now later (x ∷ xs) h (le, a) = (omega arith, Kept-later now later xs h a)

module _ (window : Time) where
  pub Kept-recent :
      (before now : Time) (xs : List Time)
      → before ≤ now
      → Kept before xs
      → Sorted (recent window now xs ++ now ∷ [])
  unfolding recent
  Kept-recent before now xs h (s, a) =
      let p = counts_at window now in
      Sorted-append (select p xs) now (Sorted-select p xs s)
        (Kept-later before now (select p xs) h (All-select (λ x. x ≤ before) p xs a))

  pub Kept-push :
      (limit : ℕ) (before now : Time) (xs : List Time)
      → before ≤ now
      → Kept before xs
      → Kept now (push limit window now xs)
  unfolding push recent
  Kept-push limit before now xs h (s, a) =
      let p = counts_at window now in
      let ys = recent window now xs ++ now ∷ [] in
      let old = Kept-later before now (select p xs) h (All-select (λ x. x ≤ before) p xs a) in
      let k = length ys - limit in
      (
        Sorted-drop k ys (Kept-recent before now xs h (s, a)),
        All-drop (λ x. x ≤ now) k ys
            (All-append (λ x. x ≤ now) (select p xs) (now ∷ []) old (omega arith, tt)),
      )
