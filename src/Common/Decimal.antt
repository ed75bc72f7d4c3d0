-- ===== src/Common/Decimal.antt =====
-- Numbers as text, and texts joined and split: `str(n)`, `int(text)`, `sep.join`, `split(sep)` and
-- `partition(sep)`, with a separator of one character.
use Prim.Native.Nat.{ℕ, zero, suc, ◌+◌, ◌-◌, ◌*◌, ◌/◌, ◌%◌, ◌<◌}
use mathlib.Core.Path.{◌≡◌, refl, sym, ap, ◌∙◌}
use mathlib.Core.Logic.{inl, inr, ◌⊎◌, ◌≢◌}
use mathlib.Core.Bool.{Bool, true, false, not, ◌&&◌}
use mathlib.Core.Option.{Option, none, some}
use mathlib.Core.List.{
  List, [], ◌∷◌, ◌++◌, reverse, append-nil, append_assoc, reverse-append, reverse-reverse,
}
use native.Mathlib.Omega.{arith}
use custom_domain.Common.Tests.{leb, ltb, ◌==◌, if◌then◌else◌, Bool-cases}
use custom_domain.Common.Strings.{Text, strip, drop_spaces, is_space}
use custom_domain.Common.Lists.{all}

-- Python's integers; `negsuc n` is -(n + 1).
pub data ℤ : Type 0 where
  pos negsuc : ℕ → ℤ

-- The digits of a number below ten to the power of the fuel.
unfoldable pub digits : ℕ → ℕ → Text
digits zero n = []
digits (suc fuel) n =
    let front = digits fuel (n / 10) in
    if ltb n 10 then (48 + n) ∷ [] else front ++ (48 + n % 10) ∷ []

unfoldable pub str : ℕ → Text
unfolding digits
str n = digits (suc n) n

unfoldable pub is_digit : ℕ → Bool
is_digit c = leb 48 c && leb c 57

-- The digits of an integer literal; an underscore stands between two digits. `after_digit` tells
-- whether the character before was a digit.
unfoldable pub read_digits : Bool → ℕ → Text → Option ℕ
unfolding is_digit
read_digits after_digit value [] = if after_digit then some value else none
read_digits after_digit value (c ∷ s) =
    let digit = read_digits true (value * 10 + (c - 48)) s in
    let gap = read_digits false value s in
    if is_digit c then digit else if c == b'_' && after_digit then gap else none

abbrev pub negate : ℕ → ℤ
negate zero = pos zero
negate (suc n) = negsuc n

-- A sign, and what it makes of the number read.
unfoldable pub read_signed : Text → Option ℤ
unfolding read_digits
read_signed [] = none
read_signed (c ∷ s) =
    if c == b'-'
    then elim (read_digits false 0 s) [ none ↦ none | some n ↦ some (negate n) ]
    else elim (read_digits false 0 (if c == b'+' then s else c ∷ s)) [
      | none ↦ none
      | some n ↦ some (pos n)
    ]

-- `int(text)` of a text in Latin-1, whose only decimal digits are those of ASCII.
unfoldable pub int : Text → Option ℤ
unfolding read_signed
int s = read_signed (strip s)

-- `sep.join(parts)`
unfoldable pub join : ℕ → List Text → Text
join sep [] = []
join sep (t ∷ []) = t
join sep (t ∷ u ∷ ts) = t ++ sep ∷ join sep (u ∷ ts)

-- A character in front of the first part.
unfoldable pub onto_head : ℕ → List Text → List Text
onto_head c [] = (c ∷ []) ∷ []
onto_head c (t ∷ ts) = (c ∷ t) ∷ ts

-- `text.split(sep)`
unfoldable pub split : ℕ → Text → List Text
unfolding onto_head
split sep [] = [] ∷ []
split sep (c ∷ s) = let rest = split sep s in if c == sep then [] ∷ rest else onto_head c rest

-- `text.partition(sep)`, or nothing where the separator is missing.
unfoldable pub partition : ℕ → Text → Option (Text × Text)
partition sep [] = none
partition sep (c ∷ s) =
    let rest = partition sep s in
    if c == sep
    then some ([], s)
    else elim rest [ none ↦ none | some (front, back) ↦ some (c ∷ front, back) ]

abbrev pub lacks : ℕ → Text → Bool
lacks sep t = all (λ c. not (c == sep)) t

split-lacks : (sep : ℕ) (t : Text) → lacks sep t ≡ true → split sep t ≡ t ∷ []
unfolding split
split-lacks sep [] h = refl
split-lacks sep (c ∷ t) h = ground (arith, split-lacks sep t)

split-append :
    (sep : ℕ) (t rest : Text)
    → lacks sep t ≡ true
    → split sep (t ++ sep ∷ rest) ≡ t ∷ split sep rest
unfolding split
split-append sep [] rest h = ground arith
split-append sep (c ∷ t) rest h = ground (arith, split-append sep t rest)

-- Splitting what was joined gives the parts back, if there are parts and none holds the separator.
pub split-join :
    (sep : ℕ) (t : Text) (ts : List Text)
    → all (lacks sep) (t ∷ ts) ≡ true
    → split sep (join sep (t ∷ ts)) ≡ t ∷ ts
unfolding join
split-join sep t [] h = split-lacks sep t (ground arith)
split-join sep t (u ∷ ts) h =
    split-append sep t (join sep (u ∷ ts)) (ground arith)
    ∙ ap (λ l. t ∷ l) (split-join sep u ts (ground arith))

pub partition-append :
    (sep : ℕ) (t rest : Text)
    → lacks sep t ≡ true
    → partition sep (t ++ sep ∷ rest) ≡ some (t, rest)
unfolding partition
partition-append sep [] rest h = ground arith
partition-append sep (c ∷ t) rest h = ground (arith, partition-append sep t rest)

is_digit-add : (d : ℕ) → d < 10 → is_digit (48 + d) ≡ true
unfolding is_digit
is_digit-add d h = ground arith

-- Reading digits goes on from what was read.
read_digits-cons :
    (after : Bool) (value d : ℕ) (s : Text)
    → d < 10
    → read_digits after value ((48 + d) ∷ s) ≡ read_digits true (value * 10 + d) s
unfolding read_digits
read_digits-cons after value d s h =
    let e : 48 + d - 48 ≡ d = omega arith in rw (is_digit-add d h, e) refl

read_digits-digits :
    (fuel n : ℕ) (rest : Text)
    → n < fuel
    → read_digits false 0 (digits fuel n ++ rest) ≡ read_digits true n rest
unfolding digits
read_digits-digits zero n rest h = absurd (omega arith)
read_digits-digits (suc fuel) n rest h = elim (Bool-cases (ltb n 10)) [
  | inl small ↦
      let z : 0 * 10 + n ≡ n = omega arith in
      rw small
        (read_digits-cons false 0 n rest (ground arith) ∙ ap (λ v. read_digits true v rest) z)
  | inr large ↦
      let back : n / 10 * 10 + n % 10 ≡ n = omega arith in
      rw large (
        ap (λ t. read_digits false 0 t)
          (append_assoc (digits fuel (n / 10)) ((48 + n % 10) ∷ []) rest)
        ∙ read_digits-digits fuel (n / 10) ((48 + n % 10) ∷ rest) (ground arith)
        ∙ read_digits-cons true (n / 10) (n % 10) rest (omega arith)
        ∙ ap (λ v. read_digits true v rest) back)
]

all-append : (p : ℕ → Bool) (s t : Text) → all p (s ++ t) ≡ (all p s && all p t)
all-append p [] t = refl
all-append p (c ∷ s) t = ground (arith, all-append p s t)

-- Each character of a number is a digit.
pub all-digits :
    (p : ℕ → Bool) (fuel n : ℕ)
    → ((d : ℕ) → d < 10 → p (48 + d) ≡ true)
    → all p (digits fuel n) ≡ true
unfolding digits
all-digits p zero n h = refl
all-digits p (suc fuel) n h = elim (Bool-cases (ltb n 10)) [
  | inl small ↦ rw small (rw (h n (ground arith)) refl)
  | inr large ↦ rw large (
      rw
        (
          all-append p (digits fuel (n / 10)) ((48 + n % 10) ∷ []),
          all-digits p fuel (n / 10) h,
          h (n % 10) (omega arith),
        )
        refl)
]

-- A text without space stays when it is stripped.
abbrev pub solid : Text → Bool
solid t = all (λ c. not (is_space c)) t

drop_spaces-solid : (t : Text) → solid t ≡ true → drop_spaces t ≡ t
unfolding drop_spaces
drop_spaces-solid [] h = refl
drop_spaces-solid (c ∷ t) h = ground arith

all-reverse : (p : ℕ → Bool) (t : Text) → all p t ≡ true → all p (reverse t) ≡ true
all-reverse p [] h = refl
all-reverse p (c ∷ t) h =
    rw (reverse-append (c ∷ []) t)
      (rw (all-append p (reverse t) (c ∷ []), all-reverse p t (ground arith)) (ground arith))

pub strip-solid : (t : Text) → solid t ≡ true → strip t ≡ t
unfolding strip
strip-solid t h =
    rw (drop_spaces-solid t h, drop_spaces-solid (reverse t) (all-reverse _ t h))
      (reverse-reverse t)

read_signed-digit :
    (c : ℕ) (s : Text)
    → is_digit c ≡ true
    → read_signed (c ∷ s)
      ≡ elim (read_digits false 0 (c ∷ s)) [ none ↦ none | some n ↦ some (pos n) ]
unfolding read_signed is_digit
read_signed-digit c s h =
    let minus : (c == b'-') ≡ false = ground arith in
    let plus : (c == b'+') ≡ false = ground arith in rw (minus, plus) refl

digit_head :
    (t : Text)
    → all is_digit t ≡ true
    → t ≢ []
    → read_signed t ≡ elim (read_digits false 0 t) [ none ↦ none | some n ↦ some (pos n) ]
digit_head [] h e = absurd (e refl)
digit_head (c ∷ s) h e = read_signed-digit c s (ground arith)

read_digits-str : (n : ℕ) → read_digits false 0 (str n) ≡ some n
unfolding str
read_digits-str n =
    ap (λ t. read_digits false 0 t) (sym (append-nil (digits (suc n) n)))
    ∙ read_digits-digits (suc n) n [] (omega arith)
    ∙ unfold read_digits in refl

pub str-solid : (n : ℕ) → solid (str n) ≡ true
unfolding str is_space
str-solid n = all-digits (λ c. not (is_space c)) (suc n) n (λ d h. ground arith)

pub str-lacks : (sep n : ℕ) → (sep < 48) ⊎ (57 < sep) → lacks sep (str n) ≡ true
unfolding str
str-lacks sep n o = all-digits (λ c. not (c == sep)) (suc n) n (λ d h. ground arith)

-- Reading the text of a number gives it back.
pub int-str : (n : ℕ) → int (str n) ≡ some (pos n)
unfolding int
int-str n =
    let some_digit : str n ≢ [] =
      λ e. (let q = read_digits-str n in let r = rw e at q in unfold read_digits in cc) in
    rw (strip-solid (str n) (str-solid n)) (
      digit_head (str n) (unfold str in all-digits is_digit (suc n) n is_digit-add) some_digit
      ∙ rw (read_digits-str n) refl)
