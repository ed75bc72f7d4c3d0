-- ===== src/Hostname/Labels.antt =====
-- The text operations of app/hostname.py, and its pattern for a label.
use custom_domain.Common.{
  ℕ, ◌+◌, Bool, true, false, ◌&&◌, ◌||◌, List, [], ◌∷◌, reverse, leb, ◌==◌, if◌then◌else◌, Text,
  all,
}

unfoldable pub is_alnum : ℕ → Bool
is_alnum c = leb b'a' c && leb c b'z' || leb b'0' c && leb c b'9'

unfoldable pub is_label_char : ℕ → Bool
unfolding is_alnum
is_label_char c = is_alnum c || c == b'-'

-- The rest of a label after its first character: empty, or it ends in a letter or a digit.
unfoldable pub ends_alnum : Text → Bool
unfolding is_alnum
ends_alnum [] = true
ends_alnum (c ∷ []) = is_alnum c
ends_alnum (c ∷ d ∷ s) = ends_alnum (d ∷ s)

-- `[a-z0-9](?:[a-z0-9-]*[a-z0-9])?` over a whole text.
unfoldable pub full_label : Text → Bool
unfolding is_alnum is_label_char ends_alnum
full_label [] = false
full_label (c ∷ s) = is_alnum c && all is_label_char s && ends_alnum s

-- `$` in a pattern also stands before a newline that ends the text.
unfoldable pub drop_newline : Text → Text
drop_newline [] = []
drop_newline (c ∷ []) = if c == 10 then [] else c ∷ []
drop_newline (c ∷ d ∷ s) = c ∷ drop_newline (d ∷ s)

-- `_LABEL_RE.match(label)`
unfoldable pub label_matches : Text → Bool
unfolding full_label drop_newline
label_matches s = full_label s || full_label (drop_newline s)

-- `value.removesuffix(".")`
unfoldable pub remove_dot : Text → Text
remove_dot [] = []
remove_dot (c ∷ []) = if c == b'.' then [] else c ∷ []
remove_dot (c ∷ d ∷ s) = c ∷ remove_dot (d ∷ s)

-- A character in front of the first label.
unfoldable pub cons_head : ℕ → List Text → List Text
cons_head c [] = (c ∷ []) ∷ []
cons_head c (l ∷ ls) = (c ∷ l) ∷ ls

-- `value.split(".")`
unfoldable pub split_dot : Text → List Text
unfolding cons_head
split_dot [] = [] ∷ []
split_dot (c ∷ s) = let rest = split_dot s in if c == b'.' then [] ∷ rest else cons_head c rest

-- `ascii_value.lower()`, on ASCII.
unfoldable pub lower : Text → Text
lower [] = []
lower (c ∷ s) = (if leb b'A' c && leb c b'Z' then c + 32 else c) ∷ lower s

-- `labels[-1]`; `split` never returns an empty list.
unfoldable pub last_label : List Text → Text
last_label [] = []
last_label (l ∷ []) = l
last_label (l ∷ m ∷ ls) = last_label (m ∷ ls)

-- `label.isdigit()`, on ASCII.
unfoldable pub is_digits : Text → Bool
is_digits [] = false
is_digits (c ∷ s) = all (λ d. leb b'0' d && leb d b'9') (c ∷ s)

-- `"*" in value`
unfoldable pub has_wildcard : Text → Bool
has_wildcard [] = false
has_wildcard (c ∷ s) = c == b'*' || has_wildcard s

drop_brackets : Text → Text
drop_brackets [] = []
drop_brackets (c ∷ s) = if c == b'[' || c == b']' then drop_brackets s else c ∷ s

-- `value.strip("[]")`
unfoldable pub strip_brackets : Text → Text
unfolding drop_brackets
strip_brackets s = reverse (drop_brackets (reverse (drop_brackets s)))
