-- ===== src/Webhooks/Signature.antt =====
-- app/webhooks/signature.py. A body is the text of its bytes, and HMAC-SHA256 in hexadecimal is a parameter of the
-- secret and of the message.
use custom_domain.Common.{
  ℕ, suc, ◌+◌, ◌-◌, Bool, false, ◌||◌, Option, none, some, List, [], ◌∷◌, ◌++◌, map, any, leb, ltb,
  if◌then◌else◌, Text, codes, text_eq, strip, ℤ, pos, negsuc, str, int, join, split, partition,
}

-- The codes of SignatureInvalid.
pub data SignatureInvalid : Type 0 where
  missing malformed stale bad_signature : SignatureInvalid

-- The timestamp that `verify` returns, or what it raises.
pub data Verified : Type 0 where
  verified : ℤ → Verified
  refused : SignatureInvalid → Verified

abbrev pub default_tolerance : ℕ
default_tolerance = 300

-- `abs(current - timestamp)`
unfoldable pub distance : ℕ → ℤ → ℕ
distance current (pos t) = if leb t current then current - t else t - current
distance current (negsuc t) = current + suc t

abbrev pub timestamp_text : ℤ → Text
timestamp_text (pos t) = str t
timestamp_text (negsuc t) = b'-' ∷ str (suc t)

-- The `t=` and the `v1=` parts of a header that were read so far.
pub record Parts : Type 0 where
  pub timestamp : Option ℤ
  pub given : List Text

-- What a key and its value add; `none` where the timestamp is no integer.
unfoldable pub read_pair : Option (Text × Text) → Parts → Option Parts
read_pair none parts = some parts
read_pair (some (key, value)) parts =
    if text_eq key (codes "t")
    then elim (int value) [ none ↦ none | some t ↦ some (record parts { timestamp = some t }) ]
    else if text_eq key (codes "v1")
    then some (record parts { given = parts.given ++ value ∷ [] })
    else some parts

-- One round of the loop over the header.
unfoldable pub read_part : Text → Parts → Option Parts
unfolding read_pair
read_part part parts = read_pair (partition b'=' (strip part)) parts

unfoldable pub read_parts : List Text → Parts → Option Parts
read_parts [] parts = some parts
read_parts (p ∷ ps) parts = elim (read_part p parts) [
  | none ↦ none
  | some more ↦ read_parts ps more
]

module _ (hmac : Text → Text → Text) where
  unfoldable pub digest : Text → ℤ → Text → Text
  digest secret timestamp body = hmac secret (timestamp_text timestamp ++ codes "." ++ body)

  abbrev pub signature_part : ℕ → Text → Text → Text
  signature_part stamp body secret = codes "v1=" ++ digest secret (pos stamp) body

  unfoldable pub sign : Text → List Text → ℕ → Text
  sign body secrets stamp =
      join b',' ((codes "t=" ++ str stamp) ∷ map (signature_part stamp body) secrets)

  -- Whether one of the secrets made one of the given signatures.
  unfoldable pub matches : List Text → ℤ → Text → List Text → Bool
  matches [] timestamp body given = false
  matches (secret ∷ secrets) timestamp body given =
      any (text_eq (digest secret timestamp body)) given || matches secrets timestamp body given

  abbrev pub check_parts : Parts → Text → List Text → ℕ → ℕ → Verified
  check_parts parts body secrets now tolerance = elim parts.timestamp [
    | none ↦ refused malformed
    | some timestamp ↦ elim parts.given [
      | [] ↦ refused malformed
      | g ∷ gs ↦
          if ltb tolerance (distance now timestamp)
          then refused stale
          else if matches secrets timestamp body (g ∷ gs)
          then verified timestamp
          else refused bad_signature
    ]
  ]

  abbrev pub no_parts : Parts
  no_parts = record { timestamp = none; given = [] }

  abbrev pub check_header : Option Parts → Text → List Text → ℕ → ℕ → Verified
  check_header none body secrets now tolerance = refused malformed
  check_header (some parts) body secrets now tolerance =
      check_parts parts body secrets now tolerance

  unfoldable pub verify : Option Text → Text → List Text → ℕ → ℕ → Verified
  verify none body secrets now tolerance = refused missing
  verify (some header) body secrets now tolerance =
      if text_eq header []
      then refused missing
      else check_header (read_parts (split b',' header) no_parts) body secrets now tolerance
