-- ===== src/Hostname/Canonicalize.antt =====
-- `canonicalize`. The IDNA encoder, the parser of IP addresses and the public suffix list are
-- libraries, so they are a parameter.
use custom_domain.Common.{
  ℕ, Bool, false, not, ◌&&◌, ◌||◌, Option, none, some, List, [], ◌∷◌, ltb, leb, if◌then◌else◌, Text,
  codes, text_eq, member, strip, length, all,
}
use custom_domain.Hostname.Labels.{
  label_matches, remove_dot, split_dot, lower, last_label, is_digits, has_wildcard, strip_brackets,
}

-- What is used of the packages idna, ipaddress and publicsuffixlist.
pub record Libraries : Type 0 where
  -- `idna.encode(value, uts46=True).decode("ascii")`; `none` for an `IDNAError`.
  pub idna_encode : Text → Option Text
  -- Whether `ipaddress.ip_address(value)` accepts the text.
  pub ip_address : Text → Bool
  -- `PublicSuffixList().privatesuffix(value)`
  pub private_suffix : Text → Option Text

pub data HostnameError : Type 0 where
  empty_hostname wildcard_not_supported ip_literal_not_supported : HostnameError
  hostname_too_long invalid_hostname invalid_label : HostnameError
  reserved_name public_suffix apex_not_supported : HostnameError

pub data Canonical : Type 0 where
  ok : Text → Canonical
  invalid : HostnameError → Canonical

abbrev pub max_hostname_length : ℕ
max_hostname_length = 253

abbrev pub max_label_length : ℕ
max_label_length = 63

abbrev pub min_labels_for_subdomain : ℕ
min_labels_for_subdomain = 3

abbrev pub reserved_suffixes : List Text
reserved_suffixes =
    codes "localhost"
    ∷ codes "local"
    ∷ codes "internal"
    ∷ codes "arpa"
    ∷ codes "onion"
    ∷ codes "invalid"
    ∷ codes "home"
    ∷ codes "lan"
    ∷ codes "corp"
    ∷ []

-- The test of one label in the loop over `labels`, negated.
unfoldable pub label_ok : Text → Bool
unfolding label_matches
label_ok [] = false
label_ok (c ∷ s) = leb (length (c ∷ s)) max_label_length && label_matches (c ∷ s)

module _ (libs : Libraries) where
  open libs use {idna_encode, ip_address, private_suffix}

  unfoldable pub looks_like_ip : Text → Bool
  looks_like_ip value = ip_address (strip_brackets value)

  -- The rules for customer hostnames, which the caller may waive by `allow_apex`.
  unfoldable pub customer_rules : Text → List Text → Canonical
  customer_rules ascii_value labels =
      if member (last_label labels) reserved_suffixes
      then invalid reserved_name
      else elim (private_suffix ascii_value) [
        | none ↦ invalid public_suffix
        | some registrable ↦
            if text_eq registrable ascii_value || ltb (length labels) min_labels_for_subdomain
            then invalid apex_not_supported
            else ok ascii_value
      ]

  -- The checks of the encoded name.
  unfoldable pub check_ascii : Bool → Text → Canonical
  check_ascii allow_apex ascii_value =
      let labels = split_dot ascii_value in
      if ltb max_hostname_length (length ascii_value)
      then invalid hostname_too_long
      else if not (all label_ok labels)
      then invalid invalid_label
      else if is_digits (last_label labels)
      then invalid invalid_hostname
      else if allow_apex
      then ok ascii_value
      else customer_rules ascii_value labels

  -- From the stripped value on.
  unfoldable pub encode_value : Bool → Text → Canonical
  encode_value allow_apex value =
      if has_wildcard value
      then invalid wildcard_not_supported
      else if looks_like_ip value
      then invalid ip_literal_not_supported
      else if ltb max_hostname_length (length value)
      then invalid hostname_too_long
      else elim (idna_encode value) [
        | none ↦ invalid invalid_hostname
        | some encoded ↦ check_ascii allow_apex (lower encoded)
      ]

  unfoldable pub canonicalize : Option Text → Bool → Canonical
  canonicalize none allow_apex = invalid empty_hostname
  canonicalize (some raw) allow_apex = elim (strip raw) [
    | [] ↦ invalid empty_hostname
    | c ∷ s ↦ encode_value allow_apex (remove_dot (c ∷ s))
  ]
