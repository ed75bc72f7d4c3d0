-- ===== src/Hostname/Laws.antt =====
-- What a name that `canonicalize` returns satisfies.
use custom_domain.Common.{
  ◌≤◌, ◌≡◌, ◌≢◌, inl, inr, Bool, true, false, Option, none, some, [], ◌∷◌, arith, Text, text_eq_iff,
  member, strip, length, all, Option-cases,
}
use custom_domain.Hostname.Labels.{split_dot, lower, last_label, is_digits, remove_dot}
use custom_domain.Hostname.Canonicalize.{
  Libraries, Canonical, ok, invalid, empty_hostname, reserved_suffixes, label_ok, customer_rules,
  check_ascii, encode_value, canonicalize,
}

-- A name that fits a DNS message: its length, each label's form and length, and a last label that
-- is no number.
pub record IsDnsName (name : Text) : Type 0 where
  pub fits : length name ≤ 253
  pub labels_ok : all label_ok (split_dot name) ≡ true
  pub not_numeric : is_digits (last_label (split_dot name)) ≡ false

-- A name below a registrable domain, and not under a reserved suffix.
pub record IsCustomerName (libs : Libraries) (name : Text) : Type 0 where
  pub is_dns_name : IsDnsName name
  pub not_reserved : member (last_label (split_dot name)) reserved_suffixes ≡ false
  pub is_subdomain : 3 ≤ length (split_dot name)
  pub zone : Text
  pub registrable : libs.private_suffix name ≡ some zone
  pub below_zone : zone ≢ name

module _ (libs : Libraries) where
  check_ascii-IsDnsName :
      (apex : Bool) (name : Text) {out : Text}
      → check_ascii libs apex name ≡ ok out
      → IsDnsName name × (out ≡ name)
  unfolding check_ascii customer_rules
  check_ascii-IsDnsName apex name h = ground arith

  check_ascii-IsCustomerName :
      (name : Text) {out : Text} → check_ascii libs false name ≡ ok out → IsCustomerName libs name
  unfolding check_ascii customer_rules
  check_ascii-IsCustomerName name {out} h = elim (Option-cases (libs.private_suffix name)) [
    | inl missing ↦ absurd (ground arith)
    | inr (zone, found) ↦ record {
      is_dns_name = (check_ascii-IsDnsName false name h).0;
      not_reserved = ground arith;
      is_subdomain = ground arith;
      zone = zone;
      registrable = found;
      below_zone = ground (arith, text_eq_iff zone name);
    }
  ]

  -- The encoding behind a name that is returned.
  encode_value-encoded :
      (apex : Bool) (value : Text) {out : Text}
      → encode_value libs apex value ≡ ok out
      → (encoded : Text) × (check_ascii libs apex (lower encoded) ≡ ok out)
  unfolding encode_value
  encode_value-encoded apex value h = elim (Option-cases (libs.idna_encode value)) [
    | inl refused ↦ absurd (ground arith)
    | inr (encoded, found) ↦ (encoded, ground arith)
  ]

  canonicalize-encoded :
      (raw : Option Text) (apex : Bool) {out : Text}
      → canonicalize libs raw apex ≡ ok out
      → (encoded : Text) × (check_ascii libs apex (lower encoded) ≡ ok out)
  unfolding canonicalize
  canonicalize-encoded none apex h = cc
  canonicalize-encoded (some raw) apex {out} h = go (strip raw) h
    where
      go :
          (value : Text)
          → let r : Canonical = elim value [
            | [] ↦ invalid empty_hostname
            | c ∷ s ↦ encode_value libs apex (remove_dot (c ∷ s))
          ] in
            r ≡ ok out → (encoded : Text) × (check_ascii libs apex (lower encoded) ≡ ok out)
      go [] e = cc
      go (c ∷ s) e = encode_value-encoded apex (remove_dot (c ∷ s)) e

  -- `canonicalize` returns only names that fit DNS, also where an apex is allowed.
  pub canonicalize-IsDnsName :
      (raw : Option Text) (apex : Bool) {out : Text}
      → canonicalize libs raw apex ≡ ok out
      → IsDnsName out
  canonicalize-IsDnsName raw apex h =
      let (encoded, checked) = canonicalize-encoded raw apex h in
      let (valid, same) = check_ascii-IsDnsName apex (lower encoded) checked in rw same valid

  -- A name that `canonicalize` returns where no apex is allowed is strictly below a registrable
  -- domain, has three labels or more, is outside the reserved suffixes, and fits DNS.
  pub canonicalize-IsCustomerName :
      (raw : Option Text) {out : Text}
      → canonicalize libs raw false ≡ ok out
      → IsCustomerName libs out
  canonicalize-IsCustomerName raw h =
      let (encoded, checked) = canonicalize-encoded raw false h in
      let (_, same) = check_ascii-IsDnsName false (lower encoded) checked in
      rw same (check_ascii-IsCustomerName (lower encoded) checked)
