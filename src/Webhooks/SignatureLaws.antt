-- ===== src/Webhooks/SignatureLaws.antt =====
-- Laws of `sign` and `verify` of app/webhooks/signature.py.
use custom_domain.Common.{
  ℕ, ◌≤◌, ◌≡◌, refl, sym, ap, ◌∙◌, inl, inr, Bool, true, false, ◌&&◌, ◌||◌, some, List, [], ◌∷◌,
  ◌++◌, map, any, all, leb, ltb, Text, codes, text_eq, text_eq_iff, text_eq_refl, member, strip, ℤ,
  pos, str, join, split, partition, arith, Bool-cases, lacks, solid, split-join, strip-solid,
  str-solid, str-lacks, int-str, is_space,
}
use mathlib.Core.List.{append_assoc, append-nil}
use custom_domain.Webhooks.Signature.{
  verified, distance, Parts, read_pair, read_part, read_parts, digest, signature_part, sign,
  matches, check_parts, no_parts, verify,
}

-- A digit of a hexadecimal text in lower case.
abbrev pub is_hex : ℕ → Bool
is_hex c = leb b'0' c && leb c b'9' || leb b'a' c && leb c b'f'

-- What is relied on of `hexdigest`.
abbrev pub Hexadecimal : (Text → Text → Text) → Type 0
Hexadecimal hmac = (secret message : Text) → all is_hex (hmac secret message) ≡ true

hex-lacks : (t : Text) → all is_hex t ≡ true → lacks b',' t ≡ true
hex-lacks [] h = refl
hex-lacks (c ∷ t) h = ground (arith, hex-lacks t)

hex-solid : (t : Text) → all is_hex t ≡ true → solid t ≡ true
unfolding is_space
hex-solid [] h = refl
hex-solid (c ∷ t) h = let rest = hex-solid t (ground arith) in ground (arith, rest)

read_parts-cons :
    (part : Text) (rest : List Text) (parts : Parts) {more : Parts}
    → read_part part parts ≡ some more
    → read_parts (part ∷ rest) parts ≡ read_parts rest more
unfolding read_parts
read_parts-cons part rest parts h = rw (h, read_parts) refl

timed_part :
    (stamp : ℕ) (parts : Parts)
    → read_part (codes "t=" ++ str stamp) parts
      ≡ some (record parts { timestamp = some (pos stamp) })
unfolding read_part partition
timed_part stamp parts =
    let whole : strip (codes "t=" ++ str stamp) ≡ codes "t=" ++ str stamp =
      strip-solid (codes "t=" ++ str stamp) (unfold is_space in str-solid stamp) in
    ap (λ t. read_pair (partition b'=' t) parts) whole ∙ unfold read_pair in rw (int-str stamp) refl

any-none : (keys : List Text) → any (λ k. member k []) keys ≡ true → ⊥
any-none [] h = cc
any-none (k ∷ ks) h = any-none ks h

module _ (hmac : Text → Text → Text) (hex : Hexadecimal hmac) where
  signed_part :
      (stamp : ℕ) (body secret : Text) (parts : Parts)
      → read_part (signature_part hmac stamp body secret) parts
        ≡ some (record parts { given = parts.given ++ digest hmac secret (pos stamp) body ∷ [] })
  unfolding read_part partition digest
  signed_part stamp body secret parts =
      let d = digest hmac secret (pos stamp) body in
      let whole : strip (codes "v1=" ++ d) ≡ codes "v1=" ++ d =
        strip-solid (codes "v1=" ++ d) (unfold is_space in hex-solid d (hex secret _)) in
      ap (λ t. read_pair (partition b'=' t) parts) whole ∙ unfold read_pair in refl

  signed_parts :
      (stamp : ℕ) (body : Text) (secrets : List Text) (parts : Parts)
      → read_parts (map (signature_part hmac stamp body) secrets) parts
        ≡ some (record parts {
          given = parts.given ++ map (λ s. digest hmac s (pos stamp) body) secrets;
        })
  unfolding read_parts
  signed_parts stamp body [] parts =
      ap (λ g. some (record parts { given = g })) (sym (append-nil parts.given))
  signed_parts stamp body (s ∷ ss) parts =
      read_parts-cons (signature_part hmac stamp body s) _ parts (signed_part stamp body s parts)
      ∙ (signed_parts stamp body ss _
          ∙ ap (λ g. some (record parts { given = g }))
              (append_assoc parts.given (digest hmac s (pos stamp) body ∷ []) _))

  signed-lacks :
      (stamp : ℕ) (body : Text) (secrets : List Text)
      → all (lacks b',') (map (signature_part hmac stamp body) secrets) ≡ true
  unfolding digest
  signed-lacks stamp body [] = refl
  signed-lacks stamp body (s ∷ ss) =
      rw (hex-lacks (digest hmac s (pos stamp) body) (hex s _)) (signed-lacks stamp body ss)

  header_parts :
      (stamp : ℕ) (body : Text) (secrets : List Text)
      → read_parts (split b',' (sign hmac body secrets stamp)) (no_parts hmac)
        ≡ some (record {
          timestamp = some (pos stamp);
          given = map (λ s. digest hmac s (pos stamp) body) secrets;
        })
  unfolding sign read_parts
  header_parts stamp body secrets =
      let apart : all (lacks b',')
            ((codes "t=" ++ str stamp) ∷ map (signature_part hmac stamp body) secrets)
          ≡ true =
        rw (str-lacks b',' stamp (inl (omega arith))) (signed-lacks stamp body secrets) in
      rw
        (split-join b',' (codes "t=" ++ str stamp) (map (signature_part hmac stamp body) secrets)
          apart)
        (read_parts-cons (codes "t=" ++ str stamp) _ (no_parts hmac)
            (timed_part stamp (no_parts hmac))
          ∙ signed_parts stamp body secrets _)

  any-digest :
      (stamp : ℤ) (body key : Text) (secrets : List Text)
      → member key secrets ≡ true
      → any (text_eq (digest hmac key stamp body)) (map (λ s. digest hmac s stamp body) secrets)
        ≡ true
  any-digest stamp body key [] h = cc
  any-digest stamp body key (s ∷ ss) h = elim (Bool-cases (text_eq key s)) [
    | inl t ↦ rw ((text_eq_iff key s).0 t, text_eq_refl (digest hmac s stamp body)) refl
    | inr f ↦ let rest = any-digest stamp body key ss (rw f at h) in ground arith
  ]

  shared-matches :
      (stamp : ℤ) (body : Text) (keys secrets : List Text)
      → any (λ k. member k secrets) keys ≡ true
      → matches hmac keys stamp body (map (λ s. digest hmac s stamp body) secrets) ≡ true
  unfolding matches
  shared-matches stamp body [] secrets h = cc
  shared-matches stamp body (k ∷ ks) secrets h = elim (Bool-cases (member k secrets)) [
    | inl t ↦ rw (any-digest stamp body k secrets t) refl
    | inr f ↦ let rest = shared-matches stamp body ks secrets (rw f at h) in ground arith
  ]

  header-ne-nil :
      (body : Text) (secrets : List Text) (stamp : ℕ)
      → text_eq (sign hmac body secrets stamp) [] ≡ false
  unfolding sign join
  header-ne-nil body [] stamp = refl
  header-ne-nil body (s ∷ ss) stamp = refl

  accepted :
      (body : Text) (secrets keys : List Text) (stamp now tolerance : ℕ)
      → any (λ k. member k secrets) keys ≡ true
      → ltb tolerance (distance now (pos stamp)) ≡ false
      → check_parts hmac
          (record {
            timestamp = some (pos stamp);
            given = map (λ s. digest hmac s (pos stamp) body) secrets;
          })
          body
          keys
          now
          tolerance
        ≡ verified (pos stamp)
  accepted body [] keys stamp now tolerance shared close = absurd (any-none keys shared)
  accepted body (s ∷ ss) keys stamp now tolerance shared close =
      rw (close, shared-matches (pos stamp) body keys (s ∷ ss) shared) refl

  -- Where digests are hexadecimal texts, a body that was signed with some secrets is verified, with the timestamp of the signature,
  -- by whoever holds one of these secrets and is no further from the timestamp than the tolerance.
  pub verify-sign :
      (body : Text) (secrets keys : List Text) (stamp now tolerance : ℕ)
      → any (λ k. member k secrets) keys ≡ true
      → distance now (pos stamp) ≤ tolerance
      → verify hmac (some (sign hmac body secrets stamp)) body keys now tolerance
        ≡ verified (pos stamp)
  unfolding verify
  verify-sign body secrets keys stamp now tolerance shared near =
      let some_header : text_eq (sign hmac body secrets stamp) [] ≡ false =
        header-ne-nil body secrets stamp in
      let close : ltb tolerance (distance now (pos stamp)) ≡ false = ground arith in
      rw (some_header, header_parts stamp body secrets)
        (accepted body secrets keys stamp now tolerance shared close)
