-- ===== src/Checks/Observed.antt =====
-- What the outcomes of the DNS checks mean: which records have to be there.
use custom_domain.Common.{
  ℕ, zero, suc, ◌+◌, ◌-◌, ◌≤◌, ◌≡◌, ◌≢◌, ◌↔◌, refl, sym, ◌∙◌, ◌⊎◌, inl, inr, Bool, true, ◌||◌,
  Option, none, some, List, [], ◌∷◌, ◌++◌, arith, Text, any, member, text_eq, text_eq_iff, strip,
  Bool-cases, Option-cases, subst,
}
use custom_domain.Model.{OwnershipClaim, Domain, txt_record_value, active_claim}
use custom_domain.Checks.Resolver.{
  Answer, answer, name_not_found, unavailable, Resolver, stops, or_so_far, follow, cname_chain,
}
use custom_domain.Checks.Outcomes.{
  passing, compare_txt, txt_outcome, ownership_outcome, compare_chain, chain_outcome,
  routing_outcome,
}

-- CNAME records lead from a name to another, in at most so many hops.
pub data Leads (resolver : Resolver) : ℕ → Text → Text → Type 0 where
  hop : {n : ℕ} {a b : Text} → resolver.cname a ≡ answer (some b) → Leads resolver (suc n) a b
  onward :
      {n : ℕ} {a b c : Text}
      → Leads resolver n a b
      → resolver.cname b ≡ answer (some c)
      → Leads resolver (suc n) a c

Leads-plus :
    (resolver : Resolver) (k : ℕ) {n : ℕ} {a b : Text}
    → Leads resolver n a b
    → Leads resolver (n + k) a b
Leads-plus resolver k (hop {n} {a} {b} h) =
    subst (λ (m : ℕ). Leads resolver m a b) (omega arith) (hop {n = n + k} h)
Leads-plus resolver k (onward {n} {a} {b} {c} l h) =
    subst (λ (m : ℕ). Leads resolver m a c) (omega arith) (onward (Leads-plus resolver k l) h)

Leads-upto :
    (resolver : Resolver) {n : ℕ} (m : ℕ) {a b : Text}
    → n ≤ m
    → Leads resolver n a b
    → Leads resolver m a b
Leads-upto resolver {n} m {a} {b} h l =
    subst (λ (k : ℕ). Leads resolver k a b) (omega arith) (Leads-plus resolver (m - n) l)

-- The names of a chain are reached, and the current one is the start or reached.
abbrev Reached : Resolver → ℕ → Text → List Text → Type 0
Reached resolver n start [] = Unit
Reached resolver n start (c ∷ cs) = Leads resolver n start c × Reached resolver n start cs

Reached-append :
    (resolver : Resolver) (n : ℕ) (start : Text) (chain : List Text) (target : Text)
    → Reached resolver n start chain
    → Leads resolver n start target
    → Reached resolver n start (chain ++ target ∷ [])
Reached-append resolver n start [] target r l = (l, tt)
Reached-append resolver n start (c ∷ cs) target (m, r) l =
    (m, Reached-append resolver n start cs target r l)

Reached-member :
    (resolver : Resolver) (n : ℕ) (start target : Text) (chain : List Text)
    → Reached resolver n start chain
    → member target chain ≡ true
    → Leads resolver n start target
Reached-member resolver n start target [] r h = cc
Reached-member resolver n start target (c ∷ cs) (l, r) h = elim (Bool-cases (text_eq target c)) [
  | inl same ↦
      subst (λ (x : Text). Leads resolver n start x) (sym ((text_eq_iff target c).0 same)) l
  | inr other ↦ Reached-member resolver n start target cs r (rw other at h)
]

abbrev proves : OwnershipClaim → Text → Bool
proves claim v = text_eq (strip v) (txt_record_value claim)

compare_txt-passing :
    (claim : OwnershipClaim) (d : Domain) (values : List Text)
    → passing (compare_txt claim d values) ≡ any (proves claim) values
unfolding compare_txt
compare_txt-passing claim d [] = refl
compare_txt-passing claim d (v ∷ vs) = elim (Bool-cases (any (proves claim) (v ∷ vs))) [
  | inl t ↦ rw t refl
  | inr f ↦ ground arith
]

txt_outcome-passing :
    (claim : OwnershipClaim) (d : Domain) (a : Answer (List Text))
    → passing (txt_outcome claim d a) ≡ true
    → (values : List Text) × (a ≡ answer values) × (any (proves claim) values ≡ true)
unfolding txt_outcome
txt_outcome-passing claim d name_not_found h = cc
txt_outcome-passing claim d unavailable h = cc
txt_outcome-passing claim d (answer values) h =
    (values, refl, sym (compare_txt-passing claim d values) ∙ h)

-- The ownership check passes exactly when the row has a live claim and the TXT name of that claim holds its value,
-- leading and trailing space aside.
pub ownership_outcome-passing :
    (resolver : Resolver) (d : Domain)
    → (passing (ownership_outcome resolver d) ≡ true) ↔ (
        (claim : OwnershipClaim) × (values : List Text) × (active_claim d ≡ some claim)
        × (resolver.txt claim.txt_record_name ≡ answer values)
        × (any (λ v. text_eq (strip v) (txt_record_value claim)) values ≡ true))
unfolding ownership_outcome txt_outcome
ownership_outcome-passing resolver d = (
  λ h. elim (Option-cases (active_claim d)) [
    | inl missing ↦ absurd (let e = rw (missing, ownership_outcome) at h in cc)
    | inr (claim, found) ↦
        let (values, got, proof) =
          txt_outcome-passing claim d (resolver.txt claim.txt_record_name)
            (rw (found, ownership_outcome) at h) in
        (claim, values, found, got, proof)
  ],
  λ (claim, values, found, got, proof).
      rw (found, ownership_outcome, got, txt_outcome) (compare_txt-passing claim d values ∙ proof),
)

cname-cases :
    (a : Answer (Option Text))
    → (a ≡ answer none)
      ⊎ (((t : Text) × (a ≡ answer (some t))) ⊎ ((a ≡ name_not_found) ⊎ (a ≡ unavailable)))
cname-cases (answer none) = inl refl
cname-cases (answer (some t)) = inr (inl (t, refl))
cname-cases name_not_found = inr (inr (inl refl))
cname-cases unavailable = inr (inr (inr refl))

-- The loop keeps to names that the records lead to within the hops it has.
module _ (resolver : Resolver) (stop_at : Option Text) (start : Text) (hops : ℕ) where
  Lookup : ℕ → Text → Type 0
  Lookup n current = (current ≡ start) ⊎ Leads resolver n start current

  longer :
      (n : ℕ) (current target : Text)
      → Lookup n current
      → resolver.cname current ≡ answer (some target)
      → Leads resolver (suc n) start target
  unfolding Lookup
  longer n current target (inl same) h = hop (rw same at h)
  longer n current target (inr l) h = onward l h

  ended :
      (chain out : List Text)
      → Reached resolver hops start chain
      → Answer.answer chain ≡ answer out
      → Reached resolver hops start out
  ended chain out r h =
      let e : chain ≡ out = ground arith in
      subst (λ (x : List Text). Reached resolver hops start x) e r

  broken :
      (chain out : List Text) (error : Answer (List Text))
      → error ≢ answer out
      → Reached resolver hops start chain
      → or_so_far chain error ≡ answer out
      → Reached resolver hops start out
  broken [] out error never r h = absurd (never h)
  broken (c ∷ cs) out error never r h = ended (c ∷ cs) out r h

  follow-Reached :
      (fuel n : ℕ) (current : Text) (chain out : List Text)
      → n + fuel ≤ hops
      → Reached resolver hops start chain
      → Lookup n current
      → follow resolver stop_at fuel chain current ≡ answer out
      → Reached resolver hops start out
  unfolding follow Lookup
  follow-Reached zero n current chain out b r l h = ended chain out r h
  follow-Reached (suc fuel) n current chain out b r l h =
      elim (cname-cases (resolver.cname current)) [
        | inl e ↦ ended chain out r (rw (follow, e) at h)
        | inr (inl (target, e)) ↦
            let l' = longer n current target l e in
            let r' =
              Reached-append resolver hops start chain target r
                (Leads-upto resolver hops (omega arith) l') in
            let b' : suc n + fuel ≤ hops = omega arith in
            elim (Bool-cases (member target chain || text_eq target current)) [
              | inl t ↦ ended chain out r (rw (follow, e, t) at h)
              | inr f ↦ elim (Bool-cases (stops stop_at target)) [
                | inl t ↦ ended (chain ++ target ∷ []) out r' (rw (follow, e, f, t) at h)
                | inr g ↦
                    follow-Reached fuel (suc n) target (chain ++ target ∷ []) out b' r' (inr l')
                      (rw (follow, e, f, g) at h)
              ]
            ]
        | inr (inr (inl e)) ↦ broken chain out name_not_found (λ q. cc) r (rw (follow, e) at h)
        | inr (inr (inr e)) ↦ broken chain out unavailable (λ q. cc) r (rw (follow, e) at h)
      ]

compare_chain-passing :
    (target : Text) (chain : List Text)
    → passing (compare_chain target chain) ≡ true
    → member target chain ≡ true
unfolding compare_chain
compare_chain-passing target [] h = cc
compare_chain-passing target (c ∷ cs) h = elim (Bool-cases (member target (c ∷ cs))) [
  | inl t ↦ t
  | inr f ↦ absurd (let e = rw (f, compare_chain) at h in cc)
]

chain_outcome-passing :
    (target : Text) (a : Answer (List Text))
    → passing (chain_outcome target a) ≡ true
    → (chain : List Text) × (a ≡ answer chain) × (member target chain ≡ true)
unfolding chain_outcome
chain_outcome-passing target name_not_found h = cc
chain_outcome-passing target unavailable h = cc
chain_outcome-passing target (answer chain) h = (chain, refl, compare_chain-passing target chain h)

-- The routing check passes only if CNAME records lead from the hostname to the target of the live claim, in at most
-- eight hops.
pub routing_outcome-passing :
    (resolver : Resolver) (d : Domain)
    → passing (routing_outcome resolver d) ≡ true
    → (claim : OwnershipClaim) × (active_claim d ≡ some claim)
      × Leads resolver 8 d.hostname claim.cname_target
unfolding routing_outcome cname_chain Lookup
routing_outcome-passing resolver d h = elim (Option-cases (active_claim d)) [
  | inl missing ↦ absurd (let e = rw (missing, routing_outcome) at h in cc)
  | inr (claim, found) ↦
      let (chain, got, there) =
        chain_outcome-passing claim.cname_target _ (rw (found, routing_outcome) at h) in
      let reached =
        follow-Reached resolver (some claim.cname_target) d.hostname 8 8 0 d.hostname [] chain
          (omega arith) tt (inl refl) got in
      (claim, found, Reached-member resolver 8 d.hostname claim.cname_target chain reached there)
]
