-- ===== src/Checks/Resolver.antt =====
-- app/dns/resolver.py: the resolver as the checks see it, and the walk along a chain of CNAME records. The answers of
-- the resolver are a parameter.
use custom_domain.Common.{
  ℕ, zero, suc, Bool, true, false, ◌||◌, Option, none, some, List, [], ◌∷◌, ◌++◌, member, text_eq,
  Text,
}

-- An answer, or the exceptions DnsNameNotFound and DnsUnavailable.
pub data Answer {ℓ} (A : Type ℓ) : Type ℓ where
  answer : A → Answer A
  name_not_found unavailable : Answer A

pub record Resolver : Type 0 where
  pub txt : Text → Answer (List Text)
  pub cname : Text → Answer (Option Text)
  pub has_address : Text → Answer Bool
  pub ns : Text → Answer (List Text)

abbrev pub max_cname_hops : ℕ
max_cname_hops = 8

-- `stop_at is not None and target == stop_at`
abbrev pub stops : Option Text → Text → Bool
stops none target = false
stops (some name) target = text_eq target name

-- What an error on a hop leaves: itself on the first, the chain so far on a later one.
abbrev pub or_so_far : List Text → Answer (List Text) → Answer (List Text)
or_so_far [] error = error
or_so_far (c ∷ cs) error = answer (c ∷ cs)

-- The loop of `cname_chain`, by the hops that are left, the chain so far and the current name.
unfoldable pub follow : Resolver → Option Text → ℕ → List Text → Text → Answer (List Text)
follow resolver stop_at zero chain current = answer chain
follow resolver stop_at (suc n) chain current = elim (resolver.cname current) [
  | answer none ↦ answer chain
  | answer (some target) ↦
      let longer = chain ++ target ∷ [] in
      elim (member target chain || text_eq target current) [
        | true ↦ answer chain
        | false ↦ elim (stops stop_at target) [
          | true ↦ answer longer
          | false ↦ follow resolver stop_at n longer target
        ]
      ]
  | name_not_found ↦ or_so_far chain name_not_found
  | unavailable ↦ or_so_far chain unavailable
]

unfoldable pub cname_chain : Resolver → Text → Option Text → Answer (List Text)
cname_chain resolver name stop_at = follow resolver stop_at max_cname_hops [] name
