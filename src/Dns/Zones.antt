-- ===== src/Dns/Zones.antt =====
-- app/dns/zones.py: the zone that is assumed for a hostname until DNS says otherwise.
use custom_domain.Common.{Option, none, some, [], ◌∷◌, reverse, ◌==◌, if◌then◌else◌, Text, text_eq}
use custom_domain.Hostname.{lower}

drop_dots : Text → Text
drop_dots [] = []
drop_dots (c ∷ s) = if c == b'.' then drop_dots s else c ∷ s

-- `hostname.rstrip(".")`
unfoldable pub rstrip_dots : Text → Text
unfolding drop_dots
rstrip_dots s = reverse (drop_dots (reverse s))

-- `name.split(".", 1)[1]`; `none` if the name has no dot.
unfoldable pub parent : Text → Option Text
parent [] = none
parent (c ∷ s) = if c == b'.' then some s else parent s

-- `private_suffix` is the public suffix list's answer.
module _ (private_suffix : Text → Option Text) where
  unfoldable pub registrable_domain : Text → Option Text
  registrable_domain hostname = private_suffix (lower (rstrip_dots hostname))

  unfoldable pub parent_or_self : Text → Text
  parent_or_self hostname = elim (parent hostname) [ none ↦ hostname | some rest ↦ rest ]

  unfoldable pub default_zone : Text → Text
  default_zone hostname =
      let name = lower (rstrip_dots hostname) in
      elim (registrable_domain name) [
        | none ↦ parent_or_self name
        | some zone ↦ if text_eq zone name then parent_or_self name else zone
      ]
