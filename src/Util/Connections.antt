-- ===== src/Util/Connections.antt =====
-- `conn_kind_to_combos` of pypsutil/_util.py: which sockets a kind of connections stands for.
use pypsutil.Prelude.{
  String, ◌≡◌, refl, Bool, true, false, ◌||◌, ◌&&◌, Option, none, some, List, [], ◌∷◌, ◌++◌, map,
  any, if◌then◌else◌,
}
use pypsutil.Prelude.Text.{Text, codes, text_eq}

-- The members of `socket` that the function names.
pub data Family : Type 0 where
  inet inet6 unix : Family

pub data SockType : Type 0 where
  stream dgram seqpacket : SockType

abbrev pub all_families : List Family
all_families = Family.inet ∷ Family.inet6 ∷ Family.unix ∷ []

abbrev pub all_types : List SockType
all_types = SockType.stream ∷ SockType.dgram ∷ []

-- The chain of tests on `kind`: the allowed families and types, none for an unknown kind.
unfoldable pub allowed : Text → Option (List Family × List SockType)
allowed kind =
    if text_eq kind (codes "all")
    then some (all_families, all_types)
    else if text_eq kind (codes "inet")
    then some (Family.inet ∷ Family.inet6 ∷ [], all_types)
    else if text_eq kind (codes "inet4")
    then some (Family.inet ∷ [], all_types)
    else if text_eq kind (codes "inet6")
    then some (Family.inet6 ∷ [], all_types)
    else if text_eq kind (codes "tcp")
    then some (Family.inet ∷ Family.inet6 ∷ [], SockType.stream ∷ [])
    else if text_eq kind (codes "tcp4")
    then some (Family.inet ∷ [], SockType.stream ∷ [])
    else if text_eq kind (codes "tcp6")
    then some (Family.inet6 ∷ [], SockType.stream ∷ [])
    else if text_eq kind (codes "udp")
    then some (Family.inet ∷ Family.inet6 ∷ [], SockType.dgram ∷ [])
    else if text_eq kind (codes "udp4")
    then some (Family.inet ∷ [], SockType.dgram ∷ [])
    else if text_eq kind (codes "udp6")
    then some (Family.inet6 ∷ [], SockType.dgram ∷ [])
    else if text_eq kind (codes "unix")
    then some (Family.unix ∷ [], all_types)
    else none

abbrev pub product : {A : Type 0} {B : Type 0} → List A → List B → List (A × B)
product [] bs = []
product (a ∷ as') bs = map (λ b. (a, b)) bs ++ product as' bs

-- The result is a set: a list without repetition.
unfoldable pub conn_kind_to_combos : Text → List (Family × SockType)
unfolding allowed
conn_kind_to_combos kind = elim (allowed kind) [
  | none ↦ []
  | some (families, types) ↦
      let combos = product families types in
      if text_eq kind (codes "all") || text_eq kind (codes "unix")
      then combos ++ ((Family.unix, SockType.seqpacket) ∷ [])
      else combos
]

abbrev pub same_family : Family → Family → Bool
same_family Family.inet Family.inet = true
same_family Family.inet6 Family.inet6 = true
same_family Family.unix Family.unix = true
same_family _ _ = false

abbrev pub same_type : SockType → SockType → Bool
same_type SockType.stream SockType.stream = true
same_type SockType.dgram SockType.dgram = true
same_type SockType.seqpacket SockType.seqpacket = true
same_type _ _ = false

-- `(family, stype) in combos`
abbrev pub has_combo : Family → SockType → List (Family × SockType) → Bool
has_combo f t = any (λ c. same_family f c.0 && same_type t c.1)

abbrev pub combos_of : String → List (Family × SockType)
combos_of kind = conn_kind_to_combos (codes kind)

-- The kinds divide the sockets as their names say: "all" is "inet" and "unix" together, "inet" is
-- "inet4" and "inet6" together and "tcp" and "udp" together, and those are so for each version of IP.
pub conn_kind_to_combos-unions :
    (f : Family) (t : SockType)
    → let has = λ (kind : String). has_combo f t (combos_of kind) in
      (has "all" ≡ (has "inet" || has "unix"))
      × (has "inet" ≡ (has "inet4" || has "inet6"))
      × (has "inet" ≡ (has "tcp" || has "udp"))
      × (has "tcp" ≡ (has "tcp4" || has "tcp6"))
      × (has "udp" ≡ (has "udp4" || has "udp6"))
      × (has "tcp4" ≡ (has "tcp" && has "inet4"))
      × (has "udp6" ≡ (has "udp" && has "inet6"))
unfolding conn_kind_to_combos
conn_kind_to_combos-unions Family.inet SockType.stream = (refl, refl, refl, refl, refl, refl, refl)
conn_kind_to_combos-unions Family.inet SockType.dgram = (refl, refl, refl, refl, refl, refl, refl)
conn_kind_to_combos-unions Family.inet SockType.seqpacket =
    (refl, refl, refl, refl, refl, refl, refl)
conn_kind_to_combos-unions Family.inet6 SockType.stream = (refl, refl, refl, refl, refl, refl, refl)
conn_kind_to_combos-unions Family.inet6 SockType.dgram = (refl, refl, refl, refl, refl, refl, refl)
conn_kind_to_combos-unions Family.inet6 SockType.seqpacket =
    (refl, refl, refl, refl, refl, refl, refl)
conn_kind_to_combos-unions Family.unix SockType.stream = (refl, refl, refl, refl, refl, refl, refl)
conn_kind_to_combos-unions Family.unix SockType.dgram = (refl, refl, refl, refl, refl, refl, refl)
conn_kind_to_combos-unions Family.unix SockType.seqpacket =
    (refl, refl, refl, refl, refl, refl, refl)
