-- ===== src/Source/Normalize/Networks.antt =====
-- What Normalize of internal/source/source.go takes of a list: the set of its networks.
use mathlib.Core.HLevel.{hedberg}
use mathlib.Core.List.{is_set}
use mathlib.Core.Quot
use mathlib.Core.Quot.{Quot, Quot-set}
use route_sync.Base.{
  ◌≡◌, sym, ◌∙◌, ap, false, ◌&&◌, List, any, any_of_once, arith, Bool-cases, inl, inr,
}
use route_sync.Netip.{Prefix, masked, is_valid, eqb_prefix}
use route_sync.Netip.Laws.{eqb_prefix_iff}
use route_sync.Source.Normalize.{normalize}
use route_sync.Source.Normalize.Laws.{count-normalize}
use route_sync.Source.Normalize.Unordered.{normalize_unordered}

-- The lists have the same masked forms of valid prefixes.
abbrev pub SameNetworks : List Prefix → List Prefix → Type 0
SameNetworks ps qs =
    (q : Prefix)
    → any (λ p. is_valid p && eqb_prefix q (masked p)) ps
      ≡ any (λ p. is_valid p && eqb_prefix q (masked p)) qs

-- A set of networks: a list, without order, repetitions, host bits and invalid prefixes.
abbrev pub NetworkSet : Type 0
NetworkSet = Quot SameNetworks

prefix_discrete : Discrete Prefix
prefix_discrete p q = elim (Bool-cases (eqb_prefix p q)) [
  | inl same ↦ yes ((eqb_prefix_iff p q).0 same)
  | inr apart ↦ no (λ e. ground (arith, apart, (eqb_prefix_iff p q).1 e))
]

pub prefixes-IsSet : IsSet (List Prefix)
prefixes-IsSet = is_set (hedberg prefix_discrete)

-- Normalize without aggregation, as a function of the set.
unfoldable pub canonical : NetworkSet → List Prefix
canonical =
    Quot.lift prefixes-IsSet (λ ps. normalize ps false)
      (λ ps qs h. normalize_unordered ps qs false h)

normalize-SameNetworks :
    (ps qs : List Prefix) → normalize ps false ≡ normalize qs false → SameNetworks ps qs
normalize-SameNetworks ps qs h q =
    sym (any_of_once (eqb_prefix q) (normalize ps false) _ (count-normalize ps q))
    ∙ ap (any (eqb_prefix q)) h
    ∙ any_of_once (eqb_prefix q) (normalize qs false) _ (count-normalize qs q)

-- The lists that Normalize makes without aggregation stand for sets of networks, one for each:
-- Normalize is a function on the quotient of the lists by order, repetitions, host bits and invalid
-- prefixes, and on this quotient it is injective.
pub canonical_injective : (s t : NetworkSet) → canonical s ≡ canonical t → s ≡ t
unfolding canonical
canonical_injective =
    Quot.ind (λ s. hlevel Quot-set)
      (λ ps. Quot.ind (λ t. hlevel Quot-set) (λ qs h. Quot.sound (normalize-SameNetworks ps qs h)))
