-- ===== src/Tests/Networks.antt =====
-- Normalize on the halves of a network.
use route_sync.Base.{◌≡◌, refl, Bool, true, ◌&&◌, List, [], ◌∷◌, All, any, arith}
use route_sync.Netip.{Prefix, is_valid, masked, eqb_prefix}
use mathlib.Core.Quot
use route_sync.Source.Normalize.Networks.{NetworkSet, canonical, canonical_injective}
use route_sync.Source.Parsers.Masked.{IsMasked}
use route_sync.Source.Normalize.{normalize}
use route_sync.Source.Normalize.Unordered.{normalize_unordered}
use route_sync.Source.Aggregate.Antichain.{IsApart}
use route_sync.Source.Aggregate.Apart.{normalize-IsApart}
use route_sync.Tests.Machine.{first_half, second_half, whole_net}

abbrev in_order : List Prefix
in_order = first_half ∷ second_half ∷ []

abbrev turned : List Prefix
turned = second_half ∷ first_half ∷ second_half ∷ []

abbrev listed : Prefix → List Prefix → Bool
listed q ps = any (λ p. is_valid p && eqb_prefix q (masked p)) ps

same_networks : (q : Prefix) → listed q in_order ≡ listed q turned
unfolding is_valid
same_networks q = ground arith

normalize_unordered_example : normalize in_order true ≡ normalize turned true
normalize_unordered_example = normalize_unordered in_order turned true same_networks

normalize-IsApart_example :
    IsApart (normalize (whole_net ∷ in_order) true)
    × All IsMasked (normalize (whole_net ∷ in_order) true)
normalize-IsApart_example = normalize-IsApart (whole_net ∷ in_order)

same_canonical : canonical (Quot.mk in_order) ≡ canonical (Quot.mk turned)
unfolding canonical normalize is_valid eqb_prefix masked route_sync.Source.Sorting.sort_prefixes
    route_sync.Source.Sorting.prefix_less route_sync.Netip.less route_sync.Netip.bits
same_canonical = refl

canonical_injective_example : ◌≡◌ {A = NetworkSet} (Quot.mk in_order) (Quot.mk turned)
canonical_injective_example = canonical_injective (Quot.mk in_order) (Quot.mk turned) same_canonical
