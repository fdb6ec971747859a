-- ===== src/Source/Normalize.antt =====
-- Normalize of internal/source/source.go. The log line is not modelled.
pub mod Laws
pub mod Unordered
pub mod Networks
pub mod Twice
use route_sync.Base.{Bool, true, not, List, [], ◌∷◌, ◌++◌, any, if◌then◌else◌}
use route_sync.Netip.{Prefix, is_valid, masked, eqb_prefix}
use route_sync.Source.Sorting.{sort_prefixes}
use route_sync.Source.Aggregate.{aggregate}

-- The loop over the prefixes left. `valid` holds the keys of `seen`, in order.
unfoldable pub normalize_loop : List Prefix → List Prefix → List Prefix
normalize_loop [] valid = valid
normalize_loop (p ∷ ps) valid = normalize_loop ps (
    if not (is_valid p)
    then valid
    else if any (eqb_prefix (masked p)) valid
    then valid
    else valid ++ (masked p ∷ []))

-- Normalize
unfoldable pub normalize : List Prefix → Bool → List Prefix
unfolding normalize_loop
normalize prefixes aggregated =
    let valid = sort_prefixes (normalize_loop prefixes []) in
    if aggregated then aggregate valid else valid
