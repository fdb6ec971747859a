-- ===== src/Source/Aggregate.antt =====
-- internal/source/aggregate.go
pub mod Coverage
pub mod Termination
pub mod Merge
pub mod Antichain
pub mod Apart
pub mod Fixed
pub mod Holds
use route_sync.Base.{
  ℕ, zero, suc, ◌+◌, Bool, true, false, not, ◌&&◌, ◌||◌, Option, none, some, List, [], ◌∷◌, ◌++◌,
  ltb, ◌==◌, if◌then◌else◌, eqb_bool, any, length,
}
use route_sync.Base.Int.{ℤ, pos, negsuc, pred_ℤ, leb_ℤ, eqb_ℤ}
use route_sync.Netip.{Prefix, is4, bits, contains, masked, prefix_from, eqb_prefix}
use route_sync.Source.Sorting.{sort_prefixes}

-- The test of the inner loop of removeCovered, for p against an element of `out`.
unfoldable pub covers_prefix : Prefix → Prefix → Bool
covers_prefix p kept =
    eqb_bool (is4 kept.ip) (is4 p.ip) && leb_ℤ (bits kept) (bits p) && contains kept p.ip

-- The outer loop of removeCovered, over the prefixes left and `out`.
unfoldable pub cover_loop : List Prefix → List Prefix → List Prefix
unfolding covers_prefix
cover_loop [] out = out
cover_loop (p ∷ ps) out = cover_loop ps (if any (covers_prefix p) out then out else out ++ (p ∷ []))

-- removeCovered
unfoldable pub remove_covered : List Prefix → List Prefix
unfolding cover_loop
remove_covered prefixes = cover_loop (sort_prefixes prefixes) []

-- netip.PrefixFrom(p.Addr(), p.Bits()-1).Masked()
unfoldable pub parent_of : Prefix → Prefix
parent_of p = masked (prefix_from p.ip (pred_ℤ (bits p)))

-- netip.PrefixFrom(p.Addr(), p.Bits()).Masked()
unfoldable pub remasked : Prefix → Prefix
remasked p = masked (prefix_from p.ip (bits p))

-- mergePair
unfoldable pub merge_pair : Prefix → Prefix → Option Prefix
merge_pair a b =
    if not (eqb_bool (is4 a.ip) (is4 b.ip))
      || not (eqb_ℤ (bits a) (bits b))
      || eqb_ℤ (bits a) (pos 0)
    then none
    else if contains (parent_of a) a.ip
        && contains (parent_of a) b.ip
        && not (eqb_prefix (remasked a) (remasked b))
        && eqb_prefix (parent_of b) (parent_of a)
    then some (parent_of a)
    else none

-- The loop of mergeOnePass over the prefixes left, with its `out` and `changed`.
unfoldable pub merge_loop : List Prefix → List Prefix × Bool
merge_loop [] = ([], false)
merge_loop (a ∷ []) = (a ∷ [], false)
merge_loop (a ∷ b ∷ rest) = elim (merge_pair a b) [
  | some parent ↦ (parent ∷ (merge_loop rest).0, true)
  | none ↦ let (out, changed) = merge_loop (b ∷ rest) in (a ∷ out, changed)
]

-- mergeOnePass
unfoldable pub merge_one_pass : List Prefix → List Prefix × Bool
unfolding merge_loop
merge_one_pass prefixes = merge_loop (sort_prefixes prefixes)

-- One round of the loop of Aggregate: the next list, and whether the loop returns it.
unfoldable pub aggregate_round : List Prefix → List Prefix × Bool
aggregate_round current =
    let (merged, changed) = merge_one_pass current in
    let next = remove_covered merged in (next, not changed && length next == length current)

-- The loop of Aggregate, with fuel for its rounds.
unfoldable pub aggregate_loop : ℕ → List Prefix → List Prefix
unfolding aggregate_round
aggregate_loop zero current = current
aggregate_loop (suc fuel) current =
    let next = (aggregate_round current).0 in
    let rest = aggregate_loop fuel next in if (aggregate_round current).1 then next else rest

-- Aggregate. Each round but the last shortens the list, so that its length is fuel enough.
unfoldable pub aggregate : List Prefix → List Prefix
unfolding aggregate_loop
aggregate prefixes =
    let current = remove_covered prefixes in
    if ltb (length prefixes) 2 then prefixes else aggregate_loop (suc (length current)) current
