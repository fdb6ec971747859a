-- ===== src/Source/Aggregate/Termination.antt =====
-- The loop of Aggregate of internal/source/aggregate.go.
use route_sync.Base.{
  ℕ, zero, suc, ◌+◌, ◌≤◌, ◌<◌, ◌≡◌, Bool, true, false, List, [], ◌∷◌, ◌++◌, inl, inr, arith, not,
  ◌&&◌, ◌==◌, Bool-cases, length, length-append,
}
use route_sync.Netip.{Prefix}
use route_sync.Source.Sorting.{sort_prefixes, length-sort_prefixes}
use route_sync.Source.Aggregate.{
  cover_loop, remove_covered, merge_loop, merge_one_pass, aggregate_round, aggregate_loop,
}

pub length-cover_loop : (ps out : List Prefix) → length (cover_loop ps out) ≤ length out + length ps
unfolding cover_loop
length-cover_loop [] out = omega arith
length-cover_loop (p ∷ ps) out = ground (
  arith,
  length-cover_loop ps out,
  length-cover_loop ps (out ++ (p ∷ [])),
  length-append out (p ∷ []),
)

pub length-remove_covered : (ps : List Prefix) → length (remove_covered ps) ≤ length ps
unfolding remove_covered
length-remove_covered ps =
    omega (arith, length-cover_loop (sort_prefixes ps) [], length-sort_prefixes ps)

abbrev count_change : Bool → ℕ
count_change true = 1
count_change false = 0

length-merge_loop :
    (ps : List Prefix) → length (merge_loop ps).0 + count_change (merge_loop ps).1 ≤ length ps
unfolding merge_loop
length-merge_loop [] = omega arith
length-merge_loop (p ∷ []) = omega arith
length-merge_loop (p ∷ q ∷ rest) =
    ground (arith, length-merge_loop (q ∷ rest), length-merge_loop rest)

shorter :
    (changed : Bool) (next merged current : ℕ)
    → next ≤ merged
    → merged + count_change changed ≤ current
    → (not changed && next == current) ≡ false
    → next < current
shorter changed next merged current h k e = ground arith

-- A round that does not return leaves a shorter list.
pub aggregate_round-lt :
    (ps : List Prefix) → (aggregate_round ps).1 ≡ false → length (aggregate_round ps).0 < length ps
unfolding aggregate_round merge_one_pass
aggregate_round-lt ps h =
    shorter _ _ _ _ (length-remove_covered (merge_loop (sort_prefixes ps)).0)
      (omega (arith, length-merge_loop (sort_prefixes ps), length-sort_prefixes ps)) h

-- With more fuel than prefixes the loop ends in a round whose test holds, and what it returns is
-- that round's list.
pub aggregate_loop_exits :
    (fuel : ℕ) (ps : List Prefix)
    → length ps < fuel
    → (last : List Prefix) × ((aggregate_round last).1 ≡ true)
      × (aggregate_loop fuel ps ≡ (aggregate_round last).0)
unfolding aggregate_loop
aggregate_loop_exits zero ps h = elim h [ ]
aggregate_loop_exits (suc fuel) ps h = elim (Bool-cases (aggregate_round ps).1) [
  | inl done ↦ (ps, done, rw done)
  | inr more ↦
      let (last, e, f) =
        aggregate_loop_exits fuel (aggregate_round ps).0
          (omega (arith, aggregate_round-lt ps more)) in
      (last, e, rw more f)
]

-- The result does not depend on the fuel, once there is more of it than prefixes.
pub aggregate_loop-fuel :
    (f g : ℕ) (ps : List Prefix)
    → length ps < f
    → length ps < g
    → aggregate_loop f ps ≡ aggregate_loop g ps
unfolding aggregate_loop
aggregate_loop-fuel zero g ps h k = elim h [ ]
aggregate_loop-fuel (suc f) zero ps h k = elim k [ ]
aggregate_loop-fuel (suc f) (suc g) ps h k =
    ground (arith, aggregate_round-lt ps, aggregate_loop-fuel f g (aggregate_round ps).0)
