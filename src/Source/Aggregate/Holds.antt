-- ===== src/Source/Aggregate/Holds.antt =====
-- What Aggregate of internal/source/aggregate.go keeps of each prefix.
use route_sync.Base.{
  ℕ, zero, suc, ◌≡◌, some, List, [], ◌∷◌, ◌++◌, All, All-append, any, ltb, length, Bool-cases,
  Option-cases, inl, inr,
}
use route_sync.Netip.{Prefix}
use route_sync.Source.Sorting.{sort_prefixes}
use route_sync.Source.Sorting.Sorted.{All-sort}
use route_sync.Source.Aggregate.{
  covers_prefix, cover_loop, remove_covered, merge_pair, merge_loop, merge_one_pass,
  aggregate_round, aggregate_loop, aggregate,
}

-- What holds of the prefixes given, and of every pair merged, holds of the result of Aggregate.
module _ (P : Prefix → Type 0) (merged : (a b p : Prefix) → merge_pair a b ≡ some p → P p) where
  All-merge_loop : (ps : List Prefix) → All P ps → All P (merge_loop ps).0
  unfolding merge_loop
  All-merge_loop [] h = tt
  All-merge_loop (p ∷ []) h = h
  All-merge_loop (p ∷ q ∷ rest) (hp, (hq, h)) = elim (Option-cases (merge_pair p q)) [
    | inl none_found ↦ rw (none_found, merge_loop) (hp, All-merge_loop (q ∷ rest) (hq, h))
    | inr (parent, found) ↦ rw (found, merge_loop) (merged p q parent found, All-merge_loop rest h)
  ]

  All-cover_loop : (ps out : List Prefix) → All P ps → All P out → All P (cover_loop ps out)
  unfolding cover_loop
  All-cover_loop [] out h ho = ho
  All-cover_loop (p ∷ ps) out (hp, h) ho = elim (Bool-cases (any (covers_prefix p) out)) [
    | inl drop ↦ rw drop (All-cover_loop ps out h ho)
    | inr add ↦
        rw add (All-cover_loop ps (out ++ (p ∷ [])) h (All-append P out (p ∷ []) ho (hp, tt)))
  ]

  All-remove_covered : (ps : List Prefix) → All P ps → All P (remove_covered ps)
  unfolding remove_covered
  All-remove_covered ps h = All-cover_loop (sort_prefixes ps) [] (All-sort P ps h) tt

  All-aggregate_loop : (fuel : ℕ) (ps : List Prefix) → All P ps → All P (aggregate_loop fuel ps)
  unfolding aggregate_loop aggregate_round merge_one_pass
  All-aggregate_loop zero ps h = h
  All-aggregate_loop (suc fuel) ps h =
      let next =
        All-remove_covered (merge_loop (sort_prefixes ps)).0
          (All-merge_loop (sort_prefixes ps) (All-sort P ps h)) in
      elim (Bool-cases (aggregate_round ps).1) [
        | inl done ↦ rw done next
        | inr more ↦ rw more (All-aggregate_loop fuel (aggregate_round ps).0 next)
      ]

  pub All-aggregate : (ps : List Prefix) → All P ps → All P (aggregate ps)
  unfolding aggregate
  All-aggregate ps h = elim (Bool-cases (ltb (length ps) 2)) [
    | inl short ↦ rw short h
    | inr long ↦ rw long (
        All-aggregate_loop (suc (length (remove_covered ps))) (remove_covered ps)
          (All-remove_covered ps h))
  ]
