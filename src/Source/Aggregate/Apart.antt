-- ===== src/Source/Aggregate/Apart.antt =====
-- Aggregate of internal/source/aggregate.go on masked prefixes, and Normalize of
-- internal/source/source.go with it.
use route_sync.Base.{
  ℕ, zero, suc, ◌≡◌, refl, subst, Bool, true, false, none, some, List, [], ◌∷◌, All, All-append,
  any, length, ltb, arith, if◌then◌else◌, Bool-cases, Option-cases, inl, inr,
}
use route_sync.Netip.{Prefix, masked, is_valid, eqb_prefix}
use route_sync.Source.Parsers.Masked.{IsMasked, masked-IsMasked}
use route_sync.Source.Sorting.{sort_prefixes}
use route_sync.Source.Sorting.Sorted.{All-sort}
use route_sync.Source.Aggregate.{
  remove_covered, parent_of, merge_pair, merge_loop, merge_one_pass, aggregate_round,
  aggregate_loop, aggregate,
}
use route_sync.Source.Aggregate.Antichain.{IsApart, remove_covered-IsApart}
use route_sync.Source.Normalize.{normalize_loop, normalize}

merge_pair-IsMasked : (a b p : Prefix) → merge_pair a b ≡ some p → IsMasked p
unfolding merge_pair parent_of
merge_pair-IsMasked a b p h = from _ _ h
  where
    from :
        (b c : Bool)
        → (if b then none else if c then some (parent_of a) else none) ≡ some p
        → IsMasked p
    from true c e = cc
    from false false e = cc
    from false true e = let same : parent_of a ≡ p = cc in subst IsMasked same (masked-IsMasked _)

pub merge_loop-IsMasked : (ps : List Prefix) → All IsMasked ps → All IsMasked (merge_loop ps).0
unfolding merge_loop
merge_loop-IsMasked [] h = tt
merge_loop-IsMasked (p ∷ []) h = h
merge_loop-IsMasked (p ∷ q ∷ rest) (hp, (hq, h)) = elim (Option-cases (merge_pair p q)) [
  | inl none_found ↦ rw (none_found, merge_loop) (hp, merge_loop-IsMasked (q ∷ rest) (hq, h))
  | inr (parent, found) ↦
      rw (found, merge_loop) (merge_pair-IsMasked p q parent found, merge_loop-IsMasked rest h)
]

-- A list of masked prefixes of which none covers another.
abbrev pub IsReduced : List Prefix → Type 0
IsReduced ps = IsApart ps × All IsMasked ps

pub aggregate_round-IsReduced :
    (ps : List Prefix) → All IsMasked ps → IsReduced (aggregate_round ps).0
unfolding aggregate_round merge_one_pass
aggregate_round-IsReduced ps h =
    remove_covered-IsApart (merge_loop (sort_prefixes ps)).0
      (merge_loop-IsMasked (sort_prefixes ps) (All-sort IsMasked ps h))

aggregate_loop-IsReduced :
    (fuel : ℕ) (ps : List Prefix) → IsReduced ps → IsReduced (aggregate_loop fuel ps)
unfolding aggregate_loop
aggregate_loop-IsReduced zero ps h = h
aggregate_loop-IsReduced (suc fuel) ps h =
    let next = aggregate_round-IsReduced ps h.1 in
    elim (Bool-cases (aggregate_round ps).1) [
      | inl last ↦ rw last next
      | inr more ↦ rw more (aggregate_loop-IsReduced fuel (aggregate_round ps).0 next)
    ]

aggregate-IsReduced : (ps : List Prefix) → All IsMasked ps → IsReduced (aggregate ps)
unfolding aggregate
aggregate-IsReduced [] h = (tt, tt)
aggregate-IsReduced (p ∷ []) h = ((refl, tt), h)
aggregate-IsReduced (p ∷ q ∷ ps) h =
    let long : ltb (suc (suc (length ps))) 2 ≡ false = ground arith in
    rw long (
      aggregate_loop-IsReduced (suc (length (remove_covered (p ∷ q ∷ ps))))
        (remove_covered (p ∷ q ∷ ps)) (remove_covered-IsApart (p ∷ q ∷ ps) h))

pub normalize_loop-IsMasked :
    (ps valid : List Prefix) → All IsMasked valid → All IsMasked (normalize_loop ps valid)
unfolding normalize_loop
normalize_loop-IsMasked [] valid h = h
normalize_loop-IsMasked (p ∷ ps) valid h = elim (Bool-cases (is_valid p)) [
  | inr invalid ↦ rw invalid (normalize_loop-IsMasked ps valid h)
  | inl fine ↦ elim (Bool-cases (any (eqb_prefix (masked p)) valid)) [
    | inl old ↦ rw (fine, old) (normalize_loop-IsMasked ps valid h)
    | inr new ↦
        rw (fine, new)
          (normalize_loop-IsMasked ps _
            (All-append IsMasked valid (masked p ∷ []) h (masked-IsMasked p, tt)))
  ]
]

-- With aggregation Normalize returns, whatever it is given, prefixes in masked form of which none
-- covers another.
pub normalize-IsApart :
    (ps : List Prefix) → IsApart (normalize ps true) × All IsMasked (normalize ps true)
unfolding normalize
normalize-IsApart ps =
    aggregate-IsReduced (sort_prefixes (normalize_loop ps []))
      (All-sort IsMasked (normalize_loop ps []) (normalize_loop-IsMasked ps [] tt))
