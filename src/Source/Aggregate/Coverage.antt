-- ===== src/Source/Aggregate/Coverage.antt =====
-- The addresses that Aggregate of internal/source/aggregate.go covers.
use route_sync.Base.{
  ℕ, zero, suc, ◌≡◌, refl, sym, ◌∙◌, ap, Bool, true, false, ◌||◌, none, some, List, [], ◌∷◌, ◌++◌,
  Option-cases, inl, inr, arith, any, any-append, any_mono, if◌then◌else◌, Bool-cases,
}
use route_sync.Base
use route_sync.Netip.{Addr, Prefix, contains}
use route_sync.Netip.Laws.{contains_trans}
use route_sync.Source.Sorting.{sort_prefixes, any-sort_prefixes}
use route_sync.Source.Aggregate.{
  covers_prefix, cover_loop, remove_covered, merge_pair, merge_loop, merge_one_pass,
  aggregate_round, aggregate_loop, aggregate,
}
use route_sync.Source.Aggregate.Merge.{contains-merge_pair}

-- Some prefix of the list contains the address.
abbrev pub covered : List Prefix → Addr → Bool
covered ps a = any (λ p. contains p a) ps

covers_prefix-contains :
    (p kept : Prefix) (a : Addr)
    → contains p a ≡ true
    → covers_prefix p kept ≡ true
    → contains kept a ≡ true
unfolding covers_prefix
covers_prefix-contains p kept a e h = contains_trans kept p a (ground arith) (ground arith) e

covered_by_kept :
    (p : Prefix) (out : List Prefix) (a : Addr)
    → any (covers_prefix p) out ≡ true
    → contains p a ≡ true
    → covered out a ≡ true
covered_by_kept p out a h e =
    any_mono (covers_prefix p) (λ k. contains k a) (λ k. covers_prefix-contains p k a e) out h

covered-cover_loop :
    (ps out : List Prefix) (a : Addr)
    → covered (cover_loop ps out) a ≡ (covered out a || covered ps a)
unfolding cover_loop
covered-cover_loop [] out a = ground arith
covered-cover_loop (p ∷ ps) out a = elim (Bool-cases (any (covers_prefix p) out)) [
  | inl drop ↦ rw drop (ground (arith, covered-cover_loop ps out a, covered_by_kept p out a drop))
  | inr add ↦ rw add (
      ground (
        arith,
        covered-cover_loop ps (out ++ (p ∷ [])) a,
        any-append (λ k. contains k a) out (p ∷ []),
      ))
]

covered-remove_covered :
    (ps : List Prefix) (a : Addr) → covered (remove_covered ps) a ≡ covered ps a
unfolding remove_covered
covered-remove_covered ps a =
    covered-cover_loop (sort_prefixes ps) [] a ∙ any-sort_prefixes (λ p. contains p a) ps

covered-merge_loop : (ps : List Prefix) (a : Addr) → covered (merge_loop ps).0 a ≡ covered ps a
unfolding merge_loop
covered-merge_loop [] a = refl
covered-merge_loop (p ∷ []) a = refl
covered-merge_loop (p ∷ q ∷ rest) a = elim (Option-cases (merge_pair p q)) [
  | inl none_found ↦
      rw (none_found, merge_loop) (ap (λ t. contains p a || t) (covered-merge_loop (q ∷ rest) a))
  | inr (parent, found) ↦
      rw (found, merge_loop)
        (ground (arith, contains-merge_pair p q parent a found, covered-merge_loop rest a))
]

covered-aggregate_round :
    (ps : List Prefix) (a : Addr) → covered (aggregate_round ps).0 a ≡ covered ps a
unfolding aggregate_round merge_one_pass
covered-aggregate_round ps a =
    covered-remove_covered (merge_loop (sort_prefixes ps)).0 a
    ∙ covered-merge_loop (sort_prefixes ps) a
    ∙ any-sort_prefixes (λ p. contains p a) ps

covered-aggregate_loop :
    (fuel : ℕ) (ps : List Prefix) (a : Addr) → covered (aggregate_loop fuel ps) a ≡ covered ps a
unfolding aggregate_loop
covered-aggregate_loop zero ps a = refl
covered-aggregate_loop (suc fuel) ps a =
    ground
      (arith, covered-aggregate_round ps a, covered-aggregate_loop fuel (aggregate_round ps).0 a)

-- For every address: some prefix of Aggregate's result contains it exactly if some prefix of its
-- argument does.
pub covered-aggregate : (ps : List Prefix) (a : Addr) → covered (aggregate ps) a ≡ covered ps a
unfolding aggregate
covered-aggregate ps a = ground (
  arith,
  covered-remove_covered ps a,
  covered-aggregate_loop (suc (Base.length (remove_covered ps))) (remove_covered ps) a,
)
