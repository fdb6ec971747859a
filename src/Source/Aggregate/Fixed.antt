-- ===== src/Source/Aggregate/Fixed.antt =====
-- Where the loop of Aggregate of internal/source/aggregate.go ends.
use route_sync.Base.{
  ℕ, zero, suc, ◌+◌, ◌≤◌, ◌<◌, ◌≡◌, refl, sym, ◌∙◌, ap, ap₂, append_nil, append_assoc, subst, Bool,
  true, false, not, ◌&&◌, ◌==◌, ==_iff, List, [], ◌∷◌, ◌++◌, All, All-map, any, length,
  length-append, ltb, arith, if◌then◌else◌, Bool-cases, inl, inr,
}
use route_sync.Netip.{Prefix, eqb_prefix}
use route_sync.Source.Parsers.Masked.{IsMasked}
use route_sync.Source.Sorting.{sort_prefixes, length-sort_prefixes, count-sort_prefixes}
use route_sync.Source.Sorting.Commutes.{IsPlain, masked-IsPlain}
use route_sync.Source.Sorting.Sorted.{All-sort}
use route_sync.Source.Sorting.Unordered.{sort_unordered}
use route_sync.Source.Aggregate.{
  covers_prefix, cover_loop, remove_covered, merge_loop, merge_one_pass, aggregate_round,
  aggregate_loop, aggregate,
}
use route_sync.Source.Aggregate.Antichain.{remove_covered-IsApart}
use route_sync.Source.Aggregate.Apart.{aggregate_round-IsReduced}
use route_sync.Source.Aggregate.Termination.{length-cover_loop, aggregate_round-lt}

-- A pass that has changed nothing has returned its list.
merge_loop_unchanged : (ps : List Prefix) → (merge_loop ps).1 ≡ false → (merge_loop ps).0 ≡ ps
unfolding merge_loop
merge_loop_unchanged [] h = refl
merge_loop_unchanged (p ∷ []) h = refl
merge_loop_unchanged (p ∷ q ∷ rest) h = ground (arith, merge_loop_unchanged (q ∷ rest), h)

too_short : (m n k : ℕ) → k ≤ m + n → ¬ (k ≡ m + suc n)
too_short m n k h e = omega arith

zero_add : (n : ℕ) → n ≡ 0 + n
zero_add n = omega arith

both_hold : (c : Bool) (a b : ℕ) → (not c && a == b) ≡ true → (c ≡ false) × (a ≡ b)
both_hold c a b h = ground arith

-- A pass that has dropped nothing has returned its list.
cover_loop_kept :
    (ps out : List Prefix)
    → length (cover_loop ps out) ≡ length out + length ps
    → cover_loop ps out ≡ out ++ ps
unfolding cover_loop
cover_loop_kept [] out h = sym (append_nil out)
cover_loop_kept (p ∷ ps) out h = elim (Bool-cases (any (covers_prefix p) out)) [
  | inl drop ↦ absurd (
      too_short (length out) (length ps) (length (cover_loop ps out)) (length-cover_loop ps out)
        (ap (λ b. length (cover_loop ps (if b then out else out ++ (p ∷ [])))) (sym drop) ∙ h))
  | inr add ↦
      let longer : cover_loop (p ∷ ps) out ≡ cover_loop ps (out ++ (p ∷ [])) =
        ap (λ b. cover_loop ps (if b then out else out ++ (p ∷ []))) add in
      longer
      ∙ cover_loop_kept ps (out ++ (p ∷ []))
          (sym (ap length longer) ∙ h ∙ omega (arith, length-append out (p ∷ [])))
      ∙ sym (append_assoc out (p ∷ []) ps)
]

pub IsMasked-IsPlain : (ps : List Prefix) → All IsMasked ps → All IsPlain ps
IsMasked-IsPlain = All-map (λ p m. subst IsPlain m (masked-IsPlain p))

pub sort_twice :
    (ps : List Prefix) → All IsMasked ps → sort_prefixes (sort_prefixes ps) ≡ sort_prefixes ps
sort_twice ps m =
    let plain = IsMasked-IsPlain ps m in
    sort_unordered (sort_prefixes ps) ps (All-sort IsPlain ps plain) plain
      (λ q. count-sort_prefixes (eqb_prefix q) ps)

-- A round leaves the list as it is, and ends the loop.
abbrev pub IsFixed : List Prefix → Type 0
IsFixed ps = (sort_prefixes ps ≡ ps) × (merge_loop ps ≡ (ps, false)) × (cover_loop ps [] ≡ ps)

last_round :
    (ps : List Prefix)
    → All IsMasked ps
    → (aggregate_round ps).1 ≡ true
    → IsFixed (aggregate_round ps).0
unfolding aggregate_round merge_one_pass remove_covered
last_round ps m h =
    let (unchanged, lengths) = both_hold _ _ _ h in
    let same = merge_loop_unchanged (sort_prefixes ps) unchanged in
    let twice = sort_twice ps m in
    let merged : sort_prefixes (merge_loop (sort_prefixes ps)).0 ≡ sort_prefixes ps =
      ap sort_prefixes same ∙ twice in
    let kept : cover_loop (sort_prefixes ps) [] ≡ sort_prefixes ps =
      cover_loop_kept (sort_prefixes ps) [] (
        ap (λ l. length (cover_loop l [])) (sym merged)
        ∙ lengths
        ∙ sym (length-sort_prefixes ps)
        ∙ zero_add (length (sort_prefixes ps))) in
    subst IsFixed (sym (ap (λ l. cover_loop l []) merged ∙ kept))
      (twice, ap₂ (λ l b. (l, b)) same unchanged, kept)

aggregate_loop-IsFixed :
    (fuel : ℕ) (ps : List Prefix)
    → length ps < fuel
    → All IsMasked ps
    → IsFixed (aggregate_loop fuel ps)
unfolding aggregate_loop
aggregate_loop-IsFixed zero ps h m = absurd (omega (arith, h))
aggregate_loop-IsFixed (suc fuel) ps h m = elim (Bool-cases (aggregate_round ps).1) [
  | inl done ↦ rw done (last_round ps m done)
  | inr more ↦ rw more (
      aggregate_loop-IsFixed fuel (aggregate_round ps).0
        (omega (arith, aggregate_round-lt ps more, h)) (aggregate_round-IsReduced ps m).1)
]

fixed_round : (ps : List Prefix) → IsFixed ps → aggregate_round ps ≡ (ps, true)
unfolding aggregate_round merge_one_pass remove_covered
fixed_round ps (sorted, merged, kept) =
    let pass : merge_loop (sort_prefixes ps) ≡ (ps, false) = ap merge_loop sorted ∙ merged in
    let next : cover_loop (sort_prefixes ps) [] ≡ ps = ap (λ l. cover_loop l []) sorted ∙ kept in
    ap
      (λ m. (
        cover_loop (sort_prefixes m.0) [],
        not m.1 && length (cover_loop (sort_prefixes m.0) []) == length ps,
      ))
      pass
    ∙ ap (λ l. (l, length l == length ps)) next
    ∙ ap (λ b. (ps, b)) ((==_iff (length ps) (length ps)).1 refl)

fixed_aggregate : (ps : List Prefix) → IsFixed ps → aggregate ps ≡ ps
unfolding aggregate aggregate_loop remove_covered
fixed_aggregate ps (sorted, merged, kept) =
    let first : cover_loop (sort_prefixes ps) [] ≡ ps = ap (λ l. cover_loop l []) sorted ∙ kept in
    let round = fixed_round ps (sorted, merged, kept) in
    elim (Bool-cases (ltb (length ps) 2)) [
      | inl short ↦ rw short refl
      | inr long ↦ rw long (
          ap (λ l. aggregate_loop (suc (length l)) l) first
          ∙ ap (λ r. if r.1 then r.0 else aggregate_loop (length ps) r.0) round)
    ]

pub sort-aggregate :
    (ps : List Prefix)
    → All IsMasked ps
    → sort_prefixes ps ≡ ps
    → sort_prefixes (aggregate ps) ≡ aggregate ps
unfolding aggregate
sort-aggregate ps m sorted = elim (Bool-cases (ltb (length ps) 2)) [
  | inl short ↦ rw short sorted
  | inr long ↦
      rw long
        (aggregate_loop-IsFixed (suc (length (remove_covered ps))) (remove_covered ps) (omega arith)
          (remove_covered-IsApart ps m).1).0
]

-- Aggregate is idempotent on masked prefixes: what it returns, a further call returns again.
pub aggregate_twice : (ps : List Prefix) → All IsMasked ps → aggregate (aggregate ps) ≡ aggregate ps
unfolding aggregate
aggregate_twice ps m = elim (Bool-cases (ltb (length ps) 2)) [
  | inl short ↦ rw short (rw short refl)
  | inr long ↦
      let current = remove_covered ps in
      let end : aggregate ps ≡ aggregate_loop (suc (length current)) current =
        ap (λ b. if b then ps else aggregate_loop (suc (length current)) current) long in
      ap aggregate end
      ∙ fixed_aggregate (aggregate_loop (suc (length current)) current) (
          aggregate_loop-IsFixed (suc (length current)) current (omega arith)
            (remove_covered-IsApart ps m).1)
      ∙ sym end
]
