-- ===== src/Source/Normalize/Twice.antt =====
-- Normalize of internal/source/source.go on its own result.
use route_sync.Base.{
  ℕ, zero, suc, ◌≡◌, refl, sym, ◌∙◌, ap, subst, Bool, true, false, ◌&&◌, ◌||◌, none, some, List, [],
  ◌∷◌, All, All-append, any, once, arith, if◌then◌else◌, none_of, fails_of, str_eq_iff, Bool-cases,
  inl, inr,
}
use route_sync.Netip.{
  Prefix, Addr, zero_addr, ip4, ip6, bits, addr_prefix, masked, is_valid, contains, contains_at,
  eqb_prefix,
}
use route_sync.Netip.Laws.{eqb_prefix_iff}
use route_sync.Source.Parsers.Masked.{IsMasked}
use route_sync.Source.Sorting.{sort_prefixes, any-sort_prefixes, count-sort_prefixes}
use route_sync.Source.Sorting.Commutes.{IsPlain, masked-IsPlain}
use route_sync.Source.Sorting.Sorted.{All-sort}
use route_sync.Source.Sorting.Unordered.{sort_unordered}
use route_sync.Source.Aggregate.{covers_prefix, parent_of, merge_pair, aggregate}
use route_sync.Source.Aggregate.Antichain.{IsApart}
use route_sync.Source.Aggregate.Apart.{normalize_loop-IsMasked, normalize-IsApart}
use route_sync.Source.Aggregate.Fixed.{
  IsMasked-IsPlain, sort_twice, sort-aggregate, aggregate_twice,
}
use route_sync.Source.Normalize.{normalize_loop, normalize}
use route_sync.Source.Normalize.Laws.{
  IsOnce, normalize_loop-IsOnce, count-normalize_loop, contains-valid,
}
use route_sync.Source.Normalize.Unordered.{normalize_loop-IsPlain}
use route_sync.Source.Aggregate.Holds.{All-aggregate}

abbrev IsValid : Prefix → Type 0
IsValid p = is_valid p ≡ true

merge_pair-IsValid : (a b p : Prefix) → merge_pair a b ≡ some p → IsValid p
unfolding merge_pair
merge_pair-IsValid a b p h = from _ _ (λ e. contains-valid (parent_of a) a.ip (ground (arith, e))) h
  where
    from :
        (b c : Bool)
        → (c ≡ true → IsValid (parent_of a))
        → (if b then none else if c then some (parent_of a) else none) ≡ some p
        → IsValid p
    from true c v e = cc
    from false false v e = cc
    from false true v e = let same : parent_of a ≡ p = cc in subst IsValid same (v refl)

-- A valid prefix has a valid masked form, as netip's have.
abbrev pub HasMasked : Prefix → Type 0
HasMasked p = is_valid p ≡ true → is_valid (masked p) ≡ true

normalize_loop-IsValid :
    (ps valid : List Prefix)
    → All HasMasked ps
    → All IsValid valid
    → All IsValid (normalize_loop ps valid)
unfolding normalize_loop
normalize_loop-IsValid [] valid m h = h
normalize_loop-IsValid (p ∷ ps) valid (mp, m) h = elim (Bool-cases (is_valid p)) [
  | inr invalid ↦ rw invalid (normalize_loop-IsValid ps valid m h)
  | inl fine ↦ elim (Bool-cases (any (eqb_prefix (masked p)) valid)) [
    | inl old ↦ rw (fine, old) (normalize_loop-IsValid ps valid m h)
    | inr new ↦
        rw (fine, new)
          (normalize_loop-IsValid ps _ m (All-append IsValid valid (masked p ∷ []) h (mp fine, tt)))
  ]
]

zero_apart : (b : ℕ) → ¬ (0 ≡ suc b)
zero_apart b e = omega arith

covers_at :
    (c : ℕ) (i : Addr)
    → IsMasked (record { ip = i; bits_plus_one = c })
    → IsValid (record { ip = i; bits_plus_one = c })
    → covers_prefix (record { ip = i; bits_plus_one = c }) (record { ip = i; bits_plus_one = c })
      ≡ true
unfolding covers_prefix contains contains_at is_valid masked addr_prefix bits
covers_at zero i m v = cc
covers_at (suc b) zero_addr m v = absurd (zero_apart b (ap (λ p. p.bits_plus_one) m))
covers_at (suc b) (ip4 n) m v = ground arith
covers_at (suc b) (ip6 n z) m v = ground (
  arith,
  subst IsPlain m (masked-IsPlain (record { ip = ip6 n z; bits_plus_one = suc b })),
  str_eq_iff z "",
)

-- A masked and valid prefix covers itself.
covers_self : (p : Prefix) → IsMasked p → IsValid p → covers_prefix p p ≡ true
covers_self p m v = covers_at p.bits_plus_one p.ip m v

covered_by :
    (p x : Prefix) → IsMasked p → IsValid p → eqb_prefix p x ≡ true → covers_prefix p x ≡ true
covered_by p x m v e =
    subst (λ y. covers_prefix p y ≡ true) ((eqb_prefix_iff p x).0 e) (covers_self p m v)

-- Prefixes of which none covers another are different ones.
IsApart-IsOnce : (ps : List Prefix) → IsApart ps → All IsMasked ps → All IsValid ps → IsOnce ps
IsApart-IsOnce [] h m v q = refl
IsApart-IsOnce (p ∷ ps) (apart, h) (mp, m) (vp, v) q =
    let rest = IsApart-IsOnce ps h m v q in
    elim (Bool-cases (eqb_prefix q p)) [
      | inr other ↦ ground (arith, other, rest)
      | inl same ↦
          let is : q ≡ p = (eqb_prefix_iff q p).0 same in
          let none_else : any (eqb_prefix q) ps ≡ false =
            subst (λ x. any (eqb_prefix x) ps ≡ false) (sym is)
              (none_of (eqb_prefix p) ps (λ x i. ground (
                arith,
                (eqb_prefix_iff p x).0,
                covered_by p x mp vp,
                fails_of (λ y. covers_prefix p y || covers_prefix y p) ps x apart i,
              ))) in
          ground (arith, same, rest, none_else)
    ]

-- What Normalize sorts, and then aggregates
abbrev sorted_list : List Prefix → List Prefix
sorted_list ps = sort_prefixes (normalize_loop ps [])

sorted_list-IsMasked : (ps : List Prefix) → All IsMasked (sorted_list ps)
sorted_list-IsMasked ps =
    All-sort IsMasked (normalize_loop ps []) (normalize_loop-IsMasked ps [] tt)

sorted_list-IsOnce : (ps : List Prefix) → IsOnce (sorted_list ps)
sorted_list-IsOnce ps q =
    count-sort_prefixes (eqb_prefix q) (normalize_loop ps [])
    ∙ normalize_loop-IsOnce ps [] (λ t. refl) q
    ∙ ap once (sym (any-sort_prefixes (eqb_prefix q) (normalize_loop ps [])))

normalize-IsValid :
    (ps : List Prefix) (aggregated : Bool)
    → All HasMasked ps
    → All IsValid (normalize ps aggregated)
unfolding normalize
normalize-IsValid ps false h =
    All-sort IsValid (normalize_loop ps []) (normalize_loop-IsValid ps [] h tt)
normalize-IsValid ps true h =
    All-aggregate IsValid merge_pair-IsValid (sorted_list ps)
      (All-sort IsValid (normalize_loop ps []) (normalize_loop-IsValid ps [] h tt))

pub normalize-IsMasked :
    (ps : List Prefix) (aggregated : Bool) → All IsMasked (normalize ps aggregated)
unfolding normalize
normalize-IsMasked ps false = sorted_list-IsMasked ps
normalize-IsMasked ps true = (normalize-IsApart ps).1

normalize-IsOnce :
    (ps : List Prefix) (aggregated : Bool) → All HasMasked ps → IsOnce (normalize ps aggregated)
unfolding normalize
normalize-IsOnce ps false h = sorted_list-IsOnce ps
normalize-IsOnce ps true h =
    let (apart, m) = normalize-IsApart ps in
    IsApart-IsOnce (aggregate (sorted_list ps)) apart m (normalize-IsValid ps true h)

sort-normalize :
    (ps : List Prefix) (aggregated : Bool)
    → sort_prefixes (normalize ps aggregated) ≡ normalize ps aggregated
unfolding normalize
sort-normalize ps false = sort_twice (normalize_loop ps []) (normalize_loop-IsMasked ps [] tt)
sort-normalize ps true =
    sort-aggregate (sorted_list ps) (sorted_list-IsMasked ps)
      (sort_twice (normalize_loop ps []) (normalize_loop-IsMasked ps [] tt))

any-masked :
    (q : Prefix) (ps : List Prefix)
    → All IsMasked ps
    → All IsValid ps
    → any (λ p. is_valid p && eqb_prefix q (masked p)) ps ≡ any (eqb_prefix q) ps
any-masked q [] m v = refl
any-masked q (p ∷ ps) (mp, m) (vp, v) =
    ground (arith, vp, ap (eqb_prefix q) mp, any-masked q ps m v)

-- What Normalize has made of a list it would sort into that list again.
sorted_list-normalize :
    (ps : List Prefix) (aggregated : Bool)
    → All HasMasked ps
    → sorted_list (normalize ps aggregated) ≡ normalize ps aggregated
sorted_list-normalize ps aggregated h =
    let r = normalize ps aggregated in
    let m = normalize-IsMasked ps aggregated in
    sort_unordered (normalize_loop r []) r (normalize_loop-IsPlain r [] tt) (IsMasked-IsPlain r m)
      (λ q.
        count-normalize_loop r q
        ∙ ap once (any-masked q r m (normalize-IsValid ps aggregated h))
        ∙ sym (normalize-IsOnce ps aggregated h q))
    ∙ sort-normalize ps aggregated

-- Normalize is idempotent, with aggregation and without: normalising its result again, as BuildPlan
-- does with the stored prefixes of a group, changes nothing. Of the prefixes given, those that are
-- valid must have valid masked forms, as netip's have.
pub normalize_twice :
    (ps : List Prefix) (aggregated : Bool)
    → All HasMasked ps
    → normalize (normalize ps aggregated) aggregated ≡ normalize ps aggregated
unfolding normalize
normalize_twice ps false h = sorted_list-normalize ps false h
normalize_twice ps true h =
    ap aggregate (sorted_list-normalize ps true h)
    ∙ aggregate_twice (sorted_list ps) (sorted_list-IsMasked ps)
