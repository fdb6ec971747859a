-- ===== src/Source/Sorting/Unordered.antt =====
-- sortPrefixes of internal/source/source.go on two arrangements of the same prefixes.
use route_sync.Base.{
  ◌+◌, ◌≡◌, refl, sym, ◌∙◌, ap, Bool, true, List, [], ◌∷◌, All, any, count, once, any_of_count,
  arith, if◌then◌else◌, Bool-cases, inl, inr,
}
use route_sync.Netip.{Prefix, eqb_prefix}
use route_sync.Netip.Laws.{eqb_prefix_iff}
use route_sync.Source.Sorting.{insert_prefix, sort_prefixes}
use route_sync.Source.Sorting.Sorted.{All-sort}
use route_sync.Source.Sorting.Commutes.{IsPlain, insert_comm}

-- The list without the first occurrence.
abbrev without : Prefix → List Prefix → List Prefix
without x [] = []
without x (y ∷ ys) = if eqb_prefix x y then ys else y ∷ without x ys

IsPlain-without : (x : Prefix) (ys : List Prefix) → All IsPlain ys → All IsPlain (without x ys)
IsPlain-without x [] h = tt
IsPlain-without x (y ∷ ys) (hy, h) = elim (Bool-cases (eqb_prefix x y)) [
  | inl e ↦ rw e h
  | inr e ↦ rw e (hy, IsPlain-without x ys h)
]

count-without :
    (f : Prefix → Bool) (x : Prefix) (ys : List Prefix)
    → any (eqb_prefix x) ys ≡ true
    → count f ys ≡ once (f x) + count f (without x ys)
count-without f x [] h = cc
count-without f x (y ∷ ys) h =
    let same = λ (e : eqb_prefix x y ≡ true). ap f ((eqb_prefix_iff x y).0 e) in
    ground (arith, same, count-without f x ys)

sort-without :
    (x : Prefix) (ys : List Prefix)
    → IsPlain x
    → All IsPlain ys
    → any (eqb_prefix x) ys ≡ true
    → sort_prefixes ys ≡ insert_prefix x (sort_prefixes (without x ys))
unfolding sort_prefixes
sort-without x [] hx h e = cc
sort-without x (y ∷ ys) hx (hy, h) e = elim (Bool-cases (eqb_prefix x y)) [
  | inl k ↦ rw k (ap (λ t. insert_prefix t (sort_prefixes ys)) (sym ((eqb_prefix_iff x y).0 k)))
  | inr k ↦ rw k (
      ap (insert_prefix y) (sort-without x ys hx h (ground (arith, e, k)))
      ∙ insert_comm y x (sort_prefixes (without x ys)) hy hx
          (All-sort IsPlain (without x ys) (IsPlain-without x ys h)))
]

-- Sorting forgets the order of prefixes without zones: lists that hold each of them as often are
-- sorted alike.
pub sort_unordered :
    (xs ys : List Prefix)
    → All IsPlain xs
    → All IsPlain ys
    → ((q : Prefix) → count (eqb_prefix q) xs ≡ count (eqb_prefix q) ys)
    → sort_prefixes xs ≡ sort_prefixes ys
unfolding sort_prefixes
sort_unordered [] [] hx hy h = refl
sort_unordered [] (y ∷ ys) hx hy h = ground (arith, h y, (eqb_prefix_iff y y).1 refl)
sort_unordered (x ∷ xs) ys (hx, hxs) hy h =
    let own = (eqb_prefix_iff x x).1 refl in
    let there : any (eqb_prefix x) ys ≡ true =
      sym (any_of_count (eqb_prefix x) (x ∷ xs) ys (h x)) ∙ ground (arith, own) in
    let rest : (q : Prefix) → count (eqb_prefix q) xs ≡ count (eqb_prefix q) (without x ys) =
      λ q. ground (arith, h q, count-without (eqb_prefix q) x ys there) in
    ap (insert_prefix x) (sort_unordered xs (without x ys) hxs (IsPlain-without x ys hy) rest)
    ∙ sym (sort-without x ys hx hy there)
