-- ===== src/Source/Aggregate/Antichain.antt =====
-- The prefixes that removeCovered and Aggregate of internal/source/aggregate.go leave.
use route_sync.Base.{
  ℕ, suc, ◌-◌, ◌≤◌, ◌≡◌, refl, sym, ◌∙◌, ap, subst, true, false, ◌||◌, List, [], ◌∷◌, ◌++◌, All,
  All-map, All-append, any, any-append, arith, Bool-cases, inl, inr, block_start, leb,
}
use route_sync.Base.Int.{leb_ℤ}
use route_sync.Netip.{
  Addr, Prefix, ip4, ip6, addr_prefix, prefix_from, masked, contains, contains_at, bits,
}
use route_sync.Source.Parsers.Masked.{IsMasked}
use route_sync.Source.Sorting.{prefix_less, sort_prefixes}
use route_sync.Source.Sorting.Commutes.{
  IsPlain, masked-IsPlain, kind, value, prefix_less-plain, less_neither,
}
use route_sync.Source.Sorting.Sorted.{IsSorted, All-sort, IsSorted-sort}
use route_sync.Source.Aggregate.{covers_prefix, cover_loop, remove_covered}

-- The address of a masked prefix is the least of those that it contains.
least_address :
    (c : ℕ) (i a : Addr)
    → value (addr_prefix i c).ip ≡ value i
    → contains_at c i a ≡ true
    → (kind i ≡ kind a) × (value i ≤ value a)
unfolding contains_at addr_prefix prefix_from
least_address (suc b) (ip4 n) (ip4 m) h e = (
  refl,
  elim (Bool-cases (leb b 32)) [
    | inl fits ↦ block_start n m (32 - b) (ground (arith, h, fits)) (ground (arith, e))
    | inr long ↦ ground (arith, h, long)
  ],
)
least_address (suc b) (ip6 n z) (ip6 m w) h e = (
  refl,
  elim (Bool-cases (leb b 128)) [
    | inl fits ↦ block_start n m (128 - b) (ground (arith, h, fits)) (ground (arith, e))
    | inr long ↦ ground (arith, h, long)
  ],
)
least_address _ _ _ h e = cc

bits_le : (p q : Prefix) → leb_ℤ (bits p) (bits q) ≡ true → p.bits_plus_one ≤ q.bits_plus_one
unfolding bits
bits_le p q h = ground (arith, h)

-- A masked prefix is not behind what it covers.
covering_first :
    (p q : Prefix)
    → IsMasked p
    → IsPlain p
    → IsPlain q
    → covers_prefix q p ≡ true
    → prefix_less q p ≡ false
unfolding covers_prefix contains masked
covering_first p q m hp hq h =
    let inside : contains_at p.bits_plus_one p.ip q.ip ≡ true = ground (arith, h) in
    let (kinds, values) = least_address p.bits_plus_one p.ip q.ip (ap (λ t. value t.ip) m) inside in
    let longer = bits_le p q (ground (arith, h)) in
    prefix_less-plain q p hq hp ∙ ground (arith, kinds, values, longer)

-- Of two masked prefixes in order, the second covers the first only if they are equal.
later_covers :
    (p q : Prefix)
    → IsMasked p
    → IsPlain p
    → IsPlain q
    → prefix_less p q ≡ false
    → covers_prefix p q ≡ false
    → covers_prefix q p ≡ false
later_covers p q m hp hq ordered free = elim (Bool-cases (covers_prefix q p)) [
  | inl e ↦
      let same = less_neither p q hp hq ordered (covering_first p q m hp hq e) in
      let swapped : covers_prefix p q ≡ covers_prefix q p =
        ap (λ t. covers_prefix t q) same ∙ ap (covers_prefix q) (sym same) in
      ground (arith, swapped, e, free)
  | inr e ↦ e
]

IsMasked-IsPlain : (p : Prefix) → IsMasked p → IsPlain p
IsMasked-IsPlain p m = subst IsPlain m (masked-IsPlain p)

-- No prefix of the list covers another one of it.
abbrev pub IsApart : List Prefix → Type 0
IsApart [] = Unit
IsApart (p ∷ ps) = (any (λ q. covers_prefix p q || covers_prefix q p) ps ≡ false) × IsApart ps

IsApart-add :
    (out : List Prefix) (p : Prefix)
    → IsApart out
    → any (covers_prefix p) out ≡ false
    → any (λ q. covers_prefix q p) out ≡ false
    → IsApart (out ++ (p ∷ []))
IsApart-add [] p h e f = (refl, tt)
IsApart-add (q ∷ out) p (fresh, h) e f =
    let here : (covers_prefix q p || covers_prefix p q) ≡ false = ground (arith, e, f) in
    (
      any-append (λ r. covers_prefix q r || covers_prefix r q) out (p ∷ [])
          ∙ ground (arith, fresh, here),
      IsApart-add out p h (ground (arith, e)) (ground (arith, f)),
    )

-- No element of the one list is behind an element of the other.
abbrev Before : List Prefix → List Prefix → Type 0
Before out ps = All (λ p. any (prefix_less p) out ≡ false) ps

covers_none :
    (p : Prefix) (out : List Prefix)
    → IsMasked p
    → All IsMasked out
    → any (prefix_less p) out ≡ false
    → any (covers_prefix p) out ≡ false
    → any (λ q. covers_prefix q p) out ≡ false
covers_none p [] m ms e f = refl
covers_none p (q ∷ out) m (mq, ms) e f =
    let here : covers_prefix q p ≡ false =
      later_covers p q m (IsMasked-IsPlain p m) (IsMasked-IsPlain q mq) (ground (arith, e))
        (ground (arith, f)) in
    ground (arith, here, covers_none p out m ms (ground (arith, e)) (ground (arith, f)))

Before-add :
    (out : List Prefix) (p : Prefix) (ps : List Prefix)
    → Before out ps
    → any (λ q. prefix_less q p) ps ≡ false
    → Before (out ++ (p ∷ [])) ps
Before-add out p [] h e = tt
Before-add out p (q ∷ ps) (hq, h) e = (
  any-append (prefix_less q) out (p ∷ []) ∙ ground (arith, hq, e),
  Before-add out p ps h (ground (arith, e)),
)

cover_loop-IsApart :
    (ps out : List Prefix)
    → All IsMasked ps
    → All IsMasked out
    → IsSorted ps
    → Before out ps
    → IsApart out
    → IsApart (cover_loop ps out) × All IsMasked (cover_loop ps out)
unfolding cover_loop
cover_loop-IsApart [] out mp mo s b h = (h, mo)
cover_loop-IsApart (p ∷ ps) out (m, mp) mo (least, s) (bp, b) h =
    elim (Bool-cases (any (covers_prefix p) out)) [
      | inl drop ↦ rw drop (cover_loop-IsApart ps out mp mo s b h)
      | inr add ↦ rw add (
          cover_loop-IsApart ps (out ++ (p ∷ [])) mp (All-append IsMasked out (p ∷ []) mo (m, tt)) s
            (Before-add out p ps b least) (IsApart-add out p h add (covers_none p out m mo bp add)))
    ]

Before-nothing : (ps : List Prefix) → Before [] ps
Before-nothing [] = tt
Before-nothing (p ∷ ps) = (refl, Before-nothing ps)

-- removeCovered leaves, of masked prefixes, masked ones of which none covers another.
pub remove_covered-IsApart :
    (ps : List Prefix)
    → All IsMasked ps
    → IsApart (remove_covered ps) × All IsMasked (remove_covered ps)
unfolding remove_covered
remove_covered-IsApart ps m =
    cover_loop-IsApart (sort_prefixes ps) [] (All-sort IsMasked ps m) tt
      (IsSorted-sort ps (All-map IsMasked-IsPlain ps m)) (Before-nothing (sort_prefixes ps)) tt
