-- ===== src/Source/Normalize/Laws.antt =====
-- Normalize of internal/source/source.go: addresses and multiplicities.
use route_sync.Base.{
  ℕ, zero, suc, ◌-◌, ◌≤◌, ◌≡◌, ◌≢◌, refl, sym, subst, ◌∙◌, ap, Bool, true, false, ◌||◌, ◌&&◌, List,
  [], ◌∷◌, ◌++◌, arith, any, once, count, count-append, any-append, any_mono, if◌then◌else◌,
  Bool-cases, All, div-pow_base, inl, inr,
}
use route_sync.Netip.Laws.{eqb_prefix_iff}
use route_sync.Netip.{
  Addr, Prefix, ip4, ip6, contains, contains_at, addr_prefix, masked, is_valid, bit_len, eqb_prefix,
}
use route_sync.Source.Sorting.{sort_prefixes, any-sort_prefixes, count-sort_prefixes}
use route_sync.Source.Aggregate.Coverage.{covered, covered-aggregate}
use route_sync.Source.Normalize.{normalize_loop, normalize}

-- What every Prefix of the netip package satisfies: no more bits than its address has.
abbrev pub IsPrefix : Prefix → Type 0
IsPrefix p = p.bits_plus_one ≤ suc (bit_len p.ip)

contains_at-addr_prefix :
    (c : ℕ) (i a : Addr) → c ≤ suc (bit_len i) → contains (addr_prefix i c) a ≡ contains_at c i a
unfolding contains addr_prefix bit_len
contains_at-addr_prefix (suc b) (ip4 n) (ip4 x) h = ground (arith, div-pow_base n (32 - b))
contains_at-addr_prefix (suc b) (ip6 n z) (ip6 x w) h = ground (arith, div-pow_base n (128 - b))
contains_at-addr_prefix _ _ _ h = ground arith

contains_at-valid : (c : ℕ) (i a : Addr) → contains_at c i a ≡ true → c ≢ 0
unfolding contains_at
contains_at-valid zero i a h e = cc
contains_at-valid (suc c) i a h e = omega arith

pub contains-valid : (p : Prefix) (a : Addr) → contains p a ≡ true → is_valid p ≡ true
unfolding contains is_valid
contains-valid p a h = ground (arith, contains_at-valid p.bits_plus_one p.ip a)

pub contains-masked : (p : Prefix) (a : Addr) → IsPrefix p → contains (masked p) a ≡ contains p a
unfolding contains masked
contains-masked p a h = contains_at-addr_prefix p.bits_plus_one p.ip a h

valid-contains :
    (p : Prefix) (a : Addr) → IsPrefix p → (is_valid p && contains (masked p) a) ≡ contains p a
valid-contains p a h = ground (arith, contains-masked p a h, contains-valid p a)

-- A listed prefix that passes a test makes the list pass it.
any-listed :
    (f : Prefix → Bool) (q : Prefix) (ps : List Prefix)
    → any (eqb_prefix q) ps ≡ true
    → f q ≡ true
    → any f ps ≡ true
any-listed f q ps h e =
    any_mono (eqb_prefix q) f (λ x same. subst (λ t. f t ≡ true) ((eqb_prefix_iff q x).0 same) e) ps
      h

-- The loop adds the masked prefixes that are valid and not there yet.
any-normalize_loop :
    (f : Prefix → Bool) (ps valid : List Prefix)
    → any f (normalize_loop ps valid) ≡ (any f valid || any (λ p. is_valid p && f (masked p)) ps)
unfolding normalize_loop
any-normalize_loop f [] valid = ground arith
any-normalize_loop f (p ∷ ps) valid = elim (Bool-cases (is_valid p)) [
  | inr invalid ↦ rw invalid (any-normalize_loop f ps valid)
  | inl fine ↦ elim (Bool-cases (any (eqb_prefix (masked p)) valid)) [
    | inl old ↦
        rw (fine, old)
          (ground (arith, any-normalize_loop f ps valid, any-listed f (masked p) valid old))
    | inr new ↦
        rw (fine, new)
          (ground (
            arith,
            any-normalize_loop f ps (valid ++ (masked p ∷ [])),
            any-append f valid (masked p ∷ []),
          ))
  ]
]

covered_by_valid :
    (ps : List Prefix) (a : Addr)
    → All IsPrefix ps
    → any (λ p. is_valid p && contains (masked p) a) ps ≡ covered ps a
covered_by_valid [] a h = refl
covered_by_valid (p ∷ ps) a (fits, h) =
    ground (arith, valid-contains p a fits, covered_by_valid ps a h)

-- For prefixes with no more bits than their addresses have, as all of netip's are, and for every
-- address: some prefix of Normalize's result contains it exactly if some prefix of its argument
-- does, with aggregation and without.
pub covered-normalize :
    (ps : List Prefix) (aggregated : Bool) (a : Addr)
    → All IsPrefix ps
    → covered (normalize ps aggregated) a ≡ covered ps a
unfolding normalize
covered-normalize ps aggregated a h =
    let plain : covered (sort_prefixes (normalize_loop ps [])) a ≡ covered ps a =
      any-sort_prefixes (λ p. contains p a) (normalize_loop ps [])
      ∙ any-normalize_loop (λ p. contains p a) ps []
      ∙ covered_by_valid ps a h in
    ground (arith, plain, covered-aggregate (sort_prefixes (normalize_loop ps [])) a)

-- A list with no prefix twice, as counted by each prefix.
abbrev pub IsOnce : List Prefix → Type 0
IsOnce ps = (q : Prefix) → count (eqb_prefix q) ps ≡ once (any (eqb_prefix q) ps)

IsOnce-add :
    (p : Prefix) (ps : List Prefix)
    → any (eqb_prefix p) ps ≡ false
    → IsOnce ps
    → IsOnce (ps ++ (p ∷ []))
IsOnce-add p ps new h q =
    let absent = λ (same : eqb_prefix q p ≡ true).
      subst (λ t. any (eqb_prefix t) ps ≡ false) (sym ((eqb_prefix_iff q p).0 same)) new in
    ground (
      arith,
      h q,
      count-append (eqb_prefix q) ps (p ∷ []),
      any-append (eqb_prefix q) ps (p ∷ []),
      absent,
    )

pub normalize_loop-IsOnce :
    (ps valid : List Prefix) → IsOnce valid → IsOnce (normalize_loop ps valid)
unfolding normalize_loop
normalize_loop-IsOnce [] valid h = h
normalize_loop-IsOnce (p ∷ ps) valid h = elim (Bool-cases (is_valid p)) [
  | inr invalid ↦ rw invalid (normalize_loop-IsOnce ps valid h)
  | inl fine ↦ elim (Bool-cases (any (eqb_prefix (masked p)) valid)) [
    | inl old ↦ rw (fine, old) (normalize_loop-IsOnce ps valid h)
    | inr new ↦ rw (fine, new) (normalize_loop-IsOnce ps _ (IsOnce-add (masked p) valid new h))
  ]
]

pub count-normalize_loop :
    (ps : List Prefix) (q : Prefix)
    → count (eqb_prefix q) (normalize_loop ps [])
      ≡ once (any (λ p. is_valid p && eqb_prefix q (masked p)) ps)
count-normalize_loop ps q =
    normalize_loop-IsOnce ps [] (λ t. refl) q ∙ ap once (any-normalize_loop (eqb_prefix q) ps [])

-- Without aggregation Normalize returns each prefix once, and exactly those that are the masked
-- form of a valid prefix of its argument.
pub count-normalize :
    (ps : List Prefix) (q : Prefix)
    → count (eqb_prefix q) (normalize ps false)
      ≡ (if any (λ p. is_valid p && eqb_prefix q (masked p)) ps then 1 else 0)
unfolding normalize
count-normalize ps q =
    count-sort_prefixes (eqb_prefix q) (normalize_loop ps []) ∙ count-normalize_loop ps q
