-- ===== src/Planner/Exclusion.antt =====
-- exclude_local_ips in Build of internal/planner/planner.go.
use route_sync.Base.{
  ℕ, suc, ◌≡◌, refl, ◌∙◌, ap, subst, subst₂, String, Bool, true, false, not, ◌&&◌, ◌||◌, List, [],
  ◌∷◌, arith, any, any_mono, any-keep, keep, str_eq, eqb_bool, Bool-cases, inl, inr,
}
use route_sync.Netip.{Addr, Prefix, ip4, ip6, is4, is6, contains, contains_at, eqb_addr}
use route_sync.Netip.Laws.{eqb_addr_iff}
use route_sync.Source.Sorting.{filter_family, matches_family}
use route_sync.Source.Aggregate.Coverage.{covered}
use route_sync.Planner.{
  InputGroup, covers_addr, remove_prefixes_covering_addrs, filter_addrs_by_family, target_prefixes,
}

contains_at-family :
    (c : ℕ) (i a : Addr) → contains_at c i a ≡ true → (is4 i ≡ is4 a) × (is6 i ≡ is6 a)
unfolding contains_at is4 is6
contains_at-family (suc b) (ip4 n) (ip4 m) h = (refl, refl)
contains_at-family (suc b) (ip6 n z) (ip6 m w) h = (refl, refl)
contains_at-family _ _ _ h = cc

-- A prefix contains addresses of its own family only.
pub contains-family :
    (p : Prefix) (a : Addr) → contains p a ≡ true → (is4 p.ip ≡ is4 a) × (is6 p.ip ≡ is6 a)
unfolding contains
contains-family p a h = contains_at-family p.bits_plus_one p.ip a h

abbrev covering : Prefix → Addr → Bool
covering p a = eqb_bool (is4 p.ip) (is4 a) && contains p a

listed_covers :
    (q : Addr → Bool) (p : Prefix) (a : Addr) (addrs : List Addr)
    → any (eqb_addr a) addrs ≡ true
    → q a ≡ true
    → contains p a ≡ true
    → covers_addr (keep q addrs) p ≡ true
unfolding covers_addr
listed_covers q p a addrs listed e h =
    any-keep (covering p) q addrs
    ∙ any_mono (eqb_addr a) (λ b. q b && covering p b)
        (λ b same.
          subst (λ t. (q t && covering p t) ≡ true) ((eqb_addr_iff a b).0 same)
            (ground (arith, contains-family p a h)))
        addrs listed

any-false {ℓ} :
    {A : Type ℓ} (f : A → Bool) → ((x : A) → f x ≡ false) → (xs : List A) → any f xs ≡ false
any-false f h [] = refl
any-false f h (x ∷ xs) = ground (arith, h x, any-false f h xs)

keep-all {ℓ} : {A : Type ℓ} (xs : List A) → keep (λ x. true) xs ≡ xs
keep-all [] = refl
keep-all (x ∷ xs) = ap (λ t. x ∷ t) (keep-all xs)

-- Filters m on the prefixes and q on the addresses, where q passes what a prefix that passes m
-- contains: no prefix is left that contains a listed address.
excludes_listed :
    (m : Prefix → Bool) (q : Addr → Bool) (addrs : List Addr) (ps : List Prefix) (a : Addr)
    → any (eqb_addr a) addrs ≡ true
    → ((p : Prefix) → m p ≡ true → contains p a ≡ true → q a ≡ true)
    → covered (remove_prefixes_covering_addrs (keep m ps) (keep q addrs)) a ≡ false
unfolding remove_prefixes_covering_addrs
excludes_listed m q addrs ps a listed passes =
    any-keep (λ p. contains p a) (λ p. not (covers_addr (keep q addrs) p)) (keep m ps)
    ∙ any-keep _ m ps
    ∙ any-false _ (λ p. alone p (passes p) (listed_covers q p a addrs listed)) ps
  where
    alone :
        (p : Prefix)
        → (m p ≡ true → contains p a ≡ true → q a ≡ true)
        → (q a ≡ true → contains p a ≡ true → covers_addr (keep q addrs) p ≡ true)
        → (m p && (not (covers_addr (keep q addrs) p) && contains p a)) ≡ false
    alone p h k = ground arith

family_passes :
    (family : String) (p : Prefix) (a : Addr)
    → matches_family family p ≡ true
    → contains p a ≡ true
    → ((str_eq family "ipv4" && is4 a) || (str_eq family "ipv6" && is6 a)) ≡ true
unfolding matches_family
family_passes family p a h e = ground (arith, contains-family p a e)

-- Whatever the family: no prefix that Build makes a target route of contains an address that is
-- to be excluded.
pub covered-target_prefixes :
    (g : InputGroup) (family : String) (a : Addr)
    → any (eqb_addr a) g.covered_local_addrs ≡ true
    → covered (target_prefixes g family) a ≡ false
unfolding target_prefixes filter_family filter_addrs_by_family
covered-target_prefixes g family a listed =
    elim (Bool-cases (str_eq family "" || str_eq family "dual")) [
      | inl both ↦ rw both (
          subst₂ (λ ps addrs. covered (remove_prefixes_covering_addrs ps addrs) a ≡ false)
            (keep-all g.prefixes) (keep-all g.covered_local_addrs)
            (excludes_listed (λ p. true) (λ b. true) g.covered_local_addrs g.prefixes a listed
              (λ p m c. refl)))
      | inr one ↦ rw one (
          excludes_listed (matches_family family) _ g.covered_local_addrs g.prefixes a listed
            (λ p. family_passes family p a))
    ]
