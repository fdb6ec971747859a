-- ===== src/Source/Sorting.antt =====
-- FilterFamily and sortPrefixes of internal/source/source.go.
pub mod Commutes
pub mod Sorted
pub mod Unordered
use route_sync.Base.{
  suc, String, Bool, true, false, ◌&&◌, ◌||◌, List, [], ◌∷◌, str_eq, if◌then◌else◌, any, count,
  length, keep, ◌≡◌, refl, arith, ◌∙◌, ap,
}
use route_sync.Base.Int.{ltb_ℤ}
use route_sync.Netip.{Prefix, is4, is6, less, bits}

-- The two tests of the loop body; no family passes both.
unfoldable pub matches_family : String → Prefix → Bool
matches_family family p = (str_eq family "ipv4" && is4 p.ip) || (str_eq family "ipv6" && is6 p.ip)

-- FilterFamily
unfoldable pub filter_family : List Prefix → String → List Prefix
unfolding matches_family
filter_family prefixes family =
    if str_eq family "" || str_eq family "dual"
    then prefixes
    else keep (matches_family family) prefixes

-- The comparison that sortPrefixes hands to sort.Slice.
unfoldable pub prefix_less : Prefix → Prefix → Bool
prefix_less a b =
    if less a.ip b.ip then true else if less b.ip a.ip then false else ltb_ℤ (bits a) (bits b)

unfoldable pub insert_prefix : Prefix → List Prefix → List Prefix
insert_prefix p [] = p ∷ []
insert_prefix p (q ∷ qs) = if prefix_less q p then q ∷ insert_prefix p qs else p ∷ q ∷ qs

-- sortPrefixes. sort.Slice leaves the order of equal elements open, and here equal elements are
-- equal prefixes, so that every sort gives this list.
unfoldable pub sort_prefixes : List Prefix → List Prefix
unfolding insert_prefix
sort_prefixes [] = []
sort_prefixes (p ∷ ps) = insert_prefix p (sort_prefixes ps)

pub any-insert_prefix :
    (f : Prefix → Bool) (p : Prefix) (qs : List Prefix)
    → any f (insert_prefix p qs) ≡ (f p || any f qs)
unfolding insert_prefix
any-insert_prefix f p [] = refl
any-insert_prefix f p (q ∷ qs) = ground (arith, any-insert_prefix f p qs)

-- Sorting changes neither which elements there are nor how many.
pub any-sort_prefixes : (f : Prefix → Bool) (ps : List Prefix) → any f (sort_prefixes ps) ≡ any f ps
unfolding sort_prefixes
any-sort_prefixes f [] = refl
any-sort_prefixes f (p ∷ ps) =
    any-insert_prefix f p (sort_prefixes ps) ∙ ap (λ t. f p || t) (any-sort_prefixes f ps)

length-insert_prefix :
    (p : Prefix) (qs : List Prefix) → length (insert_prefix p qs) ≡ suc (length qs)
unfolding insert_prefix
length-insert_prefix p [] = refl
length-insert_prefix p (q ∷ qs) = ground (arith, length-insert_prefix p qs)

pub length-sort_prefixes : (ps : List Prefix) → length (sort_prefixes ps) ≡ length ps
unfolding sort_prefixes
length-sort_prefixes [] = refl
length-sort_prefixes (p ∷ ps) =
    length-insert_prefix p (sort_prefixes ps) ∙ ap suc (length-sort_prefixes ps)

count-insert_prefix :
    (f : Prefix → Bool) (p : Prefix) (qs : List Prefix)
    → count f (insert_prefix p qs) ≡ count f (p ∷ qs)
unfolding insert_prefix
count-insert_prefix f p [] = refl
count-insert_prefix f p (q ∷ qs) = ground (arith, count-insert_prefix f p qs)

pub count-sort_prefixes :
    (f : Prefix → Bool) (ps : List Prefix) → count f (sort_prefixes ps) ≡ count f ps
unfolding sort_prefixes
count-sort_prefixes f [] = refl
count-sort_prefixes f (p ∷ ps) =
    ground (arith, count-insert_prefix f p (sort_prefixes ps), count-sort_prefixes f ps)
