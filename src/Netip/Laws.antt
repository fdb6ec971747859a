-- ===== src/Netip/Laws.antt =====
-- Laws of the netip operations that the aggregation and the planner rest on.
use route_sync.Base.{ℕ, suc, ◌-◌, ◌≡◌, refl, subst, ◌↔◌, true, arith, str_eq_iff, div-pow_mono, ◌≤◌}
use route_sync.Base.Int.{leb_ℤ}
use route_sync.Netip.{
  Addr, Prefix, zero_addr, ip4, ip6, contains_at, contains, bits, eqb_prefix, eqb_addr, same_bits,
}

same_bits_le :
    (w b c n m x : ℕ)
    → c ≤ b
    → same_bits w c m n ≡ true
    → same_bits w b n x ≡ true
    → same_bits w c m x ≡ true
same_bits_le w b c n m x le e f = ground (arith, div-pow_mono n x (w - b) (w - c))

contains_at_trans :
    (c b : ℕ) (m n x : Addr)
    → c ≤ b
    → contains_at c m n ≡ true
    → contains_at b n x ≡ true
    → contains_at c m x ≡ true
unfolding contains_at
contains_at_trans (suc c) (suc b) (ip4 m) (ip4 n) (ip4 x) le e f =
    same_bits_le 32 b c n m x (omega arith) e f
contains_at_trans (suc c) (suc b) (ip6 m _) (ip6 n _) (ip6 x w) le e f =
    ground (arith, same_bits_le 128 b c n m x)
contains_at_trans _ _ _ _ _ le e f = ground arith

-- What a prefix covers is covered by every prefix that covers its address and is no longer.
pub contains_trans :
    (q p : Prefix) (a : Addr)
    → leb_ℤ (bits q) (bits p) ≡ true
    → contains q p.ip ≡ true
    → contains p a ≡ true
    → contains q a ≡ true
unfolding contains bits
contains_trans q p a le e f =
    contains_at_trans q.bits_plus_one p.bits_plus_one q.ip p.ip a (ground arith) e f

eq_of_eqb_addr : (a b : Addr) → eqb_addr a b ≡ true → a ≡ b
unfolding eqb_addr
eq_of_eqb_addr zero_addr zero_addr h = refl
eq_of_eqb_addr (ip4 n) (ip4 m) h = ground arith
eq_of_eqb_addr (ip6 n z) (ip6 m w) h = ground (arith, str_eq_iff z w)
eq_of_eqb_addr _ _ h = cc

eqb_addr_refl : (a : Addr) → eqb_addr a a ≡ true
unfolding eqb_addr
eqb_addr_refl zero_addr = refl
eqb_addr_refl (ip4 n) = ground arith
eqb_addr_refl (ip6 n z) = ground (arith, str_eq_iff z z)

-- `==` on addresses decides equality.
pub eqb_addr_iff : (a b : Addr) → (eqb_addr a b ≡ true) ↔ (a ≡ b)
eqb_addr_iff a b = (eq_of_eqb_addr a b, λ e. subst (λ t. eqb_addr a t ≡ true) e (eqb_addr_refl a))

-- `==` on prefixes decides equality.
pub eqb_prefix_iff : (p q : Prefix) → (eqb_prefix p q ≡ true) ↔ (p ≡ q)
unfolding eqb_prefix
eqb_prefix_iff p q = (
  λ h. ground (arith, eq_of_eqb_addr p.ip q.ip),
  λ e. rw (← e) (ground (arith, eqb_addr_refl p.ip)),
)
