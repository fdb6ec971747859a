-- ===== src/Planner/Keys.antt =====
-- routeKey and ruleKey of internal/planner/planner.go: what two routes or rules with one key share.
use route_sync.Base.{◌≡◌, refl, Bool, true, false}
use route_sync.Base.Text.{has_any}
use route_sync.Base.Text.Fields.{
  IsFree, is_bar, cut_bar, show_ℤ_bar, show_ℕ_bar, show_ℤ_injective, show_ℕ_injective,
}
use route_sync.Netip.Text.{NetipText}
use route_sync.Rtnl.{Route, Rule}
use route_sync.Planner.{route_key, rule_key, show_bool}

show_bool_bar : (b : Bool) → IsFree is_bar (show_bool b)
unfolding has_any
show_bool_bar true = refl
show_bool_bar false = refl

show_bool_injective : (a b : Bool) → show_bool a ≡ show_bool b → a ≡ b
unfolding has_any
show_bool_injective true true e = refl
show_bool_injective true false e = cc
show_bool_injective false true e = cc
show_bool_injective false false e = refl

module _ (text : NetipText) where
  -- The fields that netlink holds agree, the addresses as they are printed.
  pub record SameRoute (r q : Route) : Type 0 where
    pub same_table : r.table ≡ q.table
    pub same_protocol : r.protocol ≡ q.protocol
    pub same_type : r.route_type ≡ q.route_type
    pub same_link : r.link_index ≡ q.link_index
    pub same_via : text.addr_string r.via ≡ text.addr_string q.via
    pub same_on_link : r.on_link ≡ q.on_link
    pub same_metric : r.metric ≡ q.metric
    pub same_dst : text.prefix_string r.dst ≡ text.prefix_string q.dst

  pub record SameRule (r q : Rule) : Type 0 where
    pub same_priority : r.priority ≡ q.priority
    pub same_table : r.table ≡ q.table
    pub same_has_mark : r.has_fw_mark ≡ q.has_fw_mark
    pub same_mark : r.fw_mark ≡ q.fw_mark
    pub same_mask : r.mask ≡ q.mask
    pub same_from : text.prefix_string r.from ≡ text.prefix_string q.from

  -- Routes with one key are in one table.
  pub route_key-table : (r q : Route) → route_key text r ≡ route_key text q → r.table ≡ q.table
  unfolding route_key
  route_key-table r q e =
      show_ℤ_injective _ _ (cut_bar _ _ _ _ (show_ℤ_bar r.table) (show_ℤ_bar q.table) e).0

  -- Two routes whose gateways are printed without a bar have one key only if they agree in table,
  -- protocol, type, link, onlink flag and metric, and in the printed gateway and destination.
  pub route_key-SameRoute :
      (r q : Route)
      → IsFree is_bar (text.addr_string r.via)
      → IsFree is_bar (text.addr_string q.via)
      → route_key text r ≡ route_key text q
      → SameRoute r q
  unfolding route_key
  route_key-SameRoute r q h k e =
      let (t, e₁) = cut_bar _ _ _ _ (show_ℤ_bar r.table) (show_ℤ_bar q.table) e in
      let (p, e₂) = cut_bar _ _ _ _ (show_ℤ_bar r.protocol) (show_ℤ_bar q.protocol) e₁ in
      let (y, e₃) = cut_bar _ _ _ _ (show_ℤ_bar r.route_type) (show_ℤ_bar q.route_type) e₂ in
      let (l, e₄) = cut_bar _ _ _ _ (show_ℤ_bar r.link_index) (show_ℤ_bar q.link_index) e₃ in
      let (v, e₅) = cut_bar _ _ _ _ h k e₄ in
      let (o, e₆) = cut_bar _ _ _ _ (show_bool_bar r.on_link) (show_bool_bar q.on_link) e₅ in
      let (m, d) = cut_bar _ _ _ _ (show_ℤ_bar r.metric) (show_ℤ_bar q.metric) e₆ in
      record {
        same_table = show_ℤ_injective _ _ t;
        same_protocol = show_ℤ_injective _ _ p;
        same_type = show_ℤ_injective _ _ y;
        same_link = show_ℤ_injective _ _ l;
        same_via = v;
        same_on_link = show_bool_injective _ _ o;
        same_metric = show_ℤ_injective _ _ m;
        same_dst = d;
      }

  -- Two rules have one key only if they agree in priority, table, mark, mask and whether they have
  -- one, and in the printed source.
  pub rule_key-SameRule : (r q : Rule) → rule_key text r ≡ rule_key text q → SameRule r q
  unfolding rule_key
  rule_key-SameRule r q e =
      let (p, e₁) = cut_bar _ _ _ _ (show_ℤ_bar r.priority) (show_ℤ_bar q.priority) e in
      let (t, e₂) = cut_bar _ _ _ _ (show_ℤ_bar r.table) (show_ℤ_bar q.table) e₁ in
      let (b, e₃) =
        cut_bar _ _ _ _ (show_bool_bar r.has_fw_mark) (show_bool_bar q.has_fw_mark) e₂ in
      let (m, e₄) = cut_bar _ _ _ _ (show_ℕ_bar r.fw_mark) (show_ℕ_bar q.fw_mark) e₃ in
      let (k, f) = cut_bar _ _ _ _ (show_ℕ_bar r.mask) (show_ℕ_bar q.mask) e₄ in
      record {
        same_priority = show_ℤ_injective _ _ p;
        same_table = show_ℤ_injective _ _ t;
        same_has_mark = show_bool_injective _ _ b;
        same_mark = show_ℕ_injective _ _ m;
        same_mask = show_ℕ_injective _ _ k;
        same_from = f;
      }
