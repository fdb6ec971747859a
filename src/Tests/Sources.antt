-- ===== src/Tests/Sources.antt =====
-- Normalize and Aggregate on the two halves of 192.0.2.0/24, and the stored state of a group.
use route_sync.Base.{All, ℕ, ◌≡◌, refl, true, some, List, [], ◌∷◌, ◌≤◌, suc, arith}
use route_sync.Base.Result.{ok}
use route_sync.Netip.{Addr, Prefix, ip4, bit_len, eqb_prefix, masked}
use route_sync.Source.Aggregate.{aggregate_loop, aggregate_round}
use route_sync.Source.Aggregate.Coverage.{covered}
use route_sync.Source.Aggregate.Termination.{aggregate_loop_exits}
use route_sync.Source.Normalize.{normalize}
use route_sync.Source.Normalize.Laws.{covered-normalize}
use route_sync.State.{GroupState, save_group, load_group}
use route_sync.State.RoundTrip.{load_group-save_group}
use route_sync.Base.Text.{trim_space, is_space, starts_with, has_any, before_any}
use route_sync.State.{parse_prefixes}
use route_sync.Source.Parsers.{is_mark, parse_txt, parse_ripe}
use route_sync.Source.Parsers.Masked.{IsMasked, parsed-IsMasked}
use route_sync.Tests.Machine.{
  Machine, net_text, files, files-IsFileSystem, empty_machine, first_half, second_half, whole_net,
}

abbrev halves : List Prefix
halves = second_half ∷ first_half ∷ []

-- 192.0.2.200
abbrev inside : Addr
inside = ip4 3_221_226_184

fits : (n : ℕ) → 26 ≤ suc (bit_len (ip4 n))
unfolding bit_len
fits n = omega arith

covered-normalize_example : covered (normalize halves true) inside ≡ covered halves inside
covered-normalize_example =
    covered-normalize halves true inside (fits 3_221_226_112, (fits 3_221_225_984, tt))

aggregate_loop_exits_example :
    (last : List Prefix) × ((aggregate_round last).1 ≡ true)
    × (aggregate_loop 3 halves ≡ (aggregate_round last).0)
aggregate_loop_exits_example = aggregate_loop_exits 3 halves (omega arith)

abbrev saved : Machine
saved = record empty_machine { file = some ("/state/zone.json", "192.0.2.0/24") }

saved_run :
    save_group files net_text "/state" "zone" "txt" (whole_net ∷ []) empty_machine ≡ (ok tt, saved)
unfolding save_group eqb_prefix
saved_run = refl

load_group-save_group_example :
    (st : GroupState) × (load_group files net_text "/state" "zone" saved
      ≡ (ok (whole_net ∷ [], st), saved))
    × (st.group ≡ "zone")
    × (st.source_type ≡ "txt")
unfolding masked eqb_prefix
load_group-save_group_example =
    load_group-save_group files files-IsFileSystem net_text "/state" "zone" "txt" (whole_net ∷ [])
      empty_machine saved ((refl, refl), tt) saved_run

parsed-IsMasked_example :
    All IsMasked (parse_txt net_text ("192.0.2.0/24 # all" ∷ "; none" ∷ []))
    × All IsMasked (parse_ripe net_text ("192.0.2.0/25" ∷ []) [])
    × All IsMasked (parse_prefixes net_text ("192.0.2.0/24" ∷ []))
parsed-IsMasked_example =
    parsed-IsMasked net_text ("192.0.2.0/24 # all" ∷ "; none" ∷ []) ("192.0.2.0/25" ∷ []) []
      ("192.0.2.0/24" ∷ [])

-- The comment is cut off and the prefix before it is found.
comment_cut : parse_txt net_text ("192.0.2.0/24 # all" ∷ "; none" ∷ []) ≡ whole_net ∷ []
unfolding parse_txt is_mark trim_space starts_with has_any before_any is_space masked
comment_cut = refl
