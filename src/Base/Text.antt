-- ===== src/Base/Text.antt =====
-- What the program uses of Go's strings package, over native texts.
pub mod Fields
use Prim.Native.Char.{code}
use Prim.Native.String.{[], ◌∷◌}
use mathlib.Core.List.{List}
use route_sync.Base.{
  ◌+◌, once, false, ℕ, String, ◌<>◌, Bool, ◌&&◌, ◌||◌, leb, ◌==◌, str_eq, if◌then◌else◌,
}

-- unicode.IsSpace
unfoldable pub is_space : ℕ → Bool
is_space c =
    (leb 9 c && leb c 13)
    || c == 32
    || c == 0x85
    || c == 0xa0
    || c == 0x1680
    || (leb 0x2000 c && leb c 0x200a)
    || c == 0x2028
    || c == 0x2029
    || c == 0x202f
    || c == 0x205f
    || c == 0x3000

unfoldable pub trim_left : String → String
unfolding is_space
trim_left [] = ""
trim_left (c ∷ s) = let rest = trim_left s in if is_space (code c) then rest else c ∷ s

unfoldable pub trim_right : String → String
unfolding is_space
trim_right [] = ""
trim_right (c ∷ s) =
    let rest = trim_right s in if str_eq rest "" && is_space (code c) then "" else c ∷ rest

-- strings.TrimSpace
unfoldable pub trim_space : String → String
unfolding trim_left trim_right
trim_space s = trim_right (trim_left s)

-- strings.Join
unfoldable pub join : String → List String → String
join sep List.[] = ""
join sep (List.◌∷◌ s List.[]) = s
join sep (List.◌∷◌ s (List.◌∷◌ t ts)) = s <> (sep <> join sep (List.◌∷◌ t ts))

-- strings.HasPrefix, for a prefix of one character that passes the test
unfoldable pub starts_with : (ℕ → Bool) → String → Bool
starts_with test [] = false
starts_with test (c ∷ s) = test (code c)

-- strings.IndexAny with a result that is not -1, for the characters that pass the test
unfoldable pub has_any : (ℕ → Bool) → String → Bool
has_any test [] = false
has_any test (c ∷ s) = test (code c) || has_any test s

-- The text before the first character that passes the test.
unfoldable pub before_any : (ℕ → Bool) → String → String
before_any test [] = ""
before_any test (c ∷ s) = let rest = before_any test s in if test (code c) then "" else c ∷ rest

-- How many characters pass the test.
unfoldable pub count_any : (ℕ → Bool) → String → ℕ
count_any test [] = 0
count_any test (c ∷ s) = once (test (code c)) + count_any test s
