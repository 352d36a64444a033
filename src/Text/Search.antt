-- ===== src/Text/Search.antt =====
-- Prefixes, suffixes, substrings and trimming.
use mathlib.Core.List.{reverse}
use agent_feed.Prelude.{
  Bool, List, Option, [], any, if◌then◌else◌, is_some, list_eq, map_option, nat_eq, none, option_eq,
  pair_eq, some, ℕ, ◌==◌, ◌||◌, ◌∷◌,
}
use agent_feed.Text.Chars.{Str, is_whitespace}

unfoldable pub strip_prefix : Str → Str → Option Str
strip_prefix s [] = some s
strip_prefix [] (p ∷ ps) = none
strip_prefix (c ∷ s) (p ∷ ps) = let rest = strip_prefix s ps in if c == p then rest else none

unfoldable pub starts_with : Str → Str → Bool
unfolding strip_prefix
starts_with s p = is_some (strip_prefix s p)

unfoldable pub ends_with : Str → Str → Bool
unfolding starts_with
ends_with s p = starts_with (reverse s) (reverse p)

-- `str::contains` of a string
unfoldable pub contains : Str → Str → Bool
unfolding starts_with
contains [] needle = starts_with [] needle
contains (c ∷ s) needle = starts_with (c ∷ s) needle || contains s needle

-- `needles.iter().any(|needle| s.contains(needle))`
unfoldable pub contains_any : Str → List Str → Bool
unfolding contains
contains_any s needles = any (contains s) needles

-- `trim_start_matches` of a test
unfoldable pub drop_while : (ℕ → Bool) → Str → Str
drop_while p [] = []
drop_while p (c ∷ s) = let rest = drop_while p s in if p c then rest else c ∷ s

unfoldable pub drop_while_end : (ℕ → Bool) → Str → Str
unfolding drop_while
drop_while_end p s = reverse (drop_while p (reverse s))

unfoldable pub trim_start : Str → Str
unfolding drop_while is_whitespace
trim_start s = drop_while is_whitespace s

unfoldable pub trim : Str → Str
unfolding drop_while drop_while_end is_whitespace
trim s = drop_while_end is_whitespace (drop_while is_whitespace s)

unfoldable pub strip_suffix : Str → Str → Option Str
unfolding strip_prefix
strip_suffix s p = map_option reverse (strip_prefix (reverse s) (reverse p))
