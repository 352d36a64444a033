-- ===== src/Text/Split.antt =====
-- Splitting and joining.
use agent_feed.Prelude.{
  Bool, List, Option, [], filter, if◌then◌else◌, is_empty, length, list_eq, map, map_option, nat_eq,
  none, not, option_eq, pair_eq, some, suc, zero, ℕ, ◌++◌, ◌-◌, ◌==◌, ◌∷◌,
}
use agent_feed.Text.Chars.{Str, is_whitespace}
use agent_feed.Text.Search.{starts_with}

abbrev push_head : ℕ → List Str → List Str
push_head c [] = (c ∷ []) ∷ []
push_head c (w ∷ ws) = (c ∷ w) ∷ ws

-- `split` at each character that passes the test: one part more than there are such characters.
unfoldable pub split_by : (ℕ → Bool) → Str → List Str
split_by p [] = [] ∷ []
split_by p (c ∷ s) = let rest = split_by p s in if p c then [] ∷ rest else push_head c rest

unfoldable pub split_on : ℕ → Str → List Str
unfolding split_by
split_on sep s = split_by (λ c. c == sep) s

unfoldable pub split_whitespace : Str → List Str
unfolding split_by is_whitespace
split_whitespace s = filter (λ w. not (is_empty w)) (split_by is_whitespace s)

abbrev drop_last_empty : List Str → List Str
drop_last_empty [] = []
drop_last_empty ([] ∷ []) = []
drop_last_empty (w ∷ ws) = w ∷ drop_last_empty ws

-- `split_terminator`: no empty part after the last separator.
unfoldable pub split_terminator : (ℕ → Bool) → Str → List Str
unfolding split_by
split_terminator p s = drop_last_empty (split_by p s)

unfoldable pub split_once : ℕ → Str → Option (Str × Str)
split_once sep [] = none
split_once sep (c ∷ s) =
    let rest = map_option (λ (p : Str × Str). (c ∷ p.0, p.1)) (split_once sep s) in
    if c == sep then some ([], s) else rest

unfoldable pub join : List Str → Str → Str
join [] sep = []
join (w ∷ []) sep = w
join (w ∷ v ∷ ws) sep = w ++ sep ++ join (v ∷ ws) sep

-- `replace` of one character by another
unfoldable pub replace_char : ℕ → ℕ → Str → Str
replace_char from to s = map (λ c. if c == from then to else c) s

-- `replace` of a string that is not empty: the places where it stands, from the left and apart.
-- The second number counts the characters of a place that are still to be passed.
unfoldable pub replace_from : Str → Str → ℕ → Str → Str
unfolding starts_with
replace_from from to skip [] = []
replace_from from to (suc skip) (c ∷ s) = replace_from from to skip s
replace_from from to zero (c ∷ s) =
    let here = starts_with (c ∷ s) from in
    let rest = replace_from from to (if here then length from - 1 else 0) s in
    if here then to ++ rest else c ∷ rest

unfoldable pub replace_text : Str → Str → Str → Str
unfolding replace_from
replace_text from to s = replace_from from to 0 s
