-- ===== src/Summarize/Similarity.antt =====
-- How alike two texts are: the shared words of two normalised texts, in percent.
pub mod Laws
use agent_feed.Prelude.{
  Bool, List, [], all, any_eq, as_u8, filter, if◌then◌else◌, is_empty, length, list_eq, list_ord,
  ltb, map, map_or, min, nat_eq, nat_ord, not, option_eq, option_ord, pair_eq, pair_ord, set_extend,
  ℕ, ◌*◌, ◌/◌, ◌==◌, ◌||◌, ◌∷◌,
}
use agent_feed.Text.{
  Str, byte_len, chars, is_ascii_alphanumeric, is_ascii_digit, join, lower_char, split_whitespace,
  strip_suffix,
}

unfoldable pub is_similarity_stopword : Str → Bool
is_similarity_stopword word =
    any_eq
      (chars "a"
        ∷ chars "an"
        ∷ chars "and"
        ∷ chars "agent"
        ∷ chars "claude"
        ∷ chars "codex"
        ∷ chars "detail"
        ∷ chars "feed"
        ∷ chars "for"
        ∷ chars "from"
        ∷ chars "in"
        ∷ chars "local"
        ∷ chars "of"
        ∷ chars "omitted"
        ∷ chars "on"
        ∷ chars "raw"
        ∷ chars "redacted"
        ∷ chars "signal"
        ∷ chars "the"
        ∷ chars "to"
        ∷ chars "with"
        ∷ [])
      word

unfoldable pub normalize_text : Str → Str
normalize_text input =
    join
      (split_whitespace (map (λ c. if is_ascii_alphanumeric c then lower_char c else b' ') input))
      (chars " ")

-- The word without a last `s` where more than three bytes are left.
unfoldable pub similarity_stem : Str → Str
similarity_stem word =
    map_or (strip_suffix word (chars "s")) word λ stem. if ltb 3 (byte_len stem) then stem else word

-- The `BTreeSet` that the words are collected into.
unfoldable pub meaningful_terms : Str → List Str
meaningful_terms input = set_extend [] (
    map similarity_stem (
      filter (λ word. not (all is_ascii_digit word))
        (filter (λ word. not (is_similarity_stopword word))
          (split_whitespace (normalize_text input)))))

-- `BTreeSet::intersection` and `BTreeSet::union`
unfoldable pub shared_terms : List Str → List Str → List Str
shared_terms left right = filter (any_eq right) left

unfoldable pub all_terms : List Str → List Str → List Str
all_terms left right = set_extend left right

unfoldable pub text_similarity : Str → Str → ℕ
text_similarity left right =
    let left_normalized = normalize_text left in
    let right_normalized = normalize_text right in
    if is_empty left_normalized || is_empty right_normalized
    then 0
    else if left_normalized == right_normalized
    then 100
    else let left_terms = meaningful_terms left in
      let right_terms = meaningful_terms right in
      if is_empty left_terms || is_empty right_terms
      then 0
      else as_u8 (
          min
            (length (shared_terms left_terms right_terms)
              * 100
              / length (all_terms left_terms right_terms))
            100)

unfoldable pub headline_similarity : Str → Str → ℕ
headline_similarity left right = text_similarity left right

unfoldable pub headline_fingerprint : Str → Str
headline_fingerprint headline =
    let terms = meaningful_terms headline in
    if is_empty terms then normalize_text headline else join terms (chars ":")
