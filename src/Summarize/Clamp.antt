-- ===== src/Summarize/Clamp.antt =====
-- The clamping and the masking of a text, and the tags of projects.
pub mod Laws
use agent_feed.Highlight.{lower_third}
use agent_feed.Prelude.{
  Bool, List, Option, [], all, and_then, any, filter, filter_map, if◌then◌else◌, is_empty, leb,
  length, list_eq, list_ord, ltb, map, map_or, min, nat_eq, nat_ord, none, not, option_eq,
  option_ord, pair_eq, pair_ord, replicate, set_extend, some, take, ℕ, ◌&&◌, ◌++◌, ◌-◌, ◌/◌, ◌==◌,
  ◌||◌, ◌∷◌,
}
use agent_feed.Story.Keys.{family_debug}
use agent_feed.Story.Types.{CompiledStory, StoryFamily}
use agent_feed.Text.{
  Str, byte_len, chars, contains, contains_any, decimal, drop_while, drop_while_end, ends_with,
  eq_ignore_ascii_case, is_ascii_alphanumeric, is_whitespace, join, replace_text, split_on,
  starts_with, to_ascii_lowercase, trim,
}

unfoldable pub is_clamp_end : ℕ → Bool
is_clamp_end c = is_whitespace c || c == b',' || c == b';' || c == b':' || c == b'-'

-- The byte offset and the text before the last white space of a text.
unfoldable pub last_whitespace : Str → Option Str
last_whitespace [] = none
last_whitespace (c ∷ s) =
    let rest = last_whitespace s in
    map_or rest (if is_whitespace c then some [] else none) (λ before. some (c ∷ before))

unfoldable pub clamp_chars : Str → ℕ → Str
clamp_chars input max_chars =
    if leb (length input) max_chars
    then input
    else if leb max_chars 3
    then replicate max_chars b'.'
    else let output = take (max_chars - 3) input in
      let cut =
        map_or (last_whitespace output) output
          λ before. if leb ((max_chars - 3) / 2) (byte_len before) then before else output in
      drop_while_end is_clamp_end cut ++ chars "..."

unfoldable pub mask_command_like_terms : Str → Str
mask_command_like_terms input = replace_text (chars "git ") (chars "vcs command ") (
    replace_text (chars "cargo ") (chars "test command ")
      (replace_text (chars "/usr/bin/zsh") (chars "shell command") input))

abbrev sensitive_needles : List Str
sensitive_needles =
    chars "sk-"
    ∷ chars "ghp_"
    ∷ chars "gho_"
    ∷ chars "ghu_"
    ∷ chars "ghs_"
    ∷ chars "ghr_"
    ∷ chars "akia"
    ∷ chars "-----begin"
    ∷ chars "/home/"
    ∷ chars ".env"
    ∷ chars "password"
    ∷ chars "credential"
    ∷ chars "secret"
    ∷ chars "private-key"
    ∷ chars "api_key"
    ∷ chars "api-key"
    ∷ chars "token="
    ∷ []

unfoldable pub looks_sensitive : Str → Bool
looks_sensitive value =
    contains_any (to_ascii_lowercase value) sensitive_needles
    || contains value (chars "@") && contains value (chars ".")

unfoldable pub normalize_chip_label : Str → Str
normalize_chip_label value =
    map (λ c. if c == b' ' || c == b'.' then b'_' else c) (to_ascii_lowercase (trim value))

unfoldable pub is_agent_harness_label : Str → Bool
is_agent_harness_label value =
    let key = normalize_chip_label value in
    key == chars "codex"
    || key == chars "claude"
    || starts_with key (chars "codex_")
    || starts_with key (chars "codex-")
    || starts_with key (chars "claude_")
    || starts_with key (chars "claude-")

-- `trim_matches` of a test
unfoldable pub trim_matches : (ℕ → Bool) → Str → Str
trim_matches p s = drop_while_end p (drop_while p s)

abbrev secret_words : List Str
secret_words =
    chars "secret"
    ∷ chars "secrets"
    ∷ chars "private"
    ∷ chars "token"
    ∷ chars "tokens"
    ∷ chars "credential"
    ∷ chars "credentials"
    ∷ chars "password"
    ∷ chars "passwd"
    ∷ chars "key"
    ∷ chars "keys"
    ∷ []

unfoldable pub is_tag_char : ℕ → Bool
is_tag_char c = is_ascii_alphanumeric c || c == b'_' || c == b'-' || c == b'.'

unfoldable pub public_project_tag : Str → Option Str
public_project_tag project =
    let project =
      trim_matches (λ c. c == b'.' || c == b',' || c == b';' || c == b':') (trim project) in
    if ltb (byte_len project) 2 || ltb 40 (byte_len project)
    then none
    else if contains project (chars "/")
        || contains project (chars "\\")
        || ends_with project (chars ".rs")
    then none
    else if not (all is_tag_char project)
    then none
    else if contains_any (to_ascii_lowercase project) secret_words
    then none
    else some project

-- `filter_map`, then the `BTreeSet`
unfoldable pub tags_of : List (Option Str) → List Str
tags_of projects =
    set_extend [] (filter_map (λ project. and_then project public_project_tag) projects)

unfoldable pub project_tags_for_stories : List CompiledStory → Bool → List Str
project_tags_for_stories stories allow_project_tags =
    if not allow_project_tags
    then []
    else tags_of (map (λ (story : CompiledStory). story.project) stories)

unfoldable pub project_chips : List Str → ℕ → List Str
project_chips project_tags max_chips =
    if max_chips == 0 || is_empty project_tags
    then []
    else if leb (length project_tags) 3
    then take max_chips project_tags
    else let chips = take (min (max_chips - 1) 2) project_tags in
      if ltb (length chips) max_chips
      then chips ++ (decimal (length project_tags) ++ chars " projects") ∷ []
      else chips

unfoldable pub prepend_project_to_lower_third : Str → Str → Str
prepend_project_to_lower_third lower_third project =
    let lower = trim lower_third in
    if any (λ part. eq_ignore_ascii_case part project) (map trim (split_on 0xB7 lower))
    then lower
    else if is_empty lower
    then project
    else project ++ chars " · " ++ lower

unfoldable pub remove_project_placeholder_segments : Str → Str
remove_project_placeholder_segments value =
    let cleaned =
      join
        (filter (λ part. not (eq_ignore_ascii_case part (chars "[project]")))
          (map trim (split_on 0xB7 value)))
        (chars " · ") in
    if is_empty cleaned && eq_ignore_ascii_case (trim value) (chars "[project]")
    then []
    else cleaned

unfoldable pub strict_lower_third : Str → Option Str → StoryFamily → ℕ → Str
strict_lower_third agent project family score =
    let rest =
      agent
      ++ chars " · "
      ++ family_debug family
      ++ chars " · score "
      ++ decimal score
      ++ chars " · redacted" in
    map_or (and_then project public_project_tag) rest (λ tag. tag ++ chars " · " ++ rest)

-- `summary_family`, of the families of the stories
unfoldable pub summary_family : List CompiledStory → StoryFamily
summary_family (story ∷ []) = story.family
summary_family _ = StoryFamily.idle_recap
