-- ===== src/Story/Copy/Sentences.antt =====
-- Sentences of a summary: what may be shown, and the headline made of it.
use agent_feed.Highlight.{clamp_words}
use agent_feed.Prelude.{
  Bool, List, Option, [], any_eq, drop, find, if◌then◌else◌, is_empty, length, list_eq, map, nat_eq,
  none, not, option_eq, pair_eq, some, take, unwrap_or, ℕ, ◌&&◌, ◌++◌, ◌==◌, ◌||◌, ◌∷◌,
}
use agent_feed.Story.Summaries.{
  normalized_story_text, project_is_public_signal, publishable_agent_summary_for_project,
  summary_is_operator_chatter,
}
use agent_feed.Text.{
  Str, Unicode, chars, contains, contains_any, drop_while, drop_while_end, join, replace_char,
  split_terminator, split_whitespace, starts_with, strip_prefix, to_ascii_lowercase, trim,
  trim_start,
}

abbrev is_stop : ℕ → Bool
is_stop c = c == b'.' || c == b'!' || c == b'?'

abbrev vacuous_words : List Str
vacuous_words =
    chars "done"
    ∷ chars "ok"
    ∷ chars "okay"
    ∷ chars "fixed"
    ∷ chars "complete"
    ∷ chars "completed"
    ∷ []

unfoldable pub sentence_is_vacuous_status : Str → Bool
sentence_is_vacuous_status sentence = any_eq vacuous_words (normalized_story_text sentence)

unfoldable pub first_substantive_sentence : Str → Option Str
first_substantive_sentence input =
    find (λ sentence. not (is_empty sentence) && not (sentence_is_vacuous_status sentence))
      (map trim (split_terminator is_stop input))

abbrev pub sensitive_words : List Str
sensitive_words =
    chars "secret"
    ∷ chars "token"
    ∷ chars "password"
    ∷ chars "stdout"
    ∷ chars "stderr"
    ∷ chars "diff --git"
    ∷ []

unfoldable pub safe_sentence : Str → Str
safe_sentence input =
    let trimmed = trim input in
    let sentence = unwrap_or (first_substantive_sentence trimmed) trimmed in
    if contains_any (to_ascii_lowercase input) sensitive_words
    then chars "display-safe summary recorded"
    else clamp_words (drop_while_end is_stop sentence) 20

-- The rest of the input behind the first prefix that its lower-case form has.
unfoldable pub strip_lowered : Str → List Str → Str
strip_lowered input [] = input
strip_lowered input (prefix ∷ more) =
    let rest = strip_lowered input more in
    if starts_with (to_ascii_lowercase input) prefix
    then trim_start (drop (length prefix) input)
    else rest

unfoldable pub strip_agent_prefix : Str → Str → Str
strip_agent_prefix input agent = strip_lowered input (
    (to_ascii_lowercase agent ++ chars " ")
    ∷ chars "codex "
    ∷ chars "claude "
    ∷ chars "agent "
    ∷ [])

abbrev first_person_prefixes : List Str
first_person_prefixes =
    chars "I have "
    ∷ chars "i have "
    ∷ chars "I've "
    ∷ chars "i've "
    ∷ chars "I’ve "
    ∷ chars "i’ve "
    ∷ chars "I am "
    ∷ chars "i am "
    ∷ chars "I'm "
    ∷ chars "i'm "
    ∷ chars "I’m "
    ∷ chars "i’m "
    ∷ chars "I will "
    ∷ chars "i will "
    ∷ chars "I'll "
    ∷ chars "i'll "
    ∷ chars "I’ll "
    ∷ chars "i’ll "
    ∷ chars "I "
    ∷ chars "i "
    ∷ []

unfoldable pub strip_first : Str → List Str → Str
strip_first trimmed [] = trimmed
strip_first trimmed (prefix ∷ more) =
    let rest = strip_first trimmed more in
    elim (strip_prefix trimmed prefix) [ some tail ↦ trim_start tail | none ↦ rest ]

unfoldable pub strip_first_person_prefix : Str → Str
strip_first_person_prefix input = strip_first (trim_start input) first_person_prefixes

unfoldable pub headline_mentions_project : Str → Str → Bool
headline_mentions_project headline project =
    let normalized = replace_char b'_' 32 (to_ascii_lowercase headline) in
    contains normalized (to_ascii_lowercase project)
    || contains normalized (replace_char b'_' 32 (to_ascii_lowercase project))

unfoldable pub project_qualified_headline : Str → Option Str → Str
project_qualified_headline headline none = trim headline
project_qualified_headline headline (some project) =
    let trimmed = trim headline in
    let lowered = to_ascii_lowercase trimmed in
    if not (project_is_public_signal project)
    then trimmed
    else if headline_mentions_project trimmed project
    then trimmed
    else if starts_with lowered (chars "this is ")
    then project ++ chars " is " ++ trim_start (drop 8 trimmed)
    else if starts_with lowered (chars "this ")
    then project ++ chars " " ++ trim_start (drop 5 trimmed)
    else project ++ chars " " ++ trimmed

abbrev generic_headlines : List Str
generic_headlines =
    chars "done"
    ∷ chars "completed"
    ∷ chars "turn completed"
    ∷ chars "task complete"
    ∷ chars "finished"
    ∷ chars "ok"
    ∷ []

module _ ⦃u : Unicode⦄ where
  unfoldable pub lower_initial : Str → Str
  lower_initial [] = []
  lower_initial (first ∷ rest) = u.to_lowercase first ++ rest

  unfoldable pub summary_headline : Str → Str → Option Str → Option Str
  summary_headline agent summary project =
      let sentence = safe_sentence summary in
      let normalized = trim (drop_while_end is_stop (drop_while is_stop sentence)) in
      let lowered = to_ascii_lowercase normalized in
      let without_pronoun = strip_first_person_prefix (strip_agent_prefix normalized agent) in
      let without_pronoun_normalized = normalized_story_text without_pronoun in
      let first =
        project_qualified_headline (join (take 10 (split_whitespace without_pronoun)) (chars " "))
          project in
      if not (publishable_agent_summary_for_project summary project)
      then none
      else if is_empty normalized
      then none
      else if any_eq generic_headlines lowered
      then none
      else if is_empty without_pronoun_normalized
          || summary_is_operator_chatter without_pronoun_normalized
      then none
      else if is_empty first
      then none
      else some (lower_initial first)

-- Opens the definitions of this module in a run.
unfoldable pub run_sentences : Unit {0}
unfolding sentence_is_vacuous_status first_substantive_sentence safe_sentence strip_lowered
    strip_agent_prefix strip_first strip_first_person_prefix headline_mentions_project
    project_qualified_headline lower_initial summary_headline
run_sentences = tt
