-- ===== src/Story/Summaries.antt =====
-- The tests on an agent's summary: what is redundant, chatter, progress or an outcome.
use agent_feed.Prelude.{
  Bool, Option, any, any_eq, false, if◌then◌else◌, is_empty, is_some_and, list_eq, ltb, map, nat_eq,
  not, option_eq, pair_eq, true, ◌&&◌, ◌==◌, ◌||◌,
}
use agent_feed.Story.Vocabulary.Chatter.{chatter_phrases}
use agent_feed.Story.Vocabulary.Context.{generic_labels, public_project_words, work_context_words}
use agent_feed.Story.Vocabulary.Redundant.{
  path_needles, processor_keys, redundant_phrases, redundant_prefixes,
}
use agent_feed.Story.Vocabulary.Verbs.{outcome_words, progress_verbs}
use agent_feed.Text.{
  Str, byte_len, chars, contains, contains_any, is_ascii_alphanumeric, is_whitespace, join,
  lower_char, split_whitespace, starts_with, to_ascii_lowercase, trim_start,
}

-- `.map(…).collect().split_whitespace().join(" ")`: what is no letter, digit or space is a space.
unfoldable pub normalized_story_text : Str → Str
normalized_story_text input =
    let cleaned =
      map (λ ch. if is_ascii_alphanumeric ch || is_whitespace ch then lower_char ch else 32)
        input in
    join (split_whitespace cleaned) (chars " ")

unfoldable pub summary_mentions_public_project : Str → Bool
summary_mentions_public_project text = contains_any text public_project_words

unfoldable pub summary_has_work_context : Str → Bool
summary_has_work_context input =
    let lowered = to_ascii_lowercase input in
    contains_any lowered work_context_words || summary_mentions_public_project lowered

unfoldable pub summary_is_operator_chatter : Str → Bool
summary_is_operator_chatter normalized = contains_any normalized chatter_phrases

-- A processor's JSON that leaked into a summary.
unfoldable pub is_processor_json : Str → Bool
is_processor_json trimmed = starts_with trimmed (chars "{") && contains_any trimmed processor_keys

unfoldable pub has_status_prefix : Str → Str → Bool
has_status_prefix trimmed input =
    any (starts_with trimmed) redundant_prefixes
    || starts_with trimmed (chars "done") && not (summary_has_work_context input)

unfoldable pub summary_is_redundant : Str → Bool
summary_is_redundant input =
    let lowered = to_ascii_lowercase input in
    let trimmed = trim_start lowered in
    if contains_any lowered path_needles
    then true
    else if is_processor_json trimmed
    then true
    else if has_status_prefix trimmed input
    then true
    else contains_any lowered redundant_phrases

unfoldable pub meaningful_summary : Str → Bool
meaningful_summary input =
    let normalized = normalized_story_text input in
    not (summary_is_redundant input)
    && summary_has_work_context input
    && not (summary_is_operator_chatter normalized)

unfoldable pub project_is_generic_label : Str → Bool
project_is_generic_label project = any_eq generic_labels project

unfoldable pub project_is_internal_debug_project : Str → Bool
project_is_internal_debug_project project =
    project == chars "agent_reel" || project == chars "agent_feed"

unfoldable pub project_is_public_signal : Str → Bool
project_is_public_signal project = project == chars "burn_p2p" || project == chars "burn_dragon"

unfoldable pub project_has_feed_context : Str → Bool
project_has_feed_context project = not (project_is_generic_label project)

unfoldable pub active_summary_has_release_outcome : Str → Bool
active_summary_has_release_outcome input = contains_any (normalized_story_text input) outcome_words

unfoldable pub active_progress_verb : Str → Bool
active_progress_verb normalized = contains_any normalized progress_verbs

unfoldable pub first_person : Str → Bool
first_person normalized =
    starts_with normalized (chars "i am ")
    || starts_with normalized (chars "i m ")
    || starts_with normalized (chars "i ll ")
    || starts_with normalized (chars "i will ")

unfoldable pub has_context : Str → Str → Option Str → Bool
has_context input normalized project =
    summary_has_work_context input
    || summary_mentions_public_project normalized
    || is_some_and project project_has_feed_context

unfoldable pub active_update_summary_for_project : Str → Option Str → Bool
active_update_summary_for_project input project =
    let normalized = normalized_story_text input in
    if summary_is_redundant input
    then false
    else if is_empty normalized
        || first_person normalized
        || contains normalized (chars "waiting for the build")
        || contains normalized (chars "polling at")
        || summary_is_operator_chatter normalized
    then false
    else has_context input normalized project && active_summary_has_release_outcome input

unfoldable pub active_progress_summary_for_project : Str → Option Str → Bool
active_progress_summary_for_project input project =
    let normalized = normalized_story_text input in
    if summary_is_redundant input
    then false
    else if ltb (byte_len normalized) 80
        || first_person normalized
        || summary_is_operator_chatter normalized
    then false
    else if not (has_context input normalized project)
    then false
    else active_progress_verb normalized

unfoldable pub publishable_agent_summary_for_project : Str → Option Str → Bool
publishable_agent_summary_for_project input project =
    meaningful_summary input
    || active_update_summary_for_project input project
    || active_progress_summary_for_project input project

-- Opens the definitions of this module in a run.
unfoldable pub run_summaries : Unit {0}
unfolding normalized_story_text summary_mentions_public_project summary_has_work_context
    summary_is_operator_chatter is_processor_json has_status_prefix summary_is_redundant
    meaningful_summary project_is_generic_label project_is_internal_debug_project
    project_is_public_signal project_has_feed_context active_summary_has_release_outcome
    active_progress_verb first_person has_context active_update_summary_for_project
    active_progress_summary_for_project publishable_agent_summary_for_project
run_summaries = tt
