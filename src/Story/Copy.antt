-- ===== src/Story/Copy.antt =====
-- The copy of a story: headline, deck, lower third and the labels in them.
pub mod Sentences
use agent_feed.Core.{EventKind}
use agent_feed.Prelude.{
  Bool, List, Option, [], and_then, false, if◌then◌else◌, is_empty, is_some, is_some_and, length,
  ltb, map_option, map_or, min, none, not, some, true, unwrap_or, ℕ, ◌&&◌, ◌++◌, ◌∷◌,
}
use agent_feed.Story.Copy.Sentences.{safe_sentence, summary_headline}
use agent_feed.Story.Keys.{is_turn, story_family_label}
use agent_feed.Story.Scores.{has_command_burst, has_command_topic, outcome_label}
use agent_feed.Story.Summaries.{
  project_is_generic_label, publishable_agent_summary_for_project, summary_is_redundant,
}
use agent_feed.Story.Types.{StoryCounters, StoryFamily, StoryWindow}
use agent_feed.Text.{Str, Unicode, chars, contains, decimal, join, to_ascii_lowercase}

unfoldable pub display_project_label : Option Str → Option Str
display_project_label project =
    and_then project (λ p. if project_is_generic_label p then none else some p)

-- `n.min(99)` in decimal
unfoldable pub capped : ℕ → Str
capped n = decimal (min n 99)

unfoldable pub object_label : StoryWindow → Str
object_label window =
    let family = story_family_label window.key.family in
    let project = unwrap_or (display_project_label window.key.project_hash) family in
    let command = unwrap_or window.signals.latest_command_class project in
    if ltb 0 window.counters.files_changed
    then capped window.counters.files_changed ++ chars " files"
    else elim window.signals.latest_tool [ some tool ↦ tool ++ chars " tool" | none ↦ command ]

-- The first topic of the burst, in the order of the ladder.
unfoldable pub burst_scope : StoryWindow → (Str × Str)
burst_scope window =
    if has_command_topic window (chars "ci status")
    then (chars "checked ci status", chars "ci status")
    else if has_command_topic window (chars "verification")
    then (chars "ran verification checks", chars "verification")
    else if has_command_topic window (chars "code inspection")
    then (chars "inspected code paths", chars "code inspection")
    else if has_command_topic window (chars "repository state")
    then (chars "checked repository state", chars "repository state")
    else if has_command_topic window (chars "remote service check")
    then (chars "checked remote services", chars "remote service checks")
    else (chars "worked through shell checks", chars "shell checks")

unfoldable pub command_burst_label : StoryWindow → Option Str
command_burst_label window = if has_command_burst window then some (burst_scope window).0 else none

unfoldable pub command_burst_scope : StoryWindow → Option Str
command_burst_scope window = if has_command_burst window then some (burst_scope window).1 else none

unfoldable pub command_burst_deck : StoryWindow → Option Str
command_burst_deck window =
    map_option
      (λ scope.
        capped window.counters.commands ++ chars " safe command events settled around " ++ scope)
      (command_burst_scope window)

module _ ⦃u : Unicode⦄ where
  unfoldable pub turn_headline : StoryWindow → Str → Str → Str
  turn_headline window agent object =
      let counters = window.counters in
      let counted =
        if ltb 0 counters.tests_failed
        then agent ++ chars " found failing tests"
        else if ltb 0 counters.tests_passed && ltb 0 counters.files_changed
        then agent ++ chars " verified the update"
        else if ltb 0 counters.tests_passed
        then agent ++ chars " verified tests"
        else if ltb 0 counters.files_changed
        then agent ++ chars " finished " ++ capped counters.files_changed ++ chars " file update"
        else map_or (command_burst_label window) (agent ++ chars " completed " ++ object)
            (λ label. agent ++ chars " " ++ label) in
      unwrap_or
        (and_then window.signals.latest_summary
          (λ summary. summary_headline agent summary window.key.project_hash))
        counted

  abbrev is_denied : EventKind → Bool
  is_denied EventKind.permission_denied = true
  is_denied _ = false

  abbrev is_turn_fail : EventKind → Bool
  is_turn_fail EventKind.turn_fail = true
  is_turn_fail _ = false

  unfoldable pub family_headline : StoryFamily → StoryWindow → Str → Str → Str
  family_headline StoryFamily.test window agent object =
      if ltb 0 window.counters.tests_failed
      then agent ++ chars " found failing tests"
      else agent ++ chars " verified tests"
  family_headline StoryFamily.permission window agent object =
      if is_some_and window.signals.latest_kind is_denied
      then agent ++ chars " hit a permission denial"
      else agent ++ chars " requested permission"
  family_headline StoryFamily.file_change window agent object = agent ++ chars " changed " ++ object
  family_headline StoryFamily.incident window agent object =
      if is_some_and window.signals.latest_kind is_turn_fail
      then (if is_some_and window.signals.latest_summary
            (λ summary. contains (to_ascii_lowercase summary) (chars "interrupt"))
          then agent ++ chars " was interrupted"
          else agent ++ chars " turn failed")
      else agent ++ chars " hit " ++ object
  family_headline StoryFamily.mcp window agent object = agent ++ chars " saw mcp degradation"
  family_headline StoryFamily.plan window agent object = agent ++ chars " updated the plan"
  family_headline StoryFamily.command window agent object = agent ++ chars " completed " ++ object
  family_headline StoryFamily.idle_recap window agent object = agent ++ chars " activity settled"
  family_headline StoryFamily.turn window agent object = turn_headline window agent object

  unfoldable pub headline_of : StoryWindow → Str
  headline_of window =
      family_headline window.key.family window window.key.agent (object_label window)

-- One `parts.push(…)` under a test.
abbrev push_if : Bool → Str → List Str → List Str
push_if test part parts = if test then parts ++ part ∷ [] else parts

-- The part that an event counter of tests adds.
unfoldable pub tests_part : Bool → StoryCounters → List Str → List Str
tests_part summarised counters parts =
    if ltb 0 counters.tests_failed && not summarised
    then parts ++ chars "tests are red" ∷ []
    else if ltb 0 counters.tests_passed && not summarised
    then parts ++ chars "tests passed" ∷ []
    else parts

-- The summary of a window that is no turn, where there is room for it.
unfoldable pub summary_part : StoryWindow → List Str → List Str
summary_part window parts = elim window.signals.latest_summary [
  | none ↦ parts
  | some summary ↦
      push_if
        (not (is_empty summary)
          && ltb (length parts) 2
          && not (is_turn window.key.family)
          && not (summary_is_redundant summary))
        (safe_sentence summary) parts
]

-- `if parts.is_empty()` with a part to push
abbrev push_default : Option Str → List Str → List Str
push_default (some part) [] = part ∷ []
push_default _ parts = parts

-- The summary of a turn, which opens the deck.
unfoldable pub turn_summary : StoryWindow → Option Str
turn_summary window = elim window.signals.latest_summary [
  | none ↦ none
  | some summary ↦
      if is_turn window.key.family
        && not (is_empty summary)
        && publishable_agent_summary_for_project summary window.key.project_hash
      then some (safe_sentence summary)
      else none
]

unfoldable pub deck_of : StoryWindow → Str
deck_of window =
    let counters = window.counters in
    let summarised = is_some (turn_summary window) in
    let parts = push_default (turn_summary window) [] in
    let parts = push_default (command_burst_deck window) parts in
    let parts =
      push_if (ltb 0 counters.files_changed && not summarised)
        (capped counters.files_changed ++ chars " changed files") parts in
    let parts = tests_part summarised counters parts in
    let parts =
      push_if (ltb 0 counters.tool_failures && not summarised)
        (decimal counters.tool_failures ++ chars " tool failures") parts in
    let parts =
      push_if (ltb 0 counters.permissions)
        (decimal counters.permissions ++ chars " permission events") parts in
    let parts = push_if (ltb 0 counters.mcp_failures) (chars "mcp failed") parts in
    let parts = summary_part window parts in
    let parts = push_default (outcome_label window) parts in
    let parts = push_default (some (chars "activity settled")) parts in
    join parts (chars ". ") ++ chars "."

unfoldable pub lower_third_of : StoryWindow → ℕ → Str
lower_third_of window score =
    let project = unwrap_or (display_project_label window.key.project_hash) (chars "local") in
    join
      (project
        ∷ story_family_label window.key.family
        ∷ (chars "score " ++ decimal score)
        ∷ chars "redacted"
        ∷ [])
      (chars " · ")

-- Opens the definitions of this module in a run.
unfoldable pub run_copy : Unit {0}
unfolding display_project_label capped object_label burst_scope command_burst_label
    command_burst_scope command_burst_deck turn_headline family_headline headline_of tests_part
    summary_part turn_summary deck_of lower_third_of
run_copy = tt
