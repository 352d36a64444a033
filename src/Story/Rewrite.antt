-- ===== src/Story/Rewrite.antt =====
-- `story_impact_rewrite` of crates/agent_feed_story/src/lib.rs: fixed news copy for known releases.
pub mod Phrases
use agent_feed.Prelude.{
  Option, String, [], if◌then◌else◌, map_option, none, not, unwrap_or, ◌++◌, ◌||◌,
}
use agent_feed.Story.Keys.{is_turn}
use agent_feed.Story.Rewrite.Phrases.{burn_p2p_rewrite}
use agent_feed.Story.Summaries.{normalized_story_text}
use agent_feed.Story.Types.{StoryWindow}
use agent_feed.Text.{Str, chars, contains, eq_ignore_ascii_case}

-- The ladder of `story_impact_rewrite`, over the tests on the combined copy.
unfoldable pub story_impact_rewrite : StoryWindow → Str → Str → Option (Str × Str)
story_impact_rewrite window headline deck =
    let summary = unwrap_or window.signals.latest_summary [] in
    let combined = normalized_story_text (headline ++ chars " " ++ deck ++ chars " " ++ summary) in
    let project = unwrap_or window.key.project_hash [] in
    let is_burn_p2p =
      contains combined (chars "burn p2p") || eq_ignore_ascii_case project (chars "burn_p2p") in
    let is_burn_dragon =
      contains combined (chars "burn dragon")
      || eq_ignore_ascii_case project (chars "burn_dragon") in
    if not (is_turn window.key.family)
    then none
    else map_option (λ (rewrite : Str × Str). (rewrite.0, rewrite.1 ++ chars "."))
        (burn_p2p_rewrite (λ (needle : String). contains combined (chars needle)) is_burn_p2p
          is_burn_dragon)

-- Opens the definitions of this module in a run.
unfoldable pub run_rewrite : Unit {0}
unfolding story_impact_rewrite
run_rewrite = tt
