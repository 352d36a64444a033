-- ===== src/Story/Bulletin.antt =====
-- `CompiledStory::to_bulletin`, its ticker item, and `compile_events`, the run over a whole list.
pub mod Runs
use agent_feed.Core.{AgentEvent, Bulletin, BulletinMode, Time, VisualKind}
use agent_feed.Highlight.{clamp_words}
use agent_feed.Prelude.{
  Bool, List, [], false, if◌then◌else◌, none, take, true, unwrap_or, ◌++◌, ◌∷◌,
}
use agent_feed.Story.Compiler.{ingest, new_compiler}
use agent_feed.Story.Compiler.Flush.{flush}
use agent_feed.Story.Compiler.State.{StoryCompiler}
use agent_feed.Story.Keys.{story_family_label}
use agent_feed.Story.Types.{CompiledStory, StoryFamily, StoryKey, default_config}
use agent_feed.Text.{Str, Unicode, chars}

unfoldable pub bulletin_mode : StoryFamily → BulletinMode
bulletin_mode StoryFamily.permission = BulletinMode.breaking
bulletin_mode StoryFamily.incident = BulletinMode.breaking
bulletin_mode StoryFamily.file_change = BulletinMode.diff_atlas
bulletin_mode StoryFamily.command = BulletinMode.command_desk
bulletin_mode StoryFamily.mcp = BulletinMode.mcp_wire
bulletin_mode StoryFamily.idle_recap = BulletinMode.recap
bulletin_mode _ = BulletinMode.dispatch

abbrev is_breaking : BulletinMode → Bool
is_breaking BulletinMode.breaking = true
is_breaking _ = false

unfoldable pub story_eyebrow : CompiledStory → Str
story_eyebrow story =
    story.agent
    ++ chars " / "
    ++ unwrap_or story.project (chars "local")
    ++ chars " / "
    ++ story_family_label story.family

-- The id is the one that `BulletinId::new` draws.
unfoldable pub to_bulletin : Str → CompiledStory → Bulletin
to_bulletin id story =
    let mode = bulletin_mode story.family in
    record {
      id = id;
      created_at = story.created_at;
      mode = mode;
      priority = story.score;
      dwell_ms = if is_breaking mode then 20000 else 14000;
      eyebrow = story_eyebrow story;
      headline = clamp_words story.headline 16;
      deck = clamp_words story.deck 34;
      lower_third = story.lower_third;
      chips = take 5 story.chips;
      ticker = [];
      image = none;
      visual = VisualKind.stage;
      privacy = story.privacy;
    }

unfoldable pub ticker_item : CompiledStory → Str
ticker_item story = story.agent ++ chars ": " ++ story.headline

module _ ⦃u : Unicode⦄ where
  -- The loop over the events, each with the clock reading of its call.
  unfoldable pub ingest_events :
      StoryCompiler → List (Time × AgentEvent) → StoryCompiler × List CompiledStory
  ingest_events c [] = (c, [])
  ingest_events c ((now, event) ∷ events) =
      let (c', stories) = ingest c now event in
      let (c'', more) = ingest_events c' events in (c'', stories ++ more)

  unfoldable pub compile_events : List (Time × AgentEvent) → (StoryKey → Time) → List CompiledStory
  compile_events events now =
      let (c, stories) = ingest_events (new_compiler default_config) events in
      stories ++ (flush c now).1
