-- ===== src/Story/Tests.antt =====
-- Runs of the compiler, after the unit tests of crates/agent_feed_story/src/lib.rs.
use agent_feed.Core.{AgentEvent, EventKind, SourceKind, new_event}
use agent_feed.Core.Run.{run_core}
use agent_feed.Highlight.{run_highlight}
use agent_feed.Prelude.{
  All, String, [], arith, drop, false, get, if◌then◌else◌, inl, leb, list_ord, map, nat_ord,
  option_ord, pair_ord, refl, some, true, unwrap_or, ℕ, ◌&&◌, ◌+◌, ◌∷◌, ◌≡◌, ◌⊎◌,
}
use agent_feed.Story.Bulletin.{compile_events, ingest_events}
use agent_feed.Story.Bulletin.Runs.{IsTold, compile_events-IsTold}
use agent_feed.Story.Compile.{compile_story_with_copy, run_compile}
use agent_feed.Story.Compiler.{ingest, new_compiler, run_compiler}
use agent_feed.Story.Compiler.Context.{flush-startup_context, ingest_all}
use agent_feed.Story.Compiler.Decisions.{run_decisions}
use agent_feed.Story.Compiler.Flush.{flush, run_flush}
use agent_feed.Story.Compiler.Invariant.{IsValid, new_compiler-IsValid}
use agent_feed.Story.Compiler.Invariant.Paths.{ingest_events-no_home_path}
use agent_feed.Story.Compiler.Invariant.Steps.{flush-IsValid, ingest-IsValid}
use agent_feed.Story.Compiler.State.{StoryCompiler, accept_story, run_state, trim_front}
use agent_feed.Story.Compiler.State.Memory.{accept_all, accept_story_again, trim_front-eq-drop}
use agent_feed.Story.Compiler.Stories.{IsPassed, ingest-IsPassed}
use agent_feed.Story.Compiler.Stories.Flushed.{flush-IsPassed}
use agent_feed.Story.Compiler.Stories.Turns.{IsTurnUpdate}
use agent_feed.Story.Copy.{run_copy}
use agent_feed.Story.Copy.Sentences.{run_sentences}
use agent_feed.Story.Keys.{key_ord, run_keys, story_key}
use agent_feed.Story.Quality.{run_quality}
use agent_feed.Story.Rewrite.{run_rewrite}
use agent_feed.Story.Rewrite.Phrases.{run_phrases}
use agent_feed.Story.Scores.{run_scores}
use agent_feed.Story.Signature.{run_signature}
use agent_feed.Story.Summaries.{run_summaries}
use agent_feed.Story.Types.{CompiledStory, StoryKey, StoryWindow, default_config}
use agent_feed.Story.Vocabulary.Labels.{run_labels}
use agent_feed.Story.Vocabulary.Redundant.{path_needles}
use agent_feed.Story.Window.{new_window, observe_with_publishable, run_window}
use agent_feed.Story.Window.Invariant.{IsWellFormed, new_window-IsWellFormed, observe-IsWellFormed}
use agent_feed.Text.{Unicode, chars, contains_any, to_ascii_lowercase}

-- Lower-casing as Unicode has it on ASCII.
instance abbrev ascii_unicode : Unicode
ascii_unicode = record { to_lowercase = λ c. (if leb b'A' c && leb c b'Z' then c + 32 else c) ∷ [] }

abbrev turn_event : EventKind → String → AgentEvent
turn_event kind title = record (new_event (chars "evt") 100 SourceKind.codex kind (chars title)) {
  agent = chars "codex";
  project = some (chars "agent_feed");
  session_id = some (chars "session");
  turn_id = some (chars "turn");
}

abbrev message : String → AgentEvent
message summary = record (turn_event EventKind.agent_message "codex posted an update") {
  summary = some (chars summary);
}

abbrev fresh : StoryCompiler
fresh = new_compiler default_config

abbrev at : StoryKey → ℕ
at key = 200

abbrev after : StoryCompiler → AgentEvent → StoryCompiler
after c event = (ingest c 150 event).0

compute : Unit {0}
unfolding run_core run_highlight run_summaries run_labels run_keys run_window run_scores
    run_signature run_sentences run_copy run_phrases run_rewrite run_quality run_compile run_state
    run_decisions run_flush run_compiler
compute = tt

abbrev receipts : AgentEvent
receipts = message "Burn_p2p browser training receipts now flush reliably."

-- meaningful_agent_message_publishes_after_flush
meaningful_message :
    map (λ (s : CompiledStory). s.headline) (flush (after fresh receipts) at).1
    ≡ chars "burn_p2p browser training receipts now flush reliably" ∷ []
unfolding compute
meaningful_message = refl

-- same_turn_repeated_update_is_deduped_semantically
repeated_update : (flush (after (flush (after fresh receipts) at).0 receipts) at).1 ≡ []
unfolding compute
repeated_update = refl

abbrev context : AgentEvent
context = record (message "Browser feed discovery now follows signed story streams.") {
  tags = chars "startup-context" ∷ [];
}

abbrev complete : AgentEvent
complete = record (turn_event EventKind.turn_complete "codex turn completed") {
  summary = some (chars "turn completed in 30s.");
  score_hint = some 82;
}

-- startup_context_does_not_flush_until_future_activity
startup_context :
    ((flush (after fresh context) at).1 ≡ [])
    × (map
          (λ (s : CompiledStory). s.headline)
          (ingest (flush (after fresh context) at).0 150 complete).1
        ≡ chars "browser feed discovery now follows signed story streams" ∷ [])
unfolding compute
startup_context = (refl, refl)

abbrev terraform : AgentEvent
terraform =
    record (message
      "The deploy compile finished and Terraform is running; current step is adopting existing AWS resources into state. CI test is still running.") {
        project = some (chars "burn_p2p");
      }

-- same_open_turn_deploy_stage_changes_publish_again, its first half
deploy_stage :
    map (λ (s : CompiledStory). s.headline) (flush (after fresh terraform) at).1
    ≡ chars "burn_dragon deploy enters terraform state adoption" ∷ []
unfolding compute
deploy_stage = refl

-- The applications of the theorems to the compiler of these tests.

abbrev open_window : StoryCompiler
open_window = after fresh receipts

ingest-IsValid_example : IsValid (ingest open_window 150 complete).0
ingest-IsValid_example =
    ingest-IsValid (ingest-IsValid (new_compiler-IsValid default_config) 150 receipts) 150 complete

flush-IsValid_example : IsValid (flush open_window at).0
flush-IsValid_example =
    flush-IsValid (ingest-IsValid (new_compiler-IsValid default_config) 150 receipts) at

ingest-IsPassed_example : All (IsPassed open_window.config) (ingest open_window 150 complete).1
ingest-IsPassed_example = ingest-IsPassed open_window 150 complete

flush-IsPassed_example :
    All
      (λ story. IsPassed open_window.config story ⊎ IsTurnUpdate at open_window.windows story)
      (flush open_window at).1
flush-IsPassed_example = flush-IsPassed open_window at

abbrev told : CompiledStory
told =
    compile_story_with_copy 200 (new_window (story_key receipts) 100) (chars "receipts")
      (chars "flushed") 80 90

accept_story_again_example :
    (accept_story (accept_all (accept_story fresh told []).0 []) told []).1 ≡ false
unfolding compute
accept_story_again_example = accept_story_again fresh told told [] [] [] refl refl (omega arith)

trim_front-eq-drop_example :
    trim_front 2 1 (chars "a" ∷ chars "b" ∷ []) ≡ drop 1 (chars "a" ∷ chars "b" ∷ [])
trim_front-eq-drop_example = trim_front-eq-drop 2 1 (chars "a" ∷ chars "b" ∷ []) (omega arith)

observe-IsWellFormed_example :
    IsWellFormed (observe_with_publishable (new_window (story_key receipts) 100) receipts true)
observe-IsWellFormed_example =
    observe-IsWellFormed (new_window (story_key receipts) 100) receipts true
      (new_window-IsWellFormed (story_key receipts) 100)

compile_events-IsTold_example :
    All
      (IsTold ((150, receipts) ∷ (160, terraform) ∷ (170, complete) ∷ []) at)
      (compile_events ((150, receipts) ∷ (160, terraform) ∷ (170, complete) ∷ []) at)
compile_events-IsTold_example =
    compile_events-IsTold ((150, receipts) ∷ (160, terraform) ∷ (170, complete) ∷ []) at

flush-startup_context_example :
    (flush (ingest_all (new_compiler default_config) ((150, context) ∷ (160, context) ∷ [])) at).1
    ≡ []
unfolding compute
flush-startup_context_example =
    flush-startup_context default_config ((150, context) ∷ (160, context) ∷ []) at
      (refl, (refl, tt))

abbrev kept_window : StoryWindow
kept_window =
    unwrap_or (get open_window.windows (story_key receipts)) (new_window (story_key receipts) 0)

ingest_events-no_home_path_example :
    contains_any
      (to_ascii_lowercase (chars "Burn_p2p browser training receipts now flush reliably."))
      path_needles
    ≡ false
unfolding compute get ingest_events
ingest_events-no_home_path_example =
    ingest_events-no_home_path default_config ((150, receipts) ∷ []) at (story_key receipts)
      kept_window (chars "Burn_p2p browser training receipts now flush reliably.") (inl refl) refl
