-- ===== src/Story/Signature.antt =====
-- The update signature of a story, and the fingerprints made of it.
pub mod Relation
use agent_feed.Prelude.{
  Bool, List, Option, [], all, any_eq, filter, if◌then◌else◌, is_empty, is_none, leb, length,
  list_eq, list_ord, ltb, max, nat_eq, nat_ord, none, not, option_eq, option_ord, pair_eq, pair_ord,
  set_extend, set_insert, some, take, true, ◌&&◌, ◌*◌, ◌++◌, ◌/◌, ◌==◌, ◌||◌, ◌∷◌,
}
use agent_feed.Story.Keys.{key_ord}
use agent_feed.Story.Summaries.{normalized_story_text}
use agent_feed.Story.Types.{CompiledStory, StoryWindow}
use agent_feed.Story.Vocabulary.Labels.{impact_label, state_label}
use agent_feed.Story.Vocabulary.Signature.{signature_stopwords, update_verbs}
use agent_feed.Text.{
  Str, byte_len, chars, contains, is_ascii_digit, join, split_on, split_whitespace, strip_suffix,
  to_ascii_lowercase,
}

pub record StoryUpdateSignature : Type 0 where
  pub topic_fingerprint : Str
  pub state_fingerprint : Str
  pub impact_fingerprint : Str

pub data StoryUpdateRelation : Type 0 where
  new_topic exact_repeat same_state state_changed impact_changed : StoryUpdateRelation

unfoldable pub is_story_signature_stopword : Str → Bool
is_story_signature_stopword word = any_eq signature_stopwords word || all is_ascii_digit word

unfoldable pub is_story_update_verb : Str → Bool
is_story_update_verb word = any_eq update_verbs word

unfoldable pub stem_story_term : Str → Str
stem_story_term word = elim (strip_suffix word (chars "s")) [
  | some stem ↦ if ltb 3 (byte_len stem) then stem else word
  | none ↦ word
]

-- The three sets of the loop over the words.
pub record Terms : Type 0 where
  pub topic : List Str
  pub state : List Str
  pub impact : List Str

unfoldable pub add_topic : Terms → Str → Terms
add_topic t word =
    if not (is_story_signature_stopword word) && not (is_story_update_verb word)
    then record t { topic = set_insert t.topic (stem_story_term word) }
    else t

unfoldable pub add_word : Terms → Str → Terms
add_word t word = elim (state_label word) [
  | some label ↦ record t { state = set_insert t.state label }
  | none ↦ elim (impact_label word) [
    | some label ↦ add_topic (record t { impact = set_insert t.impact label }) word
    | none ↦ add_topic t word
  ]
]

unfoldable pub add_words : Terms → List Str → Terms
add_words t [] = t
add_words t (word ∷ words) = add_words (add_word t word) words

unfoldable pub story_update_signature : Str → Str → StoryUpdateSignature
story_update_signature headline deck =
    let normalized = normalized_story_text (headline ++ chars " " ++ deck) in
    let terms =
      add_words (record { topic = []; state = []; impact = [] }) (split_whitespace normalized) in
    record {
      topic_fingerprint = join (take 14 terms.topic) (chars ":");
      state_fingerprint = join (take 8 terms.state) (chars ":");
      impact_fingerprint = join (take 8 terms.impact) (chars ":");
    }

-- A Jaccard similarity of at least 60 percent.
unfoldable pub same_story_topic : Str → Str → Bool
same_story_topic left right =
    let lefts = set_extend [] (split_on b':' left) in
    let rights = set_extend [] (split_on b':' right) in
    let intersection = length (filter (any_eq rights) lefts) in
    let union = max (length (set_extend lefts rights)) 1 in
    if is_empty left || is_empty right
    then left == right
    else if left == right
    then true
    else leb 60 (intersection * 100 / union)

abbrev pub same_signature : StoryUpdateSignature → StoryUpdateSignature → Bool
same_signature a b =
    a.topic_fingerprint == b.topic_fingerprint
    && a.state_fingerprint == b.state_fingerprint
    && a.impact_fingerprint == b.impact_fingerprint

unfoldable pub story_update_relation :
    StoryUpdateSignature → StoryUpdateSignature → StoryUpdateRelation
story_update_relation candidate previous =
    if same_signature candidate previous
    then StoryUpdateRelation.exact_repeat
    else if not (same_story_topic candidate.topic_fingerprint previous.topic_fingerprint)
    then StoryUpdateRelation.new_topic
    else if not (candidate.state_fingerprint == previous.state_fingerprint)
    then StoryUpdateRelation.state_changed
    else if not (candidate.impact_fingerprint == previous.impact_fingerprint)
    then StoryUpdateRelation.impact_changed
    else StoryUpdateRelation.same_state

unfoldable pub semantic_story_fingerprint : Str → Str → Str
semantic_story_fingerprint headline deck =
    let signature = story_update_signature headline deck in
    chars "topic="
    ++ signature.topic_fingerprint
    ++ chars " state="
    ++ signature.state_fingerprint
    ++ chars " impact="
    ++ signature.impact_fingerprint

unfoldable pub is_activity_checkpoint_story : CompiledStory → Bool
is_activity_checkpoint_story story =
    let deck = to_ascii_lowercase story.deck in
    contains deck (chars "open turn")
    && (contains deck (chars "final outcome")
        || contains deck (chars "final handoff")
        || contains deck (chars "final result")
        || contains deck (chars "final pass/fail"))

unfoldable pub source_fingerprint : Str → Option Str → Str
source_fingerprint fingerprint none = fingerprint
source_fingerprint fingerprint (some summary) =
    let signature = story_update_signature summary [] in
    fingerprint
    ++ chars " source_topic="
    ++ signature.topic_fingerprint
    ++ chars " source_state="
    ++ signature.state_fingerprint
    ++ chars " source_impact="
    ++ signature.impact_fingerprint

unfoldable pub active_update_fingerprint : StoryWindow → CompiledStory → Str
active_update_fingerprint window story =
    let fingerprint = semantic_story_fingerprint story.headline story.deck in
    let summary = window.signals.latest_summary in
    if is_activity_checkpoint_story story && is_none summary
    then fingerprint
    else source_fingerprint fingerprint summary

-- Opens the definitions of this module in a run.
unfoldable pub run_signature : Unit {0}
unfolding is_story_signature_stopword is_story_update_verb stem_story_term add_topic add_word
    add_words story_update_signature same_story_topic story_update_relation
    semantic_story_fingerprint is_activity_checkpoint_story source_fingerprint
    active_update_fingerprint
run_signature = tt
