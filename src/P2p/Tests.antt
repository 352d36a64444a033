-- ===== src/P2p/Tests.antt =====
-- What the runs of the network share: hashes and an encoding that are easy to compute.
mod Publishing
mod Commands
mod Directory
use agent_feed.Core.{PrivacyClass, Severity}
use agent_feed.Directory.Store.{ensure_current_compatibility, ensure_network_id}
use agent_feed.Directory.Types.{FeedDirectoryEntry}
use agent_feed.P2p.Access.{can_follow, can_receive_peer}
use agent_feed.P2p.Fabric.{
  add_roles, announce_feed, ensure_compatible, join_fabric, list_feed, open_inbox, participate,
}
use agent_feed.P2p.Feeds.{
  accept_capsule, capsule_error, capsule_is_duplicate, current_feed, deliver, feed_snapshot, follow,
  is_subscribed, latest_capsules, may_read, publish_capsule, resembles, subscribe, trim_history,
}
use agent_feed.P2p.Feeds.Deliveries.{receivers}
use agent_feed.P2p.Monad.{either}
use agent_feed.P2p.Types.{
  PeerNode, default_network, new_participation, new_peer, org_eq, org_ord, peer_with_compatibility,
  role_eq, role_ord, role_rank, team_eq, team_ord,
}
use agent_feed.Prelude.{
  [], any_eq, false, get, insert, list_beq, list_cmp, list_eq, list_ord, nat_eq, nat_ord, none,
  option_eq, option_ord, pair_eq, pair_ord, set_extend, set_insert, some, unwrap_or, update, ◌++◌,
  ◌∷◌,
}
use agent_feed.Proto.{FeedVisibility, StoryKind}
use agent_feed.Proto.Capsule.{
  CapsuleContent, StoryCapsule, content_hash_for, content_of, hash_content, sign_capsule,
  sign_story_capsule, verify_capsule, verify_story_capsule,
}
use agent_feed.Proto.Compatibility.{current, is_compatible_with}
use agent_feed.Proto.Profile.{FeedProfile, new_profile}
use agent_feed.Proto.Signing.{
  Hashes, Serialize, Signed, for_value, hex_lower, sha256_signature_digest, unsigned, verify_value,
}
use agent_feed.Proto.Topics.{compact_digest, feed_topic, stable_digest}
use agent_feed.Summarize.Similarity.{headline_similarity, normalize_text, text_similarity}
use agent_feed.Summarize.Types.{PublishAction, SummaryMetadata}
use agent_feed.Text.{
  Str, chars, is_ascii_alphanumeric, is_ascii_digit, is_whitespace, join, lower_char, split_by,
  split_whitespace, utf8, utf8_char,
}

instance abbrev pub test_hashes : Hashes
test_hashes = record { sha256 = λ bytes. bytes; hmac_sha256 = λ key bytes. key ++ bytes }

instance abbrev pub test_capsule_json : Serialize StoryCapsule
test_capsule_json = record { to_vec = λ capsule. some (utf8 capsule.feed_id ++ capsule.seq ∷ []) }

instance abbrev pub test_content_json : Serialize CapsuleContent
test_content_json = record { to_vec = λ content. some (utf8 content.headline) }

instance abbrev pub test_entry_json : Serialize FeedDirectoryEntry
test_entry_json = record { to_vec = λ entry. some (utf8 entry.feed_id ++ entry.sequence ∷ []) }

abbrev pub version : Str
version = chars "0.1.0"

abbrev pub alice : PeerNode
alice = new_peer version (chars "net") (chars "a") (chars "alice")

abbrev pub bob : PeerNode
bob = new_peer version (chars "net") (chars "b") (chars "bob")

abbrev pub profile_of : FeedVisibility → FeedProfile
profile_of visibility =
    new_profile version 1 (chars "f") (chars "net") (chars "alice") (chars "a") (chars "desk")
      visibility

abbrev pub metadata : SummaryMetadata
metadata = record {
  processor = chars "deterministic";
  policy = chars "p2p-strict";
  image_processor = chars "disabled";
  publish_action = PublishAction.publish;
  publish_reason = [];
  headline_fingerprint = [];
  topic_fingerprint = [];
  state_fingerprint = [];
  impact_fingerprint = [];
  update_relation = [];
  max_headline_similarity = 0;
  max_deck_similarity = 0;
  guardrail_version = 1;
  input_stories = 1;
  output_chars = 1;
  external_cost_allowed = false;
  image_enabled = false;
  violations = [];
}

abbrev pub capsule : StoryCapsule
capsule = record {
  capsule_id = chars "cap";
  feed_id = chars "f";
  compatibility = current version;
  seq = 1;
  story_window = chars "w";
  created_at = 5;
  author = chars "alice";
  source_agent_kinds = chars "codex" ∷ [];
  headline = chars "ab";
  deck = chars "cd";
  lower_third = chars "e";
  chips = [];
  image = none;
  story_kind = StoryKind.turn;
  severity = Severity.info;
  score = 80;
  privacy_class = PrivacyClass.redacted;
  evidence = [];
  publisher = none;
  summary = metadata;
  content_hash = [];
  signature = unsigned;
}

unfoldable pub compute_p2p : Unit {0}
unfolding for_value sha256_signature_digest hex_lower utf8 utf8_char unsigned current
    is_compatible_with get insert update list_cmp list_beq new_peer peer_with_compatibility
    new_profile sign_capsule sign_story_capsule hash_content content_of content_hash_for
    stable_digest verify_capsule verify_story_capsule verify_value default_network join_fabric
    announce_feed follow publish_capsule participate open_inbox add_roles list_feed subscribe
    ensure_compatible ensure_current_compatibility ensure_network_id current_feed capsule_error
    accept_capsule deliver can_follow can_receive_peer capsule_is_duplicate trim_history either
    set_insert set_extend new_participation feed_topic compact_digest role_rank any_eq
    normalize_text split_whitespace is_ascii_alphanumeric is_ascii_digit lower_char join split_by
    is_whitespace resembles headline_similarity text_similarity feed_snapshot may_read
    latest_capsules is_subscribed receivers
compute_p2p = tt

abbrev pub signed : Signed StoryCapsule
signed =
    unwrap_or (sign_capsule capsule (chars "k")) (record { value = capsule; signature = unsigned })
