-- ===== src/Proto/Capsule.antt =====
-- `StoryCapsule`, its content hash and its signatures.
pub mod Laws
use agent_feed.Core.{HeadlineImage, PrivacyClass, Severity, Time}
use agent_feed.Prelude.{
  Bool, List, Option, [], and_then, false, if◌then◌else◌, map, map_option, none, or_else, some,
  true, unwrap_or, ℕ, ◌&&◌, ◌++◌,
}
use agent_feed.Proto.{StoryKind}
use agent_feed.Proto.Compatibility.{ProtocolCompatibility, current, is_compatible_with}
use agent_feed.Proto.Signing.{
  Hashes, Serialize, Signature, Signed, for_value, for_value_hmac, signature_beq, unsigned,
  verify_value, verify_value_hmac,
}
use agent_feed.Proto.Topics.{compact_digest, feed_topic, stable_digest}
use agent_feed.Story.Types.{StoryFamily}
use agent_feed.Summarize.Types.{FeedSummary, SummaryMetadata}
use agent_feed.Text.{Str, chars, hex_padded, utf8}

unfoldable pub kind_of_family : StoryFamily → StoryKind
kind_of_family StoryFamily.turn = StoryKind.turn
kind_of_family StoryFamily.plan = StoryKind.plan
kind_of_family StoryFamily.test = StoryKind.test
kind_of_family StoryFamily.permission = StoryKind.permission
kind_of_family StoryFamily.command = StoryKind.command
kind_of_family StoryFamily.file_change = StoryKind.file_change
kind_of_family StoryFamily.mcp = StoryKind.mcp
kind_of_family StoryFamily.incident = StoryKind.incident
kind_of_family StoryFamily.idle_recap = StoryKind.recap

pub record EvidenceDigest : Type 0 where
  pub event_id : Str
  pub digest : Str

pub record PublisherIdentity : Type 0 where
  pub github_user_id : Option ℕ
  pub github_login : Option Str
  pub display_name : Option Str
  pub avatar : Option Str
  pub verified : Bool

unfoldable pub github_publisher : ℕ → Str → Option Str → Option Str → PublisherIdentity
github_publisher id login display_name avatar = record {
  github_user_id = some id;
  github_login = some login;
  display_name = display_name;
  avatar = avatar;
  verified = true;
}

unfoldable pub display_label : PublisherIdentity → Str
display_label publisher =
    unwrap_or
      (or_else (map_option (λ login. chars "@" ++ login) publisher.github_login)
        publisher.display_name)
      (chars "verified peer")

-- The sequence is a u64 and the score a u8.
pub record StoryCapsule : Type 0 where
  pub capsule_id : Str
  pub feed_id : Str
  pub compatibility : ProtocolCompatibility
  pub seq : ℕ
  pub story_window : Str
  pub created_at : Time
  pub author : Str
  pub source_agent_kinds : List Str
  pub headline : Str
  pub deck : Str
  pub lower_third : Str
  pub chips : List Str
  pub image : Option HeadlineImage
  pub story_kind : StoryKind
  pub severity : Severity
  pub score : ℕ
  pub privacy_class : PrivacyClass
  pub evidence : List EvidenceDigest
  pub publisher : Option PublisherIdentity
  pub summary : SummaryMetadata
  pub content_hash : Str
  pub signature : Signature

-- What the content hash is taken of.
pub record CapsuleContent : Type 0 where
  pub feed_id : Str
  pub compatibility : ProtocolCompatibility
  pub seq : ℕ
  pub headline : Str
  pub deck : Str
  pub lower_third : Str
  pub chips : List Str
  pub image : Option HeadlineImage
  pub score : ℕ
  pub privacy_class : PrivacyClass
  pub summary_policy : Str
  pub summary_processor : Str
  pub publisher : Option PublisherIdentity

unfoldable pub content_of : StoryCapsule → CapsuleContent
content_of capsule = record {
  feed_id = capsule.feed_id;
  compatibility = capsule.compatibility;
  seq = capsule.seq;
  headline = capsule.headline;
  deck = capsule.deck;
  lower_third = capsule.lower_third;
  chips = capsule.chips;
  image = capsule.image;
  score = capsule.score;
  privacy_class = capsule.privacy_class;
  summary_policy = capsule.summary.policy;
  summary_processor = capsule.summary.processor;
  publisher = capsule.publisher;
}

module _ ⦃h : Hashes⦄ where
  unfoldable pub evidence_digest : Str → EvidenceDigest
  evidence_digest event_id = record { event_id = event_id; digest = stable_digest (utf8 event_id) }

  -- `ContentHash::for_value`; `None` is the error of the serialisation.
  unfoldable pub content_hash_for : {T : Type 0} ⦃s : Serialize T⦄ → T → Option Str
  content_hash_for ⦃s = s⦄ value = map_option stable_digest (s.to_vec value)

  unfoldable pub story_capsule_topic : Str → StoryCapsule → Str
  story_capsule_topic network_id capsule = feed_topic network_id capsule.feed_id

module _ ⦃h : Hashes⦄ ⦃c : Serialize CapsuleContent⦄ where
  -- The capsule with the hash of its content.
  unfoldable pub hash_content : StoryCapsule → Option StoryCapsule
  hash_content capsule =
      map_option (λ hash. record capsule { content_hash = hash })
        (content_hash_for (content_of capsule))

  -- `StoryCapsule::from_summary`, of a package version and a clock reading
  unfoldable pub from_summary : Str → Time → Str → ℕ → Str → FeedSummary → Option StoryCapsule
  from_summary version now feed_id seq author summary = hash_content (record {
    capsule_id = chars "cap_" ++ hex_padded 16 seq ++ chars "_" ++ compact_digest summary.headline;
    feed_id = feed_id;
    compatibility = current version;
    seq = seq;
    story_window = summary.story_window;
    created_at = now;
    author = author;
    source_agent_kinds = summary.source_agent_kinds;
    headline = summary.headline;
    deck = summary.deck;
    lower_third = summary.lower_third;
    chips = summary.chips;
    image = summary.image;
    story_kind = kind_of_family summary.story_family;
    severity = summary.severity;
    score = summary.score;
    privacy_class = summary.privacy_class;
    evidence = map evidence_digest summary.evidence_event_ids;
    publisher = none;
    summary = summary.metadata;
    content_hash = [];
    signature = unsigned;
  })

  unfoldable pub with_publisher : StoryCapsule → PublisherIdentity → Option StoryCapsule
  with_publisher capsule publisher = hash_content (record capsule { publisher = some publisher })

module _ ⦃h : Hashes⦄ ⦃s : Serialize StoryCapsule⦄ ⦃c : Serialize CapsuleContent⦄ where
  unfoldable pub sign_story_capsule : StoryCapsule → Str → Option StoryCapsule
  sign_story_capsule capsule key_id =
      and_then (hash_content (record capsule { signature = unsigned })) λ hashed.
        map_option (λ signature. record hashed { signature = signature }) (for_value key_id hashed)

  unfoldable pub sign_story_capsule_with_secret : StoryCapsule → Str → Str → Option StoryCapsule
  sign_story_capsule_with_secret capsule key_id secret =
      and_then (hash_content (record capsule { signature = unsigned })) λ hashed.
        map_option (λ signature. record hashed { signature = signature })
          (for_value_hmac key_id secret hashed)

  -- `Signed::sign_capsule`
  unfoldable pub sign_capsule : StoryCapsule → Str → Option (Signed StoryCapsule)
  sign_capsule capsule key_id =
      map_option (λ (value : StoryCapsule). record { value = value; signature = value.signature })
        (sign_story_capsule capsule key_id)

  unfoldable pub sign_capsule_with_secret : StoryCapsule → Str → Str → Option (Signed StoryCapsule)
  sign_capsule_with_secret capsule key_id secret =
      map_option (λ (value : StoryCapsule). record { value = value; signature = value.signature })
        (sign_story_capsule_with_secret capsule key_id secret)

module _ ⦃h : Hashes⦄ ⦃s : Serialize StoryCapsule⦄ where
  unfoldable pub verify_story_capsule : StoryCapsule → Option Bool
  verify_story_capsule capsule =
      verify_value capsule.signature (record capsule { signature = unsigned })

  unfoldable pub verify_story_capsule_with_secret : StoryCapsule → Str → Option Bool
  verify_story_capsule_with_secret capsule secret =
      verify_value_hmac capsule.signature secret (record capsule { signature = unsigned })

  -- `Signed::verify_capsule`, of a package version. The last test is not run after a failed one.
  unfoldable pub verify_capsule : Str → Signed StoryCapsule → Option Bool
  verify_capsule version signed =
      if signature_beq signed.signature signed.value.signature
        && is_compatible_with (current version) signed.value.compatibility
      then verify_story_capsule signed.value
      else some false

  unfoldable pub verify_capsule_with_secret : Str → Signed StoryCapsule → Str → Option Bool
  verify_capsule_with_secret version signed secret =
      if signature_beq signed.signature signed.value.signature
        && is_compatible_with (current version) signed.value.compatibility
      then verify_story_capsule_with_secret signed.value secret
      else some false
