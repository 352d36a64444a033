-- ===== src/Directory/Views.antt =====
-- `RemoteHeadlineView` and `ResolveFeedView`, what the edge shows of a feed.
use agent_feed.Core.{HeadlineImage, Time}
use agent_feed.Directory.Types.{FeedAccessPolicy}
use agent_feed.Prelude.{Bool, List, Option, map_or, unwrap_or, ℕ, ◌++◌}
use agent_feed.Proto.{FeedVisibility, visibility_as_str}
use agent_feed.Proto.Capsule.{PublisherIdentity}
use agent_feed.Proto.Compatibility.{ProtocolCompatibility}
use agent_feed.Text.{Str, chars, decimal}

-- The score is a u8.
pub record RemoteHeadlineView : Type 0 where
  pub feed_id : Str
  pub feed_label : Str
  pub compatibility : ProtocolCompatibility
  pub visibility : Str
  pub access : FeedAccessPolicy
  pub created_at : Option Time
  pub publisher_github_user_id : Option ℕ
  pub publisher_login : Str
  pub publisher_display_name : Option Str
  pub publisher_avatar : Option Str
  pub verified : Bool
  pub headline : Str
  pub deck : Str
  pub lower_third : Str
  pub chips : List Str
  pub score : ℕ
  pub image : Option HeadlineImage

pub record ResolveFeedView : Type 0 where
  pub feed_id : Str
  pub label : Str
  pub compatibility : ProtocolCompatibility
  pub visibility : Str
  pub access : FeedAccessPolicy
  pub publisher_github_user_id : Option ℕ
  pub publisher_login : Str
  pub publisher_display_name : Option Str
  pub publisher_avatar : Option Str
  pub publisher_verified : Bool
  pub last_seen_at : Time

unfoldable pub view_from_headline : RemoteHeadlineView → Time → ResolveFeedView
view_from_headline headline last_seen_at = record {
  feed_id = headline.feed_id;
  label = headline.feed_label;
  compatibility = headline.compatibility;
  visibility = headline.visibility;
  access = headline.access;
  publisher_github_user_id = headline.publisher_github_user_id;
  publisher_login = headline.publisher_login;
  publisher_display_name = headline.publisher_display_name;
  publisher_avatar = headline.publisher_avatar;
  publisher_verified = headline.verified;
  last_seen_at = last_seen_at;
}

unfoldable pub view_from_publisher :
    Str
    → Str
    → ProtocolCompatibility
    → FeedVisibility
    → FeedAccessPolicy
    → PublisherIdentity
    → Time
    → ResolveFeedView
view_from_publisher feed_id label compatibility visibility access publisher last_seen_at = record {
  feed_id = feed_id;
  label = label;
  compatibility = compatibility;
  visibility = visibility_as_str visibility;
  access = access;
  publisher_github_user_id = publisher.github_user_id;
  publisher_login = unwrap_or publisher.github_login (
      map_or publisher.github_user_id (chars "verified-peer")
        (λ id. chars "github:" ++ decimal id));
  publisher_display_name = publisher.display_name;
  publisher_avatar = publisher.avatar;
  publisher_verified = publisher.verified;
  last_seen_at = last_seen_at;
}
