-- ===== src/Directory/Types.antt =====
-- The records of the directory. A time is its nanoseconds.
use agent_feed.Core.{Time}
use agent_feed.Identity.{GithubLogin, GithubOrgName, GithubTeamSlug, GithubUserId, IdentityError}
use agent_feed.Prelude.{Bool, List, Option, ℕ}
use agent_feed.Proto.{FeedVisibility, StoryKind}
use agent_feed.Proto.Compatibility.{ProtocolCompatibility}
use agent_feed.Proto.Signing.{Signature}
use agent_feed.Text.{Str}

pub data DirectoryError : Type 0 where
  identity : IdentityError → DirectoryError
  serialize : DirectoryError
  invalid_route : Str → DirectoryError
  invalid_min_score : Str → DirectoryError
  invalid_signature : DirectoryError
  expired_record : DirectoryError
  replayed_sequence : DirectoryError
  github_id_mismatch : DirectoryError
  access_policy_mismatch : DirectoryError
  incompatible_protocol : Str → DirectoryError
  network_mismatch : (expected actual : Str) → DirectoryError

pub data NetworkSelector : Type 0 where
  mainnet : NetworkSelector
  custom : Str → NetworkSelector

pub data RemoteFeedSelection : Type 0 where
  default_visible : RemoteFeedSelection
  wildcard : RemoteFeedSelection
  named : Str → RemoteFeedSelection

-- The three flags that each variant of a stream filter carries.
pub record StreamFlags : Type 0 where
  pub story_only : Bool
  pub raw_events : Bool
  pub require_settled : Bool

pub data StreamFilter : Type 0 where
  default_visible : StreamFlags → StreamFilter
  all_visible : StreamFlags → StreamFilter
  named : List Str → StreamFlags → StreamFilter

-- `min_score` is a u8.
pub record RemoteReelFilter : Type 0 where
  pub agent_kinds : List Str
  pub story_kinds : List Str
  pub project_tags : List Str
  pub min_score : ℕ
  pub story_only : Bool
  pub raw_events : Bool
  pub require_settled : Bool
  pub ignored_privacy_params : List Str

pub data ReelLayout : Type 0 where
  stage timeline wall ambient incident debug : ReelLayout

pub record RemoteUserRoute : Type 0 where
  pub login : GithubLogin
  pub network : NetworkSelector
  pub selection : RemoteFeedSelection
  pub stream_filter : StreamFilter
  pub reel_filter : RemoteReelFilter
  pub layout : ReelLayout

pub record OrgRouteFilter : Type 0 where
  pub stream_filter : StreamFilter
  pub reel_filter : RemoteReelFilter

pub record GithubPrincipal : Type 0 where
  pub github_user_id : GithubUserId
  pub current_login : Str
  pub display_name : Option Str
  pub avatar : Option Str
  pub verified_by : Str
  pub verified_at : Time

pub record SummaryPolicy : Type 0 where
  pub story_only : Bool
  pub settled_only : Bool
  pub raw_events : Bool
  pub min_score : ℕ

pub record FeedAccessPolicy : Type 0 where
  pub github_org : Option GithubOrgName
  pub github_team : Option GithubTeamSlug
  pub github_repo : Option Str
  pub github_users : List GithubUserId

pub record StreamDescriptor : Type 0 where
  pub stream_id : Str
  pub label : Str
  pub agent_kinds : List Str
  pub story_kinds : List StoryKind
  pub visibility : FeedVisibility
  pub summary_policy : SummaryPolicy
  pub access : FeedAccessPolicy

-- `sequence` is a u64.
pub record FeedDirectoryEntry : Type 0 where
  pub feed_id : Str
  pub network_id : Str
  pub compatibility : ProtocolCompatibility
  pub owner : GithubPrincipal
  pub peer_id : Str
  pub feed_label : Str
  pub display_name : Str
  pub avatar : Option Str
  pub visibility : FeedVisibility
  pub access : FeedAccessPolicy
  pub stream_descriptors : List StreamDescriptor
  pub rendezvous_namespace : Str
  pub live_topic : Str
  pub snapshot_protocol : Str
  pub last_seen_at : Time
  pub expires_at : Time
  pub sequence : ℕ
  pub signature : Signature
