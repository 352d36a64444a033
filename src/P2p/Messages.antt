-- ===== src/P2p/Messages.antt =====
-- The commands and the events of the runtime, and the texts of its errors.
use agent_feed.Directory.Types.{DirectoryError, FeedDirectoryEntry}
use agent_feed.Identity.{GithubOrgName, GithubTeamSlug, GithubUserId, IdentityError}
use agent_feed.P2p.Plane.{P2pRuntimeStatus}
use agent_feed.P2p.Types.{Capsules, P2pError, PeerParticipation, PeerRole}
use agent_feed.Prelude.{List, Option, ℕ, ◌++◌}
use agent_feed.Proto.Capsule.{StoryCapsule}
use agent_feed.Proto.Compatibility.{ProtocolCompatibility, current}
use agent_feed.Proto.Profile.{FeedProfile}
use agent_feed.Proto.Signing.{Signed}
use agent_feed.Text.{Str, chars}

pub data P2pCommandKind : Type 0 where
  join_network : P2pCommandKind
  publish_directory_entry : P2pCommandKind
  publish_capsule : P2pCommandKind
  follow_feed : P2pCommandKind
  request_snapshot : P2pCommandKind
  register_rendezvous : P2pCommandKind
  provide_feed : P2pCommandKind
  shutdown : P2pCommandKind

pub data P2pEventKind : Type 0 where
  ready : P2pEventKind
  peer_discovered : P2pEventKind
  directory_entry_received : P2pEventKind
  feed_followed : P2pEventKind
  capsule_received : P2pEventKind
  snapshot_received : P2pEventKind
  publish_accepted : P2pEventKind
  publish_rejected : P2pEventKind
  degraded : P2pEventKind
  error : P2pEventKind

pub record P2pPeerSpec : Type 0 where
  pub network_id : Str
  pub peer_id : Str
  pub principal : Str
  pub compatibility : ProtocolCompatibility

unfoldable pub new_spec : Str → Str → Str → Str → P2pPeerSpec
new_spec version network_id peer_id principal = record {
  network_id = network_id;
  peer_id = peer_id;
  principal = principal;
  compatibility = current version;
}

pub data P2pCommand : Type 0 where
  join_fabric : (peer : P2pPeerSpec) (roles : List PeerRole) → P2pCommand
  register_browser_handoff : (peer_id : Str) (addrs : List Str) → P2pCommand
  announce_feed : (peer_id : Str) (profile : FeedProfile) → P2pCommand
  announce_directory_entry : (peer_id : Str) (entry : FeedDirectoryEntry) → P2pCommand
  cache_directory_entry : (peer_id : Str) (entry : FeedDirectoryEntry) → P2pCommand
  discover_github_user : (peer_id : Str) (github_user_id : GithubUserId) → P2pCommand
  discover_github_org : (peer_id : Str) (name : GithubOrgName) → P2pCommand
  discover_github_team : (peer_id : Str) (name : GithubOrgName) (team : GithubTeamSlug) → P2pCommand
  follow_feed : (peer_id feed_id : Str) → P2pCommand
  grant_subscription : (publisher_peer_id subscriber_peer_id feed_id : Str) → P2pCommand
  certify_github_org_access :
      (peer_id : Str) (name : GithubOrgName) (teams : List GithubTeamSlug) → P2pCommand
  publish_capsule : (peer_id : Str) (capsule : Signed StoryCapsule) → P2pCommand
  request_snapshot : (peer_id feed_id : Str) (limit : ℕ) → P2pCommand
  drain_inbox : (peer_id : Str) → P2pCommand
  shutdown : P2pCommand

unfoldable pub command_kind : P2pCommand → P2pCommandKind
command_kind (P2pCommand.join_fabric peer roles) = P2pCommandKind.join_network
command_kind (P2pCommand.announce_directory_entry peer_id entry) =
    P2pCommandKind.publish_directory_entry
command_kind (P2pCommand.cache_directory_entry peer_id entry) =
    P2pCommandKind.publish_directory_entry
command_kind (P2pCommand.publish_capsule peer_id capsule) = P2pCommandKind.publish_capsule
command_kind (P2pCommand.follow_feed peer_id feed_id) = P2pCommandKind.follow_feed
command_kind (P2pCommand.request_snapshot peer_id feed_id limit) = P2pCommandKind.request_snapshot
command_kind (P2pCommand.drain_inbox peer_id) = P2pCommandKind.request_snapshot
command_kind (P2pCommand.register_browser_handoff peer_id addrs) =
    P2pCommandKind.register_rendezvous
command_kind P2pCommand.shutdown = P2pCommandKind.shutdown
command_kind _ = P2pCommandKind.provide_feed

pub data P2pEvent : Type 0 where
  ready : P2pRuntimeStatus → P2pEvent
  network_joined : PeerParticipation → P2pEvent
  browser_handoff_registered : PeerParticipation → P2pEvent
  directory_entry_received : FeedDirectoryEntry → P2pEvent
  feed_discovered : List FeedDirectoryEntry → P2pEvent
  feed_followed : (peer_id feed_id : Str) → P2pEvent
  snapshot_received : (peer_id feed_id : Str) (capsules : Capsules) → P2pEvent
  story_received : (peer_id : Str) (capsules : Capsules) → P2pEvent
  publish_accepted : (peer_id feed_id : Str) (delivered : ℕ) → P2pEvent
  publish_rejected : (peer_id : Str) (feed_id : Option Str) (reason : Str) → P2pEvent
  degraded : (peer_id : Option Str) (reason : Str) → P2pEvent
  error : (message : Str) → P2pEvent

unfoldable pub event_kind : P2pEvent → P2pEventKind
event_kind (P2pEvent.ready status) = P2pEventKind.ready
event_kind (P2pEvent.network_joined participation) = P2pEventKind.peer_discovered
event_kind (P2pEvent.browser_handoff_registered participation) = P2pEventKind.peer_discovered
event_kind (P2pEvent.directory_entry_received entry) = P2pEventKind.directory_entry_received
event_kind (P2pEvent.feed_discovered entries) = P2pEventKind.peer_discovered
event_kind (P2pEvent.feed_followed peer_id feed_id) = P2pEventKind.feed_followed
event_kind (P2pEvent.snapshot_received peer_id feed_id capsules) = P2pEventKind.snapshot_received
event_kind (P2pEvent.story_received peer_id capsules) = P2pEventKind.capsule_received
event_kind (P2pEvent.publish_accepted peer_id feed_id delivered) = P2pEventKind.publish_accepted
event_kind (P2pEvent.publish_rejected peer_id feed_id reason) = P2pEventKind.publish_rejected
event_kind (P2pEvent.degraded peer_id reason) = P2pEventKind.degraded
event_kind (P2pEvent.error message) = P2pEventKind.error

unfoldable pub identity_error_text : IdentityError → Str
identity_error_text (IdentityError.invalid_github_login value) =
    chars "invalid github login: " ++ value
identity_error_text (IdentityError.invalid_github_org value) = chars "invalid github org: " ++ value
identity_error_text (IdentityError.invalid_github_team_slug value) =
    chars "invalid github team slug: " ++ value

-- The text that serde_json gives of an error is a parameter.
module _ (json_error : Str) where
  unfoldable pub directory_error_text : DirectoryError → Str
  directory_error_text (DirectoryError.identity e) = identity_error_text e
  directory_error_text DirectoryError.serialize = chars "serialization failed: " ++ json_error
  directory_error_text (DirectoryError.invalid_route route) =
      chars "invalid remote route: " ++ route
  directory_error_text (DirectoryError.invalid_min_score value) =
      chars "invalid min_score: " ++ value
  directory_error_text DirectoryError.invalid_signature =
      chars "directory record signature rejected"
  directory_error_text DirectoryError.expired_record = chars "directory record expired"
  directory_error_text DirectoryError.replayed_sequence = chars "directory record replayed"
  directory_error_text DirectoryError.github_id_mismatch =
      chars "directory record github id mismatch"
  directory_error_text DirectoryError.access_policy_mismatch =
      chars "directory record access policy mismatch"
  directory_error_text (DirectoryError.incompatible_protocol message) =
      chars "p2p compatibility rejected: " ++ message
  directory_error_text (DirectoryError.network_mismatch expected actual) =
      chars "p2p network rejected: expected " ++ expected ++ chars ", got " ++ actual

  unfoldable pub p2p_error_text : P2pError → Str
  p2p_error_text P2pError.state_poisoned = chars "p2p state lock poisoned"
  p2p_error_text (P2pError.peer_not_found peer_id) = chars "peer not found: " ++ peer_id
  p2p_error_text (P2pError.feed_not_found feed_id) = chars "feed not found: " ++ feed_id
  p2p_error_text (P2pError.subscription_denied feed_id) =
      chars "subscription denied for feed: " ++ feed_id
  p2p_error_text P2pError.invalid_signature = chars "capsule signature rejected"
  p2p_error_text (P2pError.invalid_story_topic topic) =
      chars "story capsule topic rejected: " ++ topic
  p2p_error_text (P2pError.incompatible_protocol message) =
      chars "p2p compatibility rejected: " ++ message
  p2p_error_text (P2pError.data_plane_unavailable reason) =
      chars "p2p data plane unavailable: " ++ reason
  p2p_error_text P2pError.proto = chars "serialization failed: " ++ json_error
  p2p_error_text (P2pError.directory e) = directory_error_text e
