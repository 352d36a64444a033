-- ===== src/P2p/Fabric.antt =====
-- The methods by which a peer enters the network and is certified.
use agent_feed.Directory.Store.{ensure_current_compatibility, ensure_network_id}
use agent_feed.Identity.{GithubOrgName, GithubTeamSlug}
use agent_feed.P2p.Monad.{Action, check, gets, modify, ◌>>◌}
use agent_feed.P2p.Types.{
  NetworkState, P2pError, PeerNode, PeerParticipation, PeerRole, new_participation, org_eq, org_ord,
  role_eq, role_ord, team_eq, team_ord,
}
use agent_feed.Prelude.{
  List, Option, [], any_eq, filter, get, if◌then◌else◌, insert, list_eq, list_ord, map, map_option,
  nat_eq, nat_ord, none, option_eq, option_ord, pair_eq, pair_ord, set_extend, some, update, ◌∷◌,
}
use agent_feed.Proto.Compatibility.{ProtocolCompatibility, current, is_compatible_with, status_with}
use agent_feed.Proto.Profile.{FeedProfile}
use agent_feed.Proto.Signing.{Hashes}
use agent_feed.Proto.Topics.{feed_topic}
use agent_feed.Text.{Str}

-- `entry(peer_id).or_insert_with(|| PeerParticipation::new(self))`, and what is done to it.
unfoldable pub participate :
    PeerNode → (PeerParticipation → PeerParticipation) → NetworkState → NetworkState
participate peer change state = record state {
  participants = update state.participants peer.peer_id (new_participation peer) change;
}

unfoldable pub add_roles : List PeerRole → PeerParticipation → PeerParticipation
add_roles roles participation = record participation {
  roles = set_extend participation.roles roles;
}

unfoldable pub open_inbox : PeerNode → NetworkState → NetworkState
open_inbox peer state = record state {
  inboxes = update state.inboxes peer.peer_id [] (λ inbox. inbox);
}

module _ ⦃h : Hashes⦄ where
  -- The two insertions of `announce_feed`.
  unfoldable pub list_feed : FeedProfile → NetworkState → NetworkState
  list_feed profile state = record state {
    topics = insert state.topics profile.feed_id (feed_topic profile.network_id profile.feed_id);
    feeds = insert state.feeds profile.feed_id profile;
  }

module _ (version : Str) where
  -- `PeerNode::ensure_compatible`, of a package version
  unfoldable pub ensure_compatible : PeerNode → Option P2pError
  ensure_compatible peer =
      let local = current version in
      if is_compatible_with local peer.compatibility
      then none
      else some (P2pError.incompatible_protocol (status_with local peer.compatibility).message)

  abbrev pub ensure_current : ProtocolCompatibility → Option P2pError
  ensure_current remote =
      map_option P2pError.directory (ensure_current_compatibility version remote)

  abbrev pub ensure_network : Str → Str → Option P2pError
  ensure_network expected actual = map_option P2pError.directory (ensure_network_id expected actual)

  unfoldable pub join_fabric : PeerNode → List PeerRole → Action (Unit {0})
  join_fabric peer roles = do
    check (ensure_compatible peer)
    modify λ state.
        open_inbox peer
          (participate peer (λ p. add_roles roles (add_roles (PeerRole.fabric ∷ []) p)) state)

  unfoldable pub register_browser_handoff : PeerNode → List Str → Action (Unit {0})
  register_browser_handoff peer addrs = do
    check (ensure_compatible peer)
    modify λ state. open_inbox peer (
        participate peer
          (λ p. record (add_roles (PeerRole.fabric ∷ PeerRole.browser_handoff ∷ []) p) {
            browser_handoff_addrs = addrs;
          })
          state)

  unfoldable pub certify_github_org_access :
      PeerNode → GithubOrgName → List GithubTeamSlug → Action (Unit {0})
  certify_github_org_access peer name teams = do
    check (ensure_compatible peer)
    modify λ state. record state {
      org_access =
          insert state.org_access peer.peer_id (record { org = name; teams = set_extend [] teams });
    }

  unfoldable pub known_peers : PeerNode → Action (List Str)
  known_peers peer = do
    check (ensure_compatible peer)
    gets λ state. map (λ (e : Str × PeerParticipation). e.0) state.participants

  unfoldable pub participation_of : PeerNode → Str → Action (Option PeerParticipation)
  participation_of peer peer_id = do
    check (ensure_compatible peer)
    gets λ state. get state.participants peer_id

  unfoldable pub browser_handoff_peers : PeerNode → Action (List PeerParticipation)
  browser_handoff_peers peer = do
    check (ensure_compatible peer)
    gets λ state.
        filter (λ p. any_eq p.roles PeerRole.browser_handoff)
          (map (λ (e : Str × PeerParticipation). e.1) state.participants)

  module _ ⦃h : Hashes⦄ where
    unfoldable pub announce_feed : PeerNode → FeedProfile → Action (Unit {0})
    announce_feed peer profile = do
      check (ensure_compatible peer)
      check (ensure_network peer.network_id profile.network_id)
      check (ensure_current profile.compatibility)
      modify λ state.
          open_inbox peer
            (participate peer (add_roles (PeerRole.publisher ∷ [])) (list_feed profile state))
