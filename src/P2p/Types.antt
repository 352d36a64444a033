-- ===== src/P2p/Types.antt =====
-- The records of the network, and the node of a peer.
use agent_feed.Directory.Types.{DirectoryError, FeedAccessPolicy, FeedDirectoryEntry}
use agent_feed.Identity.{GithubOrgName, GithubTeamSlug, GithubUserId}
use agent_feed.Prelude.{
  Bool, BtreeMap, List, Ord, PartialEq, [], any_eq, eq_by, eq_by_rank, if◌then◌else◌, list_eq,
  list_ord, nat_eq, nat_ord, option_eq, option_ord, ord_by, ord_by_rank, pair_eq, pair_ord, refl, ℕ,
  ◌==◌, ◌≡◌,
}
use agent_feed.Proto.Capsule.{StoryCapsule}
use agent_feed.Proto.Compatibility.{ProtocolCompatibility, current}
use agent_feed.Proto.Profile.{FeedProfile}
use agent_feed.Proto.Signing.{Signed}
use agent_feed.Text.{Str}

pub data PeerRole : Type 0 where
  fabric : PeerRole
  publisher : PeerRole
  subscriber : PeerRole
  bootstrap : PeerRole
  relay : PeerRole
  browser_handoff : PeerRole
  rendezvous : PeerRole
  kad_provider : PeerRole

unfoldable pub role_rank : PeerRole → ℕ
role_rank PeerRole.fabric = 0
role_rank PeerRole.publisher = 1
role_rank PeerRole.subscriber = 2
role_rank PeerRole.bootstrap = 3
role_rank PeerRole.relay = 4
role_rank PeerRole.browser_handoff = 5
role_rank PeerRole.rendezvous = 6
role_rank PeerRole.kad_provider = 7

unfoldable pub role_of_rank : ℕ → PeerRole
role_of_rank n =
    if n == 0
    then PeerRole.fabric
    else if n == 1
    then PeerRole.publisher
    else if n == 2
    then PeerRole.subscriber
    else if n == 3
    then PeerRole.bootstrap
    else if n == 4
    then PeerRole.relay
    else if n == 5
    then PeerRole.browser_handoff
    else if n == 6
    then PeerRole.rendezvous
    else PeerRole.kad_provider

pub role_of_rank_left : (r : PeerRole) → role_of_rank (role_rank r) ≡ r
unfolding role_rank role_of_rank
role_of_rank_left PeerRole.fabric = refl
role_of_rank_left _ = refl

instance abbrev pub role_ord : Ord PeerRole
role_ord = ord_by_rank role_rank role_of_rank role_of_rank_left

instance abbrev pub role_eq : PartialEq PeerRole
role_eq = eq_by_rank role_rank role_of_rank role_of_rank_left

-- The derived orders of the names, each of the string it wraps.
instance abbrev pub org_ord : Ord GithubOrgName
org_ord = ord_by (λ (name : GithubOrgName). name.org) (λ s. record { org = s }) (λ name. refl)

instance abbrev pub team_ord : Ord GithubTeamSlug
team_ord = ord_by (λ (team : GithubTeamSlug). team.slug) (λ s. record { slug = s }) (λ team. refl)

instance abbrev pub org_eq : PartialEq GithubOrgName
org_eq = eq_by (λ (name : GithubOrgName). name.org) (λ s. record { org = s }) (λ name. refl)

instance abbrev pub team_eq : PartialEq GithubTeamSlug
team_eq = eq_by (λ (team : GithubTeamSlug). team.slug) (λ s. record { slug = s }) (λ team. refl)

pub data P2pError : Type 0 where
  state_poisoned : P2pError
  peer_not_found : Str → P2pError
  feed_not_found : Str → P2pError
  subscription_denied : Str → P2pError
  invalid_signature : P2pError
  invalid_story_topic : Str → P2pError
  incompatible_protocol : Str → P2pError
  data_plane_unavailable : Str → P2pError
  proto : P2pError
  directory : DirectoryError → P2pError

pub record PeerParticipation : Type 0 where
  pub network_id : Str
  pub peer_id : Str
  pub compatibility : ProtocolCompatibility
  pub principal : Str
  pub roles : List PeerRole
  pub browser_handoff_addrs : List Str

unfoldable pub is_subscriber : PeerParticipation → Bool
is_subscriber participation = any_eq participation.roles PeerRole.subscriber

-- The network that the node holds is the state that its methods take.
pub record PeerNode : Type 0 where
  pub network_id : Str
  pub peer_id : Str
  pub compatibility : ProtocolCompatibility
  pub principal : Str

-- `PeerParticipation::new`
unfoldable pub new_participation : PeerNode → PeerParticipation
new_participation peer = record {
  network_id = peer.network_id;
  peer_id = peer.peer_id;
  compatibility = peer.compatibility;
  principal = peer.principal;
  roles = [];
  browser_handoff_addrs = [];
}

-- `InMemoryNetwork::peer`, of a package version, and `peer_with_compatibility`
unfoldable pub peer_with_compatibility : Str → Str → Str → ProtocolCompatibility → PeerNode
peer_with_compatibility network_id peer_id principal compatibility = record {
  network_id = network_id;
  peer_id = peer_id;
  compatibility = compatibility;
  principal = principal;
}

unfoldable pub new_peer : Str → Str → Str → Str → PeerNode
new_peer version network_id peer_id principal =
    peer_with_compatibility network_id peer_id principal (current version)

pub record PeerOrgAccess : Type 0 where
  pub org : GithubOrgName
  pub teams : List GithubTeamSlug

-- A `VecDeque` of signed capsules.
abbrev pub Capsules : Type 0
Capsules = List (Signed StoryCapsule)

abbrev pub EntryMap : Type 0
EntryMap = BtreeMap Str FeedDirectoryEntry

pub record NetworkState : Type 0 where
  pub feeds : BtreeMap Str FeedProfile
  pub directory : BtreeMap GithubUserId EntryMap
  pub org_directory : BtreeMap GithubOrgName EntryMap
  pub team_directory : BtreeMap (GithubOrgName × GithubTeamSlug) EntryMap
  pub participants : BtreeMap Str PeerParticipation
  pub topics : BtreeMap Str Str
  pub feed_access : BtreeMap Str FeedAccessPolicy
  pub org_access : BtreeMap Str PeerOrgAccess
  pub subscriptions : BtreeMap Str (List Str)
  pub grants : List (Str × Str)
  pub inboxes : BtreeMap Str Capsules
  pub history : BtreeMap Str Capsules
  pub history_capacity : ℕ

unfoldable pub default_network : NetworkState
default_network = record {
  feeds = [];
  directory = [];
  org_directory = [];
  team_directory = [];
  participants = [];
  topics = [];
  feed_access = [];
  org_access = [];
  subscriptions = [];
  grants = [];
  inboxes = [];
  history = [];
  history_capacity = 64;
}
