-- ===== src/P2p/Access.antt =====
-- The tests of the network state: who may cache an entry, follow a feed and receive its capsules.
use agent_feed.Directory.Entry.{same_visibility}
use agent_feed.Directory.Types.{FeedAccessPolicy, FeedDirectoryEntry}
use agent_feed.Identity.{GithubOrgName, GithubTeamSlug}
use agent_feed.P2p.Types.{
  EntryMap, NetworkState, PeerNode, PeerOrgAccess, org_eq, org_ord, role_eq, role_ord, team_eq,
  team_ord,
}
use agent_feed.Prelude.{
  Bool, BtreeMap, Ord, [], any_eq, false, get, if◌then◌else◌, insert, is_some_and, list_eq,
  list_ord, map_or, nat_eq, nat_ord, option_eq, option_ord, pair_eq, pair_ord, true, update, ◌&&◌,
  ◌==◌,
}
use agent_feed.Proto.{FeedVisibility}
use agent_feed.Text.{Str}

-- `org_access.get(peer_id)` holds the organisation.
unfoldable pub is_certified : NetworkState → Str → GithubOrgName → Bool
is_certified state peer_id name =
    is_some_and (get state.org_access peer_id) (λ access. access.org == name)

-- It holds the organisation and the team.
unfoldable pub is_team_certified : NetworkState → Str → GithubOrgName → GithubTeamSlug → Bool
is_team_certified state peer_id name team =
    is_some_and (get state.org_access peer_id)
      (λ access. access.org == name && any_eq access.teams team)

unfoldable pub peer_can_cache_directory_entry : NetworkState → Str → FeedDirectoryEntry → Bool
peer_can_cache_directory_entry state peer_id entry = elim entry.visibility [
  | FeedVisibility.public ↦ true
  | FeedVisibility.github_org ↦ map_or entry.access.github_org false (is_certified state peer_id)
  | FeedVisibility.github_team ↦
      map_or entry.access.github_org false
        λ name. map_or entry.access.github_team false (is_team_certified state peer_id name)
  | _ ↦ false
]

-- The last match of `can_follow` and of `can_receive_peer`.
unfoldable pub policy_admits : FeedVisibility → FeedAccessPolicy → PeerOrgAccess → Bool
policy_admits FeedVisibility.github_org access peer_access =
    is_some_and access.github_org (λ name. name == peer_access.org)
policy_admits FeedVisibility.github_team access peer_access =
    is_some_and access.github_org (λ name. name == peer_access.org)
    && is_some_and access.github_team (any_eq peer_access.teams)
policy_admits _ access peer_access = false

unfoldable pub can_follow : NetworkState → PeerNode → Str → FeedVisibility → Bool
can_follow state peer feed_id visibility =
    if same_visibility visibility FeedVisibility.public
    then true
    else if any_eq state.grants (feed_id, peer.peer_id)
    then true
    else map_or (get state.feed_access feed_id) false
        λ access. map_or (get state.org_access peer.peer_id) false (policy_admits visibility access)

unfoldable pub can_receive_peer : NetworkState → Str → Str → FeedVisibility → Bool
can_receive_peer state feed_id peer_id visibility =
    if same_visibility visibility FeedVisibility.public
    then true
    else if any_eq state.grants (feed_id, peer_id)
    then true
    else map_or (get state.feed_access feed_id) false
        λ access. map_or (get state.org_access peer_id) false (policy_admits visibility access)

-- The two insertions of `index_directory_entry` into a map of maps.
unfoldable pub index_under :
    {K : Type 0} ⦃o : Ord K⦄ → BtreeMap K EntryMap → K → FeedDirectoryEntry → BtreeMap K EntryMap
index_under index key entry = update index key [] (λ entries. insert entries entry.feed_id entry)

unfoldable pub index_directory_entry : FeedDirectoryEntry → NetworkState → NetworkState
index_directory_entry entry state = record state {
  feed_access = insert state.feed_access entry.feed_id entry.access;
  directory = index_under state.directory entry.owner.github_user_id entry;
  org_directory =
      map_or entry.access.github_org state.org_directory
        (λ name. index_under state.org_directory name entry);
  team_directory = map_or entry.access.github_org state.team_directory λ name.
      map_or entry.access.github_team state.team_directory
        (λ team. index_under state.team_directory (name, team) entry);
}
