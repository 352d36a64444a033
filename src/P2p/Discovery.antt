-- ===== src/P2p/Discovery.antt =====
-- The directory of the network: announcing and caching an entry, and discovering entries.
pub mod Laws
use agent_feed.Directory.Entry.{access_matches_visibility, verify_entry}
use agent_feed.Directory.Types.{DirectoryError, FeedDirectoryEntry}
use agent_feed.Identity.{GithubOrgName, GithubTeamSlug, GithubUserId}
use agent_feed.P2p.Access.{
  index_directory_entry, is_certified, is_team_certified, peer_can_cache_directory_entry,
}
use agent_feed.P2p.Fabric.{
  add_roles, ensure_compatible, ensure_current, ensure_network, open_inbox, participate,
}
use agent_feed.P2p.Monad.{Action, Guard, check, gets, modify, refuse_if, ◌>>=◌, ◌>>◌}
use agent_feed.P2p.Types.{
  EntryMap, P2pError, PeerNode, PeerRole, org_eq, org_ord, role_eq, role_ord, team_eq, team_ord,
}
use agent_feed.Prelude.{
  List, Option, [], filter, get, list_eq, list_ord, map, map_or, nat_eq, nat_ord, not, option_eq,
  option_ord, or_else, pair_eq, pair_ord, some, ◌++◌, ◌==◌, ◌∷◌,
}
use agent_feed.Proto.Signing.{Hashes, Serialize}
use agent_feed.Text.{Str, chars}

abbrev pub entry_values : EntryMap → List FeedDirectoryEntry
entry_values entries = map (λ (e : Str × FeedDirectoryEntry). e.1) entries

module _ (version : Str) where
  module _ ⦃h : Hashes⦄ ⦃s : Serialize FeedDirectoryEntry⦄ where
    -- The signature and the access policy of an entry.
    unfoldable pub entry_error : FeedDirectoryEntry → Option P2pError
    entry_error entry =
        map_or (verify_entry entry) (some (P2pError.directory DirectoryError.serialize)) λ verified.
          or_else (refuse_if (not verified) (P2pError.directory DirectoryError.invalid_signature)) (
            refuse_if (not (access_matches_visibility entry))
              (P2pError.directory DirectoryError.access_policy_mismatch))

    -- The guards that `announce_directory_entry` and `cache_directory_entry` begin with.
    unfoldable pub admit_entry : PeerNode → FeedDirectoryEntry → Guard
    admit_entry peer entry state = or_else (ensure_compatible version peer) (
        or_else (ensure_network version peer.network_id entry.network_id) (
          or_else (ensure_current version entry.compatibility) (
            or_else (entry_error entry) (
              refuse_if (not (peer_can_cache_directory_entry state peer.peer_id entry))
                (P2pError.subscription_denied entry.feed_id)))))

    unfoldable pub announce_directory_entry : PeerNode → FeedDirectoryEntry → Action (Unit {0})
    announce_directory_entry peer entry = do
      admit_entry peer entry
      check (
          refuse_if (not (entry.peer_id == peer.peer_id))
            (P2pError.subscription_denied entry.feed_id))
      modify λ state.
          participate peer (add_roles (PeerRole.kad_provider ∷ []))
            (index_directory_entry entry state)

    unfoldable pub cache_directory_entry : PeerNode → FeedDirectoryEntry → Action (Unit {0})
    cache_directory_entry peer entry = do
      admit_entry peer entry
      modify λ state. open_inbox peer (
          participate peer (add_roles (PeerRole.fabric ∷ PeerRole.kad_provider ∷ []))
            (index_directory_entry entry state))

  unfoldable pub discover_github_user : PeerNode → GithubUserId → Action (List FeedDirectoryEntry)
  discover_github_user peer id = do
    check (ensure_compatible version peer)
    gets λ state.
        map_or (get state.directory id) [] λ entries.
          filter (peer_can_cache_directory_entry state peer.peer_id) (entry_values entries)

  unfoldable pub discover_github_org : PeerNode → GithubOrgName → Action (List FeedDirectoryEntry)
  discover_github_org peer name = do
    check (ensure_compatible version peer)
    λ state.
        refuse_if (not (is_certified state peer.peer_id name))
          (P2pError.subscription_denied (chars "github-org:" ++ name.org))
    gets λ state. map_or (get state.org_directory name) [] entry_values

  unfoldable pub discover_github_team :
      PeerNode → GithubOrgName → GithubTeamSlug → Action (List FeedDirectoryEntry)
  discover_github_team peer name team = do
    check (ensure_compatible version peer)
    λ state.
        refuse_if (not (is_team_certified state peer.peer_id name team)) (
          P2pError.subscription_denied (chars "github-team:" ++ name.org ++ chars "/" ++ team.slug))
    gets λ state. map_or (get state.team_directory (name, team)) [] entry_values
